-- ===== src/Nats/Watching/Previous.antt =====
-- The previous value in the event of a creation.
use thesis_code.Prelude.{
  Bytes, ℤ, pos, ltb_ℤ, true, false, [], ◌∷◌, some, Ends, Ends-bind, ◌≡◌, refl,
}
use thesis_code.Nats.Bucket.{Entry}
use thesis_code.Nats.Bucket.Contract.{View}
use thesis_code.Nats.Driver.{JsValue, Driver, int64_of, get}
use thesis_code.Nats.Driver.Contract.{DriverLaws, stamped, held, Holds, has_lease}
use thesis_code.Nats.Driver.Reads.{get_lem, decode_lem}
use thesis_code.Nats.Watching.{update_events, event_of}

module _ {S : Type 0} (d : Driver S) (v : View S) (IsKey : Bytes → Type 0)
    (laws : DriverLaws d v IsKey) where
  abbrev pub newest_value : Entry → JsValue
  newest_value e = stamped (d.unmarshal e.value).0 (int64_of e.revision)

  -- If the newest entry of a key is after the watched revision and holds a value without a lease
  -- that is no deletion and has the previous revision 0, as that of a creation, the watch sends its
  -- event with the value itself as the previous value.
  pub created_prev_self :
      (revision : ℤ) (e : Entry) (s : S)
      → IsKey e.key
      → Holds d v IsKey s
      → v.newest s e.key ≡ some e
      → has_lease (held d v IsKey s e.key) ≡ false
      → ltb_ℤ revision (int64_of e.revision) ≡ true
      → (newest_value e).delete ≡ false
      → (newest_value e).prev_revision ≡ pos 0
      → Ends
          (λ a t. a ≡ (event_of (newest_value e) (newest_value e).kv ∷ []) ∷ [])
          (update_events d revision e s)
  created_prev_self revision e s g h new free after live prev =
      rw (after, decode_lem d v IsKey laws e.key e s (h e.key g e new), prev)
        (Ends-bind _ _ (get d e.key (pos 0) false s) _
          (get_lem d v IsKey laws e.key false s g h free) λ a t p. rw (p.0, new, live) refl)
