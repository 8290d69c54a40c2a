-- ===== src/Nats/Driver/Expiry.antt =====
-- Reading a key whose lease is over.
use thesis_code.Prelude.{
  Bytes, ℤ, pos, ltb_ℤ, Bool, true, false, inl, inr, Option, none, some, Result, Ends, Ends-weaken,
  Ends-bind, ◌≡◌, ◌⊎◌, refl, ◌∙◌,
}
use thesis_code.Server.Types.{Error, KeyValue}
use thesis_code.Nats.Bucket.{Entry}
use thesis_code.Nats.Bucket.Contract.{View, Keeps}
use thesis_code.Nats.Driver.{
  JsValue, Driver, Found, int64_of, is_after, lease_duration, is_key_expired, read_entry,
  compact_revision, current_revision, get, get_kv,
}
use thesis_code.Nats.Driver.Contract.{
  DriverLaws, stamped, IsValue, Holds, Stays, Becomes, has_lease,
}
use thesis_code.Nats.Driver.Reads.{
  Keeps-trans, Keeps-Holds, Keeps-Stays, decode_lem, compact_revision_lem, current_revision_lem,
}
use thesis_code.Nats.Driver.Writing.{Sets-Becomes, Becomes-after, Stays-after}

module _ {S : Type 0} (d : Driver S) (v : View S) (IsKey : Bytes → Type 0)
    (laws : DriverLaws d v IsKey) (e : Entry) where
  abbrev pub expiring : JsValue
  expiring = stamped (d.unmarshal e.value).0 (int64_of e.revision)

  abbrev pub lease_of : Option KeyValue → ℤ
  lease_of none = pos 0
  lease_of (some kv) = kv.lease

  -- The clock shows a time after the lease of the entry, in every state.
  abbrev pub IsLate : Type 0
  IsLate =
      (s : S)
      → Ends
          (λ a t.
            (is_after a e.created (lease_duration (lease_of expiring.kv)) ≡ true)
            × Keeps v IsKey s t)
          (d.now s)

  -- The key holds nothing now, or nothing changed.
  abbrev pub Gone : S → S → Type 0
  Gone s t = Becomes d v IsKey e.key none s t ⊎ Stays d v IsKey s t

  expired_lem :
      (kv : KeyValue) (s : S)
      → IsLate
      → Holds d v IsKey s
      → IsKey e.key
      → expiring.kv ≡ some kv
      → kv.key ≡ e.key
      → ltb_ℤ (pos 0) kv.lease ≡ true
      → Ends (λ a t. (a ≡ true) × Gone s t) (is_key_expired d e.created expiring s)
  unfolding is_key_expired
  expired_lem kv s late h g has same leased = Ends-bind _ _ (d.now s) _ (late s) λ a t p.
      rw (has, leased, rw has at p.0, same)
        (Ends-bind _ _ (d.kv.delete e.key t) _ (laws.bucket.delete_lem e.key t g) λ b u q. elim q [
          | inl (_, set) ↦ (
            refl,
            inl (
                Becomes-after d v IsKey laws e.key none s t u p.1 (
                  Sets-Becomes d v IsKey laws e.key none t u (Keeps-Holds d v IsKey laws s t p.1 h)
                    (λ e' n. absurd (cc)) set)),
          )
          | inr (_, _, k) ↦ (
            refl,
            inr (Keeps-Stays d v IsKey laws s u (Keeps-trans d v IsKey laws s t u p.1 k) h),
          )
        ])

  Gone-after : (s t u : S) → Keeps v IsKey s t → Gone t u → Gone s u
  Gone-after s t u k (inl b) = inl (Becomes-after d v IsKey laws e.key none s t u k b)
  Gone-after s t u k (inr b) = inr (Stays-after d v IsKey laws s t u k b)

  abbrev Lost : S → Found → S → Type 0
  Lost s a t = (a ≡ (pos 0, none, some Error.key_not_found)) × Gone s t

  read_expired :
      (b : Bool) (s : S)
      → IsLate
      → Holds d v IsKey s
      → IsKey e.key
      → IsValue d v IsKey e.key e
      → has_lease (some expiring) ≡ true
      → expiring.delete ≡ false
      → Ends (Lost s) (read_entry d b (Result.ok e) s)
  unfolding is_key_expired
  read_expired b s late h g valid leased live =
      let (x, kv, full, json, has, same) = valid in
      let kv' = record kv { mod_revision = int64_of e.revision } in
      let is_some : expiring.kv ≡ some kv' = rw (json, has) refl in
      rw (decode_lem d v IsKey laws e.key e s valid, live)
        (Ends-bind (λ a t. (a ≡ true) × Gone s t) (Lost s) (is_key_expired d e.created expiring s) _
          (expired_lem kv' s late h g is_some same (rw is_some at leased))
          λ a t p. rw p.0 (refl, p.1))

  get_expired :
      (b : Bool) (s : S)
      → IsLate
      → Holds d v IsKey s
      → IsKey e.key
      → v.newest s e.key ≡ some e
      → has_lease (some expiring) ≡ true
      → expiring.delete ≡ false
      → Ends (Lost s) (get d e.key (pos 0) b s)
  unfolding get
  get_expired b s late h g new leased live =
      Ends-bind _ (Lost s) (compact_revision d s) _ (compact_revision_lem d v IsKey laws s) λ a t p.
        rw p.1 (
          Ends-bind _ (Lost s) (d.kv.get e.key t) _ (laws.bucket.get_lem e.key t g) λ c u q.
            let k = Keeps-trans d v IsKey laws s t u p.2 q.1 in
            rw (q.0, p.2.1 e.key g, new)
              (Ends-weaken (Lost u) (Lost s) (read_entry d b (Result.ok e) u)
                (read_expired b u late (Keeps-Holds d v IsKey laws s u k h) g (h e.key g e new)
                  leased live)
                λ f w r. (r.0, Gone-after s u w k r.1)))

  -- Reading a key at revision 0 whose value has a lease, at a time after the end of it, returns no
  -- value, with the last sequence number of the bucket and without an error. Afterwards either the
  -- key holds nothing under a larger last sequence number, and every other key holds what it did, or
  -- the bucket refused the deletion and nothing changed.
  pub get_kv_expired :
      (range_end : Bytes) (limit : ℤ) (s : S)
      → IsLate
      → Holds d v IsKey s
      → IsKey e.key
      → v.newest s e.key ≡ some e
      → has_lease (some expiring) ≡ true
      → expiring.delete ≡ false
      → Ends
          (λ a t. (a ≡ (int64_of (v.seq s), none, none)) × Gone s t)
          (get_kv d e.key range_end limit (pos 0) s)
  unfolding get_kv
  get_kv_expired range_end limit s late h g new leased live =
      Ends-bind _ _ (current_revision d s) _ (current_revision_lem d v IsKey laws s) λ a t p.
        rw p.0 (
          Ends-bind (Lost t) _ (get d e.key (pos 0) false t) _
            (get_expired false t late (Keeps-Holds d v IsKey laws s t p.1 h) g (p.1.1 e.key g ∙ new)
              leased live)
            λ c u q. (rw q.0 refl, Gone-after s t u p.1 q.1))
