-- ===== src/Nats/Driver/Updates.antt =====
-- Updating a key at a revision through the driver, over any bucket that keeps the contract.
use thesis_code.Prelude.{
  Bytes, ℤ, pos, ◌==ℤ◌, true, false, Bool-cases, inl, inr, Option, none, some, Ends, Ends-bind,
  Ends-weaken, ◌≡◌, ◌⊎◌, refl, sym, if◌then◌else◌,
}
use mathlib.Core.Path.{subst}
use thesis_code.Server.Types.{Error, KeyValue}
use thesis_code.LogStructured.{KvResult}
use thesis_code.Nats.Bucket.{Entry}
use thesis_code.Nats.Bucket.Contract.{View, Keeps}
use thesis_code.Nats.Driver.{
  JsValue, Driver, int64_of, with_mod_revision, new_kv, update_value, get, update_after,
  update_stored, update,
}
use thesis_code.Nats.Driver.Contract.{
  DriverLaws, stamped, held_of, held, IsValue, Holds, Stays, Becomes, has_lease,
}
use thesis_code.Nats.Driver.Reads.{seen, get_lem, live_of, Keeps-trans, Keeps-Holds, Keeps-Stays}
use thesis_code.Nats.Driver.Writing.{
  in_folder_lem, Written-Wrote, Becomes-after, Becomes-then, Stays-after, Stays-then,
}

module _ {S : Type 0} (d : Driver S) (v : View S) (IsKey : Bytes → Type 0)
    (laws : DriverLaws d v IsKey) (key value : Bytes) (revision lease : ℤ) where
  abbrev pub change : KeyValue → JsValue
  change old = update_value key value lease old.mod_revision old

  -- The new value: the revision of the creation stays, or is that of the old value if it was 0.
  abbrev pub changed_kv : KeyValue → ℤ → KeyValue
  changed_kv old rev =
      with_mod_revision
        (new_kv key
          (if old.create_revision ==ℤ pos 0 then old.mod_revision else old.create_revision) value
          lease)
        rev

  abbrev pub Updated : S → KeyValue → KvResult → S → Type 0
  Updated s old a t =
      ((a ≡ (int64_of (v.seq t), some (changed_kv old (int64_of (v.seq t))), true, none))
        × Becomes d v IsKey key (some (stamped (change old) (int64_of (v.seq t)))) s t)
      ⊎ ((e : Error) × (a ≡ (pos 0, none, false, some e)) × Stays d v IsKey s t)

  abbrev pub UpdateEnds : Option KeyValue → S → KvResult → S → Type 0
  UpdateEnds none s a t = (a ≡ (pos 0, none, false, none)) × Stays d v IsKey s t
  UpdateEnds (some old) s a t =
      if old.mod_revision ==ℤ revision
      then Updated s old a t
      else (a ≡ (old.mod_revision, some old, false, none)) × Stays d v IsKey s t

  UpdateEnds-then :
      (o : Option KeyValue) (s : S) (a : KvResult) (t u : S)
      → UpdateEnds o s a t
      → Keeps v IsKey t u
      → UpdateEnds o s a u
  UpdateEnds-then none s a t u (e, b) k = (e, Stays-then d v IsKey laws s t u b k)
  UpdateEnds-then (some old) s a t u p k = elim (Bool-cases (old.mod_revision ==ℤ revision)) [
    | inl y ↦ rw y (updated_then (rw y at p))
    | inr y ↦ let (e, b) = rw y at p in rw y (e, Stays-then d v IsKey laws s t u b k)
  ]
    where
      updated_then : Updated s old a t → Updated s old a u
      updated_then (inl (e, b)) = inl (
        rw k.0 e,
        subst (λ n. Becomes d v IsKey key (some (stamped (change old) (int64_of n))) s u) (sym k.0)
            (Becomes-then d v IsKey laws key _ s t u b k),
      )
      updated_then (inr (e, f, b)) = inr (e, f, Stays-then d v IsKey laws s t u b k)

  update_stored_lem :
      (old : KeyValue) (s t : S)
      → IsKey key
      → Holds d v IsKey s
      → Keeps v IsKey s t
      → Ends (Updated s old) (update_stored d key (change old) t)
  update_stored_lem old s t g h k =
      let x = change old in
      let kv = changed_kv old (pos 0) in
      let (json, made, full, back) = laws.json x kv refl g in
      rw made (
        Ends-bind _ _ (d.kv.put key json t) _ (laws.bucket.put_lem key json t g) λ a u p.
          elim (Written-Wrote d v IsKey laws key json x kv t a u refl refl full back
            (Keeps-Holds d v IsKey laws s t k h) p) [
              | inl (e, b) ↦ rw e (inl (refl, Becomes-after d v IsKey laws key _ s t u k b))
              | inr (e, f, b) ↦ rw f (inr (e, refl, Stays-after d v IsKey laws s t u k b))
            ])

  update_cases :
      (o : Option Entry) (s t : S)
      → ((e : Entry) → o ≡ some e → IsValue d v IsKey key e)
      → IsKey key
      → Holds d v IsKey s
      → Keeps v IsKey s t
      → Ends
          (UpdateEnds (live_of d v IsKey laws (held_of d v IsKey o)) s)
          (update_after d key value revision lease (seen false (held_of d v IsKey o)) t)
  update_cases none s t valid g h k = (refl, Keeps-Stays d v IsKey laws s t k h)
  update_cases (some e) s t valid g h k =
      let (x, kv, full, back, has, same) = valid e refl in
      let old = with_mod_revision kv (int64_of e.revision) in
      elim (Bool-cases x.delete) [
        | inl y ↦ rw (back, has, y) (refl, Keeps-Stays d v IsKey laws s t k h)
        | inr y ↦ elim (Bool-cases (int64_of e.revision ==ℤ revision)) [
          | inl z ↦
              rw (back, has, y, z)
                (Ends-weaken (Updated s old) (UpdateEnds (some old) s) _
                  (update_stored_lem old s t g h k) λ a u q. rw z q)
          | inr z ↦ rw (back, has, y, z) (rw z (refl, Keeps-Stays d v IsKey laws s t k h))
        ]
      ]

  -- Updating a key without a lease at a revision. A key without a live value is not updated, and the
  -- result has the revision 0 and no value. If the revision of the live value is not the given one,
  -- the result is not updated and shows that value, and nothing changes. Otherwise either the key
  -- holds the new value under the new, larger last sequence number of the bucket, which is the
  -- result, and every other key holds what it did; or there is an error and nothing changes. Every
  -- entry is still the JSON of a value of its key.
  pub update_kv_lem :
      (s : S)
      → IsKey key
      → Holds d v IsKey s
      → has_lease (held d v IsKey s key) ≡ false
      → Ends
          (UpdateEnds (live_of d v IsKey laws (held d v IsKey s key)) s)
          (update d key value revision lease s)
  unfolding update
  update_kv_lem s g h free =
      let ends = UpdateEnds (live_of d v IsKey laws (held d v IsKey s key)) s in
      in_folder_lem d v IsKey laws ends key _ s
        (λ t k.
          Ends-bind _ _ (get d key (pos 0) false t) _
            (get_lem d v IsKey laws key false t g (Keeps-Holds d v IsKey laws s t k h)
              (rw (k.1 key g) free))
            λ a u q.
              let j = Keeps-trans d v IsKey laws s t u k q.1 in
              rw (q.0, k.1 key g) (update_cases (v.newest s key) s u (h key g) g h j))
        (λ a t u p k. UpdateEnds-then (live_of d v IsKey laws (held d v IsKey s key)) s a t u p k)
