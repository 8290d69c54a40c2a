-- ===== src/Nats/Driver/Deletes.antt =====
-- Deleting a key through the driver, over any bucket that keeps the contract.
use thesis_code.Prelude.{
  ℕ, ◌<◌, Bytes, bytes_eq, ℤ, pos, ◌==ℤ◌, Bool, true, false, Bool-cases, not, ◌&&◌, inl, inr,
  Option, none, some, Ends, Ends-bind, Ends-weaken, ◌≡◌, ◌⊎◌, refl, ◌∙◌, arith, if◌then◌else◌,
}
use thesis_code.Server.Types.{KeyValue}
use thesis_code.LogStructured.{KvResult}
use thesis_code.Nats.Bucket.{Entry}
use thesis_code.Nats.Bucket.Contract.{View, Keeps}
use thesis_code.Nats.Driver.{
  JsValue, Driver, int64_of, with_mod_revision, delete_value, get, delete_after, delete_event,
  delete,
}
use thesis_code.Nats.Driver.Contract.{
  DriverLaws, stamped, held_of, held, IsValue, Holds, Stays, Becomes, has_lease,
}
use thesis_code.Nats.Driver.Reads.{
  kv_revision, seen, get_lem, Keeps-trans, Keeps-Holds, Keeps-Stays,
}
use thesis_code.Nats.Driver.Writing.{
  in_folder_lem, Sets-Becomes, Written-Wrote, Becomes-after, Becomes-then, Stays-after, Stays-then,
}

module _ {S : Type 0} (d : Driver S) (v : View S) (IsKey : Bytes → Type 0)
    (laws : DriverLaws d v IsKey) (key : Bytes) (revision : ℤ) where
  -- The key's value is gone, and the result has the number of the event before the mark.
  abbrev pub Removed : S → KeyValue → KvResult → S → Type 0
  Removed s old a t =
      (n : ℕ) × (a ≡ (int64_of n, some old, true, none))
      × (v.seq s < n)
      × (n < v.seq t)
      × Becomes d v IsKey key none s t

  -- The event was not written, or the mark was not: the key then holds the event.
  abbrev pub Unmarked : S → KeyValue → KvResult → S → Type 0
  Unmarked s old a t =
      (a ≡ (old.mod_revision, some old, false, none))
      × (Stays d v IsKey s t
          ⊎ ((rev : ℤ) × Becomes d v IsKey key
                (some (stamped (delete_value old.mod_revision (some old)) rev)) s t))

  abbrev pub Attempted : S → KeyValue → KvResult → S → Type 0
  Attempted s old a t = Removed s old a t ⊎ Unmarked s old a t

  abbrev pub is_mismatch : KeyValue → Bool
  is_mismatch old = not (revision ==ℤ pos 0) && not (old.mod_revision ==ℤ revision)

  abbrev pub LiveEnds : Option KeyValue → S → KvResult → S → Type 0
  LiveEnds none s a t = ⊥
  LiveEnds (some old) s a t =
      if is_mismatch old
      then (a ≡ (old.mod_revision, some old, false, none)) × Stays d v IsKey s t
      else Attempted s old a t

  abbrev pub DeleteEnds : Option JsValue → S → KvResult → S → Type 0
  DeleteEnds none s a t = (a ≡ (pos 0, none, true, none)) × Stays d v IsKey s t
  DeleteEnds (some x) s a t =
      if x.delete
      then (a ≡ (kv_revision x.kv, x.kv, true, none)) × Stays d v IsKey s t
      else LiveEnds x.kv s a t

  LiveEnds-then :
      (o : Option KeyValue) (s : S) (a : KvResult) (t u : S)
      → LiveEnds o s a t
      → Keeps v IsKey t u
      → LiveEnds o s a u
  LiveEnds-then none s a t u p k = p
  LiveEnds-then (some old) s a t u p k = elim (Bool-cases (is_mismatch old)) [
    | inl y ↦ let (e, b) = rw y at p in rw y (e, Stays-then d v IsKey laws s t u b k)
    | inr y ↦ rw y (live_then (rw y at p))
  ]
    where
      live_then : Attempted s old a t → Attempted s old a u
      live_then (inl (n, e, lo, hi, b)) =
          inl (n, e, lo, omega (arith, k.0), Becomes-then d v IsKey laws key none s t u b k)
      live_then (inr (e, inl b)) = inr (e, inl (Stays-then d v IsKey laws s t u b k))
      live_then (inr (e, inr (rev, b))) =
          inr (e, inr (rev, Becomes-then d v IsKey laws key _ s t u b k))

  DeleteEnds-then :
      (o : Option JsValue) (s : S) (a : KvResult) (t u : S)
      → DeleteEnds o s a t
      → Keeps v IsKey t u
      → DeleteEnds o s a u
  DeleteEnds-then none s a t u (e, b) k = (e, Stays-then d v IsKey laws s t u b k)
  DeleteEnds-then (some x) s a t u p k = elim (Bool-cases x.delete) [
    | inl y ↦ let (e, b) = rw y at p in rw y (e, Stays-then d v IsKey laws s t u b k)
    | inr y ↦ rw y (LiveEnds-then x.kv s a t u (rw y at p) k)
  ]

  -- Two writes to one key are one.
  Becomes-trans :
      (x y : Option JsValue) (s t u : S)
      → Becomes d v IsKey key x s t
      → Becomes d v IsKey key y t u
      → Becomes d v IsKey key y s u
  Becomes-trans x y s t u (lt, set, h) (lt', set', h') = (
    omega arith,
    λ j g. elim (Bool-cases (bytes_eq key j)) [
      | inl e ↦ set' j g ∙ rw e refl
      | inr e ↦ set' j g ∙ rw e (rw e at (set j g))
    ],
    h',
  )

  delete_event_lem :
      (old : KeyValue) (s t : S)
      → old.key ≡ key
      → IsKey key
      → Holds d v IsKey s
      → Keeps v IsKey s t
      → Ends (Attempted s old) (delete_event d key old.mod_revision (some old) t)
  delete_event_lem old s t same g h k =
      let x = delete_value old.mod_revision (some old) in
      let (json, made, full, back) = laws.json x old refl (rw same g) in
      rw made (
        Ends-bind _ _ (d.kv.put key json t) _ (laws.bucket.put_lem key json t g) λ a u p.
          elim (Written-Wrote d v IsKey laws key json x old t a u refl same full back
            (Keeps-Holds d v IsKey laws s t k h) p) [
              | inl (e, b) ↦
                  let b' = Becomes-after d v IsKey laws key _ s t u k b in
                  rw e (
                    Ends-bind _ _ (d.kv.delete key u) _ (laws.bucket.delete_lem key u g) λ c w q.
                      elim q [
                        | inl (f, set) ↦
                            let gone =
                              Sets-Becomes d v IsKey laws key none u w b'.2 (λ e' n. absurd (cc))
                                set in
                            rw f (
                              inl (v.seq u, refl, b'.0, gone.0, Becomes-trans _ none s u w b' gone))
                        | inr (e', f, j) ↦ rw f (
                            inr (
                              refl,
                              inr (
                                int64_of (v.seq u),
                                Becomes-then d v IsKey laws key _ s u w b' j,
                              ),
                            ))
                      ])
              | inr (e, f, b) ↦ rw f (inr (refl, inl (Stays-after d v IsKey laws s t u k b)))
            ])

  delete_cases :
      (o : Option Entry) (s t : S)
      → ((e : Entry) → o ≡ some e → IsValue d v IsKey key e)
      → IsKey key
      → Holds d v IsKey s
      → Keeps v IsKey s t
      → Ends
          (DeleteEnds (held_of d v IsKey o) s)
          (delete_after d key revision (seen true (held_of d v IsKey o)) t)
  delete_cases none s t valid g h k = (refl, Keeps-Stays d v IsKey laws s t k h)
  delete_cases (some e) s t valid g h k =
      let (x, kv, full, back, has, same) = valid e refl in
      let old = with_mod_revision kv (int64_of e.revision) in
      elim (Bool-cases x.delete) [
        | inl y ↦ rw (back, has, y) (refl, Keeps-Stays d v IsKey laws s t k h)
        | inr y ↦ elim (Bool-cases (revision ==ℤ pos 0)) [
          | inl z ↦
              rw (back, has, y, z)
                (Ends-weaken (Attempted s old) (LiveEnds (some old) s) _
                  (delete_event_lem old s t same g h k) λ a u q. rw z q)
          | inr z ↦ elim (Bool-cases (int64_of e.revision ==ℤ revision)) [
            | inl w ↦
                rw (back, has, y, z, w)
                  (Ends-weaken (Attempted s old) (LiveEnds (some old) s) _
                    (delete_event_lem old s t same g h k) λ a u q. rw (z, w) q)
            | inr w ↦ rw (back, has, y, z, w) (rw (z, w) (refl, Keeps-Stays d v IsKey laws s t k h))
          ]
        ]
      ]

  -- Deleting a key without a lease, at a revision or at revision 0 for any. A key that holds nothing
  -- or a deletion counts as deleted, and nothing changes. If the revision of its value is not the
  -- given one, the result is not deleted, shows the value, and nothing changes. Otherwise the result
  -- shows the old value; either it is deleted, the key holds nothing, the result's revision lies
  -- above the old and below the new last sequence number of the bucket, and every other key holds
  -- what it did; or it is not deleted, and nothing changes or the key holds the event of its
  -- deletion. There is no error in any case, and every entry is still the JSON of a value of its
  -- key.
  pub delete_kv_lem :
      (s : S)
      → IsKey key
      → Holds d v IsKey s
      → has_lease (held d v IsKey s key) ≡ false
      → Ends (DeleteEnds (held d v IsKey s key) s) (delete d key revision s)
  unfolding delete
  delete_kv_lem s g h free =
      let ends = DeleteEnds (held d v IsKey s key) s in
      in_folder_lem d v IsKey laws ends key _ s
        (λ t k.
          Ends-bind _ _ (get d key (pos 0) true t) _
            (get_lem d v IsKey laws key true t g (Keeps-Holds d v IsKey laws s t k h)
              (rw (k.1 key g) free))
            λ a u q.
              let j = Keeps-trans d v IsKey laws s t u k q.1 in
              rw (q.0, k.1 key g) (delete_cases (v.newest s key) s u (h key g) g h j))
        (λ a t u p k. DeleteEnds-then (held d v IsKey s key) s a t u p k)
