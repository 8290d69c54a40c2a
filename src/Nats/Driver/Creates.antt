-- ===== src/Nats/Driver/Creates.antt =====
-- Creating a key through the driver, over any bucket that keeps the contract.
use thesis_code.Prelude.{
  ℕ, Bytes, ℤ, pos, true, false, Bool-cases, inl, inr, Option, none, some, Result, Exec, Ends,
  Ends-bind, ◌≡◌, ◌⊎◌, refl, sym, if◌then◌else◌,
}
use mathlib.Core.Path.{subst}
use thesis_code.Server.Types.{Error, Err}
use thesis_code.Nats.Bucket.{Entry}
use thesis_code.Nats.Bucket.Contract.{View, Keeps, Written}
use thesis_code.Nats.Driver.{
  JsValue, Driver, int64_of, new_kv, create_value, get, store, create_after, create,
}
use thesis_code.Nats.Driver.Contract.{
  DriverLaws, stamped, held_of, held, IsValue, Holds, Stays, Becomes, has_lease,
}
use thesis_code.Nats.Driver.Reads.{
  kv_revision, seen, get_lem, Keeps-trans, Keeps-Holds, Keeps-Stays,
}
use thesis_code.Nats.Driver.Writing.{
  in_folder_lem, Written-Wrote, Becomes-after, Becomes-then, Stays-after, Stays-then,
}

module _ {S : Type 0} (d : Driver S) (v : View S) (IsKey : Bytes → Type 0)
    (laws : DriverLaws d v IsKey) where
  -- The revision of what a key holds, 0 if it holds nothing.
  abbrev pub held_revision : Option JsValue → ℤ
  held_revision none = pos 0
  held_revision (some x) = kv_revision x.kv

  -- The value of a creation with its revision.
  abbrev pub created_value : Bytes → Bytes → ℤ → Option JsValue → ℤ → JsValue
  created_value key value lease old rev =
      stamped (create_value key value lease (held_revision old)) rev

  abbrev pub Created : Bytes → Bytes → ℤ → Option JsValue → S → ℤ × Err → S → Type 0
  Created key value lease old s a t =
      ((a ≡ (int64_of (v.seq t), none))
        × Becomes d v IsKey key (some (created_value key value lease old (int64_of (v.seq t)))) s t)
      ⊎ ((e : Error) × (a ≡ (pos 0, some e)) × Stays d v IsKey s t)

  abbrev pub CreateEnds : Bytes → Bytes → ℤ → Option JsValue → S → ℤ × Err → S → Type 0
  CreateEnds key value lease none s a t = Created key value lease none s a t
  CreateEnds key value lease (some x) s a t =
      if x.delete
      then Created key value lease (some x) s a t
      else (a ≡ (pos 0, some Error.key_exists)) × Stays d v IsKey s t

  Created-then :
      (key value : Bytes) (lease : ℤ) (old : Option JsValue) (s : S) (a : ℤ × Err) (t u : S)
      → Created key value lease old s a t
      → Keeps v IsKey t u
      → Created key value lease old s a u
  Created-then key value lease old s a t u (inl (e, b)) k = inl (
    rw k.0 e,
    subst (λ n. Becomes d v IsKey key (some (created_value key value lease old (int64_of n))) s u)
        (sym k.0) (Becomes-then d v IsKey laws key _ s t u b k),
  )
  Created-then key value lease old s a t u (inr (e, f, b)) k =
      inr (e, f, Stays-then d v IsKey laws s t u b k)

  CreateEnds-then :
      (key value : Bytes) (lease : ℤ) (old : Option JsValue) (s : S) (a : ℤ × Err) (t u : S)
      → CreateEnds key value lease old s a t
      → Keeps v IsKey t u
      → CreateEnds key value lease old s a u
  CreateEnds-then key value lease none s a t u p k = Created-then key value lease none s a t u p k
  CreateEnds-then key value lease (some x) s a t u p k = elim (Bool-cases x.delete) [
    | inl y ↦ rw y (Created-then key value lease (some x) s a t u (rw y at p) k)
    | inr y ↦ let (e, b) = rw y at p in rw y (e, Stays-then d v IsKey laws s t u b k)
  ]

  -- A value is stored by a write that the bucket's contract describes.
  store_lem :
      (key value : Bytes) (lease : ℤ) (old : Option JsValue)
      (write : Bytes → Exec S (Result Error ℕ)) (s t : S)
      → IsKey key
      → Holds d v IsKey s
      → Keeps v IsKey s t
      → ((json : Bytes) → Ends (Written v IsKey key json t) (write json t))
      → Ends
          (Created key value lease old s)
          (store d write (create_value key value lease (held_revision old)) t)
  store_lem key value lease old write s t g h k writes =
      let x = create_value key value lease (held_revision old) in
      let kv = new_kv key (pos 0) value lease in
      let (json, made, full, back) = laws.json x kv refl g in
      rw made (
        Ends-bind _ _ (write json t) _ (writes json) λ a u p.
          elim (Written-Wrote d v IsKey laws key json x kv t a u refl refl full back
            (Keeps-Holds d v IsKey laws s t k h) p) [
              | inl (e, b) ↦ rw e (inl (refl, Becomes-after d v IsKey laws key _ s t u k b))
              | inr (e, f, b) ↦ rw f (inr (e, refl, Stays-after d v IsKey laws s t u k b))
            ])

  create_cases :
      (key value : Bytes) (lease : ℤ) (o : Option Entry) (s t : S)
      → v.newest t key ≡ o
      → ((e : Entry) → o ≡ some e → IsValue d v IsKey key e)
      → IsKey key
      → Holds d v IsKey s
      → Keeps v IsKey s t
      → Ends
          (CreateEnds key value lease (held_of d v IsKey o) s)
          (create_after d key value lease (seen true (held_of d v IsKey o)) t)
  create_cases key value lease none s t new valid g h k =
      store_lem key value lease none (d.kv.create key) s t g h k
        λ json. laws.bucket.create_lem key json t g new
  create_cases key value lease (some e) s t new valid g h k =
      let (x, kv, full, back, has, same) = valid e refl in
      elim (Bool-cases x.delete) [
        | inl y ↦
            rw (back, has, y)
              (rw (back, has) at
                (store_lem key value lease (held_of d v IsKey (some e)) (d.kv.put key) s t g h k
                  λ json. laws.bucket.put_lem key json t g))
        | inr y ↦ rw (back, has, y) (refl, Keeps-Stays d v IsKey laws s t k h)
      ]

  -- Creating a key without a lease. If it holds a value that is no deletion, the result is that it
  -- exists, and nothing changes. Otherwise either it holds the new value under the new, larger last
  -- sequence number of the bucket, which is the result, with the revision of a deletion before it,
  -- and every other key holds what it did; or there is an error and nothing changes. Every entry is
  -- still the JSON of a value of its key.
  pub create_kv_lem :
      (key value : Bytes) (lease : ℤ) (s : S)
      → IsKey key
      → Holds d v IsKey s
      → has_lease (held d v IsKey s key) ≡ false
      → Ends (CreateEnds key value lease (held d v IsKey s key) s) (create d key value lease s)
  unfolding create
  create_kv_lem key value lease s g h free =
      in_folder_lem d v IsKey laws (CreateEnds key value lease (held d v IsKey s key) s) key _ s
        (λ t k.
          Ends-bind _ _ (get d key (pos 0) true t) _
            (get_lem d v IsKey laws key true t g (Keeps-Holds d v IsKey laws s t k h)
              (rw (k.1 key g) free))
            λ a u q.
              let j = Keeps-trans d v IsKey laws s t u k q.1 in
              rw (q.0, k.1 key g)
                (create_cases key value lease (v.newest s key) s u (j.1 key g) (h key g) g h j))
        (λ a t u p k. CreateEnds-then key value lease (held d v IsKey s key) s a t u p k)
