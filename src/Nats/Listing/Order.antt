-- ===== src/Nats/Listing/Order.antt =====
-- The order of Go strings, and the sorting of a listing by key.
use thesis_code.Prelude.{
  Bytes, bytes_ltb, true, false, Bool-cases, inl, inr, List, [], ◌∷◌, All, ◌≡◌, refl, arith,
}
use mathlib.Core.List.{Perm}
use mathlib.Core.List.Perm
use thesis_code.Nats.Bucket.{Entry}
use thesis_code.Nats.Listing.{insert_sorted, sort, key_less}

-- No key of the list is less than the one before it.
abbrev pub IsSorted : List Entry → Type 0
IsSorted [] = Unit {0}
IsSorted (e ∷ []) = Unit {0}
IsSorted (e ∷ f ∷ entries) = (key_less f e ≡ false) × IsSorted (f ∷ entries)

bytes_ltb_asym : (a b : Bytes) → bytes_ltb a b ≡ true → bytes_ltb b a ≡ false
unfolding bytes_ltb
bytes_ltb_asym [] [] h = cc
bytes_ltb_asym [] (y ∷ b) h = refl
bytes_ltb_asym (x ∷ a) [] h = cc
bytes_ltb_asym (x ∷ a) (y ∷ b) h = ground (arith, bytes_ltb_asym a b)

insert_sorted-IsSorted :
    (e : Entry) (entries : List Entry)
    → IsSorted entries
    → IsSorted (insert_sorted key_less e entries)
unfolding insert_sorted
insert_sorted-IsSorted e [] h = tt
insert_sorted-IsSorted e (f ∷ []) h = elim (Bool-cases (key_less f e)) [
  | inl y ↦ rw y (bytes_ltb_asym f.key e.key y, tt)
  | inr y ↦ rw y (y, tt)
]
insert_sorted-IsSorted e (f ∷ g ∷ entries) (h, hs) = elim (Bool-cases (key_less f e)) [
  | inl y ↦
      let rest = insert_sorted-IsSorted e (g ∷ entries) hs in
      elim (Bool-cases (key_less g e)) [
        | inl z ↦ rw (y, z) (h, rw z at rest)
        | inr z ↦ rw (y, z) (bytes_ltb_asym f.key e.key y, rw z at rest)
      ]
  | inr y ↦ rw y (y, (h, hs))
]

pub sort-IsSorted : (entries : List Entry) → IsSorted (sort key_less entries)
unfolding sort
sort-IsSorted [] = tt
sort-IsSorted (e ∷ entries) =
    insert_sorted-IsSorted e (sort key_less entries) (sort-IsSorted entries)

insert_sorted-All :
    (P : Entry → Type 0) (e : Entry) (entries : List Entry)
    → P e
    → All P entries
    → All P (insert_sorted key_less e entries)
unfolding insert_sorted
insert_sorted-All P e [] p h = (p, tt)
insert_sorted-All P e (f ∷ entries) p (q, h) = elim (Bool-cases (key_less f e)) [
  | inl y ↦ rw y (q, insert_sorted-All P e entries p h)
  | inr y ↦ rw y (p, (q, h))
]

pub sort-All :
    (P : Entry → Type 0) (entries : List Entry) → All P entries → All P (sort key_less entries)
unfolding sort
sort-All P [] h = tt
sort-All P (e ∷ entries) (p, h) =
    insert_sorted-All P e (sort key_less entries) p (sort-All P entries h)

insert_sorted-perm :
    (e : Entry) (entries : List Entry) → Perm (insert_sorted key_less e entries) (e ∷ entries)
unfolding insert_sorted
insert_sorted-perm e [] = Perm.refl (e ∷ [])
insert_sorted-perm e (f ∷ entries) = elim (Bool-cases (key_less f e)) [
  | inl y ↦ rw y (Perm.trans (Perm.cons f (insert_sorted-perm e entries)) (Perm.swap e f entries))
  | inr y ↦ rw y (Perm.refl (e ∷ f ∷ entries))
]

pub sort-perm : (entries : List Entry) → Perm (sort key_less entries) entries
unfolding sort
sort-perm [] = Perm.refl []
sort-perm (e ∷ entries) =
    Perm.trans (insert_sorted-perm e (sort key_less entries)) (Perm.cons e (sort-perm entries))
