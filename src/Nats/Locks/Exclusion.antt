-- ===== src/Nats/Locks/Exclusion.antt =====
-- Two goroutines are never both inside the lock of one folder.
use thesis_code.Prelude.{
  ℕ, Bytes, bytes_eq, bytes_eq_refl, bytes_eq-eq, ◌==◌, ==_iff, false, Bool-cases, inl, inr, List,
  ◌∷◌, Option, none, some, ◌≡◌, ◌⊎◌, refl, sym,
}
use thesis_code.Nats.Locks.{
  Place, idle, called, inside, looked, located, waiting, working, Locks, lookup, set_place,
  set_owner, Step, call, lock_dir, look, take_old, make_new, unlock_dir, lock, unlock, Reach, begin,
  advance,
}

-- What holds of a goroutine at its place.
abbrev pub IsAt : Option ℕ → List (Bytes × ℕ) → (ℕ → Option ℕ) → ℕ → Place → Type 0
IsAt dir table owner i idle = Unit {0}
IsAt dir table owner i (called f) = Unit {0}
IsAt dir table owner i (inside f) = dir ≡ some i
IsAt dir table owner i (looked f o) = (dir ≡ some i) × (lookup f table ≡ o)
IsAt dir table owner i (located f m) = (dir ≡ some i) × (lookup f table ≡ some m)
IsAt dir table owner i (waiting f m) = lookup f table ≡ some m
IsAt dir table owner i (working f m) = (lookup f table ≡ some m) × (owner m ≡ some i)

abbrev pub IsSafe : Locks → Type 0
IsSafe s = (i : ℕ) → IsAt s.dir_mu s.sub_mus s.owner i (s.place i)

lookup-cons :
    (f g : Bytes) (m n : ℕ) (table : List (Bytes × ℕ))
    → lookup f table ≡ none
    → lookup g table ≡ some n
    → lookup g ((f, m) ∷ table) ≡ some n
unfolding lookup
lookup-cons f g m n table h k = elim (Bool-cases (bytes_eq f g)) [
  | inl e ↦ let same = bytes_eq-eq f g e in let found = rw same at h in cc
  | inr e ↦ rw e k
]

lookup-cons_self :
    (f : Bytes) (m : ℕ) (table : List (Bytes × ℕ)) → lookup f ((f, m) ∷ table) ≡ some m
unfolding lookup
lookup-cons_self f m table = rw (bytes_eq_refl f) refl

other : (i j : ℕ) (d : Option ℕ) → (i == j) ≡ false → d ≡ some i → d ≡ some j → ⊥
other i j d ne e e' = let same : i ≡ j = cc in let yes_same = (==_iff i j).1 same in cc

-- A goroutine that does not move stays where it is while another takes or leaves dirMu.
free_dir :
    (d d' : Option ℕ) (table : List (Bytes × ℕ)) (owner : ℕ → Option ℕ) (j : ℕ) (p : Place)
    → d ≡ none
    → IsAt d table owner j p
    → IsAt d' table owner j p
free_dir d d' table owner j idle e h = tt
free_dir d d' table owner j (called f) e h = tt
free_dir d d' table owner j (inside f) e h = absurd (cc)
free_dir d d' table owner j (looked f o) e h = let g = h.0 in absurd (cc)
free_dir d d' table owner j (located f m) e h = let g = h.0 in absurd (cc)
free_dir d d' table owner j (waiting f m) e h = h
free_dir d d' table owner j (working f m) e h = h

left_dir :
    (d : Option ℕ) (table : List (Bytes × ℕ)) (owner : ℕ → Option ℕ) (i j : ℕ) (p : Place)
    → (i == j) ≡ false
    → d ≡ some i
    → IsAt d table owner j p
    → IsAt none table owner j p
left_dir d table owner i j idle ne e h = tt
left_dir d table owner i j (called f) ne e h = tt
left_dir d table owner i j (inside f) ne e h = absurd (other i j d ne e h)
left_dir d table owner i j (looked f o) ne e h = absurd (other i j d ne e h.0)
left_dir d table owner i j (located f m) ne e h = absurd (other i j d ne e h.0)
left_dir d table owner i j (waiting f m) ne e h = h
left_dir d table owner i j (working f m) ne e h = h

-- A new mutex is seen by no other goroutine that looked its folder up.
new_mutex :
    (d : Option ℕ) (table : List (Bytes × ℕ)) (owner : ℕ → Option ℕ) (f : Bytes) (n i j : ℕ)
    (p : Place)
    → (i == j) ≡ false
    → d ≡ some i
    → lookup f table ≡ none
    → IsAt d table owner j p
    → IsAt d ((f, n) ∷ table) owner j p
new_mutex d table owner f n i j idle ne e new h = tt
new_mutex d table owner f n i j (called g) ne e new h = tt
new_mutex d table owner f n i j (inside g) ne e new h = h
new_mutex d table owner f n i j (looked g o) ne e new h = absurd (other i j d ne e h.0)
new_mutex d table owner f n i j (located g m) ne e new h = absurd (other i j d ne e h.0)
new_mutex d table owner f n i j (waiting g m) ne e new h = lookup-cons f g n m table new h
new_mutex d table owner f n i j (working g m) ne e new h = (lookup-cons f g n m table new h.0, h.1)

-- Locking a free mutex, or unlocking one's own, leaves the mutexes of the others.
moved_owner :
    (d : Option ℕ) (table : List (Bytes × ℕ)) (owner : ℕ → Option ℕ) (n : ℕ) (o : Option ℕ)
    (i j : ℕ) (p : Place)
    → (i == j) ≡ false
    → (owner n ≡ none) ⊎ (owner n ≡ some i)
    → IsAt d table owner j p
    → IsAt d table (set_owner n o owner) j p
moved_owner d table owner n o i j idle ne e h = tt
moved_owner d table owner n o i j (called f) ne e h = tt
moved_owner d table owner n o i j (inside f) ne e h = h
moved_owner d table owner n o i j (looked f q) ne e h = h
moved_owner d table owner n o i j (located f m) ne e h = h
moved_owner d table owner n o i j (waiting f m) ne e h = h
moved_owner d table owner n o i j (working f m) ne e h = (
  h.0,
  elim (Bool-cases (n == m)) [ inl y ↦ absurd (taken ((==_iff n m).0 y) e) | inr y ↦ rw y h.1 ],
)
  where
    taken : n ≡ m → (owner n ≡ none) ⊎ (owner n ≡ some i) → ⊥
    taken same (inl free) = let held = h.1 in let free' = rw same at free in absurd (cc)
    taken same (inr mine) = other i j (owner m) ne (rw same at mine) h.1

-- Goroutine `i` is at its new place, and the others are where they were.
placed :
    (d : Option ℕ) (table : List (Bytes × ℕ)) (owner : ℕ → Option ℕ) (i : ℕ) (p : Place)
    (place : ℕ → Place)
    → IsAt d table owner i p
    → ((j : ℕ) → (i == j) ≡ false → IsAt d table owner j (place j))
    → (j : ℕ) → IsAt d table owner j (set_place i p place j)
placed d table owner i p place here others j = elim (Bool-cases (i == j)) [
  | inl y ↦ rw y (rw ((==_iff i j).0 y) at here)
  | inr y ↦ rw y (others j y)
]

pub Step-IsSafe : (i : ℕ) {s t : Locks} → Step i s t → IsSafe s → IsSafe t
Step-IsSafe i {s} (call f e) h =
    placed s.dir_mu s.sub_mus s.owner i (called f) s.place tt λ j ne. h j
Step-IsSafe i {s} (lock_dir f e free) h =
    placed (some i) s.sub_mus s.owner i (inside f) s.place refl
      λ j ne. free_dir s.dir_mu (some i) s.sub_mus s.owner j (s.place j) free (h j)
Step-IsSafe i {s} (look f e) h =
    placed s.dir_mu s.sub_mus s.owner i (looked f (lookup f s.sub_mus)) s.place
      (rw e at (h i), refl) λ j ne. h j
Step-IsSafe i {s} (take_old f m e) h =
    placed s.dir_mu s.sub_mus s.owner i (located f m) s.place (rw e at (h i)) λ j ne. h j
Step-IsSafe i {s} (make_new f e) h =
    let (mine, new) = rw e at (h i) in
    placed s.dir_mu ((f, s.next_mutex) ∷ s.sub_mus) s.owner i (located f s.next_mutex) s.place
      (mine, lookup-cons_self f s.next_mutex s.sub_mus)
      λ j ne. new_mutex s.dir_mu s.sub_mus s.owner f s.next_mutex i j (s.place j) ne mine new (h j)
Step-IsSafe i {s} (unlock_dir f m e) h =
    let (mine, found) = rw e at (h i) in
    placed none s.sub_mus s.owner i (waiting f m) s.place found
      λ j ne. left_dir s.dir_mu s.sub_mus s.owner i j (s.place j) ne mine (h j)
Step-IsSafe i {s} (lock f m e free) h =
    placed s.dir_mu s.sub_mus (set_owner m (some i) s.owner) i (working f m) s.place
      (rw e at (h i), rw ((==_iff m m).1 refl) refl)
      λ j ne. moved_owner s.dir_mu s.sub_mus s.owner m (some i) i j (s.place j) ne (inl free) (h j)
Step-IsSafe i {s} (unlock f m e) h =
    let (found, mine) = rw e at (h i) in
    placed s.dir_mu s.sub_mus (set_owner m none s.owner) i idle s.place tt
      λ j ne. moved_owner s.dir_mu s.sub_mus s.owner m none i j (s.place j) ne (inr mine) (h j)

pub Reach-IsSafe : {s : Locks} → Reach s → IsSafe s
Reach-IsSafe begin = λ i. tt
Reach-IsSafe (advance i r st) = Step-IsSafe i st (Reach-IsSafe r)

-- In every state that steps of any goroutines in any order lead to, two goroutines that hold the
-- lock of the same folder are one, and hold the same mutex.
pub folder_exclusion :
    (s : Locks) (i j : ℕ) (f : Bytes) (m n : ℕ)
    → Reach s
    → s.place i ≡ working f m
    → s.place j ≡ working f n
    → (i ≡ j) × (m ≡ n)
folder_exclusion s i j f m n r e e' =
    let (found, mine) = rw e at (Reach-IsSafe r i) in
    let (found', his) = rw e' at (Reach-IsSafe r j) in
    let same : m ≡ n = cc in let his' = rw (sym same) at his in (cc, same)
