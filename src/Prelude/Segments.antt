-- ===== src/Prelude/Segments.antt =====
-- strings.Split and strings.Join with a separator of one byte, strings.TrimPrefix, and the order of
-- Go strings.
use Prim.Native.Nat.{ℕ}
use mathlib.Core.Path.{◌≡◌, refl}
use mathlib.Core.Logic.{◌≢◌}
use mathlib.Core.Bool.{Bool, true, false, ◌&&◌, ◌||◌}
use mathlib.Core.List.{List, [], ◌∷◌, ◌++◌}
use native.Mathlib.Omega.{arith}
use thesis_code.Prelude.Tests.{ltb, ◌==◌, if◌then◌else◌}
use thesis_code.Prelude.Lists.{All}
use thesis_code.Prelude.ByteStrings.{Bytes}

-- A byte before the first part.
abbrev pub cons_part : ℕ → List Bytes → List Bytes
cons_part c [] = (c ∷ []) ∷ []
cons_part c (p ∷ ps) = (c ∷ p) ∷ ps

unfoldable pub split_on : ℕ → Bytes → List Bytes
split_on sep [] = [] ∷ []
split_on sep (c ∷ s) = let rest = split_on sep s in if c == sep then [] ∷ rest else cons_part c rest

unfoldable pub join_with : ℕ → List Bytes → Bytes
join_with sep [] = []
join_with sep (p ∷ []) = p
join_with sep (p ∷ q ∷ ps) = p ++ sep ∷ join_with sep (q ∷ ps)

-- The byte does not occur.
abbrev pub Lacks : ℕ → Bytes → Type 0
Lacks sep s = All (λ c. (c == sep) ≡ false) s

-- A Go string comparison, byte by byte.
unfoldable pub bytes_ltb : Bytes → Bytes → Bool
bytes_ltb xs [] = false
bytes_ltb [] (y ∷ ys) = true
bytes_ltb (x ∷ xs) (y ∷ ys) = ltb x y || ((x == y) && bytes_ltb xs ys)

module _ (sep : ℕ) where
  pub split_on-ne-nil : (s : Bytes) → split_on sep s ≢ []
  unfolding split_on
  split_on-ne-nil [] h = cc
  split_on-ne-nil (c ∷ s) h = step c (split_on sep s) h
    where
      step : (c : ℕ) (ps : List Bytes) → (if c == sep then [] ∷ ps else cons_part c ps) ≡ [] → ⊥
      step c [] h = ground arith
      step c (p ∷ ps) h = ground arith

  join_with-cons_part :
      (c : ℕ) (ps : List Bytes) → join_with sep (cons_part c ps) ≡ c ∷ join_with sep ps
  unfolding join_with
  join_with-cons_part c [] = refl
  join_with-cons_part c (p ∷ []) = refl
  join_with-cons_part c (p ∷ q ∷ ps) = refl

  join_with-nil : (ps : List Bytes) → ps ≢ [] → join_with sep ([] ∷ ps) ≡ sep ∷ join_with sep ps
  unfolding join_with
  join_with-nil [] h = absurd (h refl)
  join_with-nil (p ∷ ps) h = refl

  -- The parts joined again are the text.
  pub join_with-split_on : (s : Bytes) → join_with sep (split_on sep s) ≡ s
  unfolding split_on
  join_with-split_on [] = unfold join_with in refl
  join_with-split_on (c ∷ s) = ground (
    arith,
    join_with-split_on s,
    join_with-cons_part c (split_on sep s),
    join_with-nil (split_on sep s) (split_on-ne-nil s),
  )

  split_on-append : (p s : Bytes) → Lacks sep p → split_on sep (p ++ sep ∷ s) ≡ p ∷ split_on sep s
  unfolding split_on
  split_on-append [] s h = ground arith
  split_on-append (c ∷ p) s (h, hs) = rw (h, split_on-append p s hs) refl

  split_on-Lacks : (p : Bytes) → Lacks sep p → split_on sep p ≡ p ∷ []
  unfolding split_on
  split_on-Lacks [] h = refl
  split_on-Lacks (c ∷ p) (h, hs) = rw (h, split_on-Lacks p hs) refl

  -- Parts that lack the separator are found again, if there is a part.
  pub split_on-join_with :
      (ps : List Bytes) → ps ≢ [] → All (Lacks sep) ps → split_on sep (join_with sep ps) ≡ ps
  unfolding join_with
  split_on-join_with [] h _ = absurd (h refl)
  split_on-join_with (p ∷ []) h (hp, _) = split_on-Lacks p hp
  split_on-join_with (p ∷ q ∷ ps) h (hp, hps) =
      rw (split_on-append p _ hp, split_on-join_with (q ∷ ps) (cc) hps) refl
