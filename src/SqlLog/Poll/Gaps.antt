-- ===== src/SqlLog/Poll/Gaps.antt =====
-- How poll treats a revision that is missing from the log.
use thesis_code.Prelude.{
  ℕ, suc, ◌+◌, ◌<◌, ◌≤◌, Bytes, ℤ, pos, ◌==ℤ◌, ==ℤ_iff, add64, Bool, true, false, Bool-cases, inl,
  inr, List, [], ◌∷◌, map, take, ◌≡◌, ◌≢◌, ◌⊎◌, refl, ap, arith, if◌then◌else◌, ◌||◌,
}
use thesis_code.Server.Types.{QueryGenericRow}
use thesis_code.SqlLog.Rows.{row_event}
use thesis_code.SqlLog.Poll.{Scan, finished, can_skip_revision, scan, second}

-- Each id is one more than the one before it.
abbrev pub Consecutive : ℤ → List QueryGenericRow → Type 0
Consecutive from [] = Unit {0}
Consecutive from (row ∷ rows) = (row.theid ≡ add64 from (pos 1)) × Consecutive row.theid rows

abbrev pub last_id : ℤ → List QueryGenericRow → ℤ
last_id from [] = from
last_id from (row ∷ rows) = last_id row.theid rows

-- The rows that are no fillers.
abbrev pub non_fill : (Bytes → Bool) → List QueryGenericRow → List QueryGenericRow
non_fill is_fill [] = []
non_fill is_fill (row ∷ rows) =
    let rest = non_fill is_fill rows in if is_fill row.name then rest else row ∷ rest

-- What a scan takes: the first `n` rows.
abbrev pub Takes : (Bytes → Bool) → ℤ → List QueryGenericRow → Scan → ℕ → Type 0
Takes is_fill rev rows sc n =
    Consecutive rev (take n rows)
    × (sc.sequential ≡ map row_event (non_fill is_fill (take n rows)))
    × (sc.rev ≡ last_id rev (take n rows))
    × ((sc.stop ≢ finished) ⊎ (take n rows ≡ rows))

map-non_fill :
    (b : Bool) (row : QueryGenericRow) (rest : List QueryGenericRow)
    → (if b then map row_event rest else row_event row ∷ map row_event rest)
      ≡ map row_event (if b then rest else row ∷ rest)
map-non_fill true row rest = refl
map-non_fill false row rest = refl

module _ (is_fill : Bytes → Bool) (now : ℕ) (skip : ℤ) (skip_time : ℕ) where
  -- Within a second of the time at which a gap was first met, one pass over the rows takes a number
  -- of them from the front, whose ids follow the last revision one by one. It sends their events
  -- without the fillers, and the last id that it took is the new revision. It ends at the end of
  -- the rows only if it took them all: at any gap it stops, and the rows behind it wait.
  pub scan-Takes :
      (rev : ℤ) (rows : List QueryGenericRow)
      → now ≤ skip_time + second
      → (n : ℕ) × Takes is_fill rev rows (scan is_fill now rev skip skip_time rows) n
  unfolding scan
  scan-Takes rev [] h = (0, (tt, refl, refl, inr refl))
  scan-Takes rev (row ∷ rows) h =
      let next = add64 rev (pos 1) in
      let (n, (con, seq, end, stop)) = scan-Takes row.theid rows h in
      elim (Bool-cases (row.theid ==ℤ next)) [
        | inl e ↦ rw e (
          suc n,
          (
            ((==ℤ_iff row.theid next).0 e, con),
            rw seq (map-non_fill (is_fill row.name) row (non_fill is_fill (take n rows))),
            end,
            elim stop [ inl p ↦ inl p | inr p ↦ inr (ap (◌∷◌ row) p) ],
          ),
        )
        | inr e ↦
            rw (e, late next)
              (elim (Bool-cases (skip ==ℤ next)) [
                | inl k ↦ rw k (0, (tt, refl, refl, inl (λ p. absurd (cc))))
                | inr k ↦ rw k (0, (tt, refl, refl, inl (λ p. absurd (cc))))
              ])
      ]
    where
      late : (next : ℤ) → can_skip_revision next skip skip_time now ≡ false
      late next = ground arith

-- Take two passes over the same rows, not none of them, where the second is more than a second after
-- the first and starts with what the first left. If the time noted for a gap is not in the future,
-- one of the two passes takes a row, whatever gap stands before it.
pub gap_passed :
    (is_fill : Bytes → Bool) (t0 t1 : ℕ) (rev skip : ℤ) (skip_time : ℕ) (row : QueryGenericRow)
    (rows : List QueryGenericRow)
    → skip_time ≤ t0
    → t0 + second < t1
    → let sc = scan is_fill t0 rev skip skip_time (row ∷ rows) in
      (sc.save_last ≡ true)
      ⊎ ((scan is_fill t1 sc.rev sc.skip sc.skip_time (row ∷ rows)).save_last ≡ true)
unfolding scan
gap_passed is_fill t0 t1 rev skip skip_time row rows h k =
    let next = add64 rev (pos 1) in
    elim (Bool-cases (row.theid ==ℤ next || can_skip_revision next skip skip_time t0)) [
      | inl go ↦ rw go (inl refl)
      | inr stay ↦ elim (Bool-cases (skip ==ℤ next)) [
        | inl e ↦ rw (stay, e, passes e) (inr refl)
        | inr e ↦ rw (stay, e, passes_next) (inr refl)
      ]
    ]
  where
    passes :
        (skip ==ℤ add64 rev (pos 1)) ≡ true
        → (row.theid ==ℤ add64 rev (pos 1)
            || can_skip_revision (add64 rev (pos 1)) skip skip_time t1)
          ≡ true
    passes e = ground arith

    passes_next :
        (row.theid ==ℤ add64 rev (pos 1)
          || can_skip_revision (add64 rev (pos 1)) (add64 rev (pos 1)) t0 t1)
        ≡ true
    passes_next = ground arith
