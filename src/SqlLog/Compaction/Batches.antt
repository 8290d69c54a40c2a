-- ===== src/SqlLog/Compaction/Batches.antt =====
-- The batches into which compactor cuts its work.
use thesis_code.Prelude.{
  ℕ, zero, suc, ◌+◌, ◌*◌, ◌<◌, ◌≤◌, ℤ, pos, ltb_ℤ, add64, add64-pos, max_int64, true, false,
  Bool-cases, inl, inr, List, [], ◌∷◌, some, ◌≡◌, refl, ap, arith, if◌then◌else◌,
}
use thesis_code.SqlLog.Compaction.{batch_targets, compact_batch_size}

-- The targets lead from one revision to another, each at most 1000 further.
abbrev pub Steps : ℕ → List ℤ → ℕ → Type 0
Steps from [] to = from ≡ to
Steps from (target ∷ targets) to =
    (next : ℕ) × (target ≡ pos next) × (from < next) × (next ≤ from + 1000) × Steps next targets to

batch_step :
    (fuel : ℕ) (iter target next : ℤ) (targets : List ℤ)
    → ltb_ℤ iter target ≡ true
    → (if ltb_ℤ target (add64 iter compact_batch_size)
        then target
        else add64 iter compact_batch_size)
      ≡ next
    → batch_targets fuel next target ≡ some targets
    → batch_targets (suc fuel) iter target ≡ some (next ∷ targets)
unfolding batch_targets
batch_step fuel iter target next targets e n h = rw (e, n, h) (ap (λ (x : ℤ). some (x ∷ targets)) n)

batch_done :
    (fuel : ℕ) (iter target : ℤ)
    → ltb_ℤ iter target ≡ false
    → batch_targets (suc fuel) iter target ≡ some []
unfolding batch_targets
batch_done fuel iter target e = rw e

-- The loop over the batches ends. From a revision that is not above the target, it ends within as
-- many rounds as there are batches, and one more; the targets of the batches grow to the target of
-- the compaction in steps of at most 1000.
pub batch_targets_end :
    (rounds from to : ℕ)
    → from ≤ to
    → to ≤ from + rounds * 1000
    → to + 1000 ≤ max_int64
    → (targets : List ℤ) × (batch_targets (suc rounds) (pos from) (pos to) ≡ some targets)
      × Steps from targets to
batch_targets_end zero from to h k b =
    ([], batch_done 0 (pos from) (pos to) (ground arith), omega arith)
batch_targets_end (suc rounds) from to h k b = elim (Bool-cases (ltb_ℤ (pos from) (pos to))) [
  | inr e ↦ ([], batch_done (suc rounds) (pos from) (pos to) e, ground arith)
  | inl e ↦ elim (Bool-cases (ltb_ℤ (pos to) (pos (from + 1000)))) [
    | inl over ↦
        let (targets, found, steps) =
          batch_targets_end rounds to to (omega arith) (omega arith) b in
        (
          pos to ∷ targets,
          batch_step (suc rounds) (pos from) (pos to) (pos to) targets e
              (rw (add64-pos from 1000 (omega arith), over)) found,
          (to, refl, ground arith, ground arith, steps),
        )
    | inr under ↦
        let (targets, found, steps) =
          batch_targets_end rounds (from + 1000) to (ground arith) (omega arith) b in
        (
          pos (from + 1000) ∷ targets,
          batch_step (suc rounds) (pos from) (pos to) (pos (from + 1000)) targets e
              (rw (add64-pos from 1000 (omega arith), under)) found,
          (from + 1000, refl, omega arith, omega arith, steps),
        )
  ]
]
