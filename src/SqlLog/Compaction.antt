-- ===== src/SqlLog/Compaction.antt =====
-- sql.go: compactStart, compactor, compact and safeCompactRev.
pub mod Batches
pub mod Repair
use thesis_code.SqlLog.Rows.{rows_to_events}
use thesis_code.Prelude.{
  ℕ, zero, suc, Bytes, codes, ℤ, pos, ltb_ℤ, leb_ℤ, ◌==ℤ◌, add64, sub64, Bool, true, false, not,
  ◌&&◌, List, [], ◌∷◌, Option, none, some, Exec, Outcome, out_of_fuel, pure, panic, map_result,
  ◌>>=◌, ◌>>◌, if◌then◌else◌,
}
use thesis_code.Server.Types.{Error, KeyValue, Event, QueryGenericRow, Err, Dialect, Transaction}
use thesis_code.SqlLog.{SqlState, call, append}

abbrev pub compact_min_retain : ℤ
compact_min_retain = pos 1000

abbrev pub compact_batch_size : ℤ
compact_batch_size = pos 1000

-- The 1000 newest revisions are never compacted.
unfoldable pub safe_compact_rev : ℤ → ℤ → ℤ
unfolding sub64
safe_compact_rev target current =
    let safe = sub64 current compact_min_retain in
    let safe' = if ltb_ℤ target safe then target else safe in
    if ltb_ℤ safe' (pos 0) then pos 0 else safe'

abbrev pub compact_rev_event : Event
compact_rev_event = record {
  delete = false;
  create = true;
  kv = some (record {
    key = codes "compact_rev_key";
    create_revision = pos 0;
    mod_revision = pos 0;
    value = [];
    lease = pos 0;
  });
  prev_kv = none;
}

-- One step of the loop that looks for the row with the largest compacted revision: (maxRev, maxID).
-- `none` is a read of a nil pointer.
abbrev pub larger : ℤ × ℤ → Event → Option (ℤ × ℤ)
larger (max_rev, max_id) event = elim event.prev_kv [
  | none ↦ some (max_rev, max_id)
  | some prev ↦
      if ltb_ℤ max_rev prev.mod_revision
      then elim event.kv [ none ↦ none | some kv ↦ some (prev.mod_revision, kv.mod_revision) ]
      else some (max_rev, max_id)
]

abbrev pub largest_from : List Event → Option (ℤ × ℤ) → Option (ℤ × ℤ)
largest_from [] found = found
largest_from (event ∷ events) none = none
largest_from (event ∷ events) (some found) = largest_from events (larger found event)

unfoldable pub largest : List Event → Option (ℤ × ℤ)
largest events = largest_from events (some (pos 0, pos 0))

module _ {D : Type 0} where
  -- The loop that deletes the other rows, up to the first error.
  abbrev pub delete_others : Transaction D → ℤ → List Event → Exec D Err
  delete_others t max_id [] s = t.commit s
  delete_others t max_id (event ∷ events) s = elim event.kv [
    | none ↦ panic s
    | some kv ↦
        let rest = λ (u : D). delete_others t max_id events u in
        elim (kv.mod_revision ==ℤ max_id) [
          | true ↦ rest s
          | false ↦
              (t.delete_revision kv.mod_revision >>= λ err. elim err [
                | none ↦ rest
                | some e ↦ pure (some e)
              ])
                s
        ]
  ]

  abbrev pub keep_largest : Transaction D → List Event → Option (ℤ × ℤ) → Exec D Err
  keep_largest t events none = panic
  keep_largest t events (some (max_rev, max_id)) = delete_others t max_id events

  -- A deferred MustRollback: what is returned stays.
  abbrev pub rolled_back : {A : Type 0} → Transaction D → Exec D A → Exec D A
  rolled_back t m = m >>= λ a. t.must_rollback >> pure a

  -- The defer statement reads the method of the transaction, which panics on a nil interface.
  abbrev pub with_tx : {A : Type 0} → (Transaction D → Exec D A) → Option (Transaction D) → Exec D A
  with_tx f none = panic
  with_tx f (some t) = rolled_back t (f t)

  unfoldable pub repair : Dialect D → List Event → Exec D Err
  unfolding largest
  repair d events = d.begin_tx >>= λ opened. elim opened.1 [
    | some e ↦ pure (some e)
    | none ↦ with_tx (λ t. keep_largest t events (largest events)) opened.0
  ]

  -- The three ways of compactStart, by the number of rows of compact_rev_key.
  abbrev pub compact_start_rows : Dialect D → List Event → Exec (SqlState D) Err
  compact_start_rows d [] = map_result (λ answer. answer.1) (append d compact_rev_event)
  compact_start_rows d (event ∷ []) = pure none
  compact_start_rows d (event ∷ event' ∷ events) = call (repair d (event ∷ event' ∷ events))

  unfoldable pub compact_start : Dialect D → Exec (SqlState D) Err
  unfolding repair append rows_to_events
  compact_start d = call (d.after (codes "compact_rev_key") (pos 0) (pos 0)) >>= λ answer.
      elim answer.1 [
        | some e ↦ pure (some e)
        | none ↦ compact_start_rows d (rows_to_events answer.0).2
      ]

abbrev pub CompactResult : Type 0
CompactResult = ℤ × ℤ × Err

abbrev pub failed_with : ℤ → ℤ → Bytes → Error → CompactResult
failed_with compact_rev target message e = (compact_rev, target, some (Error.wrapped message e))

module _ {D : Type 0} (t : Transaction D) (compact_rev target : ℤ) where
  abbrev pub recorded : ℤ → ℤ → Err → Exec D CompactResult
  recorded safe current (some e) =
      pure (failed_with compact_rev safe (codes "failed to record compact revision") e)
  recorded safe current none = t.must_commit >> pure (safe, current, none)

  abbrev pub deleted_rows : ℤ → ℤ → ℤ × Err → Exec D CompactResult
  deleted_rows safe current (rows, some e) =
      pure (failed_with compact_rev safe (codes "failed to compact to revision") e)
  deleted_rows safe current (rows, none) = t.set_compact_revision safe >>= recorded safe current

  -- The revisions are known: nothing is done if another node compacted, or nothing is left to do.
  abbrev pub compact_from : ℤ → ℤ × Err → Exec D CompactResult
  compact_from current (db_compact_rev, some e) =
      pure (failed_with compact_rev target (codes "failed to get compact revision") e)
  compact_from current (db_compact_rev, none) =
      if not (compact_rev ==ℤ db_compact_rev)
      then pure (db_compact_rev, current, some Error.compacted)
      else if leb_ℤ (safe_compact_rev target current) compact_rev
      then pure (db_compact_rev, current, some Error.compacted)
      else (t.compact (safe_compact_rev target current)
          >>= deleted_rows (safe_compact_rev target current) current)

  abbrev pub compact_current : ℤ × Err → Exec D CompactResult
  compact_current (current, some e) =
      pure (failed_with compact_rev target (codes "failed to get current revision") e)
  compact_current (current, none) = t.get_compact_revision >>= compact_from current

  abbrev pub compact_in : Exec D CompactResult
  compact_in = t.current_revision >>= compact_current

module _ {D : Type 0} (d : Dialect D) where
  abbrev pub compact_tx : ℤ → ℤ → Option (Transaction D) × Err → Exec D CompactResult
  compact_tx compact_rev target (opened, some e) =
      pure (failed_with compact_rev target (codes "failed to begin transaction") e)
  compact_tx compact_rev target (opened, none) =
      with_tx (λ t. compact_in t compact_rev target) opened

  unfoldable pub compact : ℤ → ℤ → Exec D CompactResult
  unfolding safe_compact_rev
  compact compact_rev target = d.begin_tx >>= compact_tx compact_rev target

-- The inner loop of compactor: the targets of the batches, in order. The call of compact between
-- them is commented out in the source, so no revision and no error comes back from a batch.
unfoldable pub batch_targets : ℕ → ℤ → ℤ → Option (List ℤ)
batch_targets zero iter target = none
batch_targets (suc fuel) iter target =
    let moved = add64 iter compact_batch_size in
    let iter' = if ltb_ℤ target moved then target else moved in
    let rest = batch_targets fuel iter' target in
    if ltb_ℤ iter target
    then elim rest [ none ↦ none | some targets ↦ some (iter' ∷ targets) ]
    else some []

-- One turn of the outer loop: (compactRev, targetCompactRev). The revisions that compact would
-- return keep their first values, the old compactRev and 0. An error of postCompact is only logged.
unfoldable pub compactor_turn : {D : Type 0} → ℕ → Dialect D → ℤ × ℤ → Exec D (ℤ × ℤ)
unfolding batch_targets
compactor_turn fuel d (compact_rev, target) s = elim (batch_targets fuel compact_rev target) [
  | none ↦ out_of_fuel
  | some targets ↦ map_result (λ _. (compact_rev, pos 0)) d.post_compact s
]
