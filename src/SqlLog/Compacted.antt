-- ===== src/SqlLog/Compacted.antt =====
-- Listing at a revision that was compacted away.
use thesis_code.Prelude.{
  Bytes, ℤ, pos, ltb_ℤ, ◌<ℤ◌, ◌==ℤ◌, Bool, true, false, List, [], ◌∷◌, map, none, some, returned,
  ◌≡◌, refl, arith,
}
use thesis_code.Server.Types.{Error, QueryGenericRow, Dialect}
use thesis_code.SqlLog.{SqlState, list, like_prefix, start_of}
use thesis_code.SqlLog.Rows.{row_event, rows_to_events}

-- The compacted revision: it stands in every row, and `compact` is what the database answers when it
-- is asked for it.
abbrev pub compacted_of : ℤ → List QueryGenericRow → ℤ
compacted_of compact [] = compact
compacted_of compact (row ∷ rows) = row.compaction_prev_revision

abbrev pub max_of : List QueryGenericRow → ℤ
max_of [] = pos 0
max_of (row ∷ rows) = row.max_id

-- Listing at a revision above 0 and below the compacted one returns ErrCompacted beside the rows
-- that were found, whether there are any or the compacted revision has to be asked for, and offers
-- no revision to the channel.
pub list_compacted :
    {D : Type 0} (d : Dialect D) (prefix start_key : Bytes) (limit revision compact : ℤ) (b : Bool)
    (rows : List QueryGenericRow) (s : SqlState D) (t : D)
    → d.list (like_prefix prefix) (start_of prefix start_key) limit revision b s.db
      ≡ returned ((rows, none), t)
    → d.get_compact_revision t ≡ returned ((compact, none), t)
    → pos 0 <ℤ revision
    → revision <ℤ compacted_of compact rows
    → list d prefix start_key limit revision b s
      ≡ returned ((max_of rows, map row_event rows, some Error.compacted), record s { db = t })
unfolding list rows_to_events
list_compacted d prefix start_key limit revision compact b rows s t h k p l = go rows h l
  where
    nonzero : (revision ==ℤ pos 0) ≡ false
    nonzero = ground arith

    positive : ltb_ℤ (pos 0) revision ≡ true
    positive = ground arith

    below : (c : ℤ) → revision <ℤ c → ltb_ℤ revision c ≡ true
    below c q = ground arith

    go :
        (found : List QueryGenericRow)
        → d.list (like_prefix prefix) (start_of prefix start_key) limit revision b s.db
          ≡ returned ((found, none), t)
        → revision <ℤ compacted_of compact found
        → list d prefix start_key limit revision b s
          ≡ returned
              ((max_of found, map row_event found, some Error.compacted), record s { db = t })
    go [] e q = rw (nonzero, e, positive, k, below compact q, positive) refl
    go (row ∷ found) e q = rw (nonzero, e, positive, below row.compaction_prev_revision q) refl
