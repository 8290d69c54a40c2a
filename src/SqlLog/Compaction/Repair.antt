-- ===== src/SqlLog/Compaction/Repair.antt =====
-- compactStart when it finds more than one row of compact_rev_key.
use thesis_code.Prelude.{pos, true, List, [], ◌∷◌, map, some, ◌≡◌, refl, All}
use thesis_code.Server.Types.{QueryGenericRow}
use thesis_code.SqlLog.Rows.{row_event, is_set}
use thesis_code.SqlLog.Compaction.{largest_from, largest}

abbrev pub IsCreated : QueryGenericRow → Type 0
IsCreated row = is_set row.created ≡ true

largest_from-created :
    (rows : List QueryGenericRow)
    → All IsCreated rows
    → largest_from (map row_event rows) (some (pos 0, pos 0)) ≡ some (pos 0, pos 0)
unfolding row_event
largest_from-created [] h = refl
largest_from-created (row ∷ rows) h = rw h.0 (largest_from-created rows h.1)

-- Rows that create their key, as those of compact_rev_key do, carry no previous value. So if
-- compactStart finds such rows alone, whatever revisions they hold, it finds no row to keep: the
-- largest compacted revision and the id to keep are 0.
pub largest-created :
    (rows : List QueryGenericRow)
    → All IsCreated rows
    → largest (map row_event rows) ≡ some (pos 0, pos 0)
unfolding largest
largest-created rows h = largest_from-created rows h
