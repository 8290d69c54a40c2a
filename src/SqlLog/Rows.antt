-- ===== src/SqlLog/Rows.antt =====
-- sql.go, RowsToEventsDds: the rows that the database sends become events.
use thesis_code.Prelude.{ℤ, pos, ◌==ℤ◌, Bool, not, [], ◌∷◌, List, map, none, some, if◌then◌else◌}
use thesis_code.Server.Types.{KeyValue, Event, QueryGenericRow}

abbrev pub is_set : ℤ → Bool
is_set flag = not (pos 0 ==ℤ flag)

-- A row that creates its key has its own id for the create revision.
unfoldable pub row_kv : QueryGenericRow → KeyValue
row_kv row = record {
  key = row.name;
  create_revision = if is_set row.created then row.theid else row.create_revision;
  mod_revision = row.theid;
  value = row.value;
  lease = row.lease;
}

unfoldable pub row_event : QueryGenericRow → Event
unfolding row_kv
row_event row = record {
  delete = is_set row.deleted;
  create = is_set row.created;
  kv = some (row_kv row);
  prev_kv =
      if is_set row.created
      then none
      else some (record {
        key = [];
        create_revision = pos 0;
        mod_revision = row.prev_revision;
        value = row.old_value;
        lease = pos 0;
      });
}

-- The revision and the compacted revision stand in every row; the first row is asked.
unfoldable pub rows_to_events : List QueryGenericRow → ℤ × ℤ × List Event
unfolding row_event
rows_to_events [] = (pos 0, pos 0, [])
rows_to_events (row ∷ rows) = (row.max_id, row.compaction_prev_revision, map row_event (row ∷ rows))
