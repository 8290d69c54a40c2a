-- ===== src/SqlLog/Interface.antt =====
-- The log over a dialect as an instance of the interface Log.
use thesis_code.Server.Types.{Dialect}
use thesis_code.LogStructured.{Log}
use thesis_code.SqlLog.{SqlState, current_revision, list, after, count, append, db_size}
use thesis_code.SqlLog.Compaction.{compact_start}

unfoldable pub sql_log : {D : Type 0} → Dialect D → Log (SqlState D)
unfolding current_revision list after count append db_size compact_start
sql_log d = record {
  start = compact_start d;
  current_revision = current_revision d;
  list = list d;
  after = after d;
  count = count d;
  append = append d;
  db_size = db_size d;
}
