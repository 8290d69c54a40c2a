-- ===== src/Tests/Databases.antt =====
-- A database that answers every request, and one that cannot be asked for the compacted revision.
use thesis_code.Prelude.{
  ℕ, suc, codes, ℤ, pos, false, [], ◌∷◌, none, some, returned, panicked, pure, ◌>>◌, ◌≡◌, refl,
}
use thesis_code.Server.Types.{Error, KeyValue, Event, Err}
use thesis_code.LogStructured.{count}
use thesis_code.LogStructured.Contract.{stored}
use thesis_code.SqlLog.{SqlState, append, send}
use thesis_code.SqlLog.Rows.{row_event}
use thesis_code.SqlLog.Interface.{sql_log}
use thesis_code.SqlLog.Compaction.{compact_start}
use thesis_code.Generic.{dialect}
use thesis_code.Generic.Client.{DatabaseClient, Clients}
use thesis_code.Generic.Faults.{compact_start_panics}
use thesis_code.Generic.Counting.{count_swapped}
use thesis_code.Generic.Opening.{ConnectionPoolConfig, Sql, open_pool, open_pool_once}
use thesis_code.Generic.Inserting.{message_of, row_of, append_roundtrip}
use thesis_code.Tests.Dialects.{row}

-- Every dispose request is refused.
abbrev database : ℤ × Err → DatabaseClient (Unit {0})
database compact = record {
  request_publish = λ message. pure (record { success = false; returning_id = some (pos 8) }, none);
  request_dispose = λ id. pure (false, none);
  request_query_generic = λ query. pure (row (pos 1) ∷ row (pos 2) ∷ [], none);
  request_query_three = λ param1 param2. pure (pos 40, pos 3, none);
  request_query_compact_revision = pure compact;
  request_query_maximum_id = pure (pos 40, none);
}

abbrev clients_of : DatabaseClient (Unit {0}) → Clients (Unit {0})
clients_of client = record {
  client = client;
  client_publisher = client;
  client_query04 = client;
  client_small_queries = client;
}

abbrev clients : Clients (Unit {0})
clients = clients_of (database (pos 0, none))

abbrev unreachable : Clients (Unit {0})
unreachable = clients_of (database (pos 0, some (Error.external (codes "unavailable"))))

abbrev sql_state : SqlState (Unit {0})
sql_state = record { db = tt; notify = [] }

compact_start_panics_example : compact_start (dialect clients) sql_state ≡ panicked
unfolding dialect
compact_start_panics_example =
    compact_start_panics clients (row (pos 1)) (row (pos 2)) [] sql_state tt refl

count_swapped_example :
    count (sql_log (dialect clients)) 2 (codes "/pods/") sql_state
    ≡ returned ((pos 3, pos 40, none), sql_state)
count_swapped_example = count_swapped clients 2 (codes "/pods/") 40 3 sql_state tt refl refl

abbrev kv_a : KeyValue
kv_a = record {
  key = codes "/pods/a";
  create_revision = pos 4;
  mod_revision = pos 0;
  value = codes "w";
  lease = pos 0;
}

abbrev update_a : Event
update_a = record {
  delete = false;
  create = false;
  kv = some kv_a;
  prev_kv = some (record kv_a { value = codes "v"; mod_revision = pos 4 });
}

append_roundtrip_example :
    (append (dialect clients) update_a sql_state ≡ (send (pos 8) >> pure (pos 8, none)) sql_state)
    × (row_event (row_of (message_of update_a) (pos 8) (pos 9) (pos 0))
        ≡ stored update_a kv_a (pos 8))
append_roundtrip_example =
    append_roundtrip clients update_a kv_a 8 false (pos 9) (pos 0) sql_state tt refl refl

-- A database/sql whose database does not answer. The state counts the pings.
abbrev unreachable_sql : Sql ℕ (Unit {0}) (Unit {0})
unreachable_sql = record {
  open_db = pure (tt, none);
  ping = λ db n. returned (some Error.dds_failed, suc n);
  close = λ db. pure none;
  set_max_idle_conns = λ db n. pure tt;
  set_max_open_conns = λ db n. pure tt;
  set_conn_max_lifetime = λ db n. pure tt;
  exec_context = pure (tt, none);
}

abbrev default_pool : ConnectionPoolConfig
default_pool = record { max_idle_conns = pos 0; max_open = pos 0; max_lifetime = pos 0 }

open_pool_once_example :
    open_pool unreachable_sql default_pool (pure false) 0 ≡ returned ((none, none), 1)
open_pool_once_example =
    open_pool_once unreachable_sql default_pool (pure false) tt Error.dds_failed none false 0 0 1 1
      1 refl refl refl refl
