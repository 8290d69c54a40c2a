-- ===== src/Tests/Backends.antt =====
-- The backend over the log of the program and a database in memory, on a key that has a value.
use thesis_code.Prelude.{
  negsuc, ◌⊎◌, Bytes, codes, has_suffix, bytes_eq, pos, Ends, Returns, pure, out_of_fuel, ◌≡◌, refl,
  arith, inl, none, some, true, false, [],
}
use thesis_code.Server.Types.{KeyValue, Event}
use thesis_code.LogStructured.{Log, get, create, update, delete, list}
use thesis_code.LogStructured.Listing.{Listed, list_ends, list_empty_loops}
use thesis_code.LogStructured.Races.{Unwritten, Lost, update-Once}
use thesis_code.LogStructured.Contract.{Keeps}
use thesis_code.LogStructured.Reads.{IsNewest, get_lem}
use thesis_code.SqlLog.{SqlState}
use thesis_code.SqlLog.Rows.{row_event}
use thesis_code.Tests.MemoryDatabase.{Memory, memory_log, memory_contract}

abbrev key_a : Bytes
key_a = codes "/pods/a"

abbrev kv_a : KeyValue
kv_a = record {
  key = key_a;
  create_revision = pos 4;
  mod_revision = pos 4;
  value = codes "v";
  lease = pos 0;
}

-- The database at revision 4, where the key was created.
abbrev memory : SqlState Memory
memory = record {
  db = record {
    last = 3;
    newest = λ k. some (
      pos 4,
      record {
        id = negsuc 0;
        name = key_a;
        created = pos 1;
        deleted = pos 0;
        create_revision = pos 0;
        prev_revision = pos 0;
        lease = pos 0;
        value = codes "v";
        old_value = [];
      },
    );
  };
  notify = [];
}

abbrev empty : SqlState Memory
empty = record { db = record { last = 0; newest = λ k. none }; notify = [] }

abbrev event_a : Event
event_a = record { delete = false; create = true; kv = some kv_a; prev_kv = none }

get_lem_example :
    Ends
      (λ a t.
        (a ≡ (pos 4, some kv_a, none))
        × IsNewest (some kv_a) (some event_a)
        × Keeps memory_contract.view memory t)
      (get memory_log key_a [] (pos 1) (pos 0) memory)
unfolding memory_contract has_suffix bytes_eq row_event
get_lem_example = get_lem memory_contract key_a (pos 1) memory refl

update-Once_example :
    Ends
      (λ a t.
        Ends
          (λ b u. Unwritten memory_contract.view memory t ⊎ Lost memory_contract.view a b t u)
          (update memory_log key_a (codes "x") (pos 4) (pos 0) t))
      (update memory_log key_a (codes "w") (pos 4) (pos 0) memory)
unfolding memory_contract has_suffix bytes_eq
update-Once_example =
    update-Once memory_contract key_a (pos 4) (codes "w") (codes "x") (pos 0) (pos 0) memory refl
      (omega arith)

-- A log without rows, whose greatest id is 0.
abbrev no_rows : Log (Unit {0})
no_rows = record {
  start = pure none;
  current_revision = pure (pos 0, none);
  list = λ prefix start_key limit revision b. pure (pos 0, [], none);
  after = λ prefix revision limit. pure (pos 0, [], none);
  count = λ prefix. pure (pos 0, pos 0, none);
  append = λ event. pure (pos 1, none);
  db_size = pure (pos 0, none);
}

list_empty_loops_example :
    list no_rows 1000 (codes "/pods/") (codes "/pods/") (pos 0) (pos 0) tt ≡ out_of_fuel
list_empty_loops_example =
    list_empty_loops no_rows (codes "/pods/") (codes "/pods/") (pos 0) (pos 0) tt refl refl 1000

-- A log that lists nothing at revision 5.
abbrev quiet_log : Log (Unit {0})
quiet_log = record no_rows { current_revision = pure (pos 5, none) }

list_ends_example :
    Returns (Listed (pos 0)) (list quiet_log 2 (codes "/pods/") (codes "/pods/") (pos 0) (pos 0) tt)
list_ends_example =
    list_ends quiet_log (codes "/pods/") (codes "/pods/") (pos 0)
      (record {
        list_lem = λ prefix start_key limit revision b s. tt;
        current_lem = λ s. inl (ground arith);
      })
      0 (pos 0) tt
