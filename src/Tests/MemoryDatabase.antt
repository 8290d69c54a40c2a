-- ===== src/Tests/MemoryDatabase.antt =====
-- A database in memory that keeps the laws of the database: a counter and the newest message of each
-- name. Its listings without deletions show the newest message, also if it is a deletion, and hide
-- nothing. Over it the log and the backend of the program run in the tests.
use thesis_code.Prelude.{
  ℕ, suc, Bytes, bytes_eq, bytes_eq-eq, ℤ, pos, Bool, true, false, inl, Option, none, some, pure,
  returned, ◌≡◌, refl, sym, ap, arith, ◌||◌, if◌then◌else◌,
}
use thesis_code.LogStructured.{Log}
use thesis_code.LogStructured.Contract.{Contract}
use thesis_code.SqlLog.{SqlState}
use thesis_code.SqlLog.Interface.{sql_log}
use thesis_code.Generic.{dialect}
use thesis_code.Generic.Client.{DatabaseClient, Clients, KineInsert}
use thesis_code.Generic.Storing.{Table, DatabaseLaws, rows_at, only_if}
use thesis_code.Generic.Storing.Refinement.{sql_log_contract}

pub record Memory : Type 0 where
  pub last : ℕ
  pub newest : Bytes → Option (ℤ × KineInsert)

-- The message of a name, which carries that name.
abbrev pub keyed : Bytes → Option (ℤ × KineInsert) → Option (ℤ × KineInsert)
keyed k none = none
keyed k (some (id, m)) = some (id, record m { name = k })

abbrev pub memory_table : Table Memory
memory_table = record {
  max_id = λ d. pos (suc d.last);
  compacted = λ d. pos 0;
  newest = λ d k. keyed k (d.newest k);
  is_shown = λ d k. true;
}

abbrev pub published : KineInsert → Memory → Memory
published m d = record {
  last = suc d.last;
  newest = λ k. if bytes_eq m.name k then some (pos (suc (suc d.last)), m) else d.newest k;
}

abbrev pub memory_client : DatabaseClient Memory
memory_client = record {
  request_publish = λ m d. returned (
    (record { success = true; returning_id = some (pos (suc (suc d.last))) }, none),
    published m d,
  );
  request_dispose = λ id. pure (true, none);
  request_query_generic =
      λ q d. pure (rows_at memory_table d (keyed q.param1 (d.newest q.param1)), none) d;
  request_query_three = λ param1 param2. pure (pos 0, pos 0, none);
  request_query_compact_revision = pure (pos 0, none);
  request_query_maximum_id = λ d. pure (pos (suc d.last), none) d;
}

abbrev pub memory_clients : Clients Memory
memory_clients = record {
  client = memory_client;
  client_publisher = memory_client;
  client_query04 = memory_client;
  client_small_queries = memory_client;
}

pub keyed-name :
    (k : Bytes) (o : Option (ℤ × KineInsert)) (m : ℤ × KineInsert)
    → keyed k o ≡ some m
    → m.1.name ≡ k
keyed-name k none m h = absurd (cc)
keyed-name k (some (id, n)) m h = sym (ap name_of h)
  where
    name_of : Option (ℤ × KineInsert) → Bytes
    name_of none = k
    name_of (some x) = x.1.name

pub keyed-if :
    (k : Bytes) (b : Bool) (x : ℤ × KineInsert) (o : Option (ℤ × KineInsert))
    → (b ≡ true → keyed k (some x) ≡ some x)
    → keyed k (if b then some x else o) ≡ (if b then some x else keyed k o)
keyed-if k true x o h = h refl
keyed-if k false x o h = refl

pub all_shown : (b : Bool) (o : Option (ℤ × KineInsert)) → only_if memory_table (b || true) o ≡ o
all_shown true o = refl
all_shown false o = refl

unfoldable pub memory_laws : DatabaseLaws memory_clients
memory_laws = record {
  table = memory_table;
  max_id_nonneg = λ d. omega arith;
  newest_name = λ d k m. keyed-name k (d.newest k) m;
  maximum_lem = λ d. (refl, (refl, λ k. refl, λ k. refl));
  query_lem = λ key b limit d h.
      (rw (all_shown b (keyed key (d.newest key))) refl, (refl, λ k. refl, λ k. refl));
  publish_lem = λ m d h. inl (
    true,
    refl,
    (
      omega arith,
      λ k.
          keyed-if k (bytes_eq m.name k) (pos (suc (suc d.last)), m) (d.newest k)
            (λ e. rw (sym (bytes_eq-eq m.name k e)) refl),
    ),
  );
}

abbrev pub memory_log : Log (SqlState Memory)
memory_log = sql_log (dialect memory_clients)

unfoldable pub memory_contract : Contract memory_log
unfolding sql_log_contract memory_laws
memory_contract = sql_log_contract memory_laws
