-- ===== src/SqlLog.antt =====
-- kine/pkg/logstructured/sqllog/sql.go: the log over a Dialect. The state holds the state of the
-- database and the channel `notify`, oldest first, into which a send is dropped if it is full.
pub mod Rows
pub mod Poll
pub mod Compaction
pub mod Interface
pub mod Filtering
pub mod Compacted
pub mod Watching
use Rows.{rows_to_events}
use thesis_code.Prelude.{
  ℕ, ◌<◌, Bytes, codes, has_suffix, has_prefix, bytes_eq, ℤ, pos, ltb, ltb_ℤ, ◌==ℤ◌, Bool, true,
  false, not, ◌&&◌, ◌||◌, List, [], ◌∷◌, ◌++◌, length, Option, none, some, Exec, Outcome, returned,
  panicked, out_of_fuel, pure, panic, map_result, ◌>>=◌, ◌>>◌, if◌then◌else◌,
}
use thesis_code.Server.Types.{Error, KeyValue, Event, QueryGenericRow, Err, Dialect}
use thesis_code.Server.Classify.{is_empty}
use thesis_code.LogStructured.{Log}

pub record SqlState (D : Type 0) : Type 0 where
  pub db : D
  pub notify : List ℤ

abbrev pub notify_size : ℕ
notify_size = 1024

module _ {D : Type 0} where
  abbrev pub lifted : {A : Type 0} → List ℤ → Outcome (A × D) → Outcome (A × SqlState D)
  lifted queue (returned (a, d)) = returned (a, record { db = d; notify = queue })
  lifted queue panicked = panicked
  lifted queue out_of_fuel = out_of_fuel

  -- A call of the dialect leaves the channel alone.
  abbrev pub call : {A : Type 0} → Exec D A → Exec (SqlState D) A
  call m s = lifted s.notify (m s.db)

  -- select { case s.notify <- rev: default: }
  abbrev pub send : ℤ → Exec (SqlState D) (Unit {0})
  send rev s =
      pure tt (
        if ltb (length s.notify) notify_size then record s { notify = s.notify ++ rev ∷ [] } else s)

-- A prefix that ends in a slash is matched with LIKE.
abbrev pub like_prefix : Bytes → Bytes
like_prefix prefix = if has_suffix prefix (codes "/") then prefix ++ codes "%" else prefix

-- The start key is used only in a listing, and not at its start.
abbrev pub start_of : Bytes → Bytes → Bytes
start_of prefix start_key =
    if has_suffix prefix (codes "/") && not (bytes_eq prefix start_key) then start_key else []

abbrev pub is_compacted : ℤ → ℤ → Bool
is_compacted revision compact = ltb_ℤ (pos 0) revision && ltb_ℤ revision compact

abbrev pub EventsResult : Type 0
EventsResult = ℤ × List Event × Err

-- The last lines of After.
unfoldable pub after_result : ℤ → List QueryGenericRow × Err → EventsResult
unfolding rows_to_events
after_result revision (rows, some e) = (pos 0, [], some e)
after_result revision (rows, none) =
    let (rev, compact, result) = rows_to_events rows in
    if is_compacted revision compact
    then (rev, result, some Error.compacted)
    else (rev, result, none)

-- An event from whose nil pointers zero values were made.
abbrev pub kv_or_zero : Option KeyValue → KeyValue
kv_or_zero none = record {
  key = [];
  create_revision = pos 0;
  mod_revision = pos 0;
  value = [];
  lease = pos 0;
}
kv_or_zero (some kv) = kv

module _ {D : Type 0} (d : Dialect D) where
  unfoldable pub current_revision : Exec (SqlState D) (ℤ × Err)
  current_revision = call d.current_revision

  unfoldable pub after : Bytes → ℤ → ℤ → Exec (SqlState D) EventsResult
  unfolding after_result
  after prefix revision limit =
      map_result (after_result revision) (call (d.after (like_prefix prefix) revision limit))

  -- The last lines of List, once the compacted revision is known.
  abbrev pub list_end : ℤ → ℤ → List Event → ℤ × Err → Exec (SqlState D) EventsResult
  list_end revision rev result (compact, some e) = pure (pos 0, [], some e)
  list_end revision rev result (compact, none) =
      if is_compacted revision compact
      then pure (rev, result, some Error.compacted)
      else (send rev >> pure (rev, result, none))

  abbrev pub list_rows : ℤ → List QueryGenericRow × Err → Exec (SqlState D) EventsResult
  list_rows revision (rows, some e) = pure (pos 0, [], some e)
  list_rows revision (rows, none) =
      let (rev, compact, result) = rows_to_events rows in
      -- Without a row the compacted revision is asked for.
      if ltb_ℤ (pos 0) revision && is_empty result
      then call d.get_compact_revision >>= list_end revision rev result
      else list_end revision rev result (compact, none)

  unfoldable pub list : Bytes → Bytes → ℤ → ℤ → Bool → Exec (SqlState D) EventsResult
  unfolding rows_to_events
  list prefix start_key limit revision include_deleted =
      call (
        if revision ==ℤ pos 0
        then d.list_current (like_prefix prefix) limit include_deleted
        else d.list (like_prefix prefix) (start_of prefix start_key) limit revision include_deleted)
      >>= list_rows revision

  unfoldable pub count : Bytes → Exec (SqlState D) (ℤ × ℤ × Err)
  count prefix = call (d.count (like_prefix prefix))

  abbrev pub append_end : ℤ × Err → Exec (SqlState D) (ℤ × Err)
  append_end (rev, some e) = pure (pos 0, some e)
  append_end (rev, none) = send rev >> pure (rev, none)

  unfoldable pub append : Event → Exec (SqlState D) (ℤ × Err)
  append event =
      let kv = kv_or_zero event.kv in
      let prev = kv_or_zero event.prev_kv in
      call (
        d.insert kv.key event.create event.delete kv.create_revision prev.mod_revision kv.lease
          kv.value prev.value)
      >>= append_end

  unfoldable pub db_size : Exec (SqlState D) (ℤ × Err)
  db_size = call d.get_size

-- One event of a watch: it is kept by its key or by the prefix. `none` is a read of a nil pointer.
abbrev pub filter_event :
    Bool → Bytes → Option KeyValue → Event → Option (List Event) → Option (List Event)
filter_event check_prefix prefix none event rest = none
filter_event check_prefix prefix (some kv) event none = none
filter_event check_prefix prefix (some kv) event (some rest) =
    if (check_prefix && has_prefix kv.key prefix) || bytes_eq kv.key prefix
    then some (event ∷ rest)
    else some rest

-- The events of a watch and whether there are any is the length of this list.
unfoldable pub filter : Bool → Bytes → List Event → Option (List Event)
filter check_prefix prefix [] = some []
filter check_prefix prefix (event ∷ events) =
    filter_event check_prefix prefix event.kv event (filter check_prefix prefix events)
