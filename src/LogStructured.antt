-- ===== src/LogStructured.antt =====
-- kine/pkg/logstructured/logstructured.go: the backend that keeps every change as an event of a log.
-- `Log` is the interface Log over a state `S`. A nil pointer that is read panics.
pub mod Leases
pub mod Watch
pub mod Contract
pub mod Reads
pub mod Writing
pub mod Creates
pub mod Updates
pub mod Deletes
pub mod Listing
pub mod Races
use thesis_code.Prelude.{
  ℕ, zero, suc, Bytes, codes, ℤ, pos, ltb_ℤ, leb_ℤ, ◌==ℤ◌, sub64, Bool, true, false, not, ◌&&◌,
  List, [], ◌∷◌, ◌++◌, map, length, Option, none, some, Exec, Outcome, out_of_fuel, pure, panic,
  map_result, ◌>>=◌, ◌>>◌, if◌then◌else◌,
}
use thesis_code.Server.Types.{Error, KeyValue, Event, Err, Backend}
use thesis_code.Server.Classify.{is_empty}

pub record Log (S : Type 0) : Type 0 where
  pub start : Exec S Err
  pub current_revision : Exec S (ℤ × Err)
  pub list : Bytes → Bytes → ℤ → ℤ → Bool → Exec S (ℤ × List Event × Err)
  pub after : Bytes → ℤ → ℤ → Exec S (ℤ × List Event × Err)
  pub count : Bytes → Exec S (ℤ × ℤ × Err)
  pub append : Event → Exec S (ℤ × Err)
  pub db_size : Exec S (ℤ × Err)

abbrev pub GetResult : Type 0
GetResult = ℤ × Option Event × Err

abbrev pub KvResult : Type 0
KvResult = ℤ × Option KeyValue × Bool × Err

abbrev pub ListResult : Type 0
ListResult = ℤ × List (Option KeyValue) × Err

abbrev pub first : List Event → Option Event
first [] = none
first (e ∷ events) = some e

-- A compacted revision is no error here.
abbrev pub get_result : ℤ → ℤ × List Event × Err → GetResult
get_result revision (rev, events, some Error.compacted) =
    (if not (revision ==ℤ pos 0) then revision else rev, first events, none)
get_result revision (rev, events, none) =
    (if not (revision ==ℤ pos 0) then revision else rev, first events, none)
get_result revision (rev, events, some e) = (pos 0, none, some e)

abbrev pub event_kv : GetResult → ℤ × Option KeyValue × Err
event_kv (rev, none, err) = (rev, none, err)
event_kv (rev, some event, err) = (rev, event.kv, err)

abbrev pub new_event : Bytes → Bytes → ℤ → Option KeyValue → Event
new_event key value lease prev = record {
  delete = false;
  create = true;
  kv = some (record {
    key = key;
    create_revision = pos 0;
    mod_revision = pos 0;
    value = value;
    lease = lease;
  });
  prev_kv = prev;
}

-- The key has no event yet: the previous value is a revision and nothing else.
abbrev pub absent_kv : ℤ → KeyValue
absent_kv rev = record {
  key = [];
  create_revision = pos 0;
  mod_revision = rev;
  value = [];
  lease = pos 0;
}

abbrev pub delete_event : Event → Event
delete_event event = record { delete = true; create = false; kv = event.kv; prev_kv = event.kv }

abbrev pub updated_kv : Bytes → Bytes → ℤ → ℤ → KeyValue → KeyValue
updated_kv key value lease rev kv = record {
  key = key;
  create_revision = kv.create_revision;
  mod_revision = rev;
  value = value;
  lease = lease;
}

abbrev pub update_event : Bytes → Bytes → ℤ → KeyValue → Event
update_event key value lease kv = record {
  delete = false;
  create = false;
  kv = some (updated_kv key value lease (pos 0) kv);
  prev_kv = some kv;
}

-- A read through a pointer that may be nil.
abbrev pub deref : {S A B : Type 0} → Option A → (A → Exec S B) → Exec S B
deref none f = panic
deref (some a) f = f a

module _ {S : Type 0} (log : Log S) where
  unfoldable pub get_event : Bytes → Bytes → ℤ → ℤ → Bool → Exec S GetResult
  get_event key range_end limit revision include_deletes =
      map_result (get_result revision) (log.list key range_end limit revision include_deletes)

  abbrev pub current_or : ℤ × Err → ℤ → ℤ
  current_or (new_rev, none) rev = new_rev
  current_or (new_rev, some e) rev = rev

  -- The deferred call: a result with revision 0 gets the current revision.
  unfoldable pub adjust_revision : ℤ → Exec S ℤ
  adjust_revision rev =
      if not (rev ==ℤ pos 0)
      then pure rev
      else map_result (λ answer. current_or answer rev) log.current_revision

  abbrev pub adjusted_kv : KvResult → Exec S KvResult
  adjusted_kv (rev, kv, done, err) =
      map_result (λ rev'. (rev', kv, done, err)) (adjust_revision rev)

  abbrev pub adjusted_get : ℤ × Option KeyValue × Err → Exec S (ℤ × Option KeyValue × Err)
  adjusted_get (rev, kv, err) = map_result (λ rev'. (rev', kv, err)) (adjust_revision rev)

  abbrev pub adjusted : ℤ × Err → Exec S (ℤ × Err)
  adjusted (rev, err) = map_result (λ rev'. (rev', err)) (adjust_revision rev)

  unfoldable pub get : Bytes → Bytes → ℤ → ℤ → Exec S (ℤ × Option KeyValue × Err)
  unfolding get_event adjust_revision
  get key range_end limit revision = do
    result ← get_event key range_end limit revision false
    adjusted_get (event_kv result)

  abbrev pub create_after : Bytes → Bytes → ℤ → GetResult → Exec S (ℤ × Err)
  create_after key value lease (rev, prev, some e) = pure (pos 0, some e)
  create_after key value lease (rev, none, none) =
      log.append (new_event key value lease (some (absent_kv rev)))
  create_after key value lease (rev, some prev, none) =
      if not prev.delete
      then pure (pos 0, some Error.key_exists)
      else log.append (new_event key value lease prev.kv)

  unfoldable pub create : Bytes → Bytes → ℤ → Exec S (ℤ × Err)
  unfolding get_event adjust_revision
  create key value lease = do
    result ← get_event key [] (pos 1) (pos 0) true
    answer ← create_after key value lease result
    adjusted answer

  -- Append refused: the revision and the value that are there now, if they can be read.
  abbrev pub latest_or : ℤ → Option KeyValue → GetResult → KvResult
  latest_or rev kv (latest_rev, latest, some e) = (rev, kv, false, none)
  latest_or rev kv (latest_rev, none, none) = (rev, kv, false, none)
  latest_or rev kv (latest_rev, some latest, none) = (latest_rev, latest.kv, false, none)

  abbrev pub delete_appended : Bytes → Option KeyValue → ℤ × Err → Exec S KvResult
  delete_appended key kv (rev, none) = pure (rev, kv, true, none)
  delete_appended key kv (rev, some e) =
      map_result (latest_or rev kv) (get_event key [] (pos 1) (pos 0) true)

  abbrev pub is_other : ℤ → Option KeyValue → Exec S Bool
  is_other revision kv =
      if revision ==ℤ pos 0
      then pure false
      else deref kv (λ found. pure (not (found.mod_revision ==ℤ revision)))

  abbrev pub delete_after : Bytes → ℤ → GetResult → Exec S KvResult
  delete_after key revision (rev, found, some e) = pure (pos 0, none, false, some e)
  delete_after key revision (rev, none, none) = pure (rev, none, true, none)
  delete_after key revision (rev, some event, none) =
      if event.delete
      then pure (rev, event.kv, true, none)
      else (is_other revision event.kv >>= λ other.
          if other
          then pure (rev, event.kv, false, none)
          else (log.append (delete_event event) >>= delete_appended key event.kv))

  unfoldable pub delete : Bytes → ℤ → Exec S KvResult
  unfolding get_event adjust_revision
  delete key revision = do
    result ← get_event key [] (pos 1) (pos 0) true
    answer ← delete_after key revision result
    adjusted_kv answer

  abbrev pub update_refused : GetResult → KvResult
  update_refused (rev, none, err) = (rev, none, false, err)
  update_refused (rev, some event, err) = (rev, event.kv, false, err)

  abbrev pub update_appended : Bytes → Bytes → ℤ → KeyValue → ℤ × Err → Exec S KvResult
  update_appended key value lease kv (rev, none) =
      pure (rev, some (updated_kv key value lease rev kv), true, none)
  update_appended key value lease kv (rev, some e) =
      map_result update_refused (get_event key [] (pos 1) (pos 0) false)

  abbrev pub update_after : Bytes → Bytes → ℤ → ℤ → GetResult → Exec S KvResult
  update_after key value revision lease (rev, found, some e) = pure (pos 0, none, false, some e)
  update_after key value revision lease (rev, none, none) = pure (pos 0, none, false, none)
  update_after key value revision lease (rev, some event, none) = deref event.kv (λ kv.
      if not (kv.mod_revision ==ℤ revision)
      then pure (rev, event.kv, false, none)
      else (log.append (update_event key value lease kv) >>= update_appended key value lease kv))

  unfoldable pub update : Bytes → Bytes → ℤ → ℤ → Exec S KvResult
  unfolding get_event adjust_revision
  update key value revision lease = do
    result ← get_event key [] (pos 1) (pos 0) false
    answer ← update_after key value revision lease result
    adjusted_kv answer

  abbrev pub kvs_of : List Event → List (Option KeyValue)
  kvs_of = map (λ event. event.kv)

  abbrev pub relist : (ℤ → Exec S ListResult) → ℤ × Err → Exec S ListResult
  relist again (current_rev, some e) = pure (pos 0, [], some e)
  relist again (current_rev, none) = again current_rev

  abbrev pub list_after : (ℤ → Exec S ListResult) → ℤ → ℤ × List Event × Err → Exec S ListResult
  list_after again revision (rev, events, some e) = pure (pos 0, [], some e)
  list_after again revision (rev, events, none) =
      if revision ==ℤ pos 0 && is_empty events
      then log.current_revision >>= relist again
      else pure (if not (revision ==ℤ pos 0) then revision else rev, kvs_of events, none)

  -- List calls itself with the current revision; `fuel` bounds how often.
  unfoldable pub list : ℕ → Bytes → Bytes → ℤ → ℤ → Exec S ListResult
  list zero prefix start_key limit revision s = out_of_fuel
  list (suc fuel) prefix start_key limit revision s =
      let again = λ (rev : ℤ) (t : S). list fuel prefix start_key limit rev t in
      (log.list prefix start_key limit revision false >>= list_after again revision) s

  abbrev pub counted : ListResult → ℤ × ℤ × Err
  counted (rev, rows, err) = (rev, pos (length rows), err)

  abbrev pub recount : ℕ → Bytes → ℤ × Err → Exec S (ℤ × ℤ × Err)
  recount fuel prefix (current_rev, some e) = pure (pos 0, pos 0, some e)
  recount fuel prefix (current_rev, none) =
      map_result counted (list fuel prefix prefix (pos 1000) current_rev)

  abbrev pub count_after : ℕ → Bytes → ℤ × ℤ × Err → Exec S (ℤ × ℤ × Err)
  count_after fuel prefix (rev, n, some e) = pure (pos 0, pos 0, some e)
  count_after fuel prefix (rev, n, none) =
      if n ==ℤ pos 0 then log.current_revision >>= recount fuel prefix else pure (rev, n, none)

  unfoldable pub count : ℕ → Bytes → Exec S (ℤ × ℤ × Err)
  unfolding list
  count fuel prefix = do answer ← log.count prefix; count_after fuel prefix answer

  abbrev pub health_key : Bytes
  health_key = codes "/registry/health"

  -- A failure to create the health key is logged and nothing else.
  abbrev pub start_after : Err → Exec S Err
  start_after (some e) = pure (some e)
  start_after none =
      map_result (λ _. none) (create health_key (codes "{\"health\":\"true\"}") (pos 0))

  unfoldable pub start : Exec S Err
  unfolding create
  start = do err ← log.start; start_after err

  unfoldable pub log_backend : ℕ → Backend S
  unfolding start get create delete list count update
  log_backend fuel = record {
    start = start;
    get = get;
    create = create;
    delete = delete;
    list = list fuel;
    count = count fuel;
    update = update;
    db_size = log.db_size;
  }
