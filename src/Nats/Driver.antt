-- ===== src/Nats/Driver.antt =====
-- kine/pkg/drivers/nats/nats.go: the driver's values, its reads of one key, and its writes. The
-- clock, the mutexes of the folders and the JSON package are fields of the driver's record beside
-- the bucket.
pub mod Contract
pub mod Reads
pub mod Writing
pub mod Creates
pub mod Updates
pub mod Deletes
pub mod Expiry
use thesis_code.Prelude.{
  ℕ, zero, suc, ◌-◌, ◌+◌, ◌*◌, ◌%◌, ltb, Bytes, codes, ℤ, pos, negsuc, sub_ℕ, pos_part, neg_part,
  ltb_ℤ, leb_ℤ, ◌==ℤ◌, max_int64, Bool, true, false, not, ◌&&◌, List, [], ◌∷◌, ◌++◌, Option, none,
  some, Result, ok, failed, Exec, pure, map_result, ◌>>=◌, ◌>>◌, split_on, if◌then◌else◌,
}
use thesis_code.Server.Types.{Error, KeyValue, Err}
use thesis_code.Server.Classify.{is_empty}
use thesis_code.LogStructured.{deref, KvResult}
use thesis_code.Nats.Codec.{slash}
use thesis_code.Nats.Bucket.{Entry, Status, Bucket}

-- The pointer KV may be nil.
pub record JsValue : Type 0 where
  pub kv : Option KeyValue
  pub prev_revision : ℤ
  pub create : Bool
  pub delete : Bool

-- `now` is time.Now in nanoseconds, `lock` and `unlock` are those of the mutex of a folder, and
-- `marshal` and `unmarshal` are json.Marshal and json.Unmarshal into an empty value, which may be
-- partly filled when there is an error.
pub record Driver (S : Type 0) : Type 0 where
  pub kv : Bucket S
  pub now : Exec S ℤ
  pub lock : Bytes → Exec S (Unit {0})
  pub unlock : Bytes → Exec S (Unit {0})
  pub marshal : JsValue → Result Error Bytes
  pub unmarshal : Bytes → JsValue × Err

-- The conversions int64(n) and uint64(n).
abbrev pub int64_of : ℕ → ℤ
int64_of n = if ltb max_int64 n then sub_ℕ n 18446744073709551616 else pos n

abbrev pub uint64_of : ℤ → ℕ
uint64_of (pos n) = n
uint64_of (negsuc n) = 18446744073709551615 - n

-- time.Second * time.Duration(lease), which wraps around.
abbrev pub lease_duration : ℤ → ℤ
lease_duration (pos n) = int64_of ((n * 1000000000) % 18446744073709551616)
lease_duration (negsuc n) =
    int64_of (
      (18446744073709551616 - ((suc n * 1000000000) % 18446744073709551616)) % 18446744073709551616)

-- requestTime.After(createTime.Add(duration)).
abbrev pub is_after : ℤ → ℤ → ℤ → Bool
is_after request created duration =
    ltb (pos_part created + pos_part duration + neg_part request)
      (pos_part request + neg_part created + neg_part duration)

abbrev pub is_not_found : Error → Bool
is_not_found Error.key_not_found = true
is_not_found _ = false

-- The regular expression takes the first slash that has another one behind it, and both parts.
abbrev pub folder_of : List Bytes → Bytes
folder_of (before ∷ top ∷ second ∷ parts) = slash ∷ top ++ slash ∷ second
folder_of _ = []

unfoldable pub top_level_key : Bytes → Bytes
unfolding split_on
top_level_key key = folder_of (split_on slash key)

abbrev pub with_mod_revision : KeyValue → ℤ → KeyValue
with_mod_revision kv rev = record kv { mod_revision = rev }

abbrev pub new_kv : Bytes → ℤ → Bytes → ℤ → KeyValue
new_kv key create_revision value lease = record {
  key = key;
  create_revision = create_revision;
  mod_revision = pos 0;
  value = value;
  lease = lease;
}

abbrev pub empty_value : JsValue
empty_value = record { kv = none; prev_revision = pos 0; create = false; delete = false }

abbrev pub create_value : Bytes → Bytes → ℤ → ℤ → JsValue
create_value key value lease prev_revision = record {
  kv = some (new_kv key (pos 0) value lease);
  prev_revision = prev_revision;
  create = true;
  delete = false;
}

abbrev pub update_value : Bytes → Bytes → ℤ → ℤ → KeyValue → JsValue
update_value key value lease rev prev = record {
  kv = some (
      new_kv key (if prev.create_revision ==ℤ pos 0 then rev else prev.create_revision) value
        lease);
  prev_revision = prev.mod_revision;
  create = false;
  delete = false;
}

abbrev pub delete_value : ℤ → Option KeyValue → JsValue
delete_value rev kv = record { kv = kv; prev_revision = rev; create = false; delete = true }

abbrev pub Found : Type 0
Found = ℤ × Option JsValue × Err

module _ {S : Type 0} (d : Driver S) where
  -- The body under the lock of the folder of the key; a key without a folder takes none.
  unfoldable pub in_folder : {A : Type 0} → Bytes → Exec S A → Exec S A
  unfolding top_level_key
  in_folder key body =
      let folder = top_level_key key in
      if is_empty folder then body else (d.lock folder >> (body >>= λ a. d.unlock folder >> pure a))

  abbrev pub decoded : Entry → JsValue × Err → Exec S (JsValue × Err)
  decoded e (v, some err) = pure (v, some err)
  decoded e (v, none) =
      deref v.kv
        λ kv. pure (record v { kv = some (with_mod_revision kv (int64_of e.revision)) }, none)

  -- A value that is nil is an empty JSValue; the value of an entry without data is taken as nil.
  unfoldable pub decode : Entry → Exec S (JsValue × Err)
  decode e = if is_empty e.value then pure (empty_value, none) else decoded e (d.unmarshal e.value)

  abbrev pub revision_of : (Status → ℕ) → Result Error Status → ℤ × Err
  revision_of f (failed e) = (pos 0, some e)
  revision_of f (ok status) = (int64_of (f status), none)

  unfoldable pub current_revision : Exec S (ℤ × Err)
  current_revision = map_result (revision_of (λ status. status.last_seq)) d.kv.status

  unfoldable pub compact_revision : Exec S (ℤ × Err)
  compact_revision = map_result (revision_of (λ status. status.first_seq)) d.kv.status

  abbrev pub size_of : Result Error Status → ℤ × Err
  size_of (failed e) = (negsuc 0, some e)
  size_of (ok status) = (int64_of status.size, none)

  unfoldable pub db_size : Exec S (ℤ × Err)
  db_size = map_result size_of d.kv.status

  -- A value whose lease is over is deleted. A failure to delete it is logged.
  unfoldable pub is_key_expired : ℤ → JsValue → Exec S Bool
  is_key_expired created value = d.now >>= λ request. deref value.kv λ kv.
      if ltb_ℤ (pos 0) kv.lease && is_after request created (lease_duration kv.lease)
      then (d.kv.delete kv.key >> pure true)
      else pure false

  abbrev pub unless_expired : JsValue → Bool → Exec S Found
  unless_expired v true = pure (pos 0, none, some Error.key_not_found)
  unless_expired v false = deref v.kv λ kv. pure (kv.mod_revision, some v, none)

  abbrev pub read_value : Bool → Entry → JsValue × Err → Exec S Found
  read_value include_deletes e (v, some err) = pure (pos 0, none, some err)
  read_value include_deletes e (v, none) =
      if v.delete && not include_deletes
      then pure (pos 0, none, some Error.key_not_found)
      else (is_key_expired e.created v >>= unless_expired v)

  abbrev pub read_entry : Bool → Result Error Entry → Exec S Found
  read_entry include_deletes (failed e) = pure (pos 0, none, some e)
  read_entry include_deletes (ok e) = decode e >>= read_value include_deletes e

  -- The compacted revision is only compared for the log.
  abbrev pub get_after : Bytes → ℤ → Bool → ℤ × Err → Exec S Found
  get_after key revision include_deletes (compact_rev, some e) = pure (pos 0, none, some e)
  get_after key revision include_deletes (compact_rev, none) =
      if leb_ℤ revision (pos 0)
      then d.kv.get key >>= read_entry include_deletes
      else (d.kv.get_revision key (uint64_of revision) >>= read_entry include_deletes)

  unfoldable pub get : Bytes → ℤ → Bool → Exec S Found
  unfolding compact_revision is_key_expired decode
  get key revision include_deletes = compact_revision >>= get_after key revision include_deletes

  abbrev pub get_answer : ℤ → Found → ℤ × Option KeyValue × Err
  get_answer current_rev (rev, none, none) = (current_rev, none, none)
  get_answer current_rev (rev, some v, none) = (rev, v.kv, none)
  get_answer current_rev (rev, v, some e) =
      if is_not_found e then (current_rev, none, none) else (rev, none, some e)

  abbrev pub get_at : Bytes → ℤ → ℤ × Err → Exec S (ℤ × Option KeyValue × Err)
  get_at key revision (current_rev, some e) = pure (current_rev, none, some e)
  get_at key revision (current_rev, none) =
      map_result (get_answer current_rev) (get key revision false)

  -- The driver's Get; the range end and the limit are not read.
  unfoldable pub get_kv : Bytes → Bytes → ℤ → ℤ → Exec S (ℤ × Option KeyValue × Err)
  unfolding current_revision get
  get_kv key range_end limit revision = current_revision >>= get_at key revision

  abbrev pub written : Result Error ℕ → ℤ × Err
  written (failed e) = (pos 0, some e)
  written (ok seq) = (int64_of seq, none)

  abbrev pub store_json : (Bytes → Exec S (Result Error ℕ)) → Result Error Bytes → Exec S (ℤ × Err)
  store_json write (failed e) = pure (pos 0, some e)
  store_json write (ok event) = map_result written (write event)

  abbrev pub store : (Bytes → Exec S (Result Error ℕ)) → JsValue → Exec S (ℤ × Err)
  store write v = store_json write (d.marshal v)

  abbrev pub create_new : Bytes → Bytes → ℤ → ℤ → Option JsValue → Exec S (ℤ × Err)
  create_new key value lease rev none = store (d.kv.create key) (create_value key value lease rev)
  create_new key value lease rev (some prev) =
      if not prev.delete
      then pure (pos 0, some Error.key_exists)
      else deref prev.kv λ kv. store (d.kv.put key) (create_value key value lease kv.mod_revision)

  abbrev pub create_after : Bytes → Bytes → ℤ → Found → Exec S (ℤ × Err)
  create_after key value lease (rev, prev, none) = create_new key value lease rev prev
  create_after key value lease (rev, prev, some e) =
      if is_not_found e then create_new key value lease rev prev else pure (pos 0, some e)

  unfoldable pub create : Bytes → Bytes → ℤ → Exec S (ℤ × Err)
  unfolding in_folder get
  create key value lease = in_folder key (get key (pos 0) true >>= create_after key value lease)

  -- A failure to write the event or the mark is a result that is not deleted, without an error.
  abbrev pub marked : ℤ → ℤ → Option KeyValue → Err → KvResult
  marked rev delete_rev kv none = (delete_rev, kv, true, none)
  marked rev delete_rev kv (some e) = (rev, kv, false, none)

  abbrev pub delete_stored : Bytes → ℤ → Option KeyValue → Result Error ℕ → Exec S KvResult
  delete_stored key rev kv (failed e) = pure (rev, kv, false, none)
  delete_stored key rev kv (ok seq) = map_result (marked rev (int64_of seq) kv) (d.kv.delete key)

  abbrev pub delete_json : Bytes → ℤ → Option KeyValue → Result Error Bytes → Exec S KvResult
  delete_json key rev kv (failed e) = pure (rev, none, false, some e)
  delete_json key rev kv (ok event) = d.kv.put key event >>= delete_stored key rev kv

  abbrev pub delete_event : Bytes → ℤ → Option KeyValue → Exec S KvResult
  delete_event key rev kv = delete_json key rev kv (d.marshal (delete_value rev kv))

  abbrev pub delete_at : Bytes → ℤ → ℤ → Option KeyValue → Exec S KvResult
  delete_at key revision rev kv =
      if revision ==ℤ pos 0
      then delete_event key rev kv
      else deref kv λ found.
        if not (found.mod_revision ==ℤ revision)
        then pure (rev, kv, false, none)
        else delete_event key rev kv

  abbrev pub delete_after : Bytes → ℤ → Found → Exec S KvResult
  delete_after key revision (rev, v, some e) =
      if is_not_found e then pure (rev, none, true, none) else pure (rev, none, false, some e)
  delete_after key revision (rev, none, none) = pure (rev, none, true, none)
  delete_after key revision (rev, some v, none) =
      if v.delete then pure (rev, v.kv, true, none) else delete_at key revision rev v.kv

  unfoldable pub delete : Bytes → ℤ → Exec S KvResult
  unfolding in_folder get
  delete key revision = in_folder key (get key (pos 0) true >>= delete_after key revision)

  abbrev pub updated : Option KeyValue → Result Error ℕ → Exec S KvResult
  updated kv (failed e) = pure (pos 0, none, false, some e)
  updated kv (ok seq) =
      deref kv λ new. pure (int64_of seq, some (with_mod_revision new (int64_of seq)), true, none)

  abbrev pub update_json : Bytes → Option KeyValue → Result Error Bytes → Exec S KvResult
  update_json key kv (failed e) = pure (pos 0, none, false, some e)
  update_json key kv (ok event) = d.kv.put key event >>= updated kv

  abbrev pub update_stored : Bytes → JsValue → Exec S KvResult
  update_stored key v = update_json key v.kv (d.marshal v)

  abbrev pub update_after : Bytes → Bytes → ℤ → ℤ → Found → Exec S KvResult
  update_after key value revision lease (rev, v, some e) =
      if is_not_found e then pure (rev, none, false, none) else pure (rev, none, false, some e)
  update_after key value revision lease (rev, none, none) = pure (pos 0, none, false, none)
  update_after key value revision lease (rev, some v, none) = deref v.kv λ kv.
      if not (kv.mod_revision ==ℤ revision)
      then pure (rev, v.kv, false, none)
      else update_stored key (update_value key value lease rev kv)

  unfoldable pub update : Bytes → Bytes → ℤ → ℤ → Exec S KvResult
  unfolding in_folder get
  update key value revision lease =
      in_folder key (get key (pos 0) false >>= update_after key value revision lease)

  abbrev pub health_key : Bytes
  health_key = codes "/registry/health"

  -- A failure to create the health key is logged and nothing else.
  unfoldable pub start : Exec S Err
  unfolding create
  start = map_result (λ _. none) (create health_key (codes "{\"health\":\"true\"}") (pos 0))
