-- ===== src/Tests/Servers.antt =====
-- Requests to the server over a backend that counts its writes.
use thesis_code.Prelude.{
  ℕ, suc, Bytes, codes, pos, Returns, ◌≡◌, refl, arith, Option, none, some, true, false, List, [],
  ◌∷◌, ◌++◌, returned, pure, map_result, length, ◌≤◌, ◌<◌, ◌↔◌,
}
use thesis_code.Etcd.{RangeRequest}
use thesis_code.Server.Types.{KeyValue, Event, Backend}
use thesis_code.Server.Limited.{txn, create_reply, update_reply, delete_reply, compact_response}
use thesis_code.Server.Limited.Dispatch.{
  IsExclusive, forms-IsExclusive, txn_client_forms, create_txn, update_txn, delete_txn, compact_txn,
}
use thesis_code.Server.Limited.Replies.{IsConsistent, txn-IsConsistent}
use thesis_code.Server.Range.{list_limit, list_response}
use thesis_code.Server.Range.Paging.{list_page}
use thesis_code.Server.Watch.{Watcher, serve, created, canceled}
use thesis_code.Server.Watch.Sending.{Client, record_response, responses, ended, serve_sends}

abbrev backend : Backend ℕ
backend = record {
  start = pure none;
  get = λ key range_end limit revision. pure (pos 7, none, none);
  create = λ key value lease n. returned ((pos (suc n), none), suc n);
  delete = λ key revision n. returned ((pos n, none, false, none), n);
  list = λ prefix start_key limit revision. pure (pos 7, [], none);
  count = λ prefix. pure (pos 7, pos 0, none);
  update = λ key value revision lease n. returned ((pos (suc n), none, true, none), suc n);
  db_size = pure (pos 0, none);
}

abbrev key_a : Bytes
key_a = codes "/pods/a"

forms-IsExclusive_example : IsExclusive (create_txn key_a (codes "v") (pos 0))
forms-IsExclusive_example = forms-IsExclusive (create_txn key_a (codes "v") (pos 0))

txn_client_forms_example :
    (txn backend (create_txn key_a (codes "v") (pos 0))
      ≡ map_result create_reply (backend.create key_a (codes "v") (pos 0)))
    × (txn backend (update_txn key_a (pos 4) (codes "v") (pos 0))
        ≡ map_result update_reply (backend.update key_a (codes "v") (pos 4) (pos 0)))
    × (txn backend (delete_txn key_a (pos 4))
        ≡ map_result delete_reply (backend.delete key_a (pos 4)))
    × (txn backend (compact_txn (pos 4) (codes "v")) ≡ pure (some compact_response, none))
txn_client_forms_example = txn_client_forms backend key_a (codes "v") (pos 4) (pos 0)

txn-IsConsistent_example :
    Returns IsConsistent (txn backend (update_txn key_a (pos 4) (codes "v") (pos 0)) 8)
txn-IsConsistent_example =
    txn-IsConsistent backend
      (record {
        create_lem = λ key value lease s. tt;
        update_lem = λ key value rev lease s. tt;
        delete_lem = λ key rev s. tt;
      })
      8 (update_txn key_a (pos 4) (codes "v") (pos 0))

abbrev kv_a : KeyValue
kv_a = record {
  key = key_a;
  create_revision = pos 4;
  mod_revision = pos 4;
  value = codes "v";
  lease = pos 0;
}

abbrev three : List (Option KeyValue)
three = some kv_a ∷ some kv_a ∷ some kv_a ∷ []

list_page_example :
    let resp = list_response (list_limit (pos 2)) (pos 2) (pos 9) three in
    (resp.kvs ≡ some kv_a ∷ some kv_a ∷ [])
    × (length resp.kvs ≤ 2)
    × ((resp.more ≡ true) ↔ (2 < 3))
    × (resp.count ≡ pos 3)
    × (resp.header.revision ≡ pos 9)
list_page_example = list_page 2 (pos 9) three (omega arith) (omega arith)

abbrev count_pods : RangeRequest
count_pods = record {
  key = codes "/pods/";
  range_end = codes "/pods0";
  limit = pos 0;
  revision = pos 0;
  sort_order = pos 0;
  sort_target = pos 0;
  serializable = false;
  keys_only = false;
  count_only = true;
  min_mod_revision = pos 0;
  max_mod_revision = pos 0;
  min_create_revision = pos 0;
  max_create_revision = pos 0;
}

abbrev keys_only_pods : RangeRequest
keys_only_pods = record count_pods { keys_only = true }

abbrev event_a : Event
event_a = record { delete = false; create = true; kv = some kv_a; prev_kv = none }

abbrev watcher : Watcher Client
watcher = record { watch_id = pos 1; watches = pos 1 ∷ []; cancelled = []; client = [] }

serve_sends_example :
    serve record_response (pos 1) ((event_a ∷ []) ∷ [] ∷ []) watcher
    ≡ ended (pos 1) watcher (
        []
        ++ (created (pos 1) ∷ responses (pos 1) ((event_a ∷ []) ∷ [] ∷ [])
            ++ canceled (pos 1) ∷ []))
serve_sends_example =
    serve_sends (pos 1) ((event_a ∷ []) ∷ [] ∷ []) watcher (((kv_a, refl), tt), (tt, tt))
