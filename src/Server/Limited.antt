-- ===== src/Server/Limited.antt =====
-- kine/pkg/server/limited.go with create.go, update.go, delete.go and compact.go: the transactions
-- that LimitedServer serves, over any Backend.
pub mod Dispatch
pub mod Replies
use thesis_code.Prelude.{
  Bytes, codes, ℤ, pos, ◌==ℤ◌, Bool, true, false, List, [], ◌∷◌, Option, none, some, Exec, pure,
  map_result, if◌then◌else◌,
}
use thesis_code.Etcd.{PutRequest, TxnRequest, TxnResponse, ResponseOp, EtcdKeyValue}
use thesis_code.Server.Types.{Error, KeyValue, Err, Backend}
use thesis_code.Server.Convert.{txn_header, to_kvs}
use thesis_code.Server.Classify.{is_create, is_update, is_delete, is_compact}

abbrev pub Reply : Type 0
Reply = Option TxnResponse × Err

abbrev pub fail : Error → Reply
fail e = (none, some e)

-- A range response with the values that are given and nothing else.
abbrev pub found_range : ℤ → List (Option KeyValue) → ResponseOp
found_range rev kvs =
    ResponseOp.response_range
      (record { header = txn_header rev; kvs = to_kvs kvs; more = false; count = pos 0 })

abbrev pub put_response : ℤ → TxnResponse
put_response rev = record {
  header = txn_header rev;
  succeeded = true;
  responses = ResponseOp.response_put (txn_header rev) ∷ [];
}

-- The comparison failed: the response shows the value that is there.
abbrev pub failed_response : ℤ → Option KeyValue → TxnResponse
failed_response rev kv = record {
  header = txn_header rev;
  succeeded = false;
  responses = found_range rev (kv ∷ []) ∷ [];
}

-- What create makes of the results of Backend.Create.
abbrev pub create_reply : ℤ × Err → Reply
create_reply (rev, some Error.key_exists) =
    (some (record { header = txn_header rev; succeeded = false; responses = [] }), none)
create_reply (rev, none) = (some (put_response rev), none)
create_reply (rev, some e) = fail e

abbrev pub update_reply : ℤ × Option KeyValue × Bool × Err → Reply
update_reply (rev, kv, ok, some e) = fail e
update_reply (rev, kv, true, none) = (some (put_response rev), none)
update_reply (rev, kv, false, none) = (some (failed_response rev kv), none)

-- An update from revision 0 creates the key, and counts as done.
abbrev pub created : ℤ × Err → Reply
created (rev, err) = update_reply (rev, none, true, err)

abbrev pub deleted_response : ℤ → Option KeyValue → TxnResponse
deleted_response rev kv = record {
  header = txn_header rev;
  succeeded = true;
  responses = ResponseOp.response_delete_range (txn_header rev) (to_kvs (kv ∷ [])) ∷ [];
}

abbrev pub delete_reply : ℤ × Option KeyValue × Bool × Err → Reply
delete_reply (rev, kv, ok, some e) = fail e
delete_reply (rev, kv, true, none) = (some (deleted_response rev kv), none)
delete_reply (rev, kv, false, none) = (some (failed_response rev kv), none)

-- compact answers that the comparison failed, so that the client leaves compaction alone.
pub compact_response : TxnResponse
compact_response = record {
  header = txn_header (pos 0);
  succeeded = false;
  responses =
      ResponseOp.response_range
        (record { header = txn_header (pos 0); kvs = blank ∷ []; more = false; count = pos 1 })
      ∷ [];
}
  where
    blank : EtcdKeyValue
    blank = record {
      key = [];
      create_revision = pos 0;
      mod_revision = pos 0;
      value = [];
      lease = pos 0;
    }

module _ {S : Type 0} (backend : Backend S) where
  unfoldable pub create : PutRequest → Exec S Reply
  create put =
      if put.ignore_lease
      then pure (fail (Error.unsupported (codes "ignoreLease")))
      else if put.ignore_value
      then pure (fail (Error.unsupported (codes "ignoreValue")))
      else if put.prev_kv
      then pure (fail (Error.unsupported (codes "prevKv")))
      else map_result create_reply (backend.create put.key put.value put.lease)

  unfoldable pub update : ℤ → Bytes → Bytes → ℤ → Exec S Reply
  update rev key value lease =
      if rev ==ℤ pos 0
      then map_result created (backend.create key value lease)
      else map_result update_reply (backend.update key value rev lease)

  unfoldable pub delete : Bytes → ℤ → Exec S Reply
  delete key revision = map_result delete_reply (backend.delete key revision)

  unfoldable pub txn : TxnRequest → Exec S Reply
  unfolding create update delete
  txn request = elim (is_create request) [
    | some put ↦ create put
    | none ↦ elim (is_delete request) [
      | some (rev, key) ↦ delete key rev
      | none ↦ elim (is_update request) [
        | some (rev, key, value, lease) ↦ update rev key value lease
        | none ↦
            if is_compact request
            then pure (some compact_response, none)
            else pure (fail (Error.unsupported (codes "transaction")))
      ]
    ]
  ]
