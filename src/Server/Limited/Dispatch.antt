-- ===== src/Server/Limited/Dispatch.antt =====
-- The order in which LimitedServer.Txn tries the four forms of transaction does not matter, and the
-- transactions of the Kubernetes etcd3 client reach the operations that they mean.
use thesis_code.Prelude.{
  Bytes, bytes_eq, ℤ, pos, ◌==ℤ◌, false, List, [], ◌∷◌, none, some, pure, map_result, ◌≡◌, ◌⊎◌,
  refl, arith, if◌then◌else◌,
}
use thesis_code.Etcd.{Compare, CompareTarget, CompareResult, RequestOp, TxnRequest}
use thesis_code.Server.Types.{Backend}
use thesis_code.Server.Classify.{is_create, is_update, is_delete, is_compact, compact_rev_key}
use thesis_code.Server.Limited.{
  create_reply, update_reply, delete_reply, created, compact_response, txn,
}

abbrev pub IsExclusive : TxnRequest → Type 0
IsExclusive request =
    ((is_create request ≡ none) ⊎ (is_delete request ≡ none))
    × ((is_create request ≡ none) ⊎ (is_update request ≡ none))
    × ((is_create request ≡ none) ⊎ (is_compact request ≡ false))
    × ((is_delete request ≡ none) ⊎ (is_update request ≡ none))
    × ((is_delete request ≡ none) ⊎ (is_compact request ≡ false))
    × ((is_update request ≡ none) ⊎ (is_compact request ≡ false))

IsExclusive-parts :
    (cs : List Compare) (ss fs : List RequestOp)
    → IsExclusive (record { compare = cs; success = ss; failure = fs })
unfolding is_create is_delete is_update is_compact
IsExclusive-parts cs ss fs = ground arith

-- Of two different recognisers, at most one accepts a transaction.
pub forms-IsExclusive : (request : TxnRequest) → IsExclusive request
forms-IsExclusive request = IsExclusive-parts request.compare request.success request.failure

-- The transactions that k8s.io/apiserver's etcd3 store sends.
abbrev pub compares : CompareTarget → Bytes → ℤ → List Compare
compares target key rev =
    record { result = CompareResult.equal; target = target; key = key; mod_revision = rev } ∷ []

abbrev pub puts : Bytes → Bytes → ℤ → RequestOp
puts key value lease = RequestOp.request_put (record {
  key = key;
  value = value;
  lease = lease;
  prev_kv = false;
  ignore_value = false;
  ignore_lease = false;
})

abbrev pub reads : Bytes → RequestOp
reads key = RequestOp.request_range (record {
  key = key;
  range_end = [];
  limit = pos 0;
  revision = pos 0;
  sort_order = pos 0;
  sort_target = pos 0;
  serializable = false;
  keys_only = false;
  count_only = false;
  min_mod_revision = pos 0;
  max_mod_revision = pos 0;
  min_create_revision = pos 0;
  max_create_revision = pos 0;
})

abbrev pub removes : Bytes → RequestOp
removes key = RequestOp.request_delete_range (record { key = key; range_end = []; prev_kv = false })

abbrev pub create_txn : Bytes → Bytes → ℤ → TxnRequest
create_txn key value lease = record {
  compare = compares CompareTarget.modification key (pos 0);
  success = puts key value lease ∷ [];
  failure = [];
}

abbrev pub update_txn : Bytes → ℤ → Bytes → ℤ → TxnRequest
update_txn key rev value lease = record {
  compare = compares CompareTarget.modification key rev;
  success = puts key value lease ∷ [];
  failure = reads key ∷ [];
}

abbrev pub delete_txn : Bytes → ℤ → TxnRequest
delete_txn key rev = record {
  compare = compares CompareTarget.modification key rev;
  success = removes key ∷ [];
  failure = reads key ∷ [];
}

abbrev pub compact_txn : ℤ → Bytes → TxnRequest
compact_txn rev value = record {
  compare = compares CompareTarget.version compact_rev_key rev;
  success = puts compact_rev_key value (pos 0) ∷ [];
  failure = reads compact_rev_key ∷ [];
}

module _ {S : Type 0} (backend : Backend S) (key value : Bytes) (rev lease : ℤ) where
  -- The transaction that the client sends to create, to update at a revision, or to delete at a
  -- revision calls Backend.Create, Backend.Update (Backend.Create at revision 0) or Backend.Delete
  -- on that key, once, and its reply is made from the results of that call. The transaction that
  -- records a compaction is answered without a call to the backend.
  pub txn_client_forms :
      (txn backend (create_txn key value lease)
        ≡ map_result create_reply (backend.create key value lease))
      × (txn backend (update_txn key rev value lease) ≡ (
          if rev ==ℤ pos 0
          then map_result created (backend.create key value lease)
          else map_result update_reply (backend.update key value rev lease)))
      × (txn backend (delete_txn key rev) ≡ map_result delete_reply (backend.delete key rev))
      × (txn backend (compact_txn rev value) ≡ pure (some compact_response, none))
  unfolding txn is_create is_update is_delete is_compact bytes_eq
  txn_client_forms = (refl, ground arith, refl, refl)
