-- ===== src/Tests/Clients.antt =====
-- The client in front of a server whose backend counts its writes, and endpoints.
use thesis_code.Prelude.{
  ℕ, suc, Bytes, codes, pos, true, false, List, [], ◌∷◌, map, none, some, returned, pure,
  map_result, ◌≡◌, refl,
}
use thesis_code.Etcd.{RequestOp, CompareTarget, TxnRequest}
use thesis_code.Server.Types.{Error, Backend}
use thesis_code.Server.Limited.{txn}
use thesis_code.Server.Limited.Dispatch.{compares, puts, reads, removes}
use thesis_code.Client.{
  Comparison, Op, op_put, op_get, op_delete, EtcdClient, not_found, create, update, delete, put,
}
use thesis_code.Client.Writes.{Reaches, create_error, write_error, client_writes, put_missing}
use thesis_code.Endpoint.{Config}

abbrev backend : Backend ℕ
backend = record {
  start = pure none;
  get = λ key range_end limit revision. pure (pos 7, none, none);
  create = λ key value lease n. returned ((pos (suc n), none), suc n);
  delete = λ key revision n. returned ((pos n, none, false, none), n);
  list = λ prefix start_key limit revision. pure (pos 7, [], none);
  count = λ prefix. pure (pos 7, pos 0, none);
  update = λ key value revision lease n. returned ((pos (suc n), none, true, none), suc n);
  db_size = pure (pos 0, none);
}

abbrev to_op : Op → RequestOp
to_op (op_put key value) = puts key value (pos 0)
to_op (op_get key) = reads key
to_op (op_delete key) = removes key

abbrev to_request : List Comparison → List Op → List Op → TxnRequest
to_request [] thens elses = record {
  compare = [];
  success = map to_op thens;
  failure = map to_op elses;
}
to_request (c ∷ cs) thens elses = record {
  compare = compares CompareTarget.modification c.key c.revision;
  success = map to_op thens;
  failure = map to_op elses;
}

-- No key has a value.
abbrev client : EtcdClient ℕ
client = record {
  get = λ key. pure (
    some (record { header = record { revision = pos 7 }; kvs = []; more = false; count = pos 0 }),
    none,
  );
  get_prefix = λ key revision. pure (none, some (Error.external []));
  commit = λ cs thens elses. txn backend (to_request cs thens elses);
}

client-Reaches : Reaches client backend
client-Reaches = record {
  sends_create = λ key value s. refl;
  sends_update = λ key revision value s. refl;
  sends_delete = λ key revision s. refl;
}

abbrev key_a : Bytes
key_a = codes "/pods/a"

client_writes_example :
    (create client key_a (codes "v") 8
      ≡ map_result create_error (backend.create key_a (codes "v") (pos 0)) 8)
    × (update client key_a (pos 4) (codes "v") 8
        ≡ map_result (write_error (pos 4)) (backend.update key_a (codes "v") (pos 4) (pos 0)) 8)
    × (delete client key_a (pos 4) 8
        ≡ map_result (write_error (pos 4)) (backend.delete key_a (pos 4)) 8)
client_writes_example = client_writes client backend client-Reaches key_a (codes "v") (pos 4) 8 refl

put_missing_example : put client key_a (codes "v") 8 ≡ returned (some not_found, 8)
put_missing_example =
    put_missing client key_a (codes "v")
      (record { header = record { revision = pos 7 }; kvs = []; more = false; count = pos 0 }) 8 8
      refl refl

abbrev config : Config
config = record { listener = codes "tcp://:2379"; cert_file = codes "c"; key_file = codes "k" }
