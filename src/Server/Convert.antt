-- ===== src/Server/Convert.antt =====
-- kine/pkg/server: toKV and toKVs of kv.go, toEvent and toEvents of watch.go, txnHeader of
-- limited.go.
use thesis_code.Prelude.{ℤ, List, [], ◌∷◌, map, Option, none, some, ◌≡◌, refl, ap, if◌then◌else◌}
use thesis_code.Etcd.{EtcdKeyValue, EtcdEvent, EventType, ResponseHeader}
use thesis_code.Server.Types.{KeyValue, Event}

abbrev pub txn_header : ℤ → ResponseHeader
txn_header rev = record { revision = rev }

abbrev pub to_kv_at : KeyValue → EtcdKeyValue
to_kv_at kv = record {
  key = kv.key;
  create_revision = kv.create_revision;
  mod_revision = kv.mod_revision;
  value = kv.value;
  lease = kv.lease;
}

unfoldable pub to_kv : Option KeyValue → Option EtcdKeyValue
to_kv none = none
to_kv (some kv) = some (to_kv_at kv)

-- The loop of toKVs: nil entries are left out.
unfoldable pub append_kvs : List (Option KeyValue) → List EtcdKeyValue
append_kvs [] = []
append_kvs (none ∷ kvs) = append_kvs kvs
append_kvs (some kv ∷ kvs) = to_kv_at kv ∷ append_kvs kvs

-- A list that begins with nil is answered by nil at once.
unfoldable pub to_kvs : List (Option KeyValue) → List EtcdKeyValue
unfolding append_kvs
to_kvs [] = []
to_kvs (none ∷ kvs) = []
to_kvs (some kv ∷ kvs) = append_kvs (some kv ∷ kvs)

abbrev pub to_event : Event → EtcdEvent
unfolding to_kv
to_event event = record {
  type = if event.delete then EventType.delete else EventType.put;
  kv = to_kv event.kv;
  prev_kv = to_kv event.prev_kv;
}

abbrev pub to_events : List Event → List EtcdEvent
to_events [] = []
to_events (e ∷ events) = to_event e ∷ to_events events

append_kvs-some : (kvs : List KeyValue) → append_kvs (map some kvs) ≡ map to_kv_at kvs
unfolding append_kvs
append_kvs-some [] = refl
append_kvs-some (kv ∷ kvs) = ap (◌∷◌ (to_kv_at kv)) (append_kvs-some kvs)

-- On a list without nil entries toKVs converts every entry and keeps the order.
pub to_kvs-some : (kvs : List KeyValue) → to_kvs (map some kvs) ≡ map to_kv_at kvs
unfolding to_kvs append_kvs
to_kvs-some [] = refl
to_kvs-some (kv ∷ kvs) = append_kvs-some (kv ∷ kvs)
