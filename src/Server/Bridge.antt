-- ===== src/Server/Bridge.antt =====
-- kine/pkg/server: KVServerBridge of kv.go, lease.go, cluster.go and maintenance.go, the etcd
-- services over LimitedServer. The calls that are refused whatever they ask are `Refused`.
pub mod Guards
pub mod Authority
use thesis_code.Prelude.{
  Bytes, codes, has_prefix, has_suffix, ℤ, pos, ◌==ℤ◌, Bool, true, false, not, List, [], ◌∷◌, ◌++◌,
  map, length, take, drop, ◌-◌, ◌==◌, Option, none, some, Exec, pure, map_result, if◌then◌else◌,
}
use thesis_code.Etcd.{RangeRequest, EtcdRangeResponse, TxnRequest, ResponseHeader}
use thesis_code.Server.Types.{Error, Err, Backend}
use thesis_code.Server.Convert.{txn_header, to_kvs}
use thesis_code.Server.Range.{RangeReply, RangeResponse, range}
use thesis_code.Server.Limited.{Reply, txn}

abbrev pub BridgeReply : Type 0
BridgeReply = Option EtcdRangeResponse × Err

abbrev pub convert : RangeReply → BridgeReply
convert (resp, some e) = (none, some e)
convert (none, none) = (none, none)
convert (some resp, none) = (
  some (record {
    header = resp.header;
    kvs = to_kvs resp.kvs;
    more = resp.more;
    count = resp.count;
  }),
  none,
)

-- The first option of a range request that is set and not supported.
unfoldable pub unsupported_option : RangeRequest → Option Bytes
unsupported_option r =
    if r.keys_only
    then some (codes "keysOnly")
    else if not (r.max_create_revision ==ℤ pos 0)
    then some (codes "maxCreateRevision")
    else if not (r.sort_order ==ℤ pos 0)
    then some (codes "sortOrder")
    else if not (r.sort_target ==ℤ pos 0)
    then some (codes "sortTarget")
    else if r.serializable
    then some (codes "serializable")
    else if not (r.min_mod_revision ==ℤ pos 0)
    then some (codes "minModRevision")
    else if not (r.min_create_revision ==ℤ pos 0)
    then some (codes "minCreateRevision")
    else if not (r.max_create_revision ==ℤ pos 0)
    then some (codes "maxCreateRevision")
    else if not (r.max_mod_revision ==ℤ pos 0)
    then some (codes "maxModRevision")
    else none

module _ {S : Type 0} (backend : Backend S) where
  unfoldable pub bridge_range : RangeRequest → Exec S BridgeReply
  unfolding unsupported_option range
  bridge_range r = elim (unsupported_option r) [
    | some field ↦ pure (none, some (Error.unsupported field))
    | none ↦ map_result convert (range backend r)
  ]

  -- An error is logged and passed on.
  unfoldable pub bridge_txn : TxnRequest → Exec S Reply
  unfolding txn
  bridge_txn request = txn backend request

  -- Status: the size, or the backend's error.
  abbrev pub status_of : ℤ × Err → Option ℤ × Err
  status_of (size, some e) = (none, some e)
  status_of (size, none) = (some size, none)

  unfoldable pub status : Exec S (Option ℤ × Err)
  status = map_result status_of backend.db_size

-- Compact answers with the revision of the request and compacts nothing.
abbrev bridge_compact : ℤ → ResponseHeader
bridge_compact revision = txn_header revision

-- LeaseGrant: the time to live is the id of the lease, (ID, TTL).
abbrev lease_grant : ℤ → ℤ × ℤ
lease_grant ttl = (ttl, ttl)

data Refused : Type 0 where
  put delete_range : Refused
  lease_revoke lease_keep_alive lease_time_to_live lease_leases : Refused
  member_add member_remove member_update member_promote : Refused
  alarm defragment hash hash_kv snapshot move_leader downgrade : Refused

-- What these calls return beside nil.
abbrev refusal : Refused → Error
refusal Refused.put = Error.not_supported (codes "put is not supported")
refusal Refused.delete_range = Error.not_supported (codes "delete is not supported")
refusal Refused.lease_revoke = Error.not_supported (codes "lease revoke is not supported")
refusal Refused.lease_keep_alive = Error.not_supported (codes "lease keep alive is not supported")
refusal Refused.lease_time_to_live =
    Error.not_supported (codes "lease time to live is not supported")
refusal Refused.lease_leases = Error.not_supported (codes "lease leases is not supported")
refusal Refused.member_add = Error.not_supported (codes "member add is not supported")
refusal Refused.member_remove = Error.not_supported (codes "member remove is not supported")
refusal Refused.member_update = Error.not_supported (codes "member update is not supported")
refusal Refused.member_promote = Error.not_supported (codes "member promote is not supported")
refusal Refused.alarm = Error.not_supported (codes "alarm is not supported")
refusal Refused.defragment = Error.not_supported (codes "defragment is not supported")
refusal Refused.hash = Error.not_supported (codes "hash is not supported")
refusal Refused.hash_kv = Error.not_supported (codes "hash kv is not supported")
refusal Refused.snapshot = Error.not_supported (codes "snapshot is not supported")
refusal Refused.move_leader = Error.not_supported (codes "move leader is not supported")
refusal Refused.downgrade = Error.not_supported (codes "downgrade is not supported")

abbrev pub trim_prefix : Bytes → Bytes → Bytes
trim_prefix s prefix = if has_prefix s prefix then drop (length prefix) s else s

abbrev pub trim_suffix : Bytes → Bytes → Bytes
trim_suffix s suffix = if has_suffix s suffix then take (length s - length suffix) s else s

-- strings.ReplaceAll(s, ";", ",")
abbrev pub commas : Bytes → Bytes
commas = map (λ b. if b == 59 then 44 else b)

abbrev pub initially : Bytes
initially = codes "#initially=["

-- The URL of the host that the client connected to: `authorities` are the values of the header
-- :authority, none without metadata.
unfoldable pub authority_url : List Bytes → Bytes → Bytes
unfolding has_prefix has_suffix
authority_url [] scheme = scheme ++ (codes "://" ++ codes "127.0.0.1:2379")
authority_url (authority ∷ others) scheme =
    if has_prefix authority initially
    then commas (trim_suffix (trim_prefix authority initially) (codes "]"))
    else scheme ++ (codes "://" ++ authority)
