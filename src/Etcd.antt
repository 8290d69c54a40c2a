-- ===== src/Etcd.antt =====
-- The messages of the etcd protocol (package etcdserverpb and mvccpb) as the server reads and
-- writes them. Only the fields that kine/pkg/server mentions are kept. A oneof is a data type; the
-- field `mod_revision` of a comparison is what the generated getter GetModRevision() returns.
use thesis_code.Prelude.{Bytes, ℤ, Bool, List, Option}

pub data CompareTarget : Type 0 where
  version create modification value lease : CompareTarget

pub data CompareResult : Type 0 where
  equal greater less not_equal : CompareResult

pub record Compare : Type 0 where
  pub result : CompareResult
  pub target : CompareTarget
  pub key : Bytes
  pub mod_revision : ℤ

pub record RangeRequest : Type 0 where
  pub key : Bytes
  pub range_end : Bytes
  pub limit : ℤ
  pub revision : ℤ
  pub sort_order : ℤ
  pub sort_target : ℤ
  pub serializable : Bool
  pub keys_only : Bool
  pub count_only : Bool
  pub min_mod_revision : ℤ
  pub max_mod_revision : ℤ
  pub min_create_revision : ℤ
  pub max_create_revision : ℤ

pub record PutRequest : Type 0 where
  pub key : Bytes
  pub value : Bytes
  pub lease : ℤ
  pub prev_kv : Bool
  pub ignore_value : Bool
  pub ignore_lease : Bool

pub record DeleteRangeRequest : Type 0 where
  pub key : Bytes
  pub range_end : Bytes
  pub prev_kv : Bool

pub data RequestOp : Type 0 where
  request_range : RangeRequest → RequestOp
  request_put : PutRequest → RequestOp
  request_delete_range : DeleteRangeRequest → RequestOp
  request_txn : RequestOp

pub record TxnRequest : Type 0 where
  pub compare : List Compare
  pub success : List RequestOp
  pub failure : List RequestOp

-- mvccpb.KeyValue
pub record EtcdKeyValue : Type 0 where
  pub key : Bytes
  pub create_revision : ℤ
  pub mod_revision : ℤ
  pub value : Bytes
  pub lease : ℤ

pub data EventType : Type 0 where
  put delete : EventType

-- mvccpb.Event
pub record EtcdEvent : Type 0 where
  pub type : EventType
  pub kv : Option EtcdKeyValue
  pub prev_kv : Option EtcdKeyValue

-- The header carries the revision alone.
pub record ResponseHeader : Type 0 where
  pub revision : ℤ

pub record EtcdRangeResponse : Type 0 where
  pub header : ResponseHeader
  pub kvs : List EtcdKeyValue
  pub more : Bool
  pub count : ℤ

pub data ResponseOp : Type 0 where
  response_range : EtcdRangeResponse → ResponseOp
  response_put : ResponseHeader → ResponseOp
  response_delete_range : ResponseHeader → List EtcdKeyValue → ResponseOp

pub record TxnResponse : Type 0 where
  pub header : ResponseHeader
  pub succeeded : Bool
  pub responses : List ResponseOp
