-- ===== src/Server/Types.antt =====
-- kine/pkg/server/types.go: the records that pass between the layers, the errors, and the
-- interfaces Backend, Dialect and Transaction as records of operations over a state `S`. Every
-- operation may change the state: it stands for the database, the other clients that write to it
-- between two calls, and the channels.
use thesis_code.Prelude.{Bytes, ℤ, Bool, List, Option, Exec}

-- The errors that the code makes or compares. `external` is an error of a library or the network,
-- and `wrapped` an error behind a message (errors.Wrap), which equals no other error.
-- `key_not_found` and `invalid_key` are ErrKeyNotFound and ErrInvalidKey of the NATS library.
pub data Error : Type 0 where
  key_exists compacted dds_failed key_not_found invalid_key : Error
  unsupported : Bytes → Error
  not_supported : Bytes → Error
  invalid : Bytes → Error
  external : Bytes → Error
  wrapped : Bytes → Error → Error

pub record KeyValue : Type 0 where
  pub key : Bytes
  pub create_revision : ℤ
  pub mod_revision : ℤ
  pub value : Bytes
  pub lease : ℤ

-- The pointers KV and PrevKV may be nil.
pub record Event : Type 0 where
  pub delete : Bool
  pub create : Bool
  pub kv : Option KeyValue
  pub prev_kv : Option KeyValue

-- messagestructures.QueryGenericRow: one row of the log table, as the database sends it.
pub record QueryGenericRow : Type 0 where
  pub max_id : ℤ
  pub compaction_prev_revision : ℤ
  pub theid : ℤ
  pub name : Bytes
  pub created : ℤ
  pub deleted : ℤ
  pub create_revision : ℤ
  pub prev_revision : ℤ
  pub lease : ℤ
  pub value : Bytes
  pub old_value : Bytes

-- A Go result list (…, error).
abbrev pub Err : Type 0
Err = Option Error

pub record Backend (S : Type 0) : Type 0 where
  pub start : Exec S Err
  pub get : Bytes → Bytes → ℤ → ℤ → Exec S (ℤ × Option KeyValue × Err)
  pub create : Bytes → Bytes → ℤ → Exec S (ℤ × Err)
  pub delete : Bytes → ℤ → Exec S (ℤ × Option KeyValue × Bool × Err)
  pub list : Bytes → Bytes → ℤ → ℤ → Exec S (ℤ × List (Option KeyValue) × Err)
  pub count : Bytes → Exec S (ℤ × ℤ × Err)
  pub update : Bytes → Bytes → ℤ → ℤ → Exec S (ℤ × Option KeyValue × Bool × Err)
  pub db_size : Exec S (ℤ × Err)

pub record Transaction (S : Type 0) : Type 0 where
  pub commit : Exec S Err
  pub get_compact_revision : Exec S (ℤ × Err)
  pub set_compact_revision : ℤ → Exec S Err
  pub compact : ℤ → Exec S (ℤ × Err)
  pub delete_revision : ℤ → Exec S Err
  pub current_revision : Exec S (ℤ × Err)
  pub must_commit : Exec S (Unit {0})
  pub must_rollback : Exec S (Unit {0})

pub record Dialect (S : Type 0) : Type 0 where
  pub list_current : Bytes → ℤ → Bool → Exec S (List QueryGenericRow × Err)
  pub list : Bytes → Bytes → ℤ → ℤ → Bool → Exec S (List QueryGenericRow × Err)
  pub count : Bytes → Exec S (ℤ × ℤ × Err)
  pub current_revision : Exec S (ℤ × Err)
  pub after : Bytes → ℤ → ℤ → Exec S (List QueryGenericRow × Err)
  pub insert : Bytes → Bool → Bool → ℤ → ℤ → ℤ → Bytes → Bytes → Exec S (ℤ × Err)
  pub delete_revision : ℤ → Exec S Err
  pub get_compact_revision : Exec S (ℤ × Err)
  pub set_compact_revision : ℤ → Exec S Err
  pub compact : ℤ → Exec S (ℤ × Err)
  pub post_compact : Exec S Err
  pub fill : ℤ → Exec S Err
  pub is_fill : Bytes → Bool
  -- The transaction is an interface value, which may be nil.
  pub begin_tx : Exec S (Option (Transaction S) × Err)
  pub get_size : Exec S (ℤ × Err)
