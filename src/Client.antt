-- ===== src/Client.antt =====
-- kine/pkg/client/client.go: the wrapper of the etcd client. The etcd client itself is a parameter:
-- a read of one key, a read of a prefix at a revision, and a transaction of the comparisons, the
-- operations behind Then and those behind Else.
pub mod Writes
use thesis_code.Prelude.{
  Bytes, codes, ℤ, pos, ◌==ℤ◌, Bool, true, false, List, [], ◌∷◌, ◌++◌, map, Option, none, some,
  Exec, pure, panic, map_result, ◌>>=◌, if◌then◌else◌,
}
use thesis_code.Etcd.{EtcdKeyValue, EtcdRangeResponse}
use thesis_code.Server.Types.{Error, Err}
use thesis_code.Server.Limited.{Reply}
use thesis_code.Generic.Text.{format_int}

-- Compare(ModRevision(key), "=", revision)
pub record Comparison : Type 0 where
  pub key : Bytes
  pub revision : ℤ

pub data Op : Type 0 where
  op_put : Bytes → Bytes → Op
  op_get op_delete : Bytes → Op

pub record EtcdClient (S : Type 0) : Type 0 where
  pub get : Bytes → Exec S (Option EtcdRangeResponse × Err)
  pub get_prefix : Bytes → ℤ → Exec S (Option EtcdRangeResponse × Err)
  pub commit : List Comparison → List Op → List Op → Exec S Reply

pub record Value : Type 0 where
  pub key : Bytes
  pub content : Bytes
  pub modified : ℤ

abbrev pub value_of : EtcdKeyValue → Value
value_of kv = record { key = kv.key; content = kv.value; modified = kv.mod_revision }

-- fmt.Errorf and errors.New
abbrev pub not_found : Error
not_found = Error.invalid (codes "etcdwrapper: key not found")

abbrev pub key_exists : Error
key_exists = Error.invalid (codes "key exists")

abbrev pub mismatch : ℤ → Error
mismatch revision =
    Error.invalid (codes "revision " ++ (format_int revision ++ codes " doesnt match"))

-- Without an error a response is read, which panics if it is nil.
abbrev pub listed : {S : Type 0} → Option EtcdRangeResponse × Err → Exec S (List Value × Err)
listed (resp, some e) = pure ([], some e)
listed (none, none) = panic
listed (some resp, none) = pure (map value_of resp.kvs, none)

-- The value of the one key of a response; the zero value beside an error is not modelled apart.
abbrev pub sole_value : List EtcdKeyValue → Option Value × Err
sole_value (kv ∷ []) = (some (value_of kv), none)
sole_value [] = (none, some not_found)
sole_value (kv ∷ kv' ∷ kvs) = (none, some not_found)

abbrev pub got : {S : Type 0} → Option EtcdRangeResponse × Err → Exec S (Option Value × Err)
got (resp, some e) = pure (none, some e)
got (none, none) = panic
got (some resp, none) = pure (sole_value resp.kvs)

abbrev pub committed : {S : Type 0} → Error → Reply → Exec S Err
committed e (resp, some e') = pure (some e')
committed e (none, none) = panic
committed e (some resp, none) = pure (if resp.succeeded then none else some e)

module _ {S : Type 0} (c : EtcdClient S) where
  unfoldable pub list : Bytes → ℤ → Exec S (List Value × Err)
  list key rev = c.get_prefix key rev >>= listed

  unfoldable pub get : Bytes → Exec S (Option Value × Err)
  get key = c.get key >>= got

  unfoldable pub create : Bytes → Bytes → Exec S Err
  create key value =
      c.commit (record { key = key; revision = pos 0 } ∷ []) (Op.op_put key value ∷ []) []
      >>= committed key_exists

  unfoldable pub update : Bytes → ℤ → Bytes → Exec S Err
  update key revision value =
      c.commit (record { key = key; revision = revision } ∷ []) (Op.op_put key value ∷ [])
        (Op.op_get key ∷ [])
      >>= committed (mismatch revision)

  unfoldable pub delete : Bytes → ℤ → Exec S Err
  delete key revision =
      c.commit (record { key = key; revision = revision } ∷ []) (Op.op_delete key ∷ [])
        (Op.op_get key ∷ [])
      >>= committed (mismatch revision)

  abbrev pub put_value : Bytes → Bytes → Option Value × Err → Exec S Err
  put_value key value (found, some e) = pure (some e)
  put_value key value (none, none) = create key value
  put_value key value (some found, none) =
      if found.modified ==ℤ pos 0 then create key value else update key found.modified value

  unfoldable pub put : Bytes → Bytes → Exec S Err
  unfolding get create update
  put key value = get key >>= put_value key value
