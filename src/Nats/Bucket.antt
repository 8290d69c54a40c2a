-- ===== src/Nats/Bucket.antt =====
-- The interface nats.KeyValue, as far as the driver uses it, and kine/pkg/drivers/nats/kv/kv.go:
-- EncodedKV, a bucket whose keys and values pass through codecs. A watcher is the list of what it
-- sends, where `none` is the nil after the first values.
pub mod Contract
pub mod Refinement
use thesis_code.Prelude.{
  ℕ, Bytes, ℤ, Bool, List, [], ◌∷◌, map, Option, none, some, Result, ok, failed, Exec, pure,
  map_result, ◌>>=◌,
}
use thesis_code.Server.Types.{Error, Err}
use thesis_code.Nats.Codec.{KeyCodec, ValueCodec}

pub data Operation : Type 0 where
  key_value_put key_value_delete key_value_purge : Operation

-- nats.KeyValueEntry. `created` is in nanoseconds.
pub record Entry : Type 0 where
  pub key : Bytes
  pub value : Bytes
  pub revision : ℕ
  pub created : ℤ
  pub operation : Operation

-- nats.KeyValueStatus: the first and the last sequence number of the stream, and its bytes.
pub record Status : Type 0 where
  pub first_seq : ℕ
  pub last_seq : ℕ
  pub size : ℕ

pub record Watcher (S : Type 0) : Type 0 where
  pub updates : List (Option Entry)
  pub stop : Exec S Err

-- A watch ignores deletions; the flag asks for the keys without their values.
pub record Bucket (S : Type 0) : Type 0 where
  pub get : Bytes → Exec S (Result Error Entry)
  pub get_revision : Bytes → ℕ → Exec S (Result Error Entry)
  pub put : Bytes → Bytes → Exec S (Result Error ℕ)
  pub create : Bytes → Bytes → Exec S (Result Error ℕ)
  pub update : Bytes → Bytes → ℕ → Exec S (Result Error ℕ)
  pub delete : Bytes → Exec S Err
  pub purge : Bytes → Exec S Err
  pub watch : Bytes → Bool → Exec S (Result Error (Watcher S))
  pub history : Bytes → Exec S (Result Error (List Entry))
  pub keys : Exec S (Result Error (List Bytes))
  pub status : Exec S (Result Error Status)

abbrev pub map_ok : {A B : Type 0} → (A → B) → Result Error A → Result Error B
map_ok f (failed e) = failed e
map_ok f (ok a) = ok (f a)

-- A call that needs the value of the call before it.
abbrev pub try_ok :
    {S A B : Type 0} → Result Error A → (A → Exec S (Result Error B)) → Exec S (Result Error B)
try_ok (failed e) f = pure (failed e)
try_ok (ok a) f = f a

abbrev pub try_err : {S A : Type 0} → Result Error A → (A → Exec S Err) → Exec S Err
try_err (failed e) f = pure (some e)
try_err (ok a) f = f a

-- What was written to the buffer, unless there was an error.
abbrev pub buffered : Bytes × Err → Result Error Bytes
buffered (bytes, none) = ok bytes
buffered (bytes, some e) = failed e

module _ (key_codec : KeyCodec) (value_codec : ValueCodec) where
  -- Key and Value log an error of the codec: the key is then empty, the value what was written.
  abbrev pub entry_key : Result Error Bytes → Bytes
  entry_key (failed e) = []
  entry_key (ok key) = key

  unfoldable pub decoded_entry : Entry → Entry
  decoded_entry e = record {
    key = entry_key (key_codec.decode e.key);
    value = (value_codec.decode e.value).0;
    revision = e.revision;
    created = e.created;
    operation = e.operation;
  }

  abbrev pub decoded_update : Option Entry → Option Entry
  decoded_update none = none
  decoded_update (some e) = some (decoded_entry e)

  unfoldable pub new_watcher : {S : Type 0} → Watcher S → Watcher S
  unfolding decoded_entry
  new_watcher w = record { updates = map decoded_update w.updates; stop = w.stop }

  -- A key that cannot be decoded is logged, and stands in the list as the empty key.
  unfoldable pub decoded_keys : List Bytes → List Bytes
  decoded_keys [] = []
  decoded_keys (key ∷ keys) = entry_key (key_codec.decode key) ∷ decoded_keys keys

  module _ {S : Type 0} (bucket : Bucket S) where
    unfoldable pub get : Bytes → Exec S (Result Error Entry)
    unfolding decoded_entry
    get key = try_ok (key_codec.encode key) λ ek. map_result (map_ok decoded_entry) (bucket.get ek)

    unfoldable pub get_revision : Bytes → ℕ → Exec S (Result Error Entry)
    unfolding decoded_entry
    get_revision key revision =
        try_ok (key_codec.encode key)
          λ ek. map_result (map_ok decoded_entry) (bucket.get_revision ek revision)

    unfoldable pub put : Bytes → Bytes → Exec S (Result Error ℕ)
    put key value =
        try_ok (key_codec.encode key)
          λ ek. try_ok (buffered (value_codec.encode value)) λ buf. bucket.put ek buf

    unfoldable pub create : Bytes → Bytes → Exec S (Result Error ℕ)
    create key value =
        try_ok (key_codec.encode key)
          λ ek. try_ok (buffered (value_codec.encode value)) λ buf. bucket.create ek buf

    unfoldable pub update : Bytes → Bytes → ℕ → Exec S (Result Error ℕ)
    update key value last =
        try_ok (key_codec.encode key)
          λ ek. try_ok (buffered (value_codec.encode value)) λ buf. bucket.update ek buf last

    unfoldable pub delete : Bytes → Exec S Err
    delete key = try_err (key_codec.encode key) λ ek. bucket.delete ek

    unfoldable pub purge : Bytes → Exec S Err
    purge key = try_err (key_codec.encode key) λ ek. bucket.purge ek

    unfoldable pub watch : Bytes → Bool → Exec S (Result Error (Watcher S))
    unfolding new_watcher
    watch keys meta_only =
        try_ok (key_codec.encode_range keys)
          λ ek. map_result (map_ok new_watcher) (bucket.watch ek meta_only)

    unfoldable pub history : Bytes → Exec S (Result Error (List Entry))
    unfolding decoded_entry
    history key =
        try_ok (key_codec.encode key)
          λ ek. map_result (map_ok (map decoded_entry)) (bucket.history ek)

    unfoldable pub keys : Exec S (Result Error (List Bytes))
    unfolding decoded_keys
    keys = map_result (map_ok decoded_keys) bucket.keys

    unfoldable pub encoded_kv : Bucket S
    unfolding get get_revision put create update delete purge watch history keys
    encoded_kv = record {
      get = get;
      get_revision = get_revision;
      put = put;
      create = create;
      update = update;
      delete = delete;
      purge = purge;
      watch = watch;
      history = history;
      keys = keys;
      status = bucket.status;
    }
