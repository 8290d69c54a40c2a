-- ===== src/Nats/Codec.antt =====
-- kine/pkg/drivers/nats/kv/etcd_encoder.go: EtcdKeyCodec and PlainCodec. A key /a/b becomes the
-- base58 texts of its parts with a dot between them, since NATS splits its keys on dots. The
-- interfaces KeyCodec and ValueCodec of kv.go are records; the base58 and s2 packages are
-- parameters.
pub mod Roundtrip
pub mod Ranges
use thesis_code.Prelude.{
  ℕ, Bytes, codes, bytes_eq, has_suffix, Bool, true, false, ◌||◌, ◌==◌, List, [], ◌∷◌, ◌++◌, map,
  none, Result, ok, failed, split_on, join_with, if◌then◌else◌,
}
use thesis_code.Server.Types.{Error, Err}
use thesis_code.Server.Classify.{is_empty}

pub record KeyCodec : Type 0 where
  pub encode : Bytes → Result Error Bytes
  pub decode : Bytes → Result Error Bytes
  pub encode_range : Bytes → Result Error Bytes

-- What is written to the buffer, and the error.
pub record ValueCodec : Type 0 where
  pub encode : Bytes → Bytes × Err
  pub decode : Bytes → Bytes × Err

pub record Base58 : Type 0 where
  pub encode : Bytes → Bytes
  pub decode : Bytes → Result Error Bytes

abbrev pub slash : ℕ
slash = b'/'

abbrev pub dot : ℕ
dot = b'.'

-- strings.TrimPrefix(key, "/").
unfoldable pub trim_slash : Bytes → Bytes
trim_slash [] = []
trim_slash (c ∷ key) = if c == slash then key else c ∷ key

abbrev pub is_wildcard : Bytes → Bool
is_wildcard part = bytes_eq part (codes ">") || bytes_eq part (codes "*")

module _ (b : Base58) where
  abbrev pub encode_part : Bytes → Bytes
  encode_part part = if is_wildcard part then part else b.encode part

  unfoldable pub encode : Bytes → Result Error Bytes
  unfolding split_on trim_slash join_with bytes_eq
  encode key =
      let parts = map encode_part (split_on slash (trim_slash key)) in
      if is_empty parts then failed Error.invalid_key else ok (join_with dot parts)

  abbrev pub range_of : Result Error Bytes → Result Error Bytes
  range_of (failed e) = failed e
  range_of (ok ek) = if has_suffix ek (dot ∷ []) then ok (ek ++ codes ">") else ok ek

  unfoldable pub encode_range : Bytes → Result Error Bytes
  unfolding encode has_suffix
  encode_range keys = range_of (encode keys)

  -- The loop over the parts ends at the first that is no base58 text.
  abbrev pub cons_decoded :
      Result Error Bytes → Result Error (List Bytes) → Result Error (List Bytes)
  cons_decoded (failed e) rest = failed e
  cons_decoded (ok part) (failed e) = failed e
  cons_decoded (ok part) (ok parts) = ok (part ∷ parts)

  unfoldable pub decode_parts : List Bytes → Result Error (List Bytes)
  decode_parts [] = ok []
  decode_parts (s ∷ parts) = cons_decoded (b.decode s) (decode_parts parts)

  abbrev pub decoded_key : Result Error (List Bytes) → Result Error Bytes
  decoded_key (failed e) = failed e
  decoded_key (ok parts) =
      if is_empty parts then failed Error.invalid_key else ok (slash ∷ join_with slash parts)

  unfoldable pub decode : Bytes → Result Error Bytes
  unfolding split_on decode_parts join_with
  decode key = decoded_key (decode_parts (split_on dot key))

  unfoldable pub etcd_key_codec : KeyCodec
  unfolding encode decode encode_range
  etcd_key_codec = record { encode = encode; decode = decode; encode_range = encode_range }

unfoldable pub plain_codec : ValueCodec
plain_codec = record { encode = λ src. (src, none); decode = λ src. (src, none) }
