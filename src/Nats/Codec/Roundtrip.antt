-- ===== src/Nats/Codec/Roundtrip.antt =====
-- Encoding a key and decoding the text gives the key back.
use thesis_code.Prelude.{
  Bytes, false, List, [], ◌∷◌, map, ok, failed, All, Lacks, split_on, join_with, join_with-split_on,
  split_on-join_with, split_on-ne-nil, ◌≡◌, ◌≢◌, refl, if◌then◌else◌,
}
use thesis_code.Server.Types.{Error}
use thesis_code.Server.Classify.{is_empty}
use thesis_code.Nats.Codec.{
  Base58, slash, dot, trim_slash, is_wildcard, encode_part, encode, decode_parts, decoded_key,
  decode,
}

-- What is relied on: a text of base58 is decoded to what was encoded, has no dot, and is empty for
-- the empty input.
pub record IsBase58 (b : Base58) : Type 0 where
  pub decode-encode : (part : Bytes) → b.decode (b.encode part) ≡ ok part
  pub encode-Lacks : (part : Bytes) → Lacks dot (b.encode part)
  pub encode_empty : b.encode [] ≡ []

abbrev pub parts_of : Bytes → List Bytes
parts_of key = split_on slash (trim_slash key)

abbrev pub ArePlain : List Bytes → Type 0
ArePlain = All (λ part. is_wildcard part ≡ false)

-- No part of the key is a wildcard of NATS.
abbrev pub IsPlain : Bytes → Type 0
IsPlain key = ArePlain (parts_of key)

pub map-ne-nil : {A B : Type 0} (f : A → B) (xs : List A) → xs ≢ [] → map f xs ≢ []
map-ne-nil f [] h = absurd (h refl)
map-ne-nil f (x ∷ xs) h = cc

module _ (b : Base58) where
  -- The text of a key, without its result.
  abbrev pub encoded : List Bytes → Bytes
  encoded parts = join_with dot (map (encode_part b) parts)

  nonempty :
      (parts : List Bytes)
      → parts ≢ []
      → (if is_empty (map (encode_part b) parts)
          then failed Error.invalid_key
          else ok (encoded parts))
        ≡ ok (encoded parts)
  nonempty [] h = absurd (h refl)
  nonempty (p ∷ ps) h = refl

  -- Encoding never fails.
  pub encode_lem : (key : Bytes) → encode b key ≡ ok (encoded (parts_of key))
  unfolding encode
  encode_lem key = nonempty (parts_of key) (split_on-ne-nil slash (trim_slash key))

module _ {b : Base58} (laws : IsBase58 b) where
  pub Lacks-encode_part :
      (parts : List Bytes) → ArePlain parts → All (Lacks dot) (map (encode_part b) parts)
  Lacks-encode_part [] h = tt
  Lacks-encode_part (p ∷ ps) (h, hs) = (rw h (laws.encode-Lacks p), Lacks-encode_part ps hs)

  decode_parts-map :
      (parts : List Bytes) → ArePlain parts → decode_parts b (map (encode_part b) parts) ≡ ok parts
  unfolding decode_parts
  decode_parts-map [] h = refl
  decode_parts-map (p ∷ ps) (h, hs) = rw (h, laws.decode-encode p, decode_parts-map ps hs) refl

  split_on-encoded :
      (parts : List Bytes)
      → parts ≢ []
      → ArePlain parts
      → split_on dot (encoded b parts) ≡ map (encode_part b) parts
  split_on-encoded parts h plain =
      split_on-join_with dot (map (encode_part b) parts) (map-ne-nil (encode_part b) parts h)
        (Lacks-encode_part parts plain)

  -- A key with no part "*" or ">" is encoded to a text that is decoded to the same key, with a
  -- slash at its head if it had none.
  pub decode-encode :
      (key : Bytes)
      → IsPlain key
      → (text : Bytes) × (encode b key ≡ ok text) × (decode b text ≡ ok (slash ∷ trim_slash key))
  unfolding decode
  decode-encode key plain =
      let parts = parts_of key in
      let some_part = split_on-ne-nil slash (trim_slash key) in
      (
        encoded b parts,
        encode_lem b key,
        rw (split_on-encoded parts some_part plain, decode_parts-map parts plain)
            (decoded_lem parts some_part (join_with-split_on slash (trim_slash key))),
      )
    where
      decoded_lem :
          (parts : List Bytes)
          → parts ≢ []
          → join_with slash parts ≡ trim_slash key
          → decoded_key b (ok parts) ≡ ok (slash ∷ trim_slash key)
      decoded_lem [] h e = absurd (h refl)
      decoded_lem (p ∷ ps) h e = rw e refl

  -- Two plain keys with the same text are the same but for a slash at the head.
  pub encode-Injective :
      (key other : Bytes)
      → IsPlain key
      → IsPlain other
      → encode b key ≡ encode b other
      → trim_slash key ≡ trim_slash other
  encode-Injective key other h k e =
      let (text, e1, d1) = decode-encode key h in
      let (text', e2, d2) = decode-encode other k in let same : text ≡ text' = cc in cc
