-- ===== src/Nats/Bucket/Refinement.antt =====
-- An EncodedKV over a bucket keeps the contract of a bucket, on plain keys and values.
use thesis_code.Prelude.{
  ℕ, Bytes, bytes_eq, bytes_eq_iff, Bool, true, false, Bool-cases, ◌∷◌, Option, none, some, inl,
  inr, Result, ok, failed, Ends, Ends-bind, Ends-weaken, ◌≡◌, refl, sym, ap, ◌∙◌, if◌then◌else◌,
}
use thesis_code.Server.Types.{Error}
use thesis_code.Nats.Codec.{KeyCodec, ValueCodec, Base58, slash, trim_slash, etcd_key_codec}
use thesis_code.Nats.Codec.Roundtrip.{IsBase58, IsPlain, decode-encode}
use thesis_code.Nats.Bucket.{
  Entry, Bucket, map_ok, decoded_entry, get, put, create, delete, encoded_kv,
}
use thesis_code.Nats.Bucket.Contract.{View, answer, Keeps, Sets, Written, Laws}

-- The codec of the keys has a text for each key, that the bucket takes, and finds the key again.
abbrev pub KeyLaws : KeyCodec → (Bytes → Type 0) → (Bytes → Type 0) → Type 0
KeyLaws kc IsKey IsText =
    (key : Bytes)
    → IsKey key
    → (text : Bytes) × (kc.encode key ≡ ok text) × (kc.decode text ≡ ok key) × IsText text

-- The codec of the values encodes every value, and finds it again.
abbrev pub ValueLaws : ValueCodec → Type 0
ValueLaws vc =
    (value : Bytes) → (buf : Bytes) × (vc.encode value ≡ (buf, none)) × ((vc.decode buf).0 ≡ value)

module _ (kc : KeyCodec) (vc : ValueCodec) where
  abbrev pub decoded_option : Option Entry → Option Entry
  decoded_option none = none
  decoded_option (some e) = some (decoded_entry kc vc e)

  abbrev pub newest_of : {S : Type 0} → View S → S → Result Error Bytes → Option Entry
  newest_of v s (failed e) = none
  newest_of v s (ok text) = decoded_option (v.newest s text)

  -- What the bucket holds, seen through the codecs.
  abbrev pub decoded_view : {S : Type 0} → View S → View S
  decoded_view v = record { seq = v.seq; newest = λ s key. newest_of v s (kc.encode key) }

module _ {S : Type 0} (kc : KeyCodec) (vc : ValueCodec) (v : View S) (raw : Bucket S)
    {IsKey IsText : Bytes → Type 0} (keys : KeyLaws kc IsKey IsText) (values : ValueLaws vc)
    (laws : Laws v IsText raw) where
  abbrev shown : View S
  shown = decoded_view kc vc v

  Keeps-decoded : (s t : S) → Keeps v IsText s t → Keeps shown IsKey s t
  Keeps-decoded s t (e, k) = (
    e,
    λ key h.
        let (text, enc, dec, good) = keys key h in rw enc (ap (decoded_option kc vc) (k text good)),
  )

  bytes_eq-text :
      (key other text text' : Bytes)
      → kc.encode key ≡ ok text
      → kc.decode text ≡ ok key
      → kc.encode other ≡ ok text'
      → kc.decode text' ≡ ok other
      → bytes_eq text text' ≡ bytes_eq key other
  bytes_eq-text key other text text' e d e' d' = elim (Bool-cases (bytes_eq key other)) [
    | inl h ↦
        let same = (bytes_eq_iff key other).0 h in
        let texts : text ≡ text' = cc in rw h ((bytes_eq_iff text text').1 texts)
    | inr h ↦ elim (Bool-cases (bytes_eq text text')) [
      | inl g ↦
          let texts = (bytes_eq_iff text text').0 g in
          let same : key ≡ other = cc in let no = (bytes_eq_iff key other).1 same in cc
      | inr g ↦ g ∙ sym h
    ]
  ]

  decoded-if :
      (b : Bool) (e o : Option Entry)
      → decoded_option kc vc (if b then e else o)
        ≡ (if b then decoded_option kc vc e else decoded_option kc vc o)
  decoded-if true e o = refl
  decoded-if false e o = refl

  Sets-decoded :
      (key text : Bytes) (e : Option Entry) (s t : S)
      → kc.encode key ≡ ok text
      → kc.decode text ≡ ok key
      → Sets v IsText text e s t
      → Sets shown IsKey key (decoded_option kc vc e) s t
  Sets-decoded key text e s t enc dec (lt, k) = (
    lt,
    λ other h.
        let (text', enc', dec', good) = keys other h in
        rw enc' (
          ap (decoded_option kc vc) (k text' good)
          ∙ decoded-if (bytes_eq text text') e (v.newest s text')
          ∙ rw (bytes_eq-text key other text text' enc dec enc' dec') refl),
  )

  Written-decoded :
      (key text value buf : Bytes) (s : S) (a : Result Error ℕ) (t : S)
      → kc.encode key ≡ ok text
      → kc.decode text ≡ ok key
      → (vc.decode buf).0 ≡ value
      → Written v IsText text buf s a t
      → Written shown IsKey key value s a t
  Written-decoded key text value buf s a t enc dec val (inr (e, h, k)) =
      inr (e, h, Keeps-decoded s t k)
  Written-decoded key text value buf s a t enc dec val (inl (h, (e, ek, ev, er, set))) = inl (
    h,
    (
      decoded_entry kc vc e,
      unfold decoded_entry in rw (ek, dec) refl,
      unfold decoded_entry in rw ev val,
      unfold decoded_entry in er,
      Sets-decoded key text (some e) s t enc dec set,
    ),
  )

  get-decoded :
      (key : Bytes) (s : S)
      → IsKey key
      → Ends
          (λ a t. (a ≡ answer (shown.newest s key)) × Keeps shown IsKey s t)
          (get kc vc raw key s)
  unfolding get
  get-decoded key s h =
      let (text, enc, dec, good) = keys key h in
      rw enc (
        Ends-bind (λ a t. (a ≡ answer (v.newest s text)) × Keeps v IsText s t) _ (raw.get text s) _
          (laws.get_lem text s good)
          λ a t p. (
            ap (map_ok (decoded_entry kc vc)) p.0 ∙ answer-decoded (v.newest s text),
            Keeps-decoded s t p.1,
          ))
    where
      answer-decoded :
          (o : Option Entry)
          → map_ok (decoded_entry kc vc) (answer o) ≡ answer (decoded_option kc vc o)
      answer-decoded none = refl
      answer-decoded (some e) = refl

  put-decoded :
      (key value : Bytes) (s : S)
      → IsKey key
      → Ends (Written shown IsKey key value s) (put kc vc raw key value s)
  unfolding put
  put-decoded key value s h =
      let (text, enc, dec, good) = keys key h in
      let (buf, wrote, back) = values value in
      rw (enc, wrote)
        (Ends-weaken _ _ (raw.put text buf s) (laws.put_lem text buf s good)
          λ a t p. Written-decoded key text value buf s a t enc dec back p)

  newest-none : (o : Option Entry) → decoded_option kc vc o ≡ none → o ≡ none
  newest-none none h = refl
  newest-none (some e) h = cc

  create-decoded :
      (key value : Bytes) (s : S)
      → IsKey key
      → shown.newest s key ≡ none
      → Ends (Written shown IsKey key value s) (create kc vc raw key value s)
  unfolding create
  create-decoded key value s h new =
      let (text, enc, dec, good) = keys key h in
      let (buf, wrote, back) = values value in
      rw (enc, wrote)
        (Ends-weaken _ _ (raw.create text buf s)
          (laws.create_lem text buf s good (newest-none (v.newest s text) (rw enc at new)))
          λ a t p. Written-decoded key text value buf s a t enc dec back p)

  -- An EncodedKV over a bucket that keeps the contract on the encoded keys keeps it on the keys, if
  -- the codec of the keys has a text for each key and finds the key again, and that of the values
  -- finds each value again.
  pub encoded_kv-refines : Laws shown IsKey (encoded_kv kc vc raw)
  unfolding encoded_kv delete
  encoded_kv-refines = record {
    get_lem = get-decoded;
    put_lem = put-decoded;
    create_lem = create-decoded;
    delete_lem = λ key s h.
        let (text, enc, dec, good) = keys key h in
        rw enc (
          Ends-weaken _ _ (raw.delete text s) (laws.delete_lem text s good) λ a t p. elim p [
            | inl (e, set) ↦ inl (e, Sets-decoded key text none s t enc dec set)
            | inr (e, f, k) ↦ inr (e, f, Keeps-decoded s t k)
          ]);
    status_lem = λ s.
        Ends-weaken _ _ (raw.status s) (laws.status_lem s)
          λ a t p. (p.0, p.1, p.2, Keeps-decoded s t p.3);
  }

-- The keys that the codec of etcd keys is used with: a slash at the head, and no wildcard.
abbrev pub IsEtcdKey : Bytes → Type 0
IsEtcdKey key = IsPlain key × (slash ∷ trim_slash key ≡ key)

pub etcd_key_codec-KeyLaws :
    {b : Base58} → IsBase58 b → KeyLaws (etcd_key_codec b) IsEtcdKey (λ text. Unit {0})
unfolding etcd_key_codec
etcd_key_codec-KeyLaws laws key (plain, rooted) =
    let (text, enc, dec) = decode-encode laws key plain in (text, enc, dec ∙ ap ok rooted, tt)
