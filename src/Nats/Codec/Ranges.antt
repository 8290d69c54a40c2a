-- ===== src/Nats/Codec/Ranges.antt =====
-- What the range of a prefix covers. NATS matches "x.>" against every key that begins with "x.".
use thesis_code.Prelude.{
  ℕ, Bytes, codes, bytes_eq, bytes_eq_iff, has_prefix, has_suffix-append, ◌==◌, Bool, true, false,
  ◌&&◌, Bool-cases, inl, inr, List, [], ◌∷◌, ◌++◌, append_assoc, map, ok, All, Lacks, cons_part,
  split_on, join_with, join_with-split_on, split_on-ne-nil, ◌≡◌, ◌≢◌, refl, ap, sym, ◌∙◌, arith,
  map-append, if◌then◌else◌,
}
use thesis_code.Nats.Codec.{
  Base58, slash, dot, is_wildcard, trim_slash, encode_part, encode, encode_range,
}
use thesis_code.Nats.Codec.Roundtrip.{
  IsBase58, ArePlain, encoded, encode_lem, map-ne-nil, Lacks-encode_part,
}

-- The first list begins the second, which has at least one more part.
abbrev starts : List Bytes → List Bytes → Bool
starts [] [] = false
starts [] (k ∷ ks) = true
starts (p ∷ ps) [] = false
starts (p ∷ ps) (k ∷ ks) = bytes_eq p k && starts ps ks

module _ (sep : ℕ) where
  has_prefix-sep :
      (p k q r : Bytes)
      → Lacks sep p
      → Lacks sep k
      → has_prefix (k ++ sep ∷ r) (p ++ sep ∷ q) ≡ (bytes_eq p k && has_prefix r q)
  unfolding has_prefix bytes_eq
  has_prefix-sep [] [] q r h g = ground arith
  has_prefix-sep [] (c ∷ k) q r h (g, _) = rw g refl
  has_prefix-sep (c ∷ p) [] q r (h, _) g = ground arith
  has_prefix-sep (c ∷ p) (d ∷ k) q r (h, hs) (g, gs) = ground (arith, has_prefix-sep p k q r hs gs)

  has_prefix-Lacks : (p k q : Bytes) → Lacks sep k → has_prefix k (p ++ sep ∷ q) ≡ false
  unfolding has_prefix
  has_prefix-Lacks [] [] q h = refl
  has_prefix-Lacks [] (c ∷ k) q (h, _) = rw h refl
  has_prefix-Lacks (c ∷ p) [] q h = refl
  has_prefix-Lacks (c ∷ p) (d ∷ k) q (h, hs) = ground (arith, has_prefix-Lacks p k q hs)

  -- A prefix that ends in a separator is a list of whole parts.
  has_prefix-join_with :
      (ps ks : List Bytes)
      → ps ≢ []
      → All (Lacks sep) ps
      → All (Lacks sep) ks
      → has_prefix (join_with sep ks) (join_with sep ps ++ sep ∷ []) ≡ starts ps ks
  unfolding join_with has_prefix
  has_prefix-join_with [] ks h _ _ = absurd (h refl)
  has_prefix-join_with (p ∷ []) [] h _ _ = has_prefix-Lacks p [] [] tt
  has_prefix-join_with (p ∷ []) (k ∷ []) h _ (g, _) = rw (has_prefix-Lacks p k [] g) (ground arith)
  has_prefix-join_with (p ∷ []) (k ∷ k' ∷ ks) h (hp, _) (g, _) =
      has_prefix-sep p k [] (join_with sep (k' ∷ ks)) hp g
  has_prefix-join_with (p ∷ q ∷ ps) [] h _ _ = rw append_assoc (has_prefix-Lacks p [] _ tt)
  has_prefix-join_with (p ∷ q ∷ ps) (k ∷ []) h _ (g, _) =
      rw (append_assoc, has_prefix-Lacks p k _ g) (ground arith)
  has_prefix-join_with (p ∷ q ∷ ps) (k ∷ k' ∷ ks) h (hp, hps) (g, gs) =
      rw
        (
          append_assoc,
          has_prefix-sep p k _ _ hp g,
          has_prefix-join_with (q ∷ ps) (k' ∷ ks) (cc) hps gs,
        )
        refl

  cons_part-Lacks :
      (c : ℕ) (ps : List Bytes)
      → (c == sep) ≡ false
      → All (Lacks sep) ps
      → All (Lacks sep) (cons_part c ps)
  cons_part-Lacks c [] h g = ((h, tt), tt)
  cons_part-Lacks c (p ∷ ps) h (g, gs) = ((h, g), gs)

  split_on-All : (s : Bytes) → All (Lacks sep) (split_on sep s)
  unfolding split_on
  split_on-All [] = (tt, tt)
  split_on-All (c ∷ s) = elim (Bool-cases (c == sep)) [
    | inl e ↦ rw e (tt, split_on-All s)
    | inr e ↦ rw e (cons_part-Lacks c (split_on sep s) e (split_on-All s))
  ]

  split_on-sep : (p s : Bytes) → split_on sep (p ++ sep ∷ s) ≡ split_on sep p ++ split_on sep s
  unfolding split_on
  split_on-sep [] s = ground arith
  split_on-sep (c ∷ p) s = rw (split_on-sep p s) (step (split_on sep p) (split_on-ne-nil sep p))
    where
      step :
          (ps : List Bytes)
          → ps ≢ []
          → (if c == sep then [] ∷ (ps ++ split_on sep s) else cons_part c (ps ++ split_on sep s))
            ≡ (if c == sep then [] ∷ ps else cons_part c ps) ++ split_on sep s
      step [] h = absurd (h refl)
      step (q ∷ ps) h = ground arith

  join_with-snoc :
      (ps : List Bytes) → ps ≢ [] → join_with sep (ps ++ [] ∷ []) ≡ join_with sep ps ++ sep ∷ []
  unfolding join_with
  join_with-snoc [] h = absurd (h refl)
  join_with-snoc (p ∷ []) h = refl
  join_with-snoc (p ∷ q ∷ ps) h = rw (join_with-snoc (q ∷ ps) (cc), append_assoc) refl

split_on_empty : split_on slash [] ≡ [] ∷ []
unfolding split_on
split_on_empty = refl

has_prefix-parts :
    (p k : Bytes)
    → has_prefix (slash ∷ k) (slash ∷ p ++ slash ∷ [])
      ≡ starts (split_on slash p) (split_on slash k)
unfolding has_prefix
has_prefix-parts p k =
    rw (join_with-split_on slash k, join_with-split_on slash p) at
      (has_prefix-join_with slash (split_on slash p) (split_on slash k) (split_on-ne-nil slash p)
        (split_on-All slash p) (split_on-All slash k))

module _ {b : Base58} (laws : IsBase58 b) where
  bytes_eq-encode_part :
      (p k : Bytes)
      → is_wildcard p ≡ false
      → is_wildcard k ≡ false
      → bytes_eq (encode_part b p) (encode_part b k) ≡ bytes_eq p k
  bytes_eq-encode_part p k h g = elim (Bool-cases (bytes_eq p k)) [
    | inl e ↦
        let same = (bytes_eq_iff p k).0 e in
        rw e ((bytes_eq_iff (encode_part b p) (encode_part b k)).1 (ap (encode_part b) same))
    | inr e ↦ elim (Bool-cases (bytes_eq (encode_part b p) (encode_part b k))) [
      | inl d ↦
          let texts : b.encode p ≡ b.encode k =
            rw (h, g) at ((bytes_eq_iff (encode_part b p) (encode_part b k)).0 d) in
          let same : b.decode (b.encode p) ≡ ok k = ap b.decode texts ∙ laws.decode-encode k in
          let found = laws.decode-encode p in
          let e' : p ≡ k = cc in let e'' = (bytes_eq_iff p k).1 e' in cc
      | inr d ↦ d ∙ sym e
    ]
  ]

  starts-map :
      (ps ks : List Bytes)
      → ArePlain ps
      → ArePlain ks
      → starts (map (encode_part b) ps) (map (encode_part b) ks) ≡ starts ps ks
  starts-map [] [] h g = refl
  starts-map [] (k ∷ ks) h g = refl
  starts-map (p ∷ ps) [] h g = refl
  starts-map (p ∷ ps) (k ∷ ks) (h, hs) (g, gs) =
      rw (bytes_eq-encode_part p k h g, starts-map ps ks hs gs) refl

  -- The text of a range without its wildcard.
  abbrev pub stem : Bytes → Bytes
  stem p = encoded b (split_on slash p) ++ dot ∷ []

  encode_part_empty : encode_part b [] ≡ []
  unfolding bytes_eq
  encode_part_empty = laws.encode_empty

  encoded-slash : (p : Bytes) → encoded b (split_on slash (p ++ slash ∷ [])) ≡ stem p
  encoded-slash p =
      rw
        (
          split_on-sep slash p [],
          split_on_empty,
          map-append (encode_part b) (split_on slash p) ([] ∷ []),
          encode_part_empty,
        )
        (join_with-snoc dot (map (encode_part b) (split_on slash p))
          (map-ne-nil (encode_part b) (split_on slash p) (split_on-ne-nil slash p)))

  range_lem : (p : Bytes) → encode_range b (slash ∷ p ++ slash ∷ []) ≡ ok (stem p ++ codes ">")
  unfolding encode_range trim_slash
  range_lem p =
      rw
        (
          encode_lem b (slash ∷ p ++ slash ∷ []),
          encoded-slash p,
          has_suffix-append (encoded b (split_on slash p)) (dot ∷ []),
        )
        refl

  -- From a prefix "/p/", none of whose parts is a wildcard, EncodeRange makes a text with ">" after
  -- a stem, and a key with no such part is encoded to a text that begins with the stem exactly if
  -- the key begins with the prefix.
  pub range_covers :
      (p k : Bytes)
      → ArePlain (split_on slash p)
      → ArePlain (split_on slash k)
      → (encode_range b (slash ∷ p ++ slash ∷ []) ≡ ok (stem p ++ codes ">"))
        × (text : Bytes) × (encode b (slash ∷ k) ≡ ok text)
        × (has_prefix text (stem p) ≡ has_prefix (slash ∷ k) (slash ∷ p ++ slash ∷ []))
  unfolding trim_slash
  range_covers p k hp hk = (
    range_lem p,
    encoded b (split_on slash k),
    encode_lem b (slash ∷ k),
    has_prefix-join_with dot (map (encode_part b) (split_on slash p))
          (map (encode_part b) (split_on slash k))
          (map-ne-nil (encode_part b) (split_on slash p) (split_on-ne-nil slash p))
          (Lacks-encode_part laws (split_on slash p) hp)
          (Lacks-encode_part laws (split_on slash k) hk)
        ∙ starts-map (split_on slash p) (split_on slash k) hp hk
        ∙ sym (has_prefix-parts p k),
  )
