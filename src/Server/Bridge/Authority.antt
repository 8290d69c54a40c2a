-- ===== src/Server/Bridge/Authority.antt =====
-- The URL that MemberList reports for an address list of etcd v3.5.
use thesis_code.Prelude.{
  ℕ, ◌-◌, Bytes, codes, has_suffix-append, List, [], ◌∷◌, ◌++◌, map-append, length, length-append,
  take, All, ◌≡◌, ◌≢◌, refl, ap, ◌∙◌, arith,
}
use thesis_code.Server.Bridge.{initially, trim_suffix, commas, authority_url}

-- The items with a separator between them.
abbrev pub join : ℕ → List Bytes → Bytes
join sep [] = []
join sep (x ∷ []) = x
join sep (x ∷ y ∷ xs) = x ++ (sep ∷ join sep (y ∷ xs))

abbrev pub IsPlain : Bytes → Type 0
IsPlain = All (λ b. b ≢ 59)

commas-plain : (x : Bytes) → IsPlain x → commas x ≡ x
commas-plain [] h = refl
commas-plain (b ∷ x) h = ground (arith, commas-plain x h.1, h.0)

commas-join : (xs : List Bytes) → All IsPlain xs → commas (join 59 xs) ≡ join 44 xs
commas-join [] h = refl
commas-join (x ∷ []) h = commas-plain x h.0
commas-join (x ∷ y ∷ xs) h =
    map-append _ x (59 ∷ join 59 (y ∷ xs))
    ∙ rw (commas-plain x h.0) (ap (λ (t : Bytes). x ++ (44 ∷ t)) (commas-join (y ∷ xs) h.1))

take-append : {A : Type 0} (xs ys : List A) → take (length xs) (xs ++ ys) ≡ xs
take-append [] ys = refl
take-append (x ∷ xs) ys = ap (◌∷◌ x) (take-append xs ys)

trim_suffix-append : (s suffix : Bytes) → trim_suffix (s ++ suffix) suffix ≡ s
trim_suffix-append s suffix = rw (has_suffix-append s suffix, size) (take-append s suffix)
  where
    size : length (s ++ suffix) - length suffix ≡ length s
    size = omega (arith, length-append s suffix)

-- From an authority "#initially=[A;B;…]", whatever the scheme, and whatever other values the header
-- has, the URL is the list "A,B,…" of the same addresses, if no address has a semicolon in it.
authority_url-initially :
    (addresses others : List Bytes) (scheme : Bytes)
    → All IsPlain addresses
    → authority_url ((initially ++ (join 59 addresses ++ codes "]")) ∷ others) scheme
      ≡ join 44 addresses
unfolding authority_url
authority_url-initially addresses others scheme h =
    ap commas (trim_suffix-append (join 59 addresses) (codes "]")) ∙ commas-join addresses h
