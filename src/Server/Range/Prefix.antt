-- ===== src/Server/Range/Prefix.antt =====
-- The prefix and the start key that LimitedServer.list makes of a range request.
use thesis_code.Prelude.{
  ℕ, zero, suc, ◌<◌, Bytes, codes, has_suffix, [], ◌∷◌, ◌++◌, some, get_last?, ◌&&◌, ◌≡◌, ◌≢◌, refl,
  ap, arith, bytes_eq, ◌==◌, if◌then◌else◌, Bool-cases, inl, inr,
}
use mathlib.Core.Option.{some-injective}
use thesis_code.Server.Classify.{is_empty}
use thesis_code.Server.Range.{decrement_last, list_prefix, trim_zeros}

decrement_last-append :
    (p : Bytes) (c : ℕ) → c < 255 → decrement_last (p ++ suc c ∷ []) ≡ p ++ c ∷ []
unfolding decrement_last
decrement_last-append [] c h = ground arith
decrement_last-append (a ∷ []) c h = ground arith
decrement_last-append (a ∷ b ∷ p) c h = ap (◌∷◌ a) (decrement_last-append (b ∷ p) c h)

has_suffix_last : (p : Bytes) (c : ℕ) → has_suffix (p ++ c ∷ []) (codes "/") ≡ (c == 47)
unfolding has_suffix bytes_eq
has_suffix_last [] c = ground arith
has_suffix_last (a ∷ []) c = ground arith
has_suffix_last (a ∷ b ∷ p) c = ground (arith, has_suffix_last (b ∷ p) c)

-- The range end of a prefix, as etcd clients compute it, is the prefix with its last byte plus one.
-- From that range end the server gets the prefix back, with a slash after it unless it ends in one.
list_prefix_lem :
    (p : Bytes) (c : ℕ)
    → c < 255
    → list_prefix (p ++ suc c ∷ []) ≡ (if c == 47 then p ++ c ∷ [] else (p ++ c ∷ []) ++ codes "/")
unfolding list_prefix
list_prefix_lem p c h = rw (decrement_last-append p c h, has_suffix_last p c)

abbrev pub zeros : ℕ → Bytes
zeros zero = []
zeros (suc n) = 0 ∷ zeros n

-- bytes.TrimRight takes the zero bytes off the end, all of them and nothing else.
abbrev pub IsTrimmed : Bytes → Bytes → Type 0
IsTrimmed key rest = ((n : ℕ) × (key ≡ rest ++ zeros n)) × (get_last? rest ≢ some 0)

trim_zeros-cons :
    (b : ℕ) (bs rest : Bytes)
    → IsTrimmed bs rest
    → IsTrimmed (b ∷ bs) (if b == 0 && is_empty rest then [] else b ∷ rest)
trim_zeros-cons b bs [] ((n, e), h) = elim (Bool-cases (b == 0)) [
  | inl z ↦ rw z ((suc n, ground (arith, e)), λ p. cc)
  | inr z ↦ rw z ((n, ap (◌∷◌ b) e), λ p. ground (arith, some-injective p))
]
trim_zeros-cons b bs (r ∷ rest) ((n, e), h) = elim (Bool-cases (b == 0)) [
  | inl z ↦ rw z ((n, ap (◌∷◌ b) e), λ p. h p)
  | inr z ↦ rw z ((n, ap (◌∷◌ b) e), λ p. h p)
]

-- The start key of a listing is the key of the request without its trailing zero bytes: all of them
-- and nothing else are taken off.
pub trim_zeros_lem : (key : Bytes) → IsTrimmed key (trim_zeros key)
unfolding trim_zeros
trim_zeros_lem [] = ((0, refl), λ p. cc)
trim_zeros_lem (b ∷ bs) = trim_zeros-cons b bs (trim_zeros bs) (trim_zeros_lem bs)
