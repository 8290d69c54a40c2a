-- ===== src/Generic/Text.antt =====
-- generic.go: names and numbers in decimal, and q, which puts numbered parameters into a query.
use thesis_code.Prelude.{
  ℕ, zero, suc, ◌+◌, ◌/◌, ◌%◌, Bytes, codes, bytes_eq, bytes_eq-eq, has_prefix, has_prefix-append,
  ℤ, pos, negsuc, Bool, true, false, not, ◌&&◌, ◌==◌, Bool-cases, inl, inr, [], ◌∷◌, ◌++◌, ◌≡◌,
  refl, sym, arith, if◌then◌else◌,
}

-- The decimal digits of a number, in front of `rest`. A number has fewer digits than its successor.
unfoldable pub digits : ℕ → ℕ → Bytes → Bytes
digits zero n rest = rest
digits (suc fuel) n rest =
    let text = (48 + n % 10) ∷ rest in
    let more = digits fuel (n / 10) text in if n / 10 == 0 then text else more

-- strconv.FormatInt(n, 10) and the verb %d
unfoldable pub format_int : ℤ → Bytes
unfolding digits
format_int (pos n) = digits (suc n) n []
format_int (negsuc n) = codes "-" ++ digits (suc (suc n)) (suc n) []

unfoldable pub fill_name : ℤ → Bytes
unfolding format_int
fill_name revision = codes "gap-" ++ format_int revision

unfoldable pub is_fill : Bytes → Bool
unfolding has_prefix
is_fill key = has_prefix key (codes "gap-")

-- The row that Fill inserts, whatever the revision, is recognised by IsFill.
pub is_fill-fill_name : (revision : ℤ) → is_fill (fill_name revision) ≡ true
unfolding is_fill fill_name
is_fill-fill_name revision = has_prefix-append (codes "gap-") (format_int revision)

-- The parameter that stands for the question mark number `n`.
abbrev pub placeholder : Bytes → Bool → ℕ → Bytes
placeholder param numbered n = if numbered then param ++ format_int (pos n) else param

-- Every question mark is replaced; `n` of them came before.
unfoldable pub replace_from : Bytes → Bool → ℕ → Bytes → Bytes
replace_from param numbered n [] = []
replace_from param numbered n (b ∷ sql) =
    let rest = replace_from param numbered (if b == 63 then n + 1 else n) sql in
    if b == 63 then placeholder param numbered (n + 1) ++ rest else b ∷ rest

unfoldable pub q : Bytes → Bytes → Bool → Bytes
unfolding replace_from bytes_eq
q sql param numbered =
    if bytes_eq param (codes "?") && not numbered then sql else replace_from param numbered 0 sql

replace_from-same : (n : ℕ) (sql : Bytes) → replace_from (codes "?") false n sql ≡ sql
unfolding replace_from
replace_from-same n [] = refl
replace_from-same n (b ∷ sql) =
    ground (arith, replace_from-same (n + 1) sql, replace_from-same n sql)

-- The early return of q is the replacement that it saves: q always returns the text in which each
-- question mark is replaced by the parameter, numbered from 1 if so asked.
pub q_lem :
    (sql param : Bytes) (numbered : Bool) → q sql param numbered ≡ replace_from param numbered 0 sql
unfolding q
q_lem sql param true = ground arith
q_lem sql param false = elim (Bool-cases (bytes_eq param (codes "?"))) [
  | inr e ↦ rw (q, e)
  | inl e ↦ rw (q, e) (rw (bytes_eq-eq param (codes "?") e) (sym (replace_from-same 0 sql)))
]
