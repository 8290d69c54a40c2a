-- ===== src/Server/Range/Paging.antt =====
-- How LimitedServer.list cuts a listing to the limit of the request.
use thesis_code.Prelude.{
  ℕ, zero, suc, ◌+◌, ◌≤◌, ◌<◌, ℤ, pos, add64-pos, sub64-pos, max_int64, ltb_ℤ, ◌-◌, true, false,
  Bool-cases, inl, inr, sym, ap, [], ◌∷◌, List, length, take, length-take, Option, ◌≡◌, ◌↔◌, refl,
  arith,
}
use thesis_code.Server.Types.{KeyValue}
use thesis_code.Server.Range.{list_limit, list_response}

list_limit-pos : (n : ℕ) → 0 < n → n < max_int64 → list_limit (pos n) ≡ pos (n + 1)
unfolding list_limit
list_limit-pos n h k = ground (arith, add64-pos n 1)

ltb→lt : (a b : ℕ) → ltb_ℤ (pos a) (pos b) ≡ true → a < b
ltb→lt a b h = ground arith

ltb-false : (a b : ℕ) → ltb_ℤ (pos a) (pos b) ≡ false → b ≤ a
ltb-false a b h = ground arith

take_all : {A : Type 0} (n : ℕ) (xs : List A) → length xs ≤ n → take n xs ≡ xs
take_all zero [] h = refl
take_all zero (x ∷ xs) h = absurd (omega arith)
take_all (suc n) [] h = refl
take_all (suc n) (x ∷ xs) h = ap (◌∷◌ x) (take_all n xs (omega arith))

list_response-pos :
    (n : ℕ) (rev : ℤ) (kvs : List (Option KeyValue))
    → 0 < n
    → n < max_int64
    → let resp = list_response (pos (n + 1)) (pos n) rev kvs in
      (resp.kvs ≡ take n kvs)
      × ((resp.more ≡ true) ↔ (n < length kvs))
      × (resp.count ≡ pos (length kvs))
      × (resp.header.revision ≡ rev)
unfolding list_response
list_response-pos n rev kvs h k = elim (Bool-cases (ltb_ℤ (pos n) (pos (length kvs)))) [
  | inl e ↦
      rw (grown, e, sub64-pos (n + 1) 1 (omega arith) (omega arith), back)
        (refl, (λ _. ltb→lt n (length kvs) e, λ _. refl), refl, refl)
  | inr e ↦
      rw (grown, e)
        (
          sym (take_all n kvs (ltb-false n (length kvs) e)),
          (λ p. cc, λ p. absurd (omega (arith, ltb-false n (length kvs) e))),
          refl,
          refl,
        )
]
  where
    grown : ltb_ℤ (pos 0) (pos (n + 1)) ≡ true
    grown = ground arith

    back : n + 1 - 1 ≡ n
    back = omega arith

-- A list request with a limit between 1 and 2^63 - 2 returns at most that many of the values that
-- the backend found, the first ones in their order; More is set exactly when the backend found more,
-- and Count and the revision are those that the backend returned.
pub list_page :
    (n : ℕ) (rev : ℤ) (kvs : List (Option KeyValue))
    → 0 < n
    → n < max_int64
    → let resp = list_response (list_limit (pos n)) (pos n) rev kvs in
      (resp.kvs ≡ take n kvs)
      × (length resp.kvs ≤ n)
      × ((resp.more ≡ true) ↔ (n < length kvs))
      × (resp.count ≡ pos (length kvs))
      × (resp.header.revision ≡ rev)
list_page n rev kvs h k =
    let cut = list_response-pos n rev kvs h k in
    rw (list_limit-pos n h k)
      (cut.0, rw cut.0 (omega (arith, length-take n kvs)), cut.1, cut.2, cut.3)
