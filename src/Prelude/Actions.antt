-- ===== src/Prelude/Actions.antt =====
-- A Go function over a shared state. A call returns its results and the new state, or panics, or
-- (a model of a recursion) runs out of the fuel that it was given. Errors are ordinary results, an
-- `Option Error` beside the other return values, since the callers look at both.

pub data Outcome {ℓ} (A : Type ℓ) : Type ℓ where
  returned : A → Outcome A
  panicked : Outcome A
  out_of_fuel : Outcome A

-- A Go result (value, error) whose value is read only if there is no error.
pub data Result {ℓ} (E A : Type ℓ) : Type ℓ where
  ok : A → Result E A
  failed : E → Result E A

abbrev pub Exec {ℓ} : Type ℓ → Type ℓ → Type ℓ
Exec S A = S → Outcome (A × S)

module _ {ℓ} {S A : Type ℓ} where
  abbrev pub pure : A → Exec S A
  pure a s = returned (a, s)

  abbrev pub panic : Exec S A
  panic s = panicked

module _ {ℓ} {S A B : Type ℓ} where
  abbrev pub and_then : Outcome (A × S) → (A → Exec S B) → Outcome (B × S)
  and_then (returned (a, s)) f = f a s
  and_then panicked f = panicked
  and_then out_of_fuel f = out_of_fuel

  infixl 10 ◌>>=◌ ◌>>◌
  abbrev pub ◌>>=◌ : Exec S A → (A → Exec S B) → Exec S B
  ◌>>=◌ m f s = and_then (m s) f

  abbrev pub ◌>>◌ : Exec S A → Exec S B → Exec S B
  m >> n = m >>= λ _. n

  -- Call, and compute what is returned from the results of the call.
  abbrev pub map_result : (A → B) → Exec S A → Exec S B
  map_result f m = m >>= λ a. pure (f a)

-- The call returns, and what it returns satisfies `P` with the state that it leaves.
abbrev pub Ends {ℓ} : {S A : Type ℓ} → (A → S → Type 0) → Outcome (A × S) → Type 0
Ends P (returned (a, s)) = P a s
Ends P panicked = ⊥
Ends P out_of_fuel = ⊥

pub Ends-bind {ℓ} :
    {S A B : Type ℓ} (P : A → S → Type 0) (Q : B → S → Type 0) (o : Outcome (A × S))
    (f : A → Exec S B)
    → Ends P o
    → ((a : A) (s : S) → P a s → Ends Q (f a s))
    → Ends Q (and_then o f)
Ends-bind P Q (returned (a, s)) f h k = k a s h
Ends-bind P Q panicked f h k = h
Ends-bind P Q out_of_fuel f h k = h

pub Ends-weaken {ℓ} :
    {S A : Type ℓ} (P Q : A → S → Type 0) (o : Outcome (A × S))
    → Ends P o
    → ((a : A) (s : S) → P a s → Q a s)
    → Ends Q o
Ends-weaken P Q (returned (a, s)) h k = k a s h
Ends-weaken P Q panicked h k = h
Ends-weaken P Q out_of_fuel h k = h

-- A sequence of three calls, bracketed the other way.
pub Ends-assoc {ℓ} :
    {S A B C : Type ℓ} (Q : C → S → Type 0) (o : Outcome (A × S)) (f : A → Exec S B)
    (g : B → Exec S C)
    → Ends Q (and_then o (λ a s. and_then (f a s) g))
    → Ends Q (and_then (and_then o f) g)
Ends-assoc Q (returned (a, s)) f g h = h
Ends-assoc Q panicked f g h = h
Ends-assoc Q out_of_fuel f g h = h

-- The call returns, and its results satisfy `P`.
abbrev pub Returns {ℓ} : {S A : Type ℓ} → (A → Type 0) → Outcome (A × S) → Type 0
Returns P o = Ends (λ a s. P a) o

-- The call returns, whatever its results are.
abbrev pub AnyReturns {ℓ} : {S A : Type ℓ} → Outcome (A × S) → Type 0
AnyReturns o = Returns (λ a. Unit {0}) o

pub Returns-bind {ℓ} :
    {S A B : Type ℓ} (P : A → Type 0) (Q : B → Type 0) (o : Outcome (A × S)) (f : A → Exec S B)
    → Returns P o
    → ((a : A) (s : S) → P a → Returns Q (f a s))
    → Returns Q (and_then o f)
Returns-bind P Q (returned (a, s)) f h k = k a s h
Returns-bind P Q panicked f h k = h
Returns-bind P Q out_of_fuel f h k = h

pub Returns-map {ℓ} :
    {S A B : Type ℓ} (P : B → Type 0) (f : A → B) (o : Outcome (A × S))
    → ((a : A) → P (f a))
    → AnyReturns o
    → Returns P (and_then o (λ a. pure (f a)))
Returns-map P f (returned (a, s)) h k = h a
Returns-map P f panicked h k = k
Returns-map P f out_of_fuel h k = k
