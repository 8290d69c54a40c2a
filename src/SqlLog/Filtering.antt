-- ===== src/SqlLog/Filtering.antt =====
-- What the filter of a watch keeps of the events that poll sent.
use thesis_code.Prelude.{
  Bytes, bytes_eq, has_prefix, ℤ, ◌≤ℤ◌, Bool, true, false, Bool-cases, inl, inr, ◌&&◌, ◌||◌, List,
  [], ◌∷◌, Option, none, some, ◌≡◌, refl, arith, if◌then◌else◌,
}
use thesis_code.Server.Types.{KeyValue, Event}
use thesis_code.SqlLog.{filter}
use thesis_code.LogStructured.Watch.Stream.{Grows}

-- A key under the prefix, or the key itself.
abbrev pub is_match : Bool → Bytes → Option KeyValue → Bool
is_match check_prefix prefix none = false
is_match check_prefix prefix (some kv) =
    (check_prefix && has_prefix kv.key prefix) || bytes_eq kv.key prefix

abbrev pub matching : Bool → Bytes → List Event → List Event
matching check_prefix prefix [] = []
matching check_prefix prefix (event ∷ events) =
    let rest = matching check_prefix prefix events in
    if is_match check_prefix prefix event.kv then event ∷ rest else rest

Grows-weaken : (a b : ℤ) (events : List Event) → a ≤ℤ b → Grows b events → Grows a events
Grows-weaken a b [] h g = tt
Grows-weaken a b (event ∷ events) h (kv, e, l, g) = (kv, e, omega arith, g)

matching-Grows :
    (check_prefix : Bool) (prefix : Bytes) (lo : ℤ) (events : List Event)
    → Grows lo events
    → Grows lo (matching check_prefix prefix events)
matching-Grows check_prefix prefix lo [] g = tt
matching-Grows check_prefix prefix lo (event ∷ events) (kv, e, l, g) =
    let ih = matching-Grows check_prefix prefix kv.mod_revision events g in
    elim (Bool-cases (is_match check_prefix prefix event.kv)) [
      | inl m ↦ rw m (kv, e, l, ih)
      | inr m ↦ rw m (Grows-weaken lo kv.mod_revision _ (omega arith) ih)
    ]

some_if :
    (b : Bool) (xs ys : List Event) → (if b then some xs else some ys) ≡ some (if b then xs else ys)
some_if true xs ys = refl
some_if false xs ys = refl

filter-matching :
    (check_prefix : Bool) (prefix : Bytes) (lo : ℤ) (events : List Event)
    → Grows lo events
    → filter check_prefix prefix events ≡ some (matching check_prefix prefix events)
unfolding filter
filter-matching check_prefix prefix lo [] g = refl
filter-matching check_prefix prefix lo (event ∷ events) (kv, e, l, g) =
    rw (e, filter-matching check_prefix prefix kv.mod_revision events g)
      (some_if ((check_prefix && has_prefix kv.key prefix) || bytes_eq kv.key prefix) _ _)

-- On events that carry a value and whose revisions grow, the filter of a watch does not fail, keeps
-- exactly those whose key is the one of the watch, or starts with it if it is a prefix, and the
-- revisions of what it keeps grow from above the same revision.
pub filter_lem :
    (check_prefix : Bool) (prefix : Bytes) (lo : ℤ) (events : List Event)
    → Grows lo events
    → (filter check_prefix prefix events ≡ some (matching check_prefix prefix events))
      × Grows lo (matching check_prefix prefix events)
filter_lem check_prefix prefix lo events g = (
  filter-matching check_prefix prefix lo events g,
  matching-Grows check_prefix prefix lo events g,
)
