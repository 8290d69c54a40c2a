-- ===== src/LogStructured/Leases/Pages.antt =====
-- The reading of the leases over the pages of a listing.
use thesis_code.Prelude.{
  and_then, ℕ, zero, suc, ◌<◌, Bytes, ℤ, pos, ltb_ℤ, Bool, true, false, List, [], ◌∷◌, ◌++◌, length,
  All, Option, none, some, Outcome, Returns, Returns-bind, Exec, pure, ◌>>=◌, map_result, ◌≡◌, ◌≢◌,
  refl, sym, ap, arith, if◌then◌else◌,
}
use thesis_code.Server.Types.{KeyValue, Event, Err}
use thesis_code.LogStructured.{Log, deref}
use thesis_code.LogStructured.Leases.{leased, last_kv, page, pages_leased, old_leased}

abbrev pub HasValue : Event → Type 0
HasValue event = (kv : KeyValue) × (event.kv ≡ some kv)

abbrev pub has_lease : Option KeyValue → Bool
has_lease none = false
has_lease (some kv) = ltb_ℤ (pos 0) kv.lease

abbrev pub with_lease : List Event → List Event
with_lease [] = []
with_lease (event ∷ events) =
    let rest = with_lease events in if has_lease event.kv then event ∷ rest else rest

abbrev pub all_events : List (List Event) → List Event
all_events [] = []
all_events (events ∷ pages) = events ++ all_events pages

leased_lem :
    {S : Type 0} (events : List Event) (s : S)
    → All HasValue events
    → leased events s ≡ Outcome.returned (with_lease events, s)
unfolding leased
leased_lem [] s h = refl
leased_lem (event ∷ events) s ((kv, e), h) = rw (e, leased_lem events s h) refl

with_lease-append : (xs ys : List Event) → with_lease (xs ++ ys) ≡ with_lease xs ++ with_lease ys
with_lease-append [] ys = refl
with_lease-append (x ∷ xs) ys = rw (with_lease-append xs ys) (joined (has_lease x.kv))
  where
    joined :
        (b : Bool)
        → (if b then x ∷ (with_lease xs ++ with_lease ys) else with_lease xs ++ with_lease ys)
          ≡ (if b then x ∷ with_lease xs else with_lease xs) ++ with_lease ys
    joined true = refl
    joined false = refl

last_kv-HasValue :
    (event : Event) (events : List Event)
    → All HasValue (event ∷ events)
    → (kv : KeyValue) × (last_kv event events ≡ some kv)
last_kv-HasValue event [] (h, _) = h
last_kv-HasValue event (next ∷ events) (_, h) = last_kv-HasValue next events h

abbrev pub key_of : Option KeyValue → Bytes
key_of none = []
key_of (some kv) = kv.key

-- The key that the page behind these events starts from.
abbrev pub key_behind : List Event → Bytes
key_behind [] = []
key_behind (event ∷ events) = key_of (last_kv event events)

-- A result that is mapped at the end of two calls.
Returns-mapped :
    {S A B C : Type 0} (P : B → Type 0) (Q : C → Type 0) (o : Outcome (A × S)) (f : A → Exec S B)
    (g : B → C)
    → Returns P (and_then o f)
    → ((b : B) → P b → Q (g b))
    → Returns Q (and_then o (λ a s. and_then (f a s) (λ b. pure (g b))))
Returns-mapped P Q (Outcome.returned (a, s)) f g h k =
    Returns-bind P Q (f a s) (λ b. pure (g b)) h λ b t e. k b e
Returns-mapped P Q Outcome.panicked f g h k = h
Returns-mapped P Q Outcome.out_of_fuel f g h k = h

Returns-leased :
    {S : Type 0} (events : List Event) (s : S)
    → All HasValue events
    → Returns (λ found. found ≡ with_lease events) (leased events s)
Returns-leased events s h = rw (leased_lem events s h) refl

module _ {S : Type 0} (log : Log S) where
  -- The listing behind the events before gives these pages one after the other, and then an empty
  -- one, whatever the state is.
  abbrev pub Pages : ℤ → List Event → List (List Event) → Type 0
  Pages rev before [] = (s : S) → Returns (λ a. a.1 ≡ []) (page log (key_behind before) rev s)
  Pages rev before (events ∷ pages) =
      ((s : S) → Returns (λ a. (a.1 ≡ events) × (a.2 ≡ none)) (page log (key_behind before) rev s))
      × All HasValue events
      × (events ≢ [])
      × Pages rev events pages

  abbrev Next : ℕ → ℤ → List Event → List Event → Type 0
  Next fuel rev before after =
      (s : S)
      → Returns (λ a. a ≡ with_lease after)
          ((page log (key_behind before) rev >>= λ (_, more, err).
              pages_leased log fuel rev (more, err))
            s)

  -- What is done with a page and the one behind it, when the rest `next` is known.
  page_behind :
      (o : Option KeyValue) (rev : ℤ) (found after : List Event)
      (next : List Event × Err → Exec S (List Event)) (s : S)
      → (kv : KeyValue) × (o ≡ some kv)
      → Returns
          (λ a. a ≡ with_lease after)
          ((page log (key_of o) rev >>= λ (_, more, err). next (more, err)) s)
      → Returns
          (λ a. a ≡ found ++ with_lease after)
          (deref o
            (λ kv. page log kv.key rev >>= λ (_, more, err).
              map_result (λ rest. found ++ rest) (next (more, err)))
            s)
  page_behind none rev found after next s (kv, e) h = absurd (cc)
  page_behind (some kv) rev found after next s k h =
      Returns-mapped (λ a. a ≡ with_lease after) (λ a. a ≡ found ++ with_lease after)
        (page log kv.key rev s) _ (λ rest. found ++ rest) h λ b e. ap (λ z. found ++ z) e

  first_page_lem :
      (fuel : ℕ) (rev : ℤ) (event : Event) (events after : List Event) (s : S)
      → All HasValue (event ∷ events)
      → Next fuel rev (event ∷ events) after
      → Returns
          (λ a. a ≡ with_lease ((event ∷ events) ++ after))
          (pages_leased log (suc fuel) rev (event ∷ events, none) s)
  unfolding pages_leased
  first_page_lem fuel rev event events after s h n =
      Returns-bind (λ found. found ≡ with_lease (event ∷ events))
        (λ a. a ≡ with_lease ((event ∷ events) ++ after)) (leased (event ∷ events) s) _
        (Returns-leased (event ∷ events) s h)
        λ found t e.
          rw (with_lease-append (event ∷ events) after, sym e)
            (page_behind (last_kv event events) rev found after
              (λ answer u. pages_leased log fuel rev answer u) t (last_kv-HasValue event events h)
              (n t))

  pages_leased_lem :
      (pages : List (List Event)) (fuel : ℕ) (rev : ℤ) (before : List Event)
      → length pages < suc fuel
      → Pages rev before pages
      → Next fuel rev before (all_events pages)
  unfolding pages_leased
  pages_leased_lem [] fuel rev before lt p s =
      Returns-bind (λ a. a.1 ≡ []) (λ a. a ≡ []) (page log (key_behind before) rev s) _ (p s)
        λ (r, more, err) t e. rw e refl
  pages_leased_lem ([] ∷ pages) fuel rev before lt (_, _, ne, _) s = absurd (ne refl)
  pages_leased_lem ((event ∷ events) ∷ pages) zero rev before lt p s = absurd (omega arith)
  pages_leased_lem ((event ∷ events) ∷ pages) (suc fuel) rev before lt (now, h, _, p) s =
      Returns-bind (λ a. (a.1 ≡ event ∷ events) × (a.2 ≡ none))
        (λ a. a ≡ with_lease ((event ∷ events) ++ all_events pages))
        (page log (key_behind before) rev s) _ (now s)
        λ (r, more, err) t (e, e').
          rw (e, e')
            (first_page_lem fuel rev event events (all_events pages) t h
              (pages_leased_lem pages fuel rev (event ∷ events) (omega arith) p))

  same_page :
      (P : List Event → Type 0) (fuel : ℕ) (rev : ℤ) (event : Event) (events : List Event) (r : ℤ)
      (more : List Event) (err : Err) (t : S)
      → r ≡ rev
      → more ≡ event ∷ events
      → err ≡ none
      → Returns P (pages_leased log (suc fuel) rev (event ∷ events, none) t)
      → Returns P (pages_leased log (suc fuel) r (more, err) t)
  same_page P fuel rev event events r more err t e e' e'' g = rw (e, e', e'') g

  -- If the listing at revision 0 answers with revision `rev` and a page that is not empty, and, in
  -- whatever state it is, the listing at `rev` from the last key of each page answers with the next
  -- page, not empty, and after the last page with none, and every event has a value, then with more
  -- fuel than there are pages behind the first the reading of the old leases returns exactly the
  -- events of all pages whose value has a lease above 0, in their order.
  pub old_leased_lem :
      (fuel : ℕ) (rev : ℤ) (event : Event) (events : List Event) (pages : List (List Event)) (s : S)
      → Returns (λ a. (a.0 ≡ rev) × (a.1 ≡ event ∷ events) × (a.2 ≡ none)) (page log [] (pos 0) s)
      → All HasValue (event ∷ events)
      → Pages rev (event ∷ events) pages
      → length pages < fuel
      → Returns (λ a. a ≡ with_lease ((event ∷ events) ++ all_events pages)) (old_leased log fuel s)
  unfolding old_leased
  old_leased_lem zero rev event events pages s first h p lt = absurd (omega arith)
  old_leased_lem (suc fuel) rev event events pages s first h p lt =
      Returns-bind (λ a. (a.0 ≡ rev) × (a.1 ≡ event ∷ events) × (a.2 ≡ none))
        (λ a. a ≡ with_lease ((event ∷ events) ++ all_events pages)) (page log [] (pos 0) s) _ first
        λ (r, more, err) t (e, e', e'').
          same_page (λ a. a ≡ with_lease ((event ∷ events) ++ all_events pages)) fuel rev event
            events r more err t e e' e''
            (first_page_lem fuel rev event events (all_events pages) t h
              (pages_leased_lem pages fuel rev (event ∷ events) lt p))
