-- ===== src/LogStructured/Reads.antt =====
-- Reading one key through the backend, over any log that keeps the contract.
use thesis_code.Prelude.{
  Bytes, ℤ, pos, ◌==ℤ◌, Bool, true, false, Bool-cases, inl, inr, [], Option, none, some, Ends,
  Ends-bind, Ends-weaken, ◌⊎◌, ◌≡◌, refl, ap, ◌∙◌, arith, map_result, if◌then◌else◌,
}
use thesis_code.Server.Types.{KeyValue, Event, Err}
use thesis_code.LogStructured.{
  Log, GetResult, get_result, get_event, event_kv, adjust_revision, adjusted_get, get, current_or,
}
use thesis_code.LogStructured.Contract.{
  View, Keeps, Contract, found, asked, is_single, kv_of, shown_kv,
}

-- No value, or the value of the newest event.
abbrev pub IsNewest : Option KeyValue → Option Event → Type 0
IsNewest kv latest = (kv ≡ none) ⊎ ((e : Event) × (latest ≡ some e) × (kv ≡ e.kv))

module _ {S : Type 0} (v : View S) where
  pub Keeps-trans : (s t u : S) → Keeps v s t → Keeps v t u → Keeps v s u
  Keeps-trans s t u h k = (k.0 ∙ h.0, λ key. k.1 key ∙ h.1 key, λ key. k.2 key ∙ h.2 key)

either_way : (b : Bool) (rev : ℤ) → (if b then rev else rev) ≡ rev
either_way true rev = refl
either_way false rev = refl

-- What `get_event` makes of the answer of the log.
abbrev pub visible : ℤ → Option Event → GetResult
visible rev none = (pos 0, none, none)
visible rev (some e) = (rev, some e, none)

visible-found : (rev : ℤ) (o : Option Event) → get_result (pos 0) (found rev o) ≡ visible rev o
visible-found rev none = refl
visible-found rev (some e) = ground arith

module _ {S : Type 0} {log : Log S} (c : Contract log) (s : S) where
  pub get_event_lem :
      (key : Bytes) (limit : ℤ) (b : Bool)
      → is_single key ≡ true
      → Ends
          (λ a t. (a ≡ visible (c.view.revision s) (asked c.view b s key)) × Keeps c.view s t)
          (get_event log key [] limit (pos 0) b s)
  unfolding get_event
  get_event_lem key limit b h =
      Ends-bind (λ a t. (a ≡ found (c.view.revision s) (asked c.view b s key)) × Keeps c.view s t) _
        (log.list key [] limit (pos 0) b s) _ (c.list_lem key limit b s h)
        λ a t p. (
          ap (get_result (pos 0)) p.0 ∙ visible-found (c.view.revision s) (asked c.view b s key),
          p.1,
        )

  pub adjust_revision_lem :
      (rev : ℤ)
      → Ends
          (λ a t. (a ≡ (if rev ==ℤ pos 0 then c.view.revision s else rev)) × Keeps c.view s t)
          (adjust_revision log rev s)
  unfolding adjust_revision
  adjust_revision_lem rev = elim (Bool-cases (rev ==ℤ pos 0)) [
    | inl e ↦ rw e (
        Ends-bind (λ a t. (a ≡ (c.view.revision s, none)) × Keeps c.view s t) _
          (log.current_revision s) _ (c.current_lem s)
          λ a t p. (ap (λ (x : ℤ × Err). current_or log x rev) p.0, p.1))
    | inr e ↦ rw e (refl, (refl, λ k. refl, λ k. refl))
  ]

  -- The revision of a result after the deferred adjustment.
  abbrev pub or_current : ℤ → ℤ
  or_current rev = if rev ==ℤ pos 0 then c.view.revision s else rev

  pub adjusted_lem :
      {B : Type 0} (f : ℤ → B) (rev : ℤ)
      → Ends
          (λ a t. (a ≡ f (or_current rev)) × Keeps c.view s t)
          (map_result f (adjust_revision log rev) s)
  adjusted_lem f rev =
      Ends-bind (λ a t. (a ≡ or_current rev) × Keeps c.view s t) _ (adjust_revision log rev s) _
        (adjust_revision_lem rev) λ a t p. (ap f p.0, p.1)

module _ {S : Type 0} {log : Log S} (c : Contract log) where
  pub newest_lem : (s : S) (key : Bytes) → IsNewest (shown_kv c.view s key) (c.view.latest s key)
  newest_lem s key = newest (c.view.shown s key) (c.shown_latest s key)
    where
      newest :
          (o : Option Event)
          → ((e : Event) → o ≡ some e → c.view.latest s key ≡ some e)
          → IsNewest (kv_of o) (c.view.latest s key)
      newest none f = inl refl
      newest (some e) f = inr (e, f e refl, refl)

  -- The end of an operation that found the revision `rev`, with the rest of its results fixed.
  pub finish :
      {B : Type 0} (f : ℤ → B) (rev : ℤ) (s t : S)
      → Keeps c.view s t
      → (rev ≡ pos 0) ⊎ (rev ≡ c.view.revision s)
      → Ends
          (λ a u. (a ≡ f (c.view.revision s)) × Keeps c.view s u)
          (map_result f (adjust_revision log rev) t)
  finish f rev s t k (inl z) =
      Ends-weaken _ _ (map_result f (adjust_revision log rev) t) (adjusted_lem c t f rev)
        λ a u p. (p.0 ∙ ap f (rw z k.0), Keeps-trans c.view s t u k p.1)
  finish f rev s t k (inr r) =
      Ends-weaken _ _ (map_result f (adjust_revision log rev) t) (adjusted_lem c t f rev) λ a u p. (
        p.0 ∙ ap f (rw (r, k.0) (either_way (c.view.revision s ==ℤ pos 0) (c.view.revision s))),
        Keeps-trans c.view s t u k p.1,
      )

  get_after :
      (o : Option Event) (s t : S)
      → Keeps c.view s t
      → Ends
          (λ a u. (a ≡ (c.view.revision s, kv_of o, none)) × Keeps c.view s u)
          (adjusted_get log (event_kv (visible (c.view.revision s) o)) t)
  get_after none s t k = finish (λ rev. (rev, none, none)) (pos 0) s t k (inl refl)
  get_after (some e) s t k = finish (λ rev. (rev, e.kv, none)) (c.view.revision s) s t k (inr refl)

  -- Reading a single key without a range end, at revision 0 and whatever the limit, returns, without
  -- an error, the current revision and the value that a listing without deletions shows of the key:
  -- that of its newest event, or none. The view of the log stays.
  pub get_lem :
      (key : Bytes) (limit : ℤ) (s : S)
      → is_single key ≡ true
      → Ends
          (λ a t.
            (a ≡ (c.view.revision s, shown_kv c.view s key, none))
            × IsNewest (shown_kv c.view s key) (c.view.latest s key)
            × Keeps c.view s t)
          (get log key [] limit (pos 0) s)
  unfolding get
  get_lem key limit s h =
      Ends-bind _ _ (get_event log key [] limit (pos 0) false s) _
        (get_event_lem c s key limit false h)
        λ a t p. rw p.0 (
          Ends-weaken
            (λ b u. (b ≡ (c.view.revision s, shown_kv c.view s key, none)) × Keeps c.view s u)
            (λ b u.
              (b ≡ (c.view.revision s, shown_kv c.view s key, none))
              × IsNewest (shown_kv c.view s key) (c.view.latest s key)
              × Keeps c.view s u)
            _ (get_after (c.view.shown s key) s t p.1) λ b u q. (q.0, newest_lem s key, q.1))
