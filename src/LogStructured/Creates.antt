-- ===== src/LogStructured/Creates.antt =====
-- Creating a key through the backend, over any log that keeps the contract.
use thesis_code.Prelude.{
  Bytes, ℤ, pos, true, Bool-cases, inl, inr, Option, none, some, Ends, Ends-bind, Ends-weaken, ◌≡◌,
  ◌⊎◌, refl, sym, ap, [], ◌∙◌, ◌>>=◌,
}
use thesis_code.Server.Types.{Error, KeyValue, Event, Err}
use thesis_code.LogStructured.{Log, get_event, adjusted, create_after, create, new_event, absent_kv}
use thesis_code.LogStructured.Contract.{Keeps, Contract, stored, is_single, live, live_of}
use thesis_code.LogStructured.Reads.{Keeps-trans, visible, get_event_lem, finish}
use thesis_code.LogStructured.Writing.{Puts, Puts_lem, Loses, Loses_lem, append_cases}

abbrev pub created_kv : Bytes → Bytes → ℤ → ℤ → KeyValue
created_kv key value lease rev = record {
  key = key;
  create_revision = rev;
  mod_revision = rev;
  value = value;
  lease = lease;
}

module _ {S : Type 0} {log : Log S} (c : Contract log) (key value : Bytes) (lease : ℤ) where
  -- A key with a value is not created. One without a value gets the value with a new revision, or
  -- the log loses the event or refuses it.
  abbrev pub CreateEnds : S → Option KeyValue → ℤ × Err → S → Type 0
  CreateEnds s (some old) a u = (a ≡ (c.view.revision s, some Error.key_exists)) × Keeps c.view s u
  CreateEnds s none a u =
      ((a ≡ (c.view.revision u, none))
        × Puts c.view key (some (created_kv key value lease (c.view.revision u))) s u)
      ⊎ ((a ≡ (c.view.revision u, none)) × Loses c.view s u)
      ⊎ ((e : Error) × (a ≡ (c.view.revision s, some e)) × Keeps c.view s u)

  appended :
      (prev : Option KeyValue) (s t : S)
      → Keeps c.view s t
      → Ends (CreateEnds s none) ((log.append (new_event key value lease prev) >>= adjusted log) t)
  appended prev s t k =
      let event = new_event key value lease prev in
      let done : ℤ → ℤ × Err = λ rev. (rev, none) in
      append_cases c (CreateEnds s none) event (created_kv key value lease (pos 0)) t (adjusted log)
        refl
        (λ u w.
          Ends-weaken _ _ _
            (finish c done (c.view.revision u) u u (refl, λ _. refl, λ _. refl) (inr refl))
            λ a x p. inl (
              p.0 ∙ ap done (sym p.1.0),
              rw (← p.1.0) at (
                  Puts_lem c.view key
                    (stored event (created_kv key value lease (pos 0)) (c.view.revision u)) s t u x
                    k w p.1),
            ))
        (λ u w.
          Ends-weaken _ _ _
            (finish c done (c.view.revision u) u u (refl, λ _. refl, λ _. refl) (inr refl))
            λ a x p. inr (inl (p.0 ∙ ap done (sym p.1.0), Loses_lem c.view s t u x k w p.1)))
        λ e u k'.
          let failed : ℤ → ℤ × Err = λ rev. (rev, some e) in
          Ends-weaken _ _ _ (finish c failed (pos 0) s u (Keeps-trans c.view s t u k k') (inl refl))
            λ a x p. inr (inr (e, p.0, p.1))

  create_cases :
      (o : Option Event) (s t : S)
      → ((e : Event) → o ≡ some e → (kv : KeyValue) × (e.kv ≡ some kv) × (kv.key ≡ key))
      → Keeps c.view s t
      → Ends
          (CreateEnds s (live_of o))
          ((create_after log key value lease (visible (c.view.revision s) o) >>= adjusted log) t)
  create_cases none s t h k = appended (some (absent_kv (pos 0))) s t k
  create_cases (some event) s t h k = elim (Bool-cases event.delete) [
    | inl d ↦ rw d (appended event.kv s t k)
    | inr d ↦
        let (old, e, _) = h event refl in
        let exists : ℤ → ℤ × Err = λ rev. (rev, some Error.key_exists) in
        rw (d, e) (finish c exists (pos 0) s t k (inl refl))
  ]

  pub create_lem :
      (s : S)
      → is_single key ≡ true
      → Ends (CreateEnds s (live c.view s key)) (create log key value lease s)
  unfolding create
  create_lem s h =
      Ends-bind _ _ (get_event log key [] (pos 1) (pos 0) true s) _
        (get_event_lem c s key (pos 1) true h)
        λ a t p. rw p.0 (create_cases (c.view.latest s key) s t (c.latest_kv s key) p.1)
