-- ===== src/LogStructured/Updates.antt =====
-- Updating a key at a revision through the backend, over any log that keeps the contract.
use thesis_code.Prelude.{
  Bytes, ℤ, pos, ◌==ℤ◌, true, false, Bool-cases, inl, inr, Option, none, some, Ends, Ends-bind,
  Ends-weaken, Ends-assoc, ◌≡◌, ◌⊎◌, refl, sym, ap, [], ◌∙◌, map_result, ◌>>=◌, if◌then◌else◌,
}
use thesis_code.Server.Types.{KeyValue, Event}
use thesis_code.LogStructured.{
  Log, KvResult, get_event, adjusted_kv, update_after, update_appended, update_refused, update,
  update_event, updated_kv,
}
use thesis_code.LogStructured.Contract.{Keeps, Contract, stored, is_single, kv_of, shown_kv}
use thesis_code.LogStructured.Reads.{
  IsNewest, newest_lem, Keeps-trans, visible, get_event_lem, finish,
}
use thesis_code.LogStructured.Writing.{Puts, Puts_lem, Loses, Loses_lem, append_cases}

module _ {S : Type 0} {log : Log S} (c : Contract log) (key value : Bytes)
    (revision lease : ℤ) where
  abbrev pub Refused : S → Option KeyValue → KvResult → S → Type 0
  Refused s old a u = (a ≡ (c.view.revision s, old, false, none)) × Keeps c.view s u

  abbrev pub Updated : S → KeyValue → KvResult → S → Type 0
  Updated s old a u =
      let new = updated_kv key value lease (c.view.revision u) old in
      (a ≡ (c.view.revision u, some new, true, none)) × Puts c.view key (some new) s u

  -- The log lost the event.
  abbrev pub NotUpdated : S → KeyValue → KvResult → S → Type 0
  NotUpdated s old a u =
      let new = updated_kv key value lease (c.view.revision u) old in
      (a ≡ (c.view.revision u, some new, true, none)) × Loses c.view s u

  -- Only a key that is shown with a value of the given mod revision is updated.
  abbrev pub UpdateEnds : S → Option KeyValue → KvResult → S → Type 0
  UpdateEnds s none a u = Refused s none a u
  UpdateEnds s (some old) a u =
      if old.mod_revision ==ℤ revision
      then Updated s old a u ⊎ NotUpdated s old a u ⊎ Refused s (some old) a u
      else Refused s (some old) a u

  abbrev Attempted : S → KeyValue → KvResult → S → Type 0
  Attempted s old a u = Updated s old a u ⊎ NotUpdated s old a u ⊎ Refused s (some old) a u

  refused :
      (event : Event) (old : KeyValue) (s u : S)
      → event.kv ≡ some old
      → c.view.shown s key ≡ some event
      → is_single key ≡ true
      → Keeps c.view s u
      → Ends (Attempted s old) (
          (map_result (update_refused log) (get_event log key [] (pos 1) (pos 0) false)
              >>= adjusted_kv log)
            u)
  refused event old s u e l h k =
      let no : ℤ → KvResult = λ rev. (rev, some old, false, none) in
      Ends-assoc _ (get_event log key [] (pos 1) (pos 0) false u) _ _ (
        Ends-bind _ _ (get_event log key [] (pos 1) (pos 0) false u) _
          (get_event_lem c u key (pos 1) false h)
          λ a w p.
            rw (p.0, k.2 key, l, e)
              (Ends-weaken _ _ _
                (finish c no (c.view.revision u) s w (Keeps-trans c.view s u w k p.1) (inr k.0))
                λ b x q. inr (inr q)))

  attempted :
      (event : Event) (old : KeyValue) (s t : S)
      → event.kv ≡ some old
      → c.view.shown s key ≡ some event
      → is_single key ≡ true
      → Keeps c.view s t
      → Ends (Attempted s old) (
          (log.append (update_event key value lease old)
              >>= update_appended log key value lease old
              >>= adjusted_kv log)
            t)
  attempted event old s t e l h k =
      let event' = update_event key value lease old in
      let new = updated_kv key value lease (pos 0) old in
      Ends-assoc _ (log.append event' t) _ _ (
        append_cases c (Attempted s old) event' new t
          (λ a u. (update_appended log key value lease old a >>= adjusted_kv log) u) refl
          (λ u w.
            let done : ℤ → KvResult =
              λ rev. (rev, some (updated_kv key value lease (c.view.revision u) old), true, none) in
            Ends-weaken _ _ _
              (finish c done (c.view.revision u) u u (refl, λ _. refl, λ _. refl) (inr refl))
              λ a x p. inl (
                p.0
                    ∙ ap (λ rev. (rev, some (updated_kv key value lease rev old), true, none))
                        (sym p.1.0),
                rw (← p.1.0) at
                    (Puts_lem c.view key (stored event' new (c.view.revision u)) s t u x k w p.1),
              ))
          (λ u w.
            let done : ℤ → KvResult =
              λ rev. (rev, some (updated_kv key value lease (c.view.revision u) old), true, none) in
            Ends-weaken _ _ _
              (finish c done (c.view.revision u) u u (refl, λ _. refl, λ _. refl) (inr refl))
              λ a x p. inr (
                inl (
                  p.0
                      ∙ ap (λ rev. (rev, some (updated_kv key value lease rev old), true, none))
                          (sym p.1.0),
                  Loses_lem c.view s t u x k w p.1,
                )))
          (λ e' u k'. refused event old s u e l h (Keeps-trans c.view s t u k k')))

  update_cases :
      (o : Option Event) (s t : S)
      → ((e : Event) → o ≡ some e → (kv : KeyValue) × (e.kv ≡ some kv))
      → c.view.shown s key ≡ o
      → is_single key ≡ true
      → Keeps c.view s t
      → Ends (UpdateEnds s (kv_of o)) (
          (update_after log key value revision lease (visible (c.view.revision s) o)
              >>= adjusted_kv log)
            t)
  update_cases none s t v l h k =
      let no : ℤ → KvResult = λ rev. (rev, none, false, none) in
      finish c no (pos 0) s t k (inl refl)
  update_cases (some event) s t v l h k = shown_cases (v event refl).0 (v event refl).1
    where
      shown_cases :
          (old : KeyValue)
          → event.kv ≡ some old
          → Ends (UpdateEnds s (kv_of (some event))) (
              (update_after log key value revision lease (visible (c.view.revision s) (some event))
                  >>= adjusted_kv log)
                t)
      shown_cases old e = elim (Bool-cases (old.mod_revision ==ℤ revision)) [
        | inl m ↦
            rw (e, m)
              (Ends-weaken (Attempted s old) _ _ (attempted event old s t e l h k) λ a u q. rw m q)
        | inr m ↦
            let no : ℤ → KvResult = λ rev. (rev, some old, false, none) in
            rw (e, m)
              (Ends-weaken (Refused s (some old)) _ _
                (finish c no (c.view.revision s) s t k (inr refl)) λ a u q. rw m q)
      ]

  pub update_lem :
      (s : S)
      → is_single key ≡ true
      → Ends
          (λ a u.
            UpdateEnds s (shown_kv c.view s key) a u
            × IsNewest (shown_kv c.view s key) (c.view.latest s key))
          (update log key value revision lease s)
  unfolding update
  update_lem s h =
      Ends-bind _ _ (get_event log key [] (pos 1) (pos 0) false s) _
        (get_event_lem c s key (pos 1) false h)
        λ a t p. rw p.0 (
          Ends-weaken (UpdateEnds s (shown_kv c.view s key)) _ _
            (update_cases (c.view.shown s key) s t with_value refl h p.1)
            λ b u q. (q, newest_lem c s key))
    where
      with_value : (e : Event) → c.view.shown s key ≡ some e → (kv : KeyValue) × (e.kv ≡ some kv)
      with_value e q = let (kv, v, _) = c.latest_kv s key e (c.shown_latest s key e q) in (kv, v)
