-- ===== src/LogStructured/Deletes.antt =====
-- Deleting a key through the backend, over any log that keeps the contract.
use thesis_code.Prelude.{
  Bytes, ℤ, pos, ◌==ℤ◌, Bool, true, false, Bool-cases, inl, inr, Option, none, some, Ends,
  Ends-bind, Ends-weaken, Ends-assoc, ◌≡◌, ◌⊎◌, refl, [], ◌∙◌, map_result, ◌>>=◌, if◌then◌else◌,
  not, ◌&&◌,
}
use thesis_code.Server.Types.{KeyValue, Event}
use thesis_code.LogStructured.{
  Log, KvResult, get_event, adjusted_kv, delete_after, delete_appended, delete_event, latest_or,
  delete,
}
use thesis_code.LogStructured.Contract.{Keeps, Contract, stored, is_single, live, live_of}
use thesis_code.LogStructured.Reads.{Keeps-trans, visible, get_event_lem, finish}
use thesis_code.LogStructured.Writing.{Puts, Puts_lem, Loses, Loses_lem, append_cases}

module _ {S : Type 0} {log : Log S} (c : Contract log) (key : Bytes) (revision : ℤ) where
  abbrev pub Kept : S → Option KeyValue → Bool → KvResult → S → Type 0
  Kept s shown done a u = (a ≡ (c.view.revision s, shown, done, none)) × Keeps c.view s u

  abbrev pub Deleted : S → KeyValue → KvResult → S → Type 0
  Deleted s old a u = (a ≡ (c.view.revision u, some old, true, none)) × Puts c.view key none s u

  -- The log lost the event.
  abbrev pub NotDeleted : S → KeyValue → KvResult → S → Type 0
  NotDeleted s old a u = (a ≡ (c.view.revision u, some old, true, none)) × Loses c.view s u

  abbrev pub is_mismatch : KeyValue → Bool
  is_mismatch old = not (revision ==ℤ pos 0) && not (old.mod_revision ==ℤ revision)

  abbrev pub DeleteEnds : S → Option KeyValue → KvResult → S → Type 0
  DeleteEnds s none a u = (shown : Option KeyValue) × Kept s shown true a u
  DeleteEnds s (some old) a u =
      if is_mismatch old
      then Kept s (some old) false a u
      else Deleted s old a u
      ⊎ NotDeleted s old a u
      ⊎ Kept s (some old) false a u

  abbrev Attempted : S → KeyValue → KvResult → S → Type 0
  Attempted s old a u = Deleted s old a u ⊎ NotDeleted s old a u ⊎ Kept s (some old) false a u

  refused :
      (event : Event) (old : KeyValue) (s u : S)
      → event.kv ≡ some old
      → event.delete ≡ false
      → c.view.latest s key ≡ some event
      → is_single key ≡ true
      → Keeps c.view s u
      → Ends (Attempted s old) (
          (map_result (latest_or log (pos 0) event.kv) (get_event log key [] (pos 1) (pos 0) true)
              >>= adjusted_kv log)
            u)
  refused event old s u e d l h k =
      let no : ℤ → KvResult = λ rev. (rev, some old, false, none) in
      Ends-assoc _ (get_event log key [] (pos 1) (pos 0) true u) _ _ (
        Ends-bind _ _ (get_event log key [] (pos 1) (pos 0) true u) _
          (get_event_lem c u key (pos 1) true h)
          λ a w p.
            rw (p.0, k.1 key, l, e)
              (Ends-weaken _ _ _
                (finish c no (c.view.revision u) s w (Keeps-trans c.view s u w k p.1) (inr k.0))
                λ b x q. inr (inr q)))

  attempted :
      (event : Event) (old : KeyValue) (s t : S)
      → event.kv ≡ some old
      → old.key ≡ key
      → event.delete ≡ false
      → c.view.latest s key ≡ some event
      → is_single key ≡ true
      → Keeps c.view s t
      → Ends (Attempted s old) (
          (log.append (delete_event event) >>= delete_appended log key event.kv >>= adjusted_kv log)
            t)
  attempted event old s t e n d l h k =
      let event' = delete_event event in
      Ends-assoc _ (log.append event' t) _ _ (
        append_cases c (Attempted s old) event' old t
          (λ a u. (delete_appended log key event.kv a >>= adjusted_kv log) u) e
          (λ u w.
            let done : ℤ → KvResult = λ rev. (rev, event.kv, true, none) in
            Ends-weaken _ _ _
              (finish c done (c.view.revision u) u u (refl, λ _. refl, λ _. refl) (inr refl))
              λ a x p. inl (
                p.0 ∙ rw (← p.1.0, e),
                rw n at (
                    Puts_lem c.view old.key (stored event' old (c.view.revision u)) s t u x k w
                      p.1),
              ))
          (λ u w.
            let done : ℤ → KvResult = λ rev. (rev, event.kv, true, none) in
            Ends-weaken _ _ _
              (finish c done (c.view.revision u) u u (refl, λ _. refl, λ _. refl) (inr refl))
              λ a x p. inr (inl (p.0 ∙ rw (← p.1.0, e) refl, Loses_lem c.view s t u x k w p.1)))
          (λ e' u k'. refused event old s u e d l h (Keeps-trans c.view s t u k k')))

  delete_cases :
      (o : Option Event) (s t : S)
      → ((e : Event) → o ≡ some e → (kv : KeyValue) × (e.kv ≡ some kv) × (kv.key ≡ key))
      → c.view.latest s key ≡ o
      → is_single key ≡ true
      → Keeps c.view s t
      → Ends
          (DeleteEnds s (live_of o))
          ((delete_after log key revision (visible (c.view.revision s) o) >>= adjusted_kv log) t)
  delete_cases none s t v l h k =
      let gone : ℤ → KvResult = λ rev. (rev, none, true, none) in
      Ends-weaken _ (DeleteEnds s none) _ (finish c gone (pos 0) s t k (inl refl))
        λ a u q. (none, q)
  delete_cases (some event) s t v l h k = elim (Bool-cases event.delete) [
    | inl d ↦
        let gone : ℤ → KvResult = λ rev. (rev, event.kv, true, none) in
        rw d (
          Ends-weaken _ (DeleteEnds s none) _ (finish c gone (c.view.revision s) s t k (inr refl))
            λ a u q. (event.kv, q))
    | inr d ↦ live_cases (v event refl).0 (v event refl).1 (v event refl).2 d
  ]
    where
      live_cases :
          (old : KeyValue)
          → event.kv ≡ some old
          → old.key ≡ key
          → event.delete ≡ false
          → Ends (DeleteEnds s (live_of (some event))) (
              (delete_after log key revision (visible (c.view.revision s) (some event))
                  >>= adjusted_kv log)
                t)
      live_cases old e n d = elim (Bool-cases (revision ==ℤ pos 0)) [
        | inl z ↦
            rw (d, e, z)
              (Ends-weaken (Attempted s old) _ _ (rw e at (attempted event old s t e n d l h k))
                λ a u q. rw z q)
        | inr z ↦ elim (Bool-cases (old.mod_revision ==ℤ revision)) [
          | inl m ↦
              rw (d, e, z, m)
                (Ends-weaken (Attempted s old) _ _ (rw e at (attempted event old s t e n d l h k))
                  λ a u q. rw (z, m) q)
          | inr m ↦
              let no : ℤ → KvResult = λ rev. (rev, some old, false, none) in
              rw (d, e, z, m)
                (Ends-weaken (Kept s (some old) false) _ _
                  (finish c no (c.view.revision s) s t k (inr refl)) λ a u q. rw (z, m) q)
        ]
      ]

  pub delete_lem :
      (s : S)
      → is_single key ≡ true
      → Ends (DeleteEnds s (live c.view s key)) (delete log key revision s)
  unfolding delete
  delete_lem s h =
      Ends-bind _ _ (get_event log key [] (pos 1) (pos 0) true s) _
        (get_event_lem c s key (pos 1) true h)
        λ a t p. rw p.0 (delete_cases (c.view.latest s key) s t (c.latest_kv s key) refl h p.1)
