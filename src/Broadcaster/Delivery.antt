-- ===== src/Broadcaster/Delivery.antt =====
-- What a subscriber receives as long as it keeps up.
use thesis_code.Prelude.{
  ℕ, zero, suc, ◌≤◌, ltb, ◌==◌, true, Bool-cases, inl, inr, List, [], ◌∷◌, ◌++◌, map, length,
  length-append, drop, All, ◌⊎◌, ◌≡◌, refl, sym, ap, ◌∙◌, arith, ◌||◌,
}
use thesis_code.Broadcaster.{
  Sub, Broadcaster, Action, subscribe, unsub, item, closed, receive, sub_size, offer, remove,
  take_one, step, run,
}

-- A channel never holds more than its capacity. If it was not dropped it received, in order, all
-- items that were streamed since it was made.
pub record IsServed {A : Type 0} (streamed : List A) (sub : Sub A) : Type 0 where
  pub fits : sub.waiting ≤ sub_size
  pub started : sub.start ≤ length streamed
  pub complete : (sub.dropped ≡ true) ⊎ (sub.received ≡ drop sub.start streamed)

drop-append :
    {A : Type 0} (n : ℕ) (xs ys : List A) → n ≤ length xs → drop n (xs ++ ys) ≡ drop n xs ++ ys
drop-append zero xs ys h = refl
drop-append (suc n) [] ys h = absurd (omega arith)
drop-append (suc n) (x ∷ xs) ys h = drop-append n xs ys (omega arith)

drop-length : {A : Type 0} (xs : List A) → drop (length xs) xs ≡ []
drop-length [] = refl
drop-length (x ∷ xs) = drop-length xs

module _ {A : Type 0} where
  offer-IsServed :
      (streamed : List A) (x : A) (sub : Sub A)
      → IsServed streamed sub
      → IsServed (streamed ++ x ∷ []) (offer x sub)
  unfolding offer
  offer-IsServed streamed x sub h = elim (Bool-cases (ltb sub.waiting sub_size)) [
    | inl room ↦ rw room (record {
      fits = ground arith;
      started = longer;
      complete = elim h.complete [
        | inl d ↦ inl d
        | inr e ↦
            inr
              (ap (λ xs. xs ++ x ∷ []) e ∙ sym (drop-append sub.start streamed (x ∷ []) h.started))
      ];
    })
    | inr full ↦ rw full (record { fits = h.fits; started = longer; complete = inl refl })
  ]
    where
      longer : sub.start ≤ length (streamed ++ x ∷ [])
      longer = omega (arith, h.started, length-append streamed (x ∷ []))

  take_one-IsServed :
      (streamed : List A) (id : ℕ) (sub : Sub A)
      → IsServed streamed sub
      → IsServed streamed (take_one id sub)
  unfolding take_one
  take_one-IsServed streamed id sub h = elim (Bool-cases (sub.id == id)) [
    | inl e ↦
        rw e (record { fits = omega (arith, h.fits); started = h.started; complete = h.complete })
    | inr e ↦ rw e h
  ]

  All-map :
      (P Q : Sub A → Type 0) (f : Sub A → Sub A) (subs : List (Sub A))
      → ((sub : Sub A) → P sub → Q (f sub))
      → All P subs
      → All Q (map f subs)
  All-map P Q f [] k h = tt
  All-map P Q f (sub ∷ subs) k h = (k sub h.0, All-map P Q f subs k h.1)

  All-remove :
      (P : Sub A → Type 0) (id : ℕ) (subs : List (Sub A)) → All P subs → All P (remove id subs)
  unfolding remove
  All-remove P id [] h = tt
  All-remove P id (sub ∷ subs) h = elim (Bool-cases (sub.id == id)) [
    | inl e ↦ rw e (All-remove P id subs h.1)
    | inr e ↦ rw e (h.0, All-remove P id subs h.1)
  ]

  abbrev pub AllServed : Broadcaster A → Type 0
  AllServed b = All (IsServed b.streamed) b.subs

  step-AllServed : (b : Broadcaster A) (a : Action A) → AllServed b → AllServed (step b a)
  unfolding step
  step-AllServed b (subscribe connected) h = elim (Bool-cases (b.running || connected)) [
    | inl go ↦ rw go (
      record {
        fits = omega arith;
        started = omega arith;
        complete = inr (sym (drop-length b.streamed));
      },
      h,
    )
    | inr no_go ↦ rw no_go h
  ]
  step-AllServed b (unsub id) h = All-remove (IsServed b.streamed) id b.subs h
  step-AllServed b (item x) h =
      All-map (IsServed b.streamed) (IsServed (b.streamed ++ x ∷ [])) (offer x) b.subs
        (offer-IsServed b.streamed x) h
  step-AllServed b closed h = tt
  step-AllServed b (receive id) h =
      All-map (IsServed b.streamed) (IsServed b.streamed) (take_one id) b.subs
        (take_one-IsServed b.streamed id) h

  -- In every execution, whatever the order of the actions of the stream, the subscribers and the
  -- goroutines, every channel in the map holds at most its capacity, and one that was not dropped
  -- has received exactly the items streamed since it was made, in their order.
  pub run-AllServed :
      (b : Broadcaster A) (actions : List (Action A)) → AllServed b → AllServed (run b actions)
  unfolding run
  run-AllServed b [] h = h
  run-AllServed b (a ∷ actions) h = run-AllServed (step b a) actions (step-AllServed b a h)
