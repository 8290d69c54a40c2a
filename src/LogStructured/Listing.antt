-- ===== src/LogStructured/Listing.antt =====
-- Listing keys through the backend: how often List calls itself.
use thesis_code.Prelude.{
  ℕ, zero, suc, Bytes, ℤ, pos, ◌==ℤ◌, ==ℤ_iff, Bool, false, Bool-cases, inl, inr, List, [], ◌∷◌,
  none, some, Exec, returned, out_of_fuel, Returns, AnyReturns, Returns-bind, Ends-weaken, ◌≡◌, ◌⊎◌,
  refl,
}
use thesis_code.Server.Types.{Error, Event, Err}
use thesis_code.LogStructured.{Log, ListResult, list_after, relist, list}

-- The calls of the log that List makes return, and the current revision is not 0 unless it comes
-- with an error.
pub record Answers {S : Type 0} (log : Log S) : Type 0 where
  pub list_lem :
      (prefix start_key : Bytes) (limit revision : ℤ) (b : Bool) (s : S)
      → AnyReturns (log.list prefix start_key limit revision b s)
  pub current_lem :
      (s : S)
      → Returns
          (λ a. ((a.0 ==ℤ pos 0) ≡ false) ⊎ ((e : Error) × (a.1 ≡ some e)))
          (log.current_revision s)

-- An error alone, or values and the revision that was asked for, if one was.
abbrev pub Listed : ℤ → ListResult → Type 0
Listed revision a =
    ((e : Error) × (a ≡ (pos 0, [], some e)))
    ⊎ ((a.2 ≡ none) × ((revision ≡ pos 0) ⊎ (a.0 ≡ revision)))

module _ {S : Type 0} (log : Log S) (prefix start_key : Bytes) (limit : ℤ) where
  module _ (ok : Answers log) where
    after_at :
        (again : ℤ → Exec S ListResult) (revision : ℤ) (a : ℤ × List Event × Err) (s : S)
        → (revision ==ℤ pos 0) ≡ false
        → Returns (Listed revision) (list_after log again revision a s)
    after_at again revision (rev, events, some e) s h = inl (e, refl)
    after_at again revision (rev, events, none) s h = rw h (inr (refl, inr refl))

    at_revision :
        (fuel : ℕ) (revision : ℤ) (s : S)
        → (revision ==ℤ pos 0) ≡ false
        → Returns (Listed revision) (list log (suc fuel) prefix start_key limit revision s)
    unfolding list
    at_revision fuel revision s h =
        Returns-bind _ _ (log.list prefix start_key limit revision false s) _
          (ok.list_lem prefix start_key limit revision false s) λ a t _. after_at _ revision a t h

    relist_lem :
        (fuel : ℕ) (a : ℤ × Err) (s : S)
        → ((a.0 ==ℤ pos 0) ≡ false) ⊎ ((e : Error) × (a.1 ≡ some e))
        → Returns
            (Listed (pos 0))
            (relist log (λ rev t. list log (suc fuel) prefix start_key limit rev t) a s)
    relist_lem fuel (current_rev, some e) s h = inl (e, refl)
    relist_lem fuel (current_rev, none) s (inr (e, h)) = absurd (cc)
    relist_lem fuel (current_rev, none) s (inl h) =
        Ends-weaken (λ a t. Listed current_rev a) (λ a t. Listed (pos 0) a) _
          (at_revision fuel current_rev s h)
          λ a t l. elim l [ inl e ↦ inl e | inr p ↦ inr (p.0, inl refl) ]

    after_zero :
        (fuel : ℕ) (a : ℤ × List Event × Err) (s : S)
        → Returns
            (Listed (pos 0))
            (list_after log (λ rev t. list log (suc fuel) prefix start_key limit rev t) (pos 0) a s)
    after_zero fuel (rev, events, some e) s = inl (e, refl)
    after_zero fuel (rev, [], none) s =
        Returns-bind _ _ (log.current_revision s) _ (ok.current_lem s) (relist_lem fuel)
    after_zero fuel (rev, event ∷ events, none) s = inr (refl, inl refl)

    -- If the calls of the log return, and the current revision is not 0, then List returns with any
    -- fuel from 2 on, since it calls itself once at most: an error alone, or values with the revision
    -- that was asked for, if it was not 0.
    pub list_ends :
        (fuel : ℕ) (revision : ℤ) (s : S)
        → Returns (Listed revision) (list log (suc (suc fuel)) prefix start_key limit revision s)
    unfolding list
    list_ends fuel revision s = elim (Bool-cases (revision ==ℤ pos 0)) [
      | inr e ↦ at_revision (suc fuel) revision s e
      | inl e ↦ rw ((==ℤ_iff revision (pos 0)).0 e) (
          Returns-bind _ _ (log.list prefix start_key limit (pos 0) false s) _
            (ok.list_lem prefix start_key limit (pos 0) false s) λ a t _. after_zero fuel a t)
    ]

  -- When the log lists nothing and its current revision is 0, List at revision 0 runs out of every
  -- fuel: it calls itself at revision 0 again.
  pub list_empty_loops :
      (rev : ℤ) (s : S)
      → log.list prefix start_key limit (pos 0) false s ≡ returned ((rev, [], none), s)
      → log.current_revision s ≡ returned ((pos 0, none), s)
      → (fuel : ℕ) → list log fuel prefix start_key limit (pos 0) s ≡ out_of_fuel
  unfolding list
  list_empty_loops rev s h k zero = refl
  list_empty_loops rev s h k (suc fuel) = rw (h, k) (list_empty_loops rev s h k fuel)
