-- ===== src/LogStructured/Races.antt =====
-- Two clients that update a key at the same revision, one after the other.
use thesis_code.Prelude.{
  Bytes, bytes_eq_refl, ℤ, ◌≤ℤ◌, ◌==ℤ◌, Bool, true, false, Option, none, some, Ends, Ends-weaken,
  inl, inr, ◌≡◌, ◌⊎◌, refl, ap, ◌∙◌, arith, if◌then◌else◌,
}
use thesis_code.Server.Types.{KeyValue, Event}
use thesis_code.LogStructured.{Log, KvResult, update, updated_kv}
use thesis_code.LogStructured.Contract.{View, Contract, Keeps, is_single, live, live_of, shown_kv}
use thesis_code.LogStructured.Reads.{IsNewest}
use thesis_code.LogStructured.Updates.{UpdateEnds, Updated, NotUpdated, Refused, update_lem}

-- Every key keeps its value.
abbrev pub Unwritten : {S : Type 0} → View S → S → S → Type 0
Unwritten v s t = (k : Bytes) → live v t k ≡ live v s k

-- The second is refused: it shows nothing or what the first wrote, and the view of the log stays.
abbrev pub Lost : {S : Type 0} → View S → KvResult → KvResult → S → S → Type 0
Lost v a b t u = ((b ≡ (a.0, none, false, none)) ⊎ (b ≡ (a.0, a.1, false, none))) × Keeps v t u

module _ {S : Type 0} {log : Log S} (c : Contract log) (key : Bytes) (revision : ℤ) where
  module _ (value : Bytes) (lease : ℤ) where
    won_some :
        (s t : S) (old : KeyValue) (a : KvResult) (b : Bool)
        → (if b
            then Updated c key value revision lease s old a t
              ⊎ NotUpdated c key value revision lease s old a t
              ⊎ Refused c key value revision lease s (some old) a t
            else Refused c key value revision lease s (some old) a t)
        → Unwritten c.view s t ⊎ ((kv : KeyValue) × Updated c key value revision lease s kv a t)
    won_some s t old a true (inl h) = inr (old, h)
    won_some s t old a true (inr (inl h)) = inl h.1.1
    won_some s t old a true (inr (inr h)) = inl λ k. ap live_of (h.1.1 k)
    won_some s t old a false h = inl λ k. ap live_of (h.1.1 k)

    won :
        (s t : S) (old : Option KeyValue) (a : KvResult)
        → UpdateEnds c key value revision lease s old a t
        → Unwritten c.view s t ⊎ ((kv : KeyValue) × Updated c key value revision lease s kv a t)
    won s t none a h = inl λ k. ap live_of (h.1.1 k)
    won s t (some old) a h = won_some s t old a (old.mod_revision ==ℤ revision) h

  live_kv :
      (b : Bool) (kv : Option KeyValue) (new : KeyValue)
      → (if b then none else kv) ≡ some new
      → kv ≡ some new
  live_kv true kv new h = absurd (cc)
  live_kv false kv new h = h

  -- A newest event that is shown is that of the value that is there.
  shown_or_none :
      (kv : Option KeyValue) (latest : Option Event) (new : KeyValue)
      → live_of latest ≡ some new
      → IsNewest kv latest
      → (kv ≡ none) ⊎ (kv ≡ some new)
  shown_or_none kv latest new l (inl e) = inl e
  shown_or_none kv latest new l (inr (e, p, q)) = inr (q ∙ live_kv e.delete e.kv new (rw p at l))

  lost :
      (value second : Bytes) (lease lease' : ℤ) (s t u : S) (old : KeyValue) (a b : KvResult)
      → revision ≤ℤ c.view.revision s
      → Updated c key value revision lease s old a t
      → UpdateEnds c key second revision lease' t (shown_kv c.view t key) b u
      → IsNewest (shown_kv c.view t key) (c.view.latest t key)
      → Lost c.view a b t u
  lost value second lease lease' s t u old a b k (e, (grows, puts)) q n =
      rw e
        (elim (shown_or_none (shown_kv c.view t key) (c.view.latest t key) new
          (puts key ∙ rw (bytes_eq_refl key) refl) n) [
            | inl z ↦ nothing (rw z at q)
            | inr z ↦ refused (rw z at q)
          ])
    where
      new : KeyValue
      new = updated_kv key value lease (c.view.revision t) old

      newer : (c.view.revision t ==ℤ revision) ≡ false
      newer = ground arith

      nothing :
          UpdateEnds c key second revision lease' t none b u
          → Lost c.view (c.view.revision t, some new, true, none) b t u
      nothing h = (inl h.0, h.1)

      refused :
          UpdateEnds c key second revision lease' t
            (some (updated_kv key value lease (c.view.revision t) old))
            b
            u
          → Lost c.view (c.view.revision t, some new, true, none) b t u
      refused h = let r = rw newer at h in (inr r.0, r.1)

  -- Two updates of a single key at the same revision, which has been given out already, one after the
  -- other, both return, and at most one of them changes anything: either every key keeps its value
  -- in the first, or the second is not done, returns the revision of the first with the value that
  -- the first wrote or with none, and leaves the view of the log as it is.
  pub update-Once :
      (first second : Bytes) (lease lease' : ℤ) (s : S)
      → is_single key ≡ true
      → revision ≤ℤ c.view.revision s
      → Ends
          (λ a t.
            Ends
              (λ b u. Unwritten c.view s t ⊎ Lost c.view a b t u)
              (update log key second revision lease' t))
          (update log key first revision lease s)
  update-Once first second lease lease' s h k =
      Ends-weaken _ _ (update log key first revision lease s)
        (update_lem c key first revision lease s h)
        λ a t p.
          Ends-weaken _ _ (update log key second revision lease' t)
            (update_lem c key second revision lease' t h)
            λ b u q. elim (won first lease s t (shown_kv c.view s key) a p.0) [
              | inl n ↦ inl n
              | inr (old, d) ↦ inr (lost first second lease lease' s t u old a b k d q.0 q.1)
            ]
