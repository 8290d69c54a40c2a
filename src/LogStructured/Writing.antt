-- ===== src/LogStructured/Writing.antt =====
-- What a write does to the view of the log, and the append step that the writing operations share.
use thesis_code.Prelude.{
  Bytes, bytes_eq, ℤ, pos, ◌<ℤ◌, ◌≤ℤ◌, Bool, true, false, inl, inr, Option, none, some, Exec, Ends,
  Ends-bind, ◌≡◌, refl, ap, ◌∙◌, ◌>>=◌, if◌then◌else◌,
}
use thesis_code.Server.Types.{Error, KeyValue, Event, Err}
use thesis_code.LogStructured.{Log}
use thesis_code.LogStructured.Contract.{View, Keeps, Writes, Skips, Contract, stored, live, live_of}

module _ {S : Type 0} (v : View S) where
  -- The revision grows, one key gets the value `new` or loses its value, the others keep theirs.
  abbrev pub Puts : Bytes → Option KeyValue → S → S → Type 0
  Puts key new s t =
      (v.revision s <ℤ v.revision t)
      × ((k : Bytes) → live v t k ≡ (if bytes_eq key k then new else live v s k))

  live-if :
      (b : Bool) (e : Event) (o : Option Event)
      → live_of (if b then some e else o) ≡ (if b then live_of (some e) else live_of o)
  live-if true e o = refl
  live-if false e o = refl

  -- The revision may grow, and every key keeps its value.
  abbrev pub Loses : S → S → Type 0
  Loses s t = (v.revision s ≤ℤ v.revision t) × ((k : Bytes) → live v t k ≡ live v s k)

  pub Loses_lem : (s t u w : S) → Keeps v s t → Skips v t u → Keeps v u w → Loses s w
  Loses_lem s t u w k x y = (rw (y.0, ← k.0) x.0, λ j. ap live_of (y.1 j ∙ x.1 j ∙ k.1 j))

  pub Puts_lem :
      (key : Bytes) (e : Event) (s t u w : S)
      → Keeps v s t
      → Writes v key e t u
      → Keeps v u w
      → Puts key (live_of (some e)) s w
  Puts_lem key e s t u w k x y = (
    rw (y.0, ← k.0) x.0,
    λ j.
        ap live_of (y.1 j ∙ x.1 j)
        ∙ live-if (bytes_eq key j) e (v.latest t j)
        ∙ ap (λ o. if bytes_eq key j then live_of (some e) else live_of o) (k.1 j),
  )

-- The rest of an operation after it appended `event` in the state `t`.
module _ {S : Type 0} {log : Log S} (c : Contract log) {B : Type 0} (Q : B → S → Type 0) where
  pub append_cases :
      (event : Event) (kv : KeyValue) (t : S) (f : ℤ × Err → Exec S B)
      → event.kv ≡ some kv
      → ((u : S)
          → Writes c.view kv.key (stored event kv (c.view.revision u)) t u
          → Ends Q (f (c.view.revision u, none) u))
      → ((u : S) → Skips c.view t u → Ends Q (f (c.view.revision u, none) u))
      → ((e : Error) (u : S) → Keeps c.view t u → Ends Q (f (pos 0, some e) u))
      → Ends Q ((log.append event >>= f) t)
  append_cases event kv t f h done lost failed =
      Ends-bind _ Q (log.append event t) f (c.append_lem event kv t h) λ a u p. elim p [
        | inl (e, w) ↦ rw e (done u w)
        | inr q ↦ elim q [ inl (e, w) ↦ rw e (lost u w) | inr (x, e, k) ↦ rw e (failed x u k) ]
      ]
