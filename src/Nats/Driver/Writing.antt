-- ===== src/Nats/Driver/Writing.antt =====
-- What the driver's writes share: the lock around the body, and storing a value.
use thesis_code.Prelude.{
  ℕ, Bytes, bytes_eq, bytes_eq-eq, Bool, true, false, Bool-cases, inl, inr, Option, none, some,
  Result, ok, failed, Exec, Ends, Ends-bind, ◌≡◌, ◌⊎◌, refl, sym, ap, ◌∙◌, if◌then◌else◌,
}
use thesis_code.Server.Types.{Error, KeyValue}
use thesis_code.Server.Classify.{is_empty}
use thesis_code.Nats.Bucket.{Entry}
use thesis_code.Nats.Bucket.Contract.{View, Keeps, Sets, Written}
use thesis_code.Nats.Driver.{JsValue, Driver, int64_of, top_level_key, in_folder}
use thesis_code.Nats.Driver.Contract.{DriverLaws, stamped, held_of, IsValue, Holds, Stays, Becomes}
use thesis_code.Nats.Driver.Reads.{Keeps-refl, Keeps-Holds, Keeps-Stays}

module _ {S : Type 0} (d : Driver S) (v : View S) (IsKey : Bytes → Type 0)
    (laws : DriverLaws d v IsKey) where
  pub in_folder_lem :
      {A : Type 0} (Q : A → S → Type 0) (key : Bytes) (body : Exec S A) (s : S)
      → ((t : S) → Keeps v IsKey s t → Ends Q (body t))
      → ((a : A) (t u : S) → Q a t → Keeps v IsKey t u → Q a u)
      → Ends Q (in_folder d key body s)
  unfolding in_folder
  in_folder_lem Q key body s before after = elim (Bool-cases (is_empty (top_level_key key))) [
    | inl e ↦ rw e (before s (Keeps-refl d v IsKey laws s))
    | inr e ↦
        let folder = top_level_key key in
        rw e (
          Ends-bind _ Q (d.lock folder s) _ (laws.lock_lem folder s) λ _ t k.
            Ends-bind Q Q (body t) _ (before t k) λ a u q.
              Ends-bind _ Q (d.unlock folder u) _ (laws.unlock_lem folder u)
                λ _ w j. after a u w q j)
  ]

  held-if :
      (b : Bool) (o p : Option Entry)
      → held_of d v IsKey (if b then o else p)
        ≡ (if b then held_of d v IsKey o else held_of d v IsKey p)
  held-if true o p = refl
  held-if false o p = refl

  pub Sets-Becomes :
      (key : Bytes) (o : Option Entry) (s t : S)
      → Holds d v IsKey s
      → ((e : Entry) → o ≡ some e → IsValue d v IsKey key e)
      → Sets v IsKey key o s t
      → Becomes d v IsKey key (held_of d v IsKey o) s t
  Sets-Becomes key o s t h valid (lt, set) = (
    lt,
    λ k g. ap (held_of d v IsKey) (set k g) ∙ held-if (bytes_eq key k) o (v.newest s k),
    λ k g e n. elim (Bool-cases (bytes_eq key k)) [
      | inl y ↦
          let same = bytes_eq-eq key k y in
          let now : v.newest t k ≡ o = rw y at (set k g) in
          let e' = valid e (sym now ∙ n) in (e'.0, e'.1, e'.2, e'.3, e'.4, e'.5 ∙ same)
      | inr y ↦ let old : v.newest t k ≡ v.newest s k = rw y at (set k g) in h k g e (sym old ∙ n)
    ],
  )

  -- The end of a write of `x`.
  abbrev pub Wrote : Bytes → JsValue → S → Result Error ℕ → S → Type 0
  Wrote key x s a t =
      ((a ≡ ok (v.seq t)) × Becomes d v IsKey key (some (stamped x (int64_of (v.seq t)))) s t)
      ⊎ ((e : Error) × (a ≡ failed e) × Stays d v IsKey s t)

  pub Written-Wrote :
      (key json : Bytes) (x : JsValue) (kv : KeyValue) (s : S) (a : Result Error ℕ) (t : S)
      → x.kv ≡ some kv
      → kv.key ≡ key
      → is_empty json ≡ false
      → d.unmarshal json ≡ (x, none)
      → Holds d v IsKey s
      → Written v IsKey key json s a t
      → Wrote key x s a t
  Written-Wrote key json x kv s a t has same full back h (inr (e, f, k)) =
      inr (e, f, Keeps-Stays d v IsKey laws s t k h)
  Written-Wrote key json x kv s a t has same full back h (inl (f, (e, ek, ev, er, set))) = inl (
    f,
    rw (ev, back, er) at
        (Sets-Becomes key (some e) s t h
          (λ e' p.
            let same_entry : e ≡ e' = cc in rw (← same_entry, ev) (x, kv, full, back, has, same))
          set),
  )

  pub Becomes-after :
      (key : Bytes) (x : Option JsValue) (s t u : S)
      → Keeps v IsKey s t
      → Becomes d v IsKey key x t u
      → Becomes d v IsKey key x s u
  Becomes-after key x s t u (e, k) (lt, set, h) = (rw (← e) lt, λ j g. set j g ∙ rw (k j g) refl, h)

  pub Becomes-then :
      (key : Bytes) (x : Option JsValue) (s t u : S)
      → Becomes d v IsKey key x s t
      → Keeps v IsKey t u
      → Becomes d v IsKey key x s u
  Becomes-then key x s t u (lt, set, h) k = (
    rw k.0 lt,
    λ j g. ap (held_of d v IsKey) (k.1 j g) ∙ set j g,
    Keeps-Holds d v IsKey laws t u k h,
  )

  pub Stays-after : (s t u : S) → Keeps v IsKey s t → Stays d v IsKey t u → Stays d v IsKey s u
  Stays-after s t u (e, k) (e', k', h) = (e' ∙ e, λ j g. k' j g ∙ ap (held_of d v IsKey) (k j g), h)

  pub Stays-then : (s t u : S) → Stays d v IsKey s t → Keeps v IsKey t u → Stays d v IsKey s u
  Stays-then s t u (e, k, h) j = (
    j.0 ∙ e,
    λ key g. ap (held_of d v IsKey) (j.1 key g) ∙ k key g,
    Keeps-Holds d v IsKey laws t u j h,
  )
