-- ===== src/Nats/Watching/Events.antt =====
-- What a watch sends for the updates of its watcher.
use thesis_code.Prelude.{
  ℕ, Bytes, ℤ, pos, ltb_ℤ, leb_ℤ, Bool, true, false, not, ◌&&◌, Bool-cases, inl, inr, List, [], ◌∷◌,
  ◌++◌, map, map-append, Option, none, some, Result, ok, failed, Outcome, Ends, Ends-bind,
  AnyReturns, ◌≡◌, ◌⊎◌, refl, ◌∙◌, pure, ◌>>◌, if◌then◌else◌,
}
use thesis_code.Server.Types.{Error, KeyValue, Event, Err}
use thesis_code.Server.Classify.{is_empty}
use thesis_code.Nats.Bucket.{Entry}
use thesis_code.Nats.Driver.{
  JsValue, Driver, int64_of, uint64_of, decode, is_after, lease_duration, compact_revision,
  is_key_expired, read_entry, get_after, get,
}
use thesis_code.Nats.Driver.Contract.{stamped}
use thesis_code.Nats.Watching.{forward, update_events}

module _ {S : Type 0} (d : Driver S) where
  -- The entry is the JSON of a value with a key value.
  abbrev pub IsReadable : Entry → Type 0
  IsReadable e =
      (x : JsValue) × (kv : KeyValue) × (is_empty e.value ≡ false)
      × (d.unmarshal e.value ≡ (x, none))
      × (x.kv ≡ some kv)

  abbrev pub IsReply : Result Error Entry → Type 0
  IsReply a = ((e : Entry) × (a ≡ ok e) × IsReadable e) ⊎ ((e : Error) × (a ≡ failed e))

  -- The bucket and the clock return, and an entry that is returned is readable.
  pub record Replies : Type 0 where
    pub status_returns : (s : S) → AnyReturns (d.kv.status s)
    pub now_returns : (s : S) → AnyReturns (d.now s)
    pub delete_returns : (key : Bytes) (s : S) → AnyReturns (d.kv.delete key s)
    pub get_returns : (key : Bytes) (s : S) → Ends (λ a t. IsReply a) (d.kv.get key s)
    pub get_revision_returns :
        (key : Bytes) (revision : ℕ) (s : S)
        → Ends (λ a t. IsReply a) (d.kv.get_revision key revision s)

  abbrev pub value_of : Entry → JsValue
  value_of e = stamped (d.unmarshal e.value).0 (int64_of e.revision)

  decode-IsReadable :
      (e : Entry) (s : S) → IsReadable e → decode d e s ≡ Outcome.returned ((value_of e, none), s)
  unfolding decode
  decode-IsReadable e s (x, kv, full, json, has) = rw (full, json, has) refl

  module _ (r : Replies) where
    expired_returns :
        (created : ℤ) (x : JsValue) (kv : KeyValue) (s : S)
        → x.kv ≡ some kv
        → AnyReturns (is_key_expired d created x s)
    unfolding is_key_expired
    expired_returns created x kv s has =
        Ends-bind (λ _ _. Unit {0}) _ (d.now s) _ (r.now_returns s)
          λ request t _. rw has (branch request t)
      where
        branch :
            (request : ℤ) (t : S)
            → AnyReturns (
                (if ltb_ℤ (pos 0) kv.lease && is_after request created (lease_duration kv.lease)
                    then (d.kv.delete kv.key >> pure true)
                    else pure false)
                  t)
        branch request t =
            elim (Bool-cases
              (ltb_ℤ (pos 0) kv.lease && is_after request created (lease_duration kv.lease))) [
                | inl y ↦ rw y (
                    Ends-bind (λ _ _. Unit {0}) _ (d.kv.delete kv.key t) _
                      (r.delete_returns kv.key t) λ _ _ _. tt)
                | inr y ↦ rw y tt
              ]

    read_returns :
        (b : Bool) (a : Result Error Entry) (s : S) → IsReply a → AnyReturns (read_entry d b a s)
    read_returns b a s (inr (e, f)) = rw f tt
    read_returns b a s (inl (e, f, readable)) =
        let (x, kv, full, json, has) = readable in
        rw (f, decode-IsReadable e s readable)
          (elim (Bool-cases ((value_of e).delete && not b)) [
            | inl y ↦ rw y tt
            | inr y ↦ rw y (
                Ends-bind (λ _ _. Unit {0}) _ (is_key_expired d e.created (value_of e) s) _
                  (expired_returns e.created (value_of e)
                    (record kv { mod_revision = int64_of e.revision }) s (rw (json, has) refl))
                  λ expired t _. elim (Bool-cases expired) [
                    | inl z ↦ rw z tt
                    | inr z ↦ rw (z, json, has) tt
                  ])
          ])

    get-AnyReturns :
        (key : Bytes) (revision : ℤ) (b : Bool) (s : S) → AnyReturns (get d key revision b s)
    unfolding get compact_revision
    get-AnyReturns key revision b s =
        Ends-bind (λ _ _. Unit {0}) _ (compact_revision d s) _
          (Ends-bind (λ _ _. Unit {0}) _ (d.kv.status s) _ (r.status_returns s) λ _ _ _. tt)
          λ answer t _. after answer t
      where
        after : (answer : ℤ × Err) (t : S) → AnyReturns (get_after d key revision b answer t)
        after (rev, some e) t = tt
        after (rev, none) t = elim (Bool-cases (leb_ℤ revision (pos 0))) [
          | inl y ↦ rw y (
              Ends-bind _ _ (d.kv.get key t) _ (r.get_returns key t)
                λ a u reply. read_returns b a u reply)
          | inr y ↦ rw y (
              Ends-bind _ _ (d.kv.get_revision key (uint64_of revision) t) _
                (r.get_revision_returns key (uint64_of revision) t)
                λ a u reply. read_returns b a u reply)
        ]

    -- The updates after a revision.
    abbrev pub later : ℤ → List (Option Entry) → List Entry
    later revision [] = []
    later revision (none ∷ updates) = later revision updates
    later revision (some e ∷ updates) =
        let rest = later revision updates in
        if ltb_ℤ revision (int64_of e.revision) then e ∷ rest else rest

    abbrev pub AreReadable : List (Option Entry) → Type 0
    AreReadable [] = Unit {0}
    AreReadable (none ∷ updates) = AreReadable updates
    AreReadable (some e ∷ updates) = IsReadable e × AreReadable updates

    -- An event without its previous value.
    abbrev pub Change : Type 0
    Change = Bool × Bool × Option KeyValue

    abbrev pub shown : List Event → List Change
    shown = map (λ event. (event.delete, event.create, event.kv))

    abbrev pub change_of : Entry → List Change
    change_of e = ((value_of e).delete, (value_of e).create, (value_of e).kv) ∷ []

    update_events_lem :
        (revision : ℤ) (e : Entry) (s : S)
        → IsReadable e
        → Ends
            (λ a t.
              map shown a ≡ (if ltb_ℤ revision (int64_of e.revision) then change_of e ∷ [] else []))
            (update_events d revision e s)
    update_events_lem revision e s readable =
        elim (Bool-cases (ltb_ℤ revision (int64_of e.revision))) [
          | inl y ↦
              rw (y, decode-IsReadable e s readable)
                (Ends-bind (λ _ _. Unit {0}) _ (get d e.key (value_of e).prev_revision false s) _
                  (get-AnyReturns e.key (value_of e).prev_revision false s) λ prev t _. refl)
          | inr y ↦ rw y refl
        ]

    -- The loop of Watch sends, for each update after the revision and in their order, one batch with
    -- one event, whose flags and key value are those of the update, and nothing for the others. It
    -- returns whenever the calls of the bucket and the clock do and every entry is readable.
    pub forward_lem :
        (revision : ℤ) (updates : List (Option Entry)) (s : S)
        → AreReadable updates
        → Ends
            (λ a t. map shown a ≡ map change_of (later revision updates))
            (forward d revision updates s)
    unfolding forward
    forward_lem revision [] s h = refl
    forward_lem revision (none ∷ updates) s h = forward_lem revision updates s h
    forward_lem revision (some e ∷ updates) s (readable, h) =
        Ends-bind
          (λ a t.
            map shown a ≡ (if ltb_ℤ revision (int64_of e.revision) then change_of e ∷ [] else []))
          _ (update_events d revision e s) _ (update_events_lem revision e s readable)
          λ sent t p.
            Ends-bind (λ b u. map shown b ≡ map change_of (later revision updates)) _
              (forward d revision updates t) _ (forward_lem revision updates t h)
              λ batches u q.
                map-append shown sent batches
                ∙ rw (p, q) (joined (ltb_ℤ revision (int64_of e.revision)))
      where
        joined :
            (b : Bool)
            → (if b then change_of e ∷ [] else []) ++ map change_of (later revision updates)
              ≡ map change_of (if b then e ∷ later revision updates else later revision updates)
        joined true = refl
        joined false = refl
