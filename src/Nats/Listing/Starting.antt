-- ===== src/Nats/Listing/Starting.antt =====
-- Listing from a start key at revision 0.
use thesis_code.Prelude.{
  Bytes, bytes_eq, ℤ, pos, ◌<ℤ◌, ltb_ℤ, leb_ℤ, true, false, Bool-cases, inl, inr, List, [], ◌∷◌,
  ◌++◌, map, All, none, some, ok, failed, Ends, Ends-bind, ◌≡◌, ◌⊎◌, refl, arith, if◌then◌else◌,
}
use thesis_code.Server.Types.{Error}
use thesis_code.Server.Classify.{is_empty}
use thesis_code.LogStructured.{ListResult}
use thesis_code.Nats.Bucket.{Entry}
use thesis_code.Nats.Bucket.Contract.{View, Keeps}
use thesis_code.Nats.Driver.{Driver, int64_of, current_revision}
use thesis_code.Nats.Driver.Contract.{DriverLaws}
use thesis_code.Nats.Driver.Reads.{current_revision_lem}
use thesis_code.Nats.Listing.{
  newest_at, step_back, next_entry, reversed, get_keys, other_histories, list, effective_start,
}
use thesis_code.Nats.Listing.Current.{WatchLaws}

-- The revisions of a stream begin at 1.
abbrev pub ArePositive : List Entry → Type 0
ArePositive = All (λ e. pos 0 <ℤ int64_of e.revision)

newest_at-none : (entries : List Entry) → ArePositive entries → newest_at (pos 0) entries ≡ none
unfolding newest_at
newest_at-none [] h = refl
newest_at-none (e ∷ entries) (h, hs) =
    rw (newest_at-none entries hs) (positive (int64_of e.revision) h)
  where
    positive : (rev : ℤ) → pos 0 <ℤ rev → (if leb_ℤ rev (pos 0) then some e else none) ≡ none
    positive rev h = ground arith

step_back-none :
    (entries : List Entry)
    → ArePositive entries
    → step_back (pos 0) (pos 0, none) entries ≡ (pos 0, none)
unfolding step_back
step_back-none [] h = refl
step_back-none (e ∷ entries) (h, hs) =
    let no : leb_ℤ (int64_of e.revision) (pos 0) ≡ false = late (int64_of e.revision) h in
    rw no (elim (Bool-cases (ltb_ℤ (pos 0) (int64_of e.revision))) [
      | inl y ↦ rw y (step_back-none entries hs)
      | inr y ↦ rw y (step_back-none entries hs)
    ])
  where
    late : (rev : ℤ) → pos 0 <ℤ rev → leb_ℤ rev (pos 0) ≡ false
    late rev h = ground arith

next_entry-none :
    (histories : List (List Entry))
    → All ArePositive histories
    → next_entry (pos 0) (pos 0, none) histories ≡ (pos 0, none)
unfolding next_entry
next_entry-none [] h = refl
next_entry-none (entries ∷ histories) (h, hs) =
    rw (step_back-none entries h) (next_entry-none histories hs)

append-ArePositive : (xs ys : List Entry) → ArePositive xs → ArePositive ys → ArePositive (xs ++ ys)
append-ArePositive [] ys h g = g
append-ArePositive (x ∷ xs) ys (h, hs) g = (h, append-ArePositive xs ys hs g)

reversed-ArePositive : (entries : List Entry) → ArePositive entries → ArePositive (reversed entries)
reversed-ArePositive [] h = tt
reversed-ArePositive (e ∷ entries) (h, hs) =
    append-ArePositive (reversed entries) (e ∷ []) (reversed-ArePositive entries hs) (h, tt)

map-reversed :
    (histories : List (List Entry))
    → All ArePositive histories
    → All ArePositive (map reversed histories)
map-reversed [] h = tt
map-reversed (entries ∷ histories) (h, hs) =
    (reversed-ArePositive entries h, map-reversed histories hs)

module _ {S : Type 0} (d : Driver S) (v : View S) (IsKey : Bytes → Type 0)
    (laws : DriverLaws d v IsKey) where
  -- The history of a key is read or not, and its revisions begin at 1.
  abbrev pub HistoryLaws : Type 0
  HistoryLaws =
      (key : Bytes) (s : S)
      → Ends
          (λ a t. ((h : List Entry) × (a ≡ ok h) × ArePositive h) ⊎ ((e : Error) × (a ≡ failed e)))
          (d.kv.history key s)

  other_histories_lem :
      (start_key : Bytes) (keys : List Bytes) (s : S)
      → HistoryLaws
      → Ends (λ a t. All ArePositive a) (other_histories d start_key keys s)
  unfolding other_histories
  other_histories_lem start_key [] s h = tt
  other_histories_lem start_key (key ∷ keys) s h = elim (Bool-cases (bytes_eq key start_key)) [
    | inl y ↦ rw y (other_histories_lem start_key keys s h)
    | inr y ↦ rw y (
        Ends-bind _ _ (d.kv.history key s) _ (h key s) λ a t p. elim p [
          | inl (entries, e, good) ↦ rw e (
              Ends-bind (λ b u. All ArePositive b) _ (other_histories d start_key keys t) _
                (other_histories_lem start_key keys t h) λ b u q. (good, q))
          | inr (e, f) ↦ rw f (other_histories_lem start_key keys t h)
        ])
  ]

  get_keys_lem :
      (under : S → Bytes → List Entry) (prefix : Bytes) (s : S)
      → WatchLaws d v IsKey laws under
      → Ends (λ a t. (keys : List Bytes) × (a ≡ ok keys)) (get_keys d prefix true s)
  unfolding get_keys
  get_keys_lem under prefix s watches =
      Ends-bind _ _ (d.kv.watch prefix true s) _ (watches prefix true s) λ a t p.
        rw (p.1, p.2)
          (Ends-bind (λ _ u. Keeps v IsKey t u) _ (p.0.stop t) _ (p.3 t) λ _ u k. (_, refl))

  abbrev NoRows : ListResult → S → Type 0
  NoRows a t = a.1 ≡ []

  -- Listing at revision 0 from a start key that does not begin the prefix returns no value, whatever
  -- the bucket holds: this is if the bucket answers a watch, if a history is read or not, with
  -- revisions from 1, and if the order in which Go walks a map leaves out or adds nothing that is no
  -- such history.
  pub list_start_empty :
      (under : S → Bytes → List Entry) (iterate : List (List Entry) → List (List Entry))
      (prefix start_key : Bytes) (limit : ℤ) (s : S)
      → WatchLaws d v IsKey laws under
      → HistoryLaws
      → ((hs : List (List Entry)) → All ArePositive hs → All ArePositive (iterate hs))
      → is_empty (effective_start prefix start_key) ≡ false
      → Ends (λ a t. a.1 ≡ []) (list d iterate prefix start_key limit (pos 0) s)
  unfolding list
  list_start_empty under iterate prefix start_key limit s watches hist walk start =
      let key = effective_start prefix start_key in
      Ends-bind _ _ (current_revision d s) _ (current_revision_lem d v IsKey laws s) λ a t p.
        rw (p.0, start)
          (Ends-bind _ NoRows (d.kv.history key t) _ (hist key t) λ b u q. elim q [
            | inl (entries, e, good) ↦ rw e (
                Ends-bind (λ c w. (keys : List Bytes) × (c ≡ ok keys)) NoRows
                  (get_keys d prefix true u) _ (get_keys_lem under prefix u watches)
                  λ c w r. rw r.1 (
                    Ends-bind (λ hs x. All ArePositive hs) NoRows (other_histories d key r.0 w) _
                      (other_histories_lem key r.0 w hist)
                      λ hs x k.
                        rw
                          (
                            newest_at-none entries good,
                            next_entry-none (map reversed (iterate (entries ∷ hs))) (
                                map-reversed (iterate (entries ∷ hs))
                                  (walk (entries ∷ hs) (good, k))),
                          )
                          refl))
            | inr (e, f) ↦ rw f refl
          ])
