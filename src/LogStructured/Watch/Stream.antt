-- ===== src/LogStructured/Watch/Stream.antt =====
-- A watch sends every event once, in the order of the revisions.
use thesis_code.Prelude.{
  ℤ, ltb_ℤ, leb_ℤ, ◌<ℤ◌, ◌≤ℤ◌, Bool, true, false, Bool-cases, inl, inr, List, [], ◌∷◌, ◌++◌, Option,
  none, some, ◌≡◌, refl, sym, ap, ◌∙◌, arith, if◌then◌else◌,
}
use thesis_code.Server.Types.{KeyValue, Event, Err}
use thesis_code.LogStructured.Watch.{drop_first, filter, filter_all, after_revision, watch}

-- Events carry a value, and their revisions grow from above `lo`.
abbrev pub Grows : ℤ → List Event → Type 0
Grows lo [] = Unit {0}
Grows lo (event ∷ events) =
    (kv : KeyValue) × (event.kv ≡ some kv) × (lo <ℤ kv.mod_revision) × Grows kv.mod_revision events

abbrev pub GrowsTo : ℤ → List Event → ℤ → Type 0
GrowsTo lo [] hi = lo ≤ℤ hi
GrowsTo lo (event ∷ events) hi =
    (kv : KeyValue) × (event.kv ≡ some kv)
    × (lo <ℤ kv.mod_revision)
    × GrowsTo kv.mod_revision events hi

abbrev pub is_newer : ℤ → Option KeyValue → Bool
is_newer rev none = false
is_newer rev (some kv) = ltb_ℤ rev kv.mod_revision

-- The events above a revision.
abbrev pub newer : ℤ → List Event → List Event
newer rev [] = []
newer rev (event ∷ events) =
    let rest = newer rev events in if is_newer rev event.kv then event ∷ rest else rest

abbrev pub concat : List (List Event) → List Event
concat [] = []
concat (events ∷ batches) = events ++ concat batches

newer-above :
    (rev lo : ℤ) (events : List Event) → rev ≤ℤ lo → Grows lo events → newer rev events ≡ events
newer-above rev lo [] h g = refl
newer-above rev lo (event ∷ events) h (kv, e, l, g) =
    rw (e, above, newer-above rev kv.mod_revision events (omega arith) g)
  where
    above : ltb_ℤ rev kv.mod_revision ≡ true
    above = ground arith

Grows-newer : (rev lo : ℤ) (events : List Event) → Grows lo events → Grows rev (newer rev events)
Grows-newer rev lo [] g = tt
Grows-newer rev lo (event ∷ events) (kv, e, l, g) = elim (Bool-cases (ltb_ℤ rev kv.mod_revision)) [
  | inl n ↦ rw (is n) (kv, e, above n, rw (newer-above rev kv.mod_revision events (weak n) g) g)
  | inr n ↦ rw (is_not n) (Grows-newer rev kv.mod_revision events g)
]
  where
    is : ltb_ℤ rev kv.mod_revision ≡ true → is_newer rev event.kv ≡ true
    is n = rw e n

    is_not : ltb_ℤ rev kv.mod_revision ≡ false → is_newer rev event.kv ≡ false
    is_not n = rw e n

    above : ltb_ℤ rev kv.mod_revision ≡ true → rev <ℤ kv.mod_revision
    above n = ground arith

    weak : ltb_ℤ rev kv.mod_revision ≡ true → rev ≤ℤ kv.mod_revision
    weak n = ground arith

newer-append : (rev : ℤ) (xs ys : List Event) → newer rev (xs ++ ys) ≡ newer rev xs ++ newer rev ys
newer-append rev [] ys = refl
newer-append rev (x ∷ xs) ys = elim (Bool-cases (is_newer rev x.kv)) [
  | inl n ↦ rw (n, newer-append rev xs ys)
  | inr n ↦ rw (n, newer-append rev xs ys)
]

pub Grows-left : (lo : ℤ) (xs ys : List Event) → Grows lo (xs ++ ys) → Grows lo xs
Grows-left lo [] ys g = tt
Grows-left lo (x ∷ xs) ys (kv, e, l, g) = (kv, e, l, Grows-left kv.mod_revision xs ys g)

pub Grows-right : (lo : ℤ) (xs ys : List Event) → Grows lo (xs ++ ys) → (mid : ℤ) × Grows mid ys
Grows-right lo [] ys g = (lo, g)
Grows-right lo (x ∷ xs) ys (kv, e, l, g) = Grows-right kv.mod_revision xs ys g

filter-keep :
    (rev : ℤ) (event : Event) (kv : KeyValue) (events : List Event)
    → event.kv ≡ some kv
    → leb_ℤ kv.mod_revision rev ≡ false
    → filter (event ∷ events) rev ≡ some (event ∷ events)
unfolding filter
filter-keep rev event kv events e l =
    ap (λ k. drop_first rev k (filter events rev) (event ∷ events)) e ∙ rw l

filter-drop :
    (rev : ℤ) (event : Event) (kv : KeyValue) (events : List Event)
    → event.kv ≡ some kv
    → leb_ℤ kv.mod_revision rev ≡ true
    → filter (event ∷ events) rev ≡ filter events rev
unfolding filter
filter-drop rev event kv events e l =
    ap (λ k. drop_first rev k (filter events rev) (event ∷ events)) e ∙ rw l

-- On events whose revisions grow, to drop the old ones from the front is to drop all old ones.
filter-newer :
    (rev lo : ℤ) (events : List Event)
    → Grows lo events
    → filter events rev ≡ some (newer rev events)
filter-newer rev lo [] g = unfold filter in refl
filter-newer rev lo (event ∷ events) (kv, e, l, g) = elim (Bool-cases (ltb_ℤ rev kv.mod_revision)) [
  | inl n ↦ rw (is n) (
      filter-keep rev event kv events e (not_le n)
      ∙ ap (λ r. some (event ∷ r)) (sym (newer-above rev kv.mod_revision events (weak n) g)))
  | inr n ↦
      rw (is_not n)
        (filter-drop rev event kv events e (le n) ∙ filter-newer rev kv.mod_revision events g)
]
  where
    is : ltb_ℤ rev kv.mod_revision ≡ true → is_newer rev event.kv ≡ true
    is n = rw e n

    is_not : ltb_ℤ rev kv.mod_revision ≡ false → is_newer rev event.kv ≡ false
    is_not n = rw e n

    weak : ltb_ℤ rev kv.mod_revision ≡ true → rev ≤ℤ kv.mod_revision
    weak n = ground arith

    not_le : ltb_ℤ rev kv.mod_revision ≡ true → leb_ℤ kv.mod_revision rev ≡ false
    not_le n = ground arith

    le : ltb_ℤ rev kv.mod_revision ≡ false → leb_ℤ kv.mod_revision rev ≡ true
    le n = ground arith

abbrev Filtered : ℤ → List (List Event) → Type 0
Filtered rev batches =
    (out : List (List Event)) × (filter_all batches rev ≡ some out)
    × (concat out ≡ newer rev (concat batches))

filter_all-newer :
    (rev lo : ℤ) (batches : List (List Event)) → Grows lo (concat batches) → Filtered rev batches
unfolding filter_all
filter_all-newer rev lo [] g = ([], refl, refl)
filter_all-newer rev lo (events ∷ batches) g =
    let (mid, right) = Grows-right lo events (concat batches) g in
    let (out, e, f) = filter_all-newer rev mid batches right in
    (
      newer rev events ∷ out,
      rw (filter-newer rev lo events (Grows-left lo events (concat batches) g), e),
      rw (f, newer-append rev events (concat batches)),
    )

GrowsTo-append :
    (lo mid : ℤ) (xs ys : List Event) → GrowsTo lo xs mid → Grows mid ys → Grows lo (xs ++ ys)
GrowsTo-append lo mid [] [] h g = tt
GrowsTo-append lo mid [] (y ∷ ys) h (kv, e, l, g) = (kv, e, omega arith, g)
GrowsTo-append lo mid (x ∷ xs) ys (kv, e, l, h) g =
    (kv, e, l, GrowsTo-append kv.mod_revision mid xs ys h g)

-- The revision up to which the events of the channel are old.
abbrev pub seen : ℤ → ℤ → List Event → ℤ
seen revision rev [] = after_revision revision
seen revision rev (event ∷ kvs) = rev

-- Take a watch from a revision. Suppose that the events which After returned have revisions that
-- grow from above the revision before it to at most the revision returned with them, and that those
-- of the channel grow from any revision, so that they may overlap with the first ones. Then the
-- watch sends, list after list, the events of After and behind them exactly those of the channel
-- that are above the last revision seen, and the revisions of all that it sends grow strictly from
-- above the revision before the one asked for.
pub watch_stream :
    (revision rev base : ℤ) (kvs : List Event) (err : Err) (batches : List (List Event))
    → GrowsTo (after_revision revision) kvs (seen revision rev kvs)
    → Grows base (concat batches)
    → (out : List (List Event)) × (watch revision (rev, kvs, err) batches ≡ some out)
      × (concat out ≡ kvs ++ newer (seen revision rev kvs) (concat batches))
      × Grows (after_revision revision) (concat out)
unfolding watch
watch_stream revision rev base [] err batches h g =
    let (out, e, f) = filter_all-newer (after_revision revision) base batches g in
    (out, e, f, rw f (Grows-newer (after_revision revision) base (concat batches) g))
watch_stream revision rev base (event ∷ kvs) err batches h g =
    let (out, e, f) = filter_all-newer rev base batches g in
    (
      (event ∷ kvs) ∷ out,
      rw e,
      rw f,
      rw f (
          GrowsTo-append (after_revision revision) rev (event ∷ kvs) (newer rev (concat batches)) h
            (Grows-newer rev base (concat batches) g)),
    )
