-- ===== src/SqlLog/Watching/Delivered.antt =====
-- From the poll loop to a watch of the backend.
use thesis_code.Prelude.{
  ℕ, Bytes, codes, has_suffix, ℤ, pos, ◌==ℤ◌, add64, Bool, true, false, Bool-cases, inl, inr, ◌&&◌,
  ◌||◌, List, [], ◌∷◌, ◌++◌, append_assoc, take, drop, take-append-drop, All, none, some, Outcome,
  Returns, Returns-bind, ◌≡◌, refl, sym, ap, ◌∙◌, if◌then◌else◌,
}
use thesis_code.Server.Types.{KeyValue, Event, QueryGenericRow, Err, Dialect}
use thesis_code.SqlLog.{SqlState, call}
use thesis_code.SqlLog.Rows.{row_kv}
use thesis_code.SqlLog.Poll.{
  can_skip_revision, scan, Poll, Sent, poll_batch_size, poll_rows, at_stop, poll_round, Wake,
  is_stale, poll_turn, poll,
}
use thesis_code.SqlLog.Poll.Order.{
  Ascending, Between, concat, Returns-lifted, IsOrdered, stop_lem, poll_order,
}
use thesis_code.SqlLog.Filtering.{is_match, matching, filter_lem}
use thesis_code.LogStructured.Watch
use thesis_code.LogStructured.Watch.{after_revision}
use thesis_code.LogStructured.Watch.Stream.{
  Grows, GrowsTo, Grows-left, Grows-right, newer, seen, watch_stream,
}
use thesis_code.SqlLog.Watching.{send_filtered, filter_values, watch}

abbrev pub HasKv : Event → Type 0
HasKv event = (kv : KeyValue) × (event.kv ≡ some kv)

append-HasKv : (xs ys : List Event) → All HasKv xs → All HasKv ys → All HasKv (xs ++ ys)
append-HasKv [] ys h g = g
append-HasKv (x ∷ xs) ys (h, hs) g = (h, append-HasKv xs ys hs g)

scan-HasKv :
    (is_fill : Bytes → Bool) (now : ℕ) (rev skip : ℤ) (skip_time : ℕ) (rows : List QueryGenericRow)
    → All HasKv (scan is_fill now rev skip skip_time rows).sequential
unfolding scan
scan-HasKv is_fill now rev skip skip_time [] = tt
scan-HasKv is_fill now rev skip skip_time (row ∷ rows) =
    let next = add64 rev (pos 1) in
    let ih = scan-HasKv is_fill now row.theid skip skip_time rows in
    elim (Bool-cases (row.theid ==ℤ next || can_skip_revision next skip skip_time now)) [
      | inl go ↦ rw go (elim (Bool-cases (is_fill row.name)) [
        | inl f ↦ rw f ih
        | inr f ↦ rw f ((row_kv row, refl), ih)
      ])
      | inr stay ↦ rw stay (elim (Bool-cases (skip ==ℤ next)) [ inl e ↦ rw e tt | inr e ↦ rw e tt ])
    ]

module _ {D : Type 0} (d : Dialect D) (ordered : IsOrdered d) where
  abbrev SentKv : Sent → Type 0
  SentKv sent = All HasKv sent.1

  rows-HasKv :
      (now : ℕ) (p : Poll) (rows : List QueryGenericRow) (e : Err) (s : SqlState D)
      → Returns SentKv (poll_rows d now p (rows, e) s)
  rows-HasKv now p rows (some e) s = tt
  rows-HasKv now p [] none s = tt
  rows-HasKv now p (row ∷ rows) none s =
      let sc = scan d.is_fill now p.last p.skip p.skip_time (row ∷ rows) in
      Returns-bind (λ _. Unit {0}) SentKv (at_stop d sc.stop s) _ (stop_lem d ordered sc.stop s)
        λ _ t _. scan-HasKv d.is_fill now p.last p.skip p.skip_time (row ∷ rows)

  turn-HasKv :
      (wake : Wake) (now : ℕ) (p : Poll) (s : SqlState D)
      → Returns SentKv (poll_turn d wake now p s)
  unfolding poll_turn poll_round
  turn-HasKv wake now p s = elim (Bool-cases (p.wait_for_more && is_stale p wake)) [
    | inl e ↦ rw e tt
    | inr e ↦ rw e (
        Returns-bind (λ a. Ascending p.last a.0) SentKv
          (call (d.after (codes "%") p.last (pos poll_batch_size)) s) (poll_rows d now p)
          (Returns-lifted _ s.notify (d.after (codes "%") p.last (pos poll_batch_size) s.db)
            (ordered.after_lem p.last s.db))
          λ a t h. rows-HasKv now p a.0 a.1 t)
  ]

  poll-HasKv :
      (wakes : List (Wake × ℕ)) (p : Poll) (s : SqlState D)
      → Returns (λ a. All HasKv (concat a.1)) (poll d wakes p s)
  unfolding poll
  poll-HasKv [] p s = tt
  poll-HasKv ((wake, now) ∷ wakes) p s =
      Returns-bind SentKv _ (poll_turn d wake now p s) _ (turn-HasKv wake now p s) λ sent t h.
        Returns-bind (λ a. All HasKv (concat a.1)) _ (poll d wakes sent.0 t) _
          (poll-HasKv wakes sent.0 t) λ a u k. append-HasKv sent.1 (concat a.1) h k

Between-Grows :
    (lo : ℤ) (events : List Event) (hi : ℤ)
    → Between lo events hi
    → All HasKv events
    → Grows lo events
Between-Grows lo [] hi h k = tt
Between-Grows lo (event ∷ events) hi (l, h) ((kv, e), k) =
    (kv, e, rw e at l, Between-Grows kv.mod_revision events hi (rw e at h) k)

Returns-weaken :
    {A S : Type 0} (P Q : A → Type 0) (o : Outcome (A × S))
    → Returns P o
    → ((a : A) → P a → Q a)
    → Returns Q o
Returns-weaken P Q (Outcome.returned (a, s)) h k = k a h
Returns-weaken P Q Outcome.panicked h k = h
Returns-weaken P Q Outcome.out_of_fuel h k = h

Returns-both :
    {A S : Type 0} (P Q : A → Type 0) (o : Outcome (A × S))
    → Returns P o
    → Returns Q o
    → Returns (λ a. P a × Q a) o
Returns-both P Q (Outcome.returned (a, s)) h k = (h, k)
Returns-both P Q Outcome.panicked h k = h
Returns-both P Q Outcome.out_of_fuel h k = h

concat-append : (xs ys : List (List Event)) → concat (xs ++ ys) ≡ concat xs ++ concat ys
concat-append [] ys = refl
concat-append (x ∷ xs) ys = rw (concat-append xs ys) (sym (append_assoc x (concat xs) (concat ys)))

-- The values from one place on, and so many of them.
abbrev pub window : ℕ → ℕ → List (List Event) → List (List Event)
window m n batches = take n (drop m batches)

window-Grows :
    (m n : ℕ) (lo : ℤ) (batches : List (List Event))
    → Grows lo (concat batches)
    → (base : ℤ) × Grows base (concat (window m n batches))
window-Grows m n lo batches g =
    let parts : concat batches ≡ concat (take m batches) ++ concat (drop m batches) =
      ap concat (sym (take-append-drop m batches))
      ∙ concat-append (take m batches) (drop m batches) in
    let (base, right) =
      Grows-right lo (concat (take m batches)) (concat (drop m batches)) (rw parts at g) in
    let halves : concat (drop m batches)
        ≡ concat (take n (drop m batches)) ++ concat (drop n (drop m batches)) =
      ap concat (sym (take-append-drop n (drop m batches)))
      ∙ concat-append (take n (drop m batches)) (drop n (drop m batches)) in
    (
      base,
      Grows-left base (concat (take n (drop m batches))) (concat (drop n (drop m batches)))
          (rw halves at right),
    )

matching-append :
    (cp : Bool) (prefix : Bytes) (xs ys : List Event)
    → matching cp prefix (xs ++ ys) ≡ matching cp prefix xs ++ matching cp prefix ys
matching-append cp prefix [] ys = refl
matching-append cp prefix (x ∷ xs) ys =
    rw (matching-append cp prefix xs ys) (joined (is_match cp prefix x.kv))
  where
    joined :
        (b : Bool)
        → (if b
            then x ∷ (matching cp prefix xs ++ matching cp prefix ys)
            else matching cp prefix xs ++ matching cp prefix ys)
          ≡ (if b then x ∷ matching cp prefix xs else matching cp prefix xs)
            ++ matching cp prefix ys
    joined true = refl
    joined false = refl

concat-send_filtered :
    (events : List Event) (out : List (List Event))
    → (sent : List (List Event)) × (send_filtered (some events) (some out) ≡ some sent)
      × (concat sent ≡ events ++ concat out)
concat-send_filtered [] out = (out, refl, refl)
concat-send_filtered (event ∷ events) out = ((event ∷ events) ∷ out, refl, refl)

filter_values_lem :
    (cp : Bool) (prefix : Bytes) (lo : ℤ) (values : List (List Event))
    → Grows lo (concat values)
    → (out : List (List Event)) × (filter_values cp prefix values ≡ some out)
      × (concat out ≡ matching cp prefix (concat values))
unfolding filter_values
filter_values_lem cp prefix lo [] g = ([], refl, refl)
filter_values_lem cp prefix lo (events ∷ values) g =
    let left = Grows-left lo events (concat values) g in
    let (mid, right) = Grows-right lo events (concat values) g in
    let (out, e, f) = filter_values_lem cp prefix mid values right in
    let (sent, e', f') = concat-send_filtered (matching cp prefix events) out in
    (
      sent,
      rw ((filter_lem cp prefix lo events left).0, e) e',
      f' ∙ rw f (sym (matching-append cp prefix events (concat values))),
    )

module _ {D : Type 0} (d : Dialect D) (ordered : IsOrdered d) where
  -- What a watch of the backend sends if its subscription gets the values `m` to `m + n` of poll.
  abbrev pub Watched : ℕ → ℕ → Bytes → ℤ → ℤ × List Event × Err → Poll × List (List Event) → Type 0
  Watched m n prefix revision (rev, kvs, err) (p, batches) =
      (values : List (List Event)) × (watch prefix (window m n batches) ≡ some values)
      × (out : List (List Event)) × (Watch.watch revision (rev, kvs, err) values ≡ some out)
      × (concat out
          ≡ kvs
            ++ newer (seen revision rev kvs)
                (matching (has_suffix prefix (codes "/")) prefix (concat (window m n batches))))
      × Grows (after_revision revision) (concat out)

  -- Suppose that the calls of the database return, and each answer to After has ids that grow from
  -- above the revision asked for. Then every run of poll returns, and a watch of the backend whose
  -- subscription gets any consecutive part of the lists that poll sends, and for which After
  -- returned events whose revisions grow from above the revision before the watched one to at most
  -- the revision returned with them, sends these and behind them exactly those events of that part
  -- that are above the last revision seen and whose key is the one of the watch, or starts with it
  -- if it ends in a slash; and the revisions of all that it sends grow strictly.
  pub watch_polled :
      (wakes : List (Wake × ℕ)) (p : Poll) (s : SqlState D) (m n : ℕ) (prefix : Bytes)
      (revision rev : ℤ) (kvs : List Event) (err : Err)
      → GrowsTo (after_revision revision) kvs (seen revision rev kvs)
      → Returns (Watched m n prefix revision (rev, kvs, err)) (poll d wakes p s)
  unfolding watch
  watch_polled wakes p s m n prefix revision rev kvs err first =
      Returns-weaken _ (Watched m n prefix revision (rev, kvs, err)) (poll d wakes p s)
        (Returns-both (λ a. Between p.last (concat a.1) a.0.last) (λ a. All HasKv (concat a.1))
          (poll d wakes p s) (poll_order d ordered wakes p s) (poll-HasKv d ordered wakes p s))
        λ a h.
          let grows = Between-Grows p.last (concat a.1) a.0.last h.0 h.1 in
          let (base, part) = window-Grows m n p.last a.1 grows in
          let cp = has_suffix prefix (codes "/") in
          let (values, e, f) = filter_values_lem cp prefix base (window m n a.1) part in
          let kept = (filter_lem cp prefix base (concat (window m n a.1)) part).1 in
          let (out, e', f', g) = watch_stream revision rev base kvs err values first (rw f kept) in
          (values, e, out, e', f' ∙ rw f refl, g)
