-- ===== src/SqlLog/Poll/Order.antt =====
-- The order in which poll sends events to the watches.
use thesis_code.Prelude.{
  ℕ, Bytes, codes, ℤ, pos, ◌<ℤ◌, ◌≤ℤ◌, ◌==ℤ◌, add64, Bool, false, Bool-cases, inl, inr, List, [],
  ◌∷◌, ◌++◌, none, some, Outcome, returned, panicked, out_of_fuel, Returns, AnyReturns,
  Returns-bind, ◌≡◌, refl, arith, ◌||◌, ◌&&◌,
}
use thesis_code.Server.Types.{Event, QueryGenericRow, Err, Dialect}
pub use thesis_code.LogStructured.Watch.Stream.{concat}
use thesis_code.SqlLog.{SqlState, call, lifted, kv_or_zero}
use thesis_code.SqlLog.Poll.{
  Scan, Stop, finished, retry, fill, can_skip_revision, scan, Poll, Sent, poll_batch_size,
  poll_rows, at_stop, notify_filled, poll_round, Wake, is_stale, poll_turn, poll,
}

abbrev pub rev_of : Event → ℤ
rev_of event = (kv_or_zero event.kv).mod_revision

-- The ids of the rows grow from above `from`.
abbrev pub Ascending : ℤ → List QueryGenericRow → Type 0
Ascending from [] = Unit {0}
Ascending from (row ∷ rows) = (from <ℤ row.theid) × Ascending row.theid rows

-- The revisions of the events grow from above `lo`, and the last is at most `hi`.
abbrev pub Between : ℤ → List Event → ℤ → Type 0
Between lo [] hi = lo ≤ℤ hi
Between lo (event ∷ events) hi = (lo <ℤ rev_of event) × Between (rev_of event) events hi

Between-weaken :
    (a b : ℤ) (events : List Event) (hi : ℤ) → a ≤ℤ b → Between b events hi → Between a events hi
Between-weaken a b [] hi h x = omega arith
Between-weaken a b (event ∷ events) hi h x = (omega arith, x.1)

Between-append :
    (lo mid hi : ℤ) (xs ys : List Event)
    → Between lo xs mid
    → Between mid ys hi
    → Between lo (xs ++ ys) hi
Between-append lo mid hi [] ys h k = Between-weaken lo mid ys hi h k
Between-append lo mid hi (x ∷ xs) ys h k = (h.0, Between-append (rev_of x) mid hi xs ys h.1 k)

-- A scan that saves nothing has sent nothing and kept the revision.
abbrev Scanned : ℤ → Scan → Type 0
Scanned rev sc =
    Between rev sc.sequential sc.rev
    × (sc.save_last ≡ false → (sc.sequential ≡ []) × (sc.rev ≡ rev))

scan_order :
    (is_fill : Bytes → Bool) (now : ℕ) (rev skip : ℤ) (skip_time : ℕ) (rows : List QueryGenericRow)
    → Ascending rev rows
    → Scanned rev (scan is_fill now rev skip skip_time rows)
unfolding scan
scan_order is_fill now rev skip skip_time [] h = (omega arith, λ _. (refl, refl))
scan_order is_fill now rev skip skip_time (row ∷ rows) h =
    let next = add64 rev (pos 1) in
    let ih = scan_order is_fill now row.theid skip skip_time rows h.1 in
    elim (Bool-cases (row.theid ==ℤ next || can_skip_revision next skip skip_time now)) [
      | inl go ↦ rw go (elim (Bool-cases (is_fill row.name)) [
        | inl f ↦ rw f ((Between-weaken rev row.theid _ _ (omega arith) ih.0), λ p. absurd (cc))
        | inr f ↦ rw f ((h.0, ih.0), λ p. absurd (cc))
      ])
      | inr stay ↦ rw stay (elim (Bool-cases (skip ==ℤ next)) [
        | inl e ↦ rw e (omega arith, λ _. (refl, refl))
        | inr e ↦ rw e (omega arith, λ _. (refl, refl))
      ])
    ]

pub Returns-lifted :
    {A D : Type 0} (P : A → Type 0) (queue : List ℤ) (o : Outcome (A × D))
    → Returns P o
    → Returns P (lifted queue o)
Returns-lifted P queue (returned (a, d)) h = h
Returns-lifted P queue panicked h = h
Returns-lifted P queue out_of_fuel h = h

-- The calls of poll return, and After gives rows above the revision, in the order of their ids.
pub record IsOrdered {D : Type 0} (d : Dialect D) : Type 0 where
  pub after_lem :
      (last : ℤ) (s : D)
      → Returns (λ a. Ascending last a.0) (d.after (codes "%") last (pos poll_batch_size) s)
  pub fill_lem : (rev : ℤ) (s : D) → AnyReturns (d.fill rev s)

abbrev Moved : Poll → Sent → Type 0
Moved p sent = Between p.last sent.1 sent.0.last

module _ {D : Type 0} (d : Dialect D) (ordered : IsOrdered d) where
  notify_lem : (next : ℤ) (e : Err) (s : SqlState D) → AnyReturns (notify_filled d next e s)
  notify_lem next none s = tt
  notify_lem next (some e) s = tt

  pub stop_lem : (stop : Stop) (s : SqlState D) → AnyReturns (at_stop d stop s)
  stop_lem finished s = tt
  stop_lem (retry next) s = tt
  stop_lem (fill next) s =
      Returns-bind _ _ (call (d.fill next) s) _
        (Returns-lifted _ s.notify (d.fill next s.db) (ordered.fill_lem next s.db))
        λ e t _. notify_lem next e t

  rows_order :
      (now : ℕ) (p : Poll) (rows : List QueryGenericRow) (e : Err) (s : SqlState D)
      → Ascending p.last rows
      → Returns (Moved p) (poll_rows d now p (rows, e) s)
  rows_order now p rows (some e) s h = omega arith
  rows_order now p [] none s h = omega arith
  rows_order now p (row ∷ rows) none s h =
      let sc = scan d.is_fill now p.last p.skip p.skip_time (row ∷ rows) in
      let order = scan_order d.is_fill now p.last p.skip p.skip_time (row ∷ rows) h in
      Returns-bind (λ _. Unit {0}) (Moved p) (at_stop d sc.stop s) _ (stop_lem sc.stop s)
        λ _ t _. elim (Bool-cases sc.save_last) [
          | inl e ↦ rw e order.0
          | inr e ↦ rw (e, (order.1 e).0) (omega arith)
        ]

  turn_order :
      (wake : Wake) (now : ℕ) (p : Poll) (s : SqlState D)
      → Returns (Moved p) (poll_turn d wake now p s)
  unfolding poll_turn poll_round
  turn_order wake now p s = elim (Bool-cases (p.wait_for_more && is_stale p wake)) [
    | inl e ↦ rw e (omega arith)
    | inr e ↦ rw e (
        Returns-bind (λ a. Ascending p.last a.0) (Moved p)
          (call (d.after (codes "%") p.last (pos poll_batch_size)) s) (poll_rows d now p)
          (Returns-lifted _ s.notify (d.after (codes "%") p.last (pos poll_batch_size) s.db)
            (ordered.after_lem p.last s.db))
          λ a t h. rows_order now p a.0 a.1 t h)
  ]

  -- Whatever wakes the loop, and whenever: if the calls of the database return, with or without an
  -- error, and each answer to After has ids that grow from above the revision asked for, then every
  -- number of turns of poll returns, and the revisions of all events that it sends, one list after
  -- the other, grow strictly from above the revision at which it started, and none is above the
  -- revision that it has reached.
  pub poll_order :
      (wakes : List (Wake × ℕ)) (p : Poll) (s : SqlState D)
      → Returns (λ a. Between p.last (concat a.1) a.0.last) (poll d wakes p s)
  unfolding poll
  poll_order [] p s = omega arith
  poll_order ((wake, now) ∷ wakes) p s =
      Returns-bind (Moved p) _ (poll_turn d wake now p s) _ (turn_order wake now p s) λ sent t h.
        Returns-bind (λ a. Between sent.0.last (concat a.1) a.0.last) _ (poll d wakes sent.0 t) _
          (poll_order wakes sent.0 t)
          λ a u k. Between-append p.last sent.0.last a.0.last sent.1 (concat a.1) h k
