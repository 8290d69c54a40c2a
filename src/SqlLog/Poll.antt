-- ===== src/SqlLog/Poll.antt =====
-- sql.go, poll and canSkipRevision: the loop that sends new events to the watches in the order of
-- their revisions. One round is taken as instantaneous: it reads the clock (in nanoseconds) once.
pub mod Order
pub mod Gaps
use thesis_code.SqlLog.Rows.{row_kv, row_event}
use thesis_code.Prelude.{
  ℕ, ◌+◌, Bytes, codes, ℤ, pos, ltb, leb_ℤ, ◌==ℤ◌, add64, Bool, true, false, not, ◌&&◌, ◌||◌, List,
  [], ◌∷◌, length, Option, none, some, Exec, pure, map_result, ◌>>=◌, ◌>>◌, if◌then◌else◌,
}
use thesis_code.Server.Types.{Error, Event, QueryGenericRow, Err, Dialect}
use thesis_code.SqlLog.{SqlState, call, send}

abbrev pub second : ℕ
second = 1000000000

abbrev pub poll_batch_size : ℕ
poll_batch_size = 500

-- time.Since(skipTime) > time.Second
unfoldable pub can_skip_revision : ℤ → ℤ → ℕ → ℕ → Bool
can_skip_revision rev skip skip_time now = rev ==ℤ skip && ltb (skip_time + second) now

-- How the loop over the events of a round ends: at the last one, or at a gap before the revision
-- that is missing, for which a quick retry is asked or a filler is inserted.
pub data Stop : Type 0 where
  finished : Stop
  retry fill : ℤ → Stop

pub record Scan : Type 0 where
  pub rev : ℤ
  pub skip : ℤ
  pub skip_time : ℕ
  pub sequential : List Event
  pub save_last : Bool
  pub stop : Stop

abbrev pub accepted : Bool → QueryGenericRow → Scan → Scan
accepted is_fill row rest = record rest {
  sequential = if is_fill then rest.sequential else row_event row ∷ rest.sequential;
  save_last = true;
}

-- The loop over the events that the rows make.
unfoldable pub scan : (Bytes → Bool) → ℕ → ℤ → ℤ → ℕ → List QueryGenericRow → Scan
unfolding can_skip_revision row_kv row_event
scan is_fill now rev skip skip_time [] = record {
  rev = rev;
  skip = skip;
  skip_time = skip_time;
  sequential = [];
  save_last = false;
  stop = finished;
}
scan is_fill now rev skip skip_time (row ∷ rows) =
    let next = add64 rev (pos 1) in
    let rest = scan is_fill now (row_kv row).mod_revision skip skip_time rows in
    if (row_kv row).mod_revision ==ℤ next || can_skip_revision next skip skip_time now
    then accepted (is_fill (row_kv row).key) row rest
    else if not (skip ==ℤ next)
    then record {
      rev = rev;
      skip = next;
      skip_time = now;
      sequential = [];
      save_last = false;
      stop = retry next;
    }
    else record {
      rev = rev;
      skip = skip;
      skip_time = skip_time;
      sequential = [];
      save_last = false;
      stop = fill next;
    }

pub record Poll : Type 0 where
  pub last : ℤ
  pub skip : ℤ
  pub skip_time : ℕ
  pub wait_for_more : Bool

abbrev pub poll_start : ℤ → Poll
poll_start start = record { last = start; skip = pos 0; skip_time = 0; wait_for_more = true }

-- A round sends at most one list of events; [] stands for no send.
abbrev pub Sent : Type 0
Sent = Poll × List Event

abbrev pub saved : Poll → ℕ → Scan → Sent
saved p rows sc = (
  record {
    last = if sc.save_last then sc.rev else p.last;
    skip = sc.skip;
    skip_time = sc.skip_time;
    wait_for_more = ltb rows 100;
  },
  sc.sequential,
)

-- The round ends without a look at the events.
abbrev pub idle : Poll → Sent
idle p = (record p { wait_for_more = true }, [])

module _ {D : Type 0} (d : Dialect D) where
  abbrev pub notify_filled : ℤ → Err → Exec (SqlState D) (Unit {0})
  notify_filled next none = send next
  notify_filled next (some e) = pure tt

  abbrev pub at_stop : Stop → Exec (SqlState D) (Unit {0})
  at_stop finished = pure tt
  at_stop (retry next) = send next
  at_stop (fill next) = call (d.fill next) >>= notify_filled next

  abbrev pub poll_rows : ℕ → Poll → List QueryGenericRow × Err → Exec (SqlState D) Sent
  poll_rows now p (rows, some e) = pure (idle p)
  poll_rows now p ([], none) = pure (idle p)
  poll_rows now p (row ∷ rows, none) =
      let sc = scan d.is_fill now p.last p.skip p.skip_time (row ∷ rows) in
      at_stop sc.stop >> pure (saved p (length (row ∷ rows)) sc)

  unfoldable pub poll_round : ℕ → Poll → Exec (SqlState D) Sent
  unfolding scan
  poll_round now p = call (d.after (codes "%") p.last (pos poll_batch_size)) >>= poll_rows now p

-- What ends the wait at the top of the loop: a revision from the channel, or the ticker. (A done
-- context ends the loop.)
pub data Wake : Type 0 where
  notified : ℤ → Wake
  ticked : Wake

abbrev pub is_stale : Poll → Wake → Bool
is_stale p ticked = false
is_stale p (notified check) = leb_ℤ check p.last

module _ {D : Type 0} (d : Dialect D) where
  -- One turn of the loop. A revision that was already sent wakes nothing.
  unfoldable pub poll_turn : Wake → ℕ → Poll → Exec (SqlState D) Sent
  unfolding poll_round
  poll_turn wake now p =
      if p.wait_for_more && is_stale p wake then pure (p, []) else poll_round d now p

  abbrev pub then_send : List Event → Poll × List (List Event) → Poll × List (List Event)
  then_send events (p, batches) = (p, events ∷ batches)

  -- The loop over a sequence of wakes, with the clock at each; the lists that it sends, in order.
  unfoldable pub poll : List (Wake × ℕ) → Poll → Exec (SqlState D) (Poll × List (List Event))
  unfolding poll_turn
  poll [] p = pure (p, [])
  poll ((wake, now) ∷ wakes) p =
      poll_turn wake now p >>= λ sent. map_result (then_send sent.1) (poll wakes sent.0)
