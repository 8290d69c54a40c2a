-- ===== src/Tests/Logs.antt =====
-- The poll loop, the watches and the compaction over the fixed table.
use thesis_code.Prelude.{
  ℕ, Bytes, codes, has_prefix, ℤ, pos, sub64, Bool, true, false, List, [], ◌∷◌, ◌++◌, none, some,
  Returns, ◌≡◌, ◌⊎◌, refl, arith,
}
use thesis_code.Server.Types.{KeyValue, Event}
use thesis_code.SqlLog.{SqlState}
use thesis_code.SqlLog.Poll.{poll, poll_start, ticked, notified, scan}
use thesis_code.SqlLog.Poll.Order.{Between, poll_order}
use thesis_code.SqlLog.Poll.Gaps.{Takes, scan-Takes, gap_passed}
use thesis_code.LogStructured.Watch.{watch, after_revision}
use thesis_code.LogStructured.Watch.Stream.{Grows, newer, seen, watch_stream, concat}
use thesis_code.SqlLog.Watching.Delivered.{Watched, watch_polled}
use thesis_code.Tests.Dialects.{row, table, table_dialect, table-IsOrdered}

abbrev sql_state : SqlState (Unit {0})
sql_state = record { db = tt; notify = [] }

poll_order_example :
    Returns
      (λ a. Between (pos 0) (concat a.1) a.0.last)
      (poll table_dialect
        ((ticked, 0) ∷ (notified (pos 3), 2000000000) ∷ [])
        (poll_start (pos 0))
        sql_state)
poll_order_example =
    poll_order table_dialect table-IsOrdered ((ticked, 0) ∷ (notified (pos 3), 2000000000) ∷ [])
      (poll_start (pos 0)) sql_state

abbrev gap_name : Bytes → Bool
gap_name key = has_prefix key (codes "gap-")

scan-Takes_example :
    (n : ℕ) × Takes gap_name (pos 0) table (scan gap_name 0 (pos 0) (pos 0) 0 table) n
scan-Takes_example = scan-Takes gap_name 0 (pos 0) 0 (pos 0) table (omega arith)

gap_passed_example :
    let sc = scan gap_name 5 (pos 2) (pos 0) 0 (row (pos 4) ∷ row (pos 5) ∷ []) in
    (sc.save_last ≡ true)
    ⊎ ((scan gap_name 2000000000 sc.rev sc.skip sc.skip_time
          (row (pos 4) ∷ row (pos 5) ∷ [])).save_last
        ≡ true)
gap_passed_example =
    gap_passed gap_name 5 2000000000 (pos 2) (pos 0) 0 (row (pos 4)) (row (pos 5) ∷ [])
      (omega arith) (omega arith)

abbrev kv : ℤ → KeyValue
kv rev = record {
  key = codes "/pods/a";
  create_revision = pos 1;
  mod_revision = rev;
  value = codes "v";
  lease = pos 0;
}

abbrev event : ℤ → Event
event rev = record { delete = false; create = false; kv = some (kv rev); prev_kv = none }

abbrev listed : List Event
listed = event (pos 3) ∷ event (pos 4) ∷ []

abbrev sent : List (List Event)
sent = (event (pos 4) ∷ event (pos 5) ∷ []) ∷ (event (pos 6) ∷ []) ∷ []

watch_stream_example :
    (out : List (List Event)) × (watch (pos 3) (pos 4, listed, none) sent ≡ some out)
    × (concat out ≡ listed ++ newer (seen (pos 3) (pos 4) listed) (concat sent))
    × Grows (after_revision (pos 3)) (concat out)
unfolding after_revision sub64
watch_stream_example =
    watch_stream (pos 3) (pos 4) (pos 3) listed none sent
      (kv (pos 3), refl, omega arith, (kv (pos 4), refl, omega arith, omega arith))
      (
        kv (pos 4),
        refl,
        omega arith,
        (kv (pos 5), refl, omega arith, (kv (pos 6), refl, omega arith, tt)),
      )

-- The subscription comes after the first list, and After returned nothing.
watch_polled_example :
    Returns (Watched table_dialect table-IsOrdered 1 5 (codes "/pods/") (pos 3) (pos 4, [], none)) (
      poll table_dialect
        ((ticked, 0) ∷ (notified (pos 3), 2000000000) ∷ [])
        (poll_start (pos 0))
        sql_state)
watch_polled_example =
    watch_polled table_dialect table-IsOrdered ((ticked, 0) ∷ (notified (pos 3), 2000000000) ∷ [])
      (poll_start (pos 0)) sql_state 1 5 (codes "/pods/") (pos 3) (pos 4) [] none (omega arith)
