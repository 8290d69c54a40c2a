-- ===== src/SqlLog/Watching.antt =====
-- sql.go, Watch and startWatch: what a watch gets of the events that poll sends, and where poll
-- starts. The channel of the subscription is the list of the values that come from it.
pub mod Delivered
use thesis_code.Prelude.{
  Bytes, codes, has_suffix, ℤ, Bool, List, [], ◌∷◌, Option, none, some, Exec, map_result,
}
use thesis_code.Server.Types.{Event, Err, Dialect}
use thesis_code.SqlLog.{SqlState, call, filter}
use thesis_code.SqlLog.Poll.{Poll, poll_start}

-- A list that the filter leaves empty is not sent. `none` is a read of a nil pointer.
abbrev pub send_filtered :
    Option (List Event) → Option (List (List Event)) → Option (List (List Event))
send_filtered none rest = none
send_filtered (some events) none = none
send_filtered (some []) (some batches) = some batches
send_filtered (some (event ∷ events)) (some batches) = some ((event ∷ events) ∷ batches)

-- The loop of the goroutine.
unfoldable pub filter_values : Bool → Bytes → List (List Event) → Option (List (List Event))
unfolding filter
filter_values check_prefix prefix [] = some []
filter_values check_prefix prefix (events ∷ values) =
    send_filtered (filter check_prefix prefix events) (filter_values check_prefix prefix values)

unfoldable pub watch : Bytes → List (List Event) → Option (List (List Event))
unfolding filter_values has_suffix
watch prefix values = filter_values (has_suffix prefix (codes "/")) prefix values

abbrev pub started : ℤ × Err → Option Poll × Err
started (start, some e) = (none, some e)
started (start, none) = (some (poll_start start), none)

-- The poll loop is started at the compacted revision.
unfoldable pub start_watch : {D : Type 0} → Dialect D → Exec (SqlState D) (Option Poll × Err)
start_watch d = map_result started (call d.get_compact_revision)
