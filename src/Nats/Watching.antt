-- ===== src/Nats/Watching.antt =====
-- kine/pkg/drivers/nats/nats.go: listAfter and Watch. A watch is the list of what is sent on its
-- channel for the updates that the watcher sends before the context is done.
pub mod Events
pub mod Previous
use thesis_code.Prelude.{
  ℕ, Bytes, ℤ, pos, negsuc, ltb_ℤ, ◌==ℤ◌, sub64, Bool, true, false, not, List, [], ◌∷◌, ◌++◌,
  Option, none, some, Result, ok, failed, Exec, pure, panic, map_result, ◌>>=◌, ◌>>◌, get_last?,
  if◌then◌else◌,
}
use thesis_code.Server.Types.{Error, KeyValue, Event, Err}
use thesis_code.LogStructured.{deref}
use thesis_code.Nats.Bucket.{Entry, Operation, Watcher}
use thesis_code.Nats.Driver.{
  JsValue, Driver, Found, int64_of, decode, current_revision, get, get_kv,
}
use thesis_code.Nats.Listing.{get_key_values}

-- &server.KeyValue{}.
abbrev pub blank_kv : KeyValue
blank_kv = record {
  key = [];
  create_revision = pos 0;
  mod_revision = pos 0;
  value = [];
  lease = pos 0;
}

abbrev pub prev_or : ℤ × Option KeyValue × Err → Option KeyValue
prev_or (rev, some kv, none) = some kv
prev_or (rev, none, none) = some blank_kv
prev_or (rev, kv, some e) = some blank_kv

abbrev pub event_of : JsValue → Option KeyValue → Event
event_of v prev = record { delete = v.delete; create = v.create; kv = v.kv; prev_kv = prev }

abbrev pub found_prev : Found → Option KeyValue
found_prev (rev, some v, none) = v.kv
found_prev (rev, none, none) = some blank_kv
found_prev (rev, v, some e) = some blank_kv

-- getPreviousEntry's walk from the end of a history: the entry before the one of the revision, if it
-- is a put. The list is the history from its end.
unfoldable pub previous_entry : ℕ → List Entry → Option Entry
previous_entry revision [] = none
previous_entry revision (e ∷ older) =
    if thesis_code.Prelude.◌==◌ e.revision revision
    then put_of older
    else previous_entry revision older
  where
    put_of : List Entry → Option Entry
    put_of [] = none
    put_of (p ∷ rest) = elim p.operation [
      | Operation.key_value_put ↦ some p
      | Operation.key_value_delete ↦ none
      | Operation.key_value_purge ↦ none
    ]

module _ {S : Type 0} (d : Driver S) where
  abbrev pub cons_event : ℤ → Entry → JsValue × Err → Exec S (List Event) → Exec S (List Event)
  cons_event revision e (v, some err) rest = rest
  cons_event revision e (v, none) rest =
      if not (ltb_ℤ revision (int64_of e.revision))
      then rest
      else deref v.kv λ kv. get_kv d kv.key [] (pos 1) v.prev_revision >>= λ answer.
          map_result (λ events. event_of v (prev_or answer) ∷ events) rest

  -- The events of the entries after a revision, in their order; an entry that cannot be decoded is
  -- left out.
  unfoldable pub events_after : ℤ → List Entry → Exec S (List Event)
  unfolding decode get_kv
  events_after revision [] = pure []
  events_after revision (e ∷ entries) =
      let rest = events_after revision entries in
      decode d e >>= λ decoded. cons_event revision e decoded rest

  abbrev pub with_revision : ℤ → List Event → ℤ × List Event × Err
  with_revision rev events = (rev, events, none)

  abbrev pub list_events : ℤ → List Entry → ℤ × Err → Exec S (ℤ × List Event × Err)
  list_events revision entries (rev, some e) = pure (pos 0, [], some e)
  list_events revision entries (rev, none) =
      map_result (with_revision (if not (revision ==ℤ pos 0) then revision else rev))
        (events_after revision entries)

  abbrev pub list_entries_after : ℤ → Result Error (List Entry) → Exec S (ℤ × List Event × Err)
  list_entries_after revision (failed e) = pure (pos 0, [], some e)
  list_entries_after revision (ok entries) = current_revision d >>= list_events revision entries

  unfoldable pub list_after : Bytes → ℤ → Exec S (ℤ × List Event × Err)
  unfolding get_key_values current_revision events_after
  list_after prefix revision = get_key_values d prefix false >>= list_entries_after revision

  -- The previous value is read also if the value cannot be decoded.
  abbrev pub send_event : JsValue × Err → Found → List (List Event)
  send_event (v, some e) prev = []
  send_event (v, none) prev = (event_of v (found_prev prev) ∷ []) ∷ []

  abbrev pub update_events : ℤ → Entry → Exec S (List (List Event))
  update_events revision e =
      if ltb_ℤ revision (int64_of e.revision)
      then (decode d e >>= λ decoded.
          map_result (send_event decoded) (get d e.key decoded.0.prev_revision false))
      else pure []

  -- The loop over the updates of the watcher.
  unfoldable pub forward : ℤ → List (Option Entry) → Exec S (List (List Event))
  unfolding decode get
  forward revision [] = pure []
  forward revision (none ∷ updates) = forward revision updates
  forward revision (some e ∷ updates) =
      let rest = forward revision updates in
      update_events revision e >>= λ sent. map_result (λ batches. sent ++ batches) rest

  abbrev pub last_revision : ℤ → List Event → Exec S ℤ
  last_revision revision events = elim (get_last? events) [
    | none ↦ pure revision
    | some event ↦ deref event.kv λ kv. pure kv.mod_revision
  ]

  abbrev pub batch : List Event → List (List Event)
  batch [] = []
  batch (event ∷ events) = (event ∷ events) ∷ []

  -- A watcher that could not be made is a nil interface.
  abbrev pub watch_updates : ℤ → Result Error (Watcher S) → Exec S (List (List Event))
  watch_updates revision (failed e) = panic
  watch_updates revision (ok w) = forward revision w.updates >>= λ batches. w.stop >> pure batches

  abbrev pub watch_events :
      ℤ → Result Error (Watcher S) → ℤ × List Event × Err → Exec S (List (List Event))
  watch_events revision watcher (rev, events, err) = do
    from ← last_revision revision events
    batches ← watch_updates from watcher
    pure (batch events ++ batches)

  abbrev pub before : ℤ → ℤ
  before revision = if ltb_ℤ (pos 0) revision then sub64 revision (pos 1) else revision

  unfoldable pub watch : Bytes → ℤ → Exec S (List (List Event))
  unfolding list_after forward sub64
  watch prefix revision = d.kv.watch prefix false >>= λ watcher.
      list_after prefix (before revision) >>= watch_events (before revision) watcher
