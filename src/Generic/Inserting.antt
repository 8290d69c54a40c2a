-- ===== src/Generic/Inserting.antt =====
-- An event on its way into the table and back.
use thesis_code.Prelude.{
  ℤ, pos, negsuc, ltb_ℤ, Bool, true, false, Option, none, some, ℕ, returned, pure, ◌>>◌, ◌≡◌, refl,
  arith,
}
use thesis_code.Server.Types.{KeyValue, Event, QueryGenericRow}
use thesis_code.LogStructured.Contract.{stored}
use thesis_code.SqlLog.{SqlState, append, send, kv_or_zero}
use thesis_code.SqlLog.Rows.{row_event}
use thesis_code.Generic.Client.{Clients, KineInsert}
use thesis_code.Generic.{dialect, flag}

-- The message that asks for a new row of an event.
abbrev pub message_of : Event → KineInsert
message_of event =
    let kv = kv_or_zero event.kv in
    let prev = kv_or_zero event.prev_kv in
    record {
      id = negsuc 0;
      name = kv.key;
      created = flag event.create;
      deleted = flag event.delete;
      create_revision = kv.create_revision;
      prev_revision = prev.mod_revision;
      lease = kv.lease;
      value = kv.value;
      old_value = prev.value;
    }

-- The row of a message under an id, as a query with some maximum id and compacted revision shows it.
abbrev pub row_of : KineInsert → ℤ → ℤ → ℤ → QueryGenericRow
row_of message id max_id compact = record {
  max_id = max_id;
  compaction_prev_revision = compact;
  theid = id;
  name = message.name;
  created = message.created;
  deleted = message.deleted;
  create_revision = message.create_revision;
  prev_revision = message.prev_revision;
  lease = message.lease;
  value = message.value;
  old_value = message.old_value;
}

pub row_event-row_of :
    (del cre : Bool) (kv : KeyValue) (prev : Option KeyValue) (id max_id compact : ℤ)
    → let event : Event = record { delete = del; create = cre; kv = some kv; prev_kv = prev } in
      row_event (row_of (message_of event) id max_id compact) ≡ stored event kv id
unfolding row_event
row_event-row_of true true kv none id max_id compact = refl
row_event-row_of true true kv (some p) id max_id compact = refl
row_event-row_of true false kv none id max_id compact = refl
row_event-row_of true false kv (some p) id max_id compact = refl
row_event-row_of false true kv none id max_id compact = refl
row_event-row_of false true kv (some p) id max_id compact = refl
row_event-row_of false false kv none id max_id compact = refl
row_event-row_of false false kv (some p) id max_id compact = refl

nonneg : (n : ℕ) → ltb_ℤ (pos n) (pos 0) ≡ false
nonneg n = ground arith

-- When the database answers the publication of the message of an event by an id, Append returns that
-- id, and offers it to the channel. The row of that message, when it is read back, is the event with
-- that id for its revision: same key, value, lease and flags, its own id as create revision if it
-- creates its key and the old create revision if not, and, if it does not create its key, the
-- revision and the value that it replaced.
pub append_roundtrip :
    {D : Type 0} (c : Clients D) (event : Event) (kv : KeyValue) (id : ℕ) (success : Bool)
    (max_id compact : ℤ) (s : SqlState D) (t : D)
    → event.kv ≡ some kv
    → c.client_publisher.request_publish (message_of event) s.db
      ≡ returned ((record { success = success; returning_id = some (pos id) }, none), t)
    → (append (dialect c) event s ≡ (send (pos id) >> pure (pos id, none)) (record s { db = t }))
      × (row_event (row_of (message_of event) (pos id) max_id compact) ≡ stored event kv (pos id))
unfolding append dialect
append_roundtrip c event kv id success max_id compact s t e h = (
  rw (h, nonneg id),
  rw e (row_event-row_of event.delete event.create kv event.prev_kv (pos id) max_id compact),
)
