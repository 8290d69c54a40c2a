-- ===== src/Generic/Storing/Refinement.antt =====
-- The contract that the backend relies on, for the log over the database.
use thesis_code.Prelude.{
  Bytes, bytes_eq, ℤ, pos, Bool, true, false, ◌||◌, Option, none, some, inl, inr, Ends, Ends-weaken,
  ◌≡◌, ◌⊎◌, refl, sym, ap, ◌∙◌, if◌then◌else◌,
}
use thesis_code.Server.Types.{Error, KeyValue, Event, Err}
use thesis_code.LogStructured.Contract.{Contract, Keeps, Writes, Skips, stored, kv_of}
use thesis_code.SqlLog.{SqlState}
use thesis_code.SqlLog.Rows.{row_event}
use thesis_code.SqlLog.Interface.{sql_log}
use thesis_code.Generic.Client.{Clients, KineInsert}
use thesis_code.Generic.{dialect}
use thesis_code.Generic.Inserting.{message_of, row_event-row_of}
use thesis_code.Generic.Storing.{only_if, DatabaseLaws}
use thesis_code.Generic.Storing.Calls.{Answered}
use thesis_code.Generic.Storing.Answers.{
  event_at, log_view, Same-Keeps, current_contract, list_contract, append-Answered,
}

event_at-if :
    (b : Bool) (m o : Option (ℤ × KineInsert))
    → event_at (if b then m else o) ≡ (if b then event_at m else event_at o)
event_at-if true m o = refl
event_at-if false m o = refl

pub event_at-kv :
    (k : Bytes) (o : Option (ℤ × KineInsert)) (e : Event)
    → ((m : ℤ × KineInsert) → o ≡ some m → m.1.name ≡ k)
    → event_at o ≡ some e
    → (kv : KeyValue) × (e.kv ≡ some kv) × (kv.key ≡ k)
unfolding row_event
event_at-kv k none e h p = absurd (cc)
event_at-kv k (some (id, m)) e h p = (_, ap kv_of (sym p), h (id, m) refl)

module _ {D : Type 0} {c : Clients D} (laws : DatabaseLaws c) where
  abbrev pub Appended : Event → KeyValue → SqlState D → ℤ × Err → SqlState D → Type 0
  Appended event kv s a t =
      ((a ≡ ((log_view laws).revision t, none))
        × Writes (log_view laws) kv.key (stored event kv ((log_view laws).revision t)) s t)
      ⊎ ((a ≡ ((log_view laws).revision t, none)) × Skips (log_view laws) s t)
      ⊎ ((e : Error) × (a ≡ (pos 0, some e)) × Keeps (log_view laws) s t)

  answered_lem :
      (event : Event) (kv : KeyValue) (s t : SqlState D) (a : ℤ × Err)
      → event.kv ≡ some kv
      → Answered laws (message_of event) s.db a t.db
      → Appended event kv s a t
  answered_lem event kv s t a e (inl (x, (grows, n))) = inl (
    x,
    (
      grows,
      λ k.
          ap event_at (n k)
          ∙ event_at-if (bytes_eq (message_of event).name k)
              (some (laws.table.max_id t.db, message_of event)) (laws.table.newest s.db k)
          ∙ rw e (
              ap (λ y. if bytes_eq kv.key k then some y else event_at (laws.table.newest s.db k))
                (row_event-row_of event.delete event.create kv event.prev_kv
                  (laws.table.max_id t.db) (pos 0) (pos 0))),
    ),
  )
  answered_lem event kv s t a e (inr (inl (x, (grows, n)))) =
      inr (inl (x, (grows, λ k. ap event_at (n k))))
  answered_lem event kv s t a e (inr (inr (y, x, k))) = inr (inr (y, x, Same-Keeps laws s t k))

  pub shown-latest :
      (b : Bool) (o : Option (ℤ × KineInsert)) (e : Event)
      → event_at (only_if laws.table b o) ≡ some e
      → event_at o ≡ some e
  shown-latest true o e h = h
  shown-latest false o e h = absurd (cc)

  pub append_contract :
      (event : Event) (kv : KeyValue) (s : SqlState D)
      → event.kv ≡ some kv
      → Ends (Appended event kv s) ((sql_log (dialect c)).append event s)
  append_contract event kv s e =
      Ends-weaken (λ a u. Answered laws (message_of event) s.db a u.db) (Appended event kv s)
        ((sql_log (dialect c)).append event s) (append-Answered laws event s)
        λ a t p. answered_lem event kv s t a e p

  -- The log over the database keeps the contract of a log.
  unfoldable pub sql_log_contract : Contract (sql_log (dialect c))
  sql_log_contract = record {
    view = log_view laws;
    latest_kv = λ s k e. event_at-kv k (laws.table.newest s.db k) e (laws.newest_name s.db k);
    shown_latest =
        λ s k e. shown-latest (false || laws.table.is_shown s.db k) (laws.table.newest s.db k) e;
    current_lem = current_contract laws;
    list_lem = list_contract laws;
    append_lem = append_contract;
  }
