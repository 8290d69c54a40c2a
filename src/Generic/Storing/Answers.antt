-- ===== src/Generic/Storing/Answers.antt =====
-- The operations of the log over a database that answers by its laws.
use thesis_code.Prelude.{
  Bytes, codes, has_suffix, ℤ, pos, Bool, true, false, List, [], ◌∷◌, Option, none, some, inl, inr,
  Outcome, Ends, Ends-bind, Ends-weaken, ◌≡◌, refl, ap, ◌∙◌, arith, ltb, length, ◌++◌, pure, ◌>>◌,
  if◌then◌else◌,
}
use thesis_code.Server.Types.{Event, QueryGenericRow, Err}
use thesis_code.LogStructured.Contract.{View, Keeps, is_single, found, asked}
use thesis_code.SqlLog.{SqlState, EventsResult, send, lifted, list_rows, notify_size}
use thesis_code.SqlLog.Rows.{row_event, rows_to_events}
use thesis_code.SqlLog.Interface.{sql_log}
use thesis_code.Generic.Client.{Clients, KineInsert}
use thesis_code.Generic.{dialect}
use thesis_code.Generic.Inserting.{message_of, row_of}
use thesis_code.Generic.Storing.{Same, rows_at, DatabaseLaws}
use thesis_code.Generic.Storing.Calls.{
  listed, inserted_at, Answered, dialect_current_lem, dialect_list_lem, dialect_insert_lem,
}

abbrev pub event_at : Option (ℤ × KineInsert) → Option Event
event_at none = none
event_at (some (id, m)) = some (row_event (row_of m id (pos 0) (pos 0)))

module _ {D : Type 0} where
  Ends-lifted :
      {A : Type 0} (P : A → D → Type 0) (o : Outcome (A × D)) (queue : List ℤ)
      → Ends P o
      → Ends (λ a s. P a s.db) (lifted queue o)
  Ends-lifted P (Outcome.returned (a, t)) queue h = h
  Ends-lifted P Outcome.panicked queue h = h
  Ends-lifted P Outcome.out_of_fuel queue h = h

  -- The answer of a call, and then an offer of a revision to the channel, which the database does not
  -- see.
  Ends-sent :
      {B : Type 0} (Q : B → D → Type 0) (rev : ℤ) (b : B) (t : SqlState D)
      → Q b t.db
      → Ends (λ a u. Q a u.db) ((send rev >> pure b) t)
  Ends-sent Q rev b t h = sent (ltb (length t.notify) notify_size)
    where
      sent : (x : Bool) → Q b (if x then record t { notify = t.notify ++ rev ∷ [] } else t).db
      sent true = h
      sent false = h

no_slash : (key : Bytes) → is_single key ≡ true → has_suffix key (codes "/") ≡ false
no_slash key h = ground arith

module _ {D : Type 0} {c : Clients D} (laws : DatabaseLaws c) where
  -- The view of the log over the database.
  abbrev pub log_view : View (SqlState D)
  log_view = record {
    revision = λ s. laws.table.max_id s.db;
    latest = λ s k. event_at (laws.table.newest s.db k);
    shown = λ s k. event_at (listed laws false k s.db);
  }

  pub Same-Keeps : (s t : SqlState D) → Same laws.table s.db t.db → Keeps log_view s t
  Same-Keeps s t (m, n, i) = (m, λ k. ap event_at (n k), λ k. rw (n k, i k) refl)

  pub current_contract :
      (s : SqlState D)
      → Ends
          (λ a t. (a ≡ (log_view.revision s, none)) × Keeps log_view s t)
          ((sql_log (dialect c)).current_revision s)
  unfolding sql_log
  current_contract s =
      Ends-weaken (λ a t. (a ≡ (laws.table.max_id s.db, none)) × Same laws.table s.db t.db)
        (λ a t. (a ≡ (log_view.revision s, none)) × Keeps log_view s t)
        (lifted s.notify ((dialect c).current_revision s.db))
        (Ends-lifted (λ a t. (a ≡ (laws.table.max_id s.db, none)) × Same laws.table s.db t)
          ((dialect c).current_revision s.db) s.notify (dialect_current_lem laws s.db))
        λ a t p. (p.0, Same-Keeps s t p.1)

  -- What a listing of a key answers.
  abbrev pub Found : Option (ℤ × KineInsert) → D → EventsResult → D → Type 0
  Found o d a t = (a ≡ found (laws.table.max_id d) (event_at o)) × Same laws.table d t

  list_rows_found :
      (o : Option (ℤ × KineInsert)) (d : D) (t : SqlState D)
      → Same laws.table d t.db
      → Ends
          (λ a u. Found o d a u.db)
          (list_rows (dialect c) (pos 0) (rows_at laws.table d o, none) t)
  unfolding rows_to_events row_event
  list_rows_found none d t k = Ends-sent (Found none d) (pos 0) (pos 0, [], none) t (refl, k)
  list_rows_found (some (id, m)) d t k =
      Ends-sent (Found (some (id, m)) d) (laws.table.max_id d)
        (laws.table.max_id d, row_event (row_of m id (pos 0) (pos 0)) ∷ [], none) t (refl, k)

  list_found :
      (key : Bytes) (limit : ℤ) (b : Bool) (s : SqlState D)
      → is_single key ≡ true
      → Ends
          (λ a u. Found (listed laws b key s.db) s.db a u.db)
          ((sql_log (dialect c)).list key [] limit (pos 0) b s)
  unfolding sql_log
  list_found key limit b s h =
      let Rows : List QueryGenericRow × Err → D → Type 0 = λ a t.
        (a ≡ (rows_at laws.table s.db (listed laws b key s.db), none)) × Same laws.table s.db t in
      rw (no_slash key h) (
        Ends-bind (λ a t. Rows a t.db) _
          (lifted s.notify ((dialect c).list_current key limit b s.db)) _
          (Ends-lifted Rows ((dialect c).list_current key limit b s.db) s.notify
            (dialect_list_lem laws key b limit s.db h))
          λ a t p. rw p.0 (list_rows_found (listed laws b key s.db) s.db t p.1))

  listed-asked :
      (b : Bool) (key : Bytes) (s : SqlState D)
      → event_at (listed laws b key s.db) ≡ asked log_view b s key
  listed-asked true key s = refl
  listed-asked false key s = refl

  pub list_contract :
      (key : Bytes) (limit : ℤ) (include_deletes : Bool) (s : SqlState D)
      → is_single key ≡ true
      → Ends
          (λ a t.
            (a ≡ found (log_view.revision s) (asked log_view include_deletes s key))
            × Keeps log_view s t)
          ((sql_log (dialect c)).list key [] limit (pos 0) include_deletes s)
  list_contract key limit b s h =
      Ends-weaken (λ a u. Found (listed laws b key s.db) s.db a u.db)
        (λ a t. (a ≡ found (log_view.revision s) (asked log_view b s key)) × Keeps log_view s t)
        ((sql_log (dialect c)).list key [] limit (pos 0) b s) (list_found key limit b s h)
        λ a t p.
          (p.0 ∙ ap (found (laws.table.max_id s.db)) (listed-asked b key s), Same-Keeps s t p.1)

  pub append-Answered :
      (event : Event) (s : SqlState D)
      → Ends
          (λ a u. Answered laws (message_of event) s.db a u.db)
          ((sql_log (dialect c)).append event s)
  unfolding sql_log
  append-Answered event s =
      Ends-bind (λ a t. Answered laws (message_of event) s.db a t.db) _
        (lifted s.notify (inserted_at c event s.db)) _
        (Ends-lifted (Answered laws (message_of event) s.db) (inserted_at c event s.db) s.notify
          (dialect_insert_lem laws event s.db))
        λ a t p. elim p [
          | inl (e, r) ↦ rw e (
              Ends-sent (Answered laws (message_of event) s.db) (laws.table.max_id t.db)
                (laws.table.max_id t.db, none) t (inl (refl, r)))
          | inr q ↦ elim q [
            | inl (e, r) ↦ rw e (
                Ends-sent (Answered laws (message_of event) s.db) (laws.table.max_id t.db)
                  (laws.table.max_id t.db, none) t (inr (inl (refl, r))))
            | inr (e, x, k) ↦ rw x (inr (inr (e, refl, k)))
          ]
        ]
