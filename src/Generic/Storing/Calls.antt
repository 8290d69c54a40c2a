-- ===== src/Generic/Storing/Calls.antt =====
-- The calls of the dialect over a database that answers by its laws.
use thesis_code.Prelude.{
  Bytes, ℤ, pos, negsuc, ltb_ℤ, ◌≤ℤ◌, ◌==ℤ◌, Bool, true, false, ◌||◌, Option, none, some, inl, inr,
  Outcome, Ends, Ends-bind, Ends-assoc, ◌≡◌, ◌⊎◌, refl, arith, if◌then◌else◌,
}
use thesis_code.Server.Types.{Error, Event, Err}
use thesis_code.LogStructured.Contract.{is_single}
use thesis_code.SqlLog.{kv_or_zero}
use thesis_code.Generic.Client.{Clients, publish_reply, KineInsert}
use thesis_code.Generic.{dialect}
use thesis_code.Generic.Inserting.{message_of}
use thesis_code.Generic.Storing.{Same, rows_at, only_if, query_for, Records, Drops, DatabaseLaws}

not_negative : (rev : ℤ) → pos 0 ≤ℤ rev → ltb_ℤ rev (pos 0) ≡ false
not_negative rev h = ground arith

module _ {D : Type 0} (c : Clients D) where
  abbrev pub inserted_at : Event → D → Outcome ((ℤ × Err) × D)
  inserted_at event d =
      let kv = kv_or_zero event.kv in
      let prev = kv_or_zero event.prev_kv in
      (dialect c).insert kv.key event.create event.delete kv.create_revision prev.mod_revision
        kv.lease kv.value prev.value d

module _ {D : Type 0} {c : Clients D} (laws : DatabaseLaws c) where
  abbrev pub listed : Bool → Bytes → D → Option (ℤ × KineInsert)
  listed b key d = only_if laws.table (b || laws.table.is_shown d key) (laws.table.newest d key)

  pub dialect_current_lem :
      (d : D)
      → Ends
          (λ a t. (a ≡ (laws.table.max_id d, none)) × Same laws.table d t)
          ((dialect c).current_revision d)
  unfolding dialect
  dialect_current_lem d =
      Ends-bind (λ a t. (a ≡ (laws.table.max_id d, none)) × Same laws.table d t) _
        (c.client_small_queries.request_query_maximum_id d) _ (laws.maximum_lem d)
        λ a t p. (rw p.0 refl, p.1)

  pub dialect_list_lem :
      (key : Bytes) (b : Bool) (limit : ℤ) (d : D)
      → is_single key ≡ true
      → Ends
          (λ a t. (a ≡ (rows_at laws.table d (listed b key d), none)) × Same laws.table d t)
          ((dialect c).list_current key limit b d)
  unfolding dialect
  dialect_list_lem key b limit d h =
      Ends-bind (λ a t. (a ≡ (rows_at laws.table d (listed b key d), none)) × Same laws.table d t) _
        (c.client_query04.request_query_generic
          (query_for laws.table key b (if limit ==ℤ pos 0 then negsuc 0 else limit)) d)
        _ (laws.query_lem key b (if limit ==ℤ pos 0 then negsuc 0 else limit) d h)
        λ a t p. (rw p.0 refl, p.1)

  -- What Append gets from the dialect.
  abbrev pub Answered : KineInsert → D → ℤ × Err → D → Type 0
  Answered m d a t =
      ((a ≡ (laws.table.max_id t, none)) × Records laws.table m d t)
      ⊎ ((a ≡ (laws.table.max_id t, none)) × Drops laws.table d t)
      ⊎ ((e : Error) × (a ≡ (pos 0, some e)) × Same laws.table d t)

  pub dialect_insert_lem :
      (event : Event) (d : D) → Ends (Answered (message_of event) d) (inserted_at c event d)
  unfolding dialect
  dialect_insert_lem event d =
      Ends-assoc (Answered (message_of event) d)
        (c.client_publisher.request_publish (message_of event) d) publish_reply _
        (Ends-bind _ (Answered (message_of event) d)
          (c.client_publisher.request_publish (message_of event) d) _
          (laws.publish_lem (message_of event) d refl)
          λ a t p. elim p [
            | inl (x, e, r) ↦
                rw (e, not_negative (laws.table.max_id t) (laws.max_id_nonneg t)) (inl (refl, r))
            | inr q ↦ elim q [
              | inl (x, e, r) ↦
                  rw (e, not_negative (laws.table.max_id t) (laws.max_id_nonneg t))
                    (inr (inl (refl, r)))
              | inr (e, r, x, k) ↦ rw x (inr (inr (e, refl, k)))
            ]
          ])
