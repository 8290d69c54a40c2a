-- ===== src/Generic/Storing.antt =====
-- What the log over the DDS database needs of the answers of the database: those that
-- DdsDatabase/src/Database.cpp gives while no other client writes.
pub mod Calls
pub mod Answers
pub mod Refinement
use thesis_code.Prelude.{
  Bytes, bytes_eq, ℤ, pos, negsuc, ◌<ℤ◌, ◌≤ℤ◌, Bool, true, ◌||◌, List, [], ◌∷◌, Option, none, some,
  Ends, ◌≡◌, ◌⊎◌, if◌then◌else◌,
}
use thesis_code.Server.Types.{Error, QueryGenericRow, Err}
use thesis_code.LogStructured.Contract.{is_single}
use thesis_code.Generic.Client.{Clients, KineInsert, KineQueryGeneric, ResponsePublish}
use thesis_code.Generic.{parse_include_delete}
use thesis_code.Generic.Inserting.{row_of}

-- A database state as its clients see it: the greatest id, the compacted revision, the newest message
-- of each name under its id, and whether a query with 'f' shows the name.
pub record Table (D : Type 0) : Type 0 where
  pub max_id : D → ℤ
  pub compacted : D → ℤ
  pub newest : D → Bytes → Option (ℤ × KineInsert)
  pub is_shown : D → Bytes → Bool

module _ {D : Type 0} (v : Table D) where
  abbrev pub Same : D → D → Type 0
  Same d t =
      (v.max_id t ≡ v.max_id d)
      × ((k : Bytes) → v.newest t k ≡ v.newest d k)
      × ((k : Bytes) → v.is_shown t k ≡ v.is_shown d k)

  abbrev pub row_at : D → ℤ × KineInsert → QueryGenericRow
  row_at d (id, message) = row_of message id (v.max_id d) (v.compacted d)

  abbrev pub rows_at : D → Option (ℤ × KineInsert) → List QueryGenericRow
  rows_at d none = []
  rows_at d (some m) = row_at d m ∷ []

  abbrev pub only_if : {A : Type 0} → Bool → Option A → Option A
  only_if b o = if b then o else none

  -- Query 4 for one name.
  abbrev pub query_for : Bytes → Bool → ℤ → KineQueryGeneric
  query_for key include_deleted limit = record {
    query_identifier = pos 4;
    param1 = key;
    param2 = parse_include_delete include_deleted;
    param3 = [];
    param4 = [];
    param5 = [];
    limit = limit;
  }

  abbrev pub Records : KineInsert → D → D → Type 0
  Records m d t =
      (v.max_id d <ℤ v.max_id t)
      × ((k : Bytes)
          → v.newest t k ≡ (if bytes_eq m.name k then some (v.max_id t, m) else v.newest d k))

  abbrev pub Drops : D → D → Type 0
  Drops d t = (v.max_id d ≤ℤ v.max_id t) × ((k : Bytes) → v.newest t k ≡ v.newest d k)

  -- The answers to the publication of a message without an id: the message is there under the id that
  -- comes back; or the write failed, and the id that it would have had comes back all the same; or
  -- there is an error and nothing has changed.
  abbrev pub Recorded : KineInsert → D → ResponsePublish × Err → D → Type 0
  Recorded m d a t =
      (success : Bool) × (a
        ≡ (record { success = success; returning_id = some (v.max_id t) }, none))
      × Records m d t

  abbrev pub Unrecorded : D → ResponsePublish × Err → D → Type 0
  Unrecorded d a t =
      (success : Bool) × (a
        ≡ (record { success = success; returning_id = some (v.max_id t) }, none))
      × Drops d t

  abbrev pub NotPublished : D → ResponsePublish × Err → D → Type 0
  NotPublished d a t =
      (e : Error) × (response : ResponsePublish) × (a ≡ (response, some e)) × Same d t

pub record DatabaseLaws {D : Type 0} (c : Clients D) : Type 0 where
  pub table : Table D
  pub max_id_nonneg : (d : D) → pos 0 ≤ℤ table.max_id d
  pub newest_name :
      (d : D) (k : Bytes) (m : ℤ × KineInsert) → table.newest d k ≡ some m → m.1.name ≡ k
  pub maximum_lem :
      (d : D)
      → Ends
          (λ a t. (a ≡ (table.max_id d, none)) × Same table d t)
          (c.client_small_queries.request_query_maximum_id d)
  pub query_lem :
      (key : Bytes) (include_deleted : Bool) (limit : ℤ) (d : D)
      → is_single key ≡ true
      → Ends
          (λ a t.
            (a ≡ (
              rows_at table d
                  (only_if table (include_deleted || table.is_shown d key) (table.newest d key)),
              none,
            ))
            × Same table d t)
          (c.client_query04.request_query_generic (query_for table key include_deleted limit) d)
  pub publish_lem :
      (m : KineInsert) (d : D)
      → m.id ≡ negsuc 0
      → Ends
          (λ a t. Recorded table m d a t ⊎ Unrecorded table d a t ⊎ NotPublished table d a t)
          (c.client_publisher.request_publish m d)
