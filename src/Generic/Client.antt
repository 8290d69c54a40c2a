-- ===== src/Generic/Client.antt =====
-- kine/pkg/drivers/generic/tx.go: the calls of the DDS database over gRPC. The database is a
-- parameter: a record with one operation for each request, in a state `D` that other clients may
-- change too. Where a call has an error its reply is not read.
use thesis_code.Prelude.{
  Bytes, ℤ, pos, negsuc, ◌==ℤ◌, Bool, true, false, List, [], Option, none, some, Exec, pure, panic,
  map_result, ◌>>=◌, if◌then◌else◌,
}
use thesis_code.Server.Types.{QueryGenericRow, Err}

pub record KineInsert : Type 0 where
  pub id : ℤ
  pub name : Bytes
  pub created : ℤ
  pub deleted : ℤ
  pub create_revision : ℤ
  pub prev_revision : ℤ
  pub lease : ℤ
  pub value : Bytes
  pub old_value : Bytes

pub record KineQueryGeneric : Type 0 where
  pub query_identifier : ℤ
  pub param1 : Bytes
  pub param2 : Bytes
  pub param3 : Bytes
  pub param4 : Bytes
  pub param5 : Bytes
  pub limit : ℤ

-- The id comes back only if the database sets it.
pub record ResponsePublish : Type 0 where
  pub success : Bool
  pub returning_id : Option ℤ

-- DatabaseCommunicationClient. The reply of a query of three is an id and a count.
pub record DatabaseClient (D : Type 0) : Type 0 where
  pub request_publish : KineInsert → Exec D (ResponsePublish × Err)
  pub request_dispose : ℤ → Exec D (Bool × Err)
  pub request_query_generic : KineQueryGeneric → Exec D (List QueryGenericRow × Err)
  pub request_query_three : Bytes → Bytes → Exec D (ℤ × ℤ × Err)
  pub request_query_compact_revision : Exec D (ℤ × Err)
  pub request_query_maximum_id : Exec D (ℤ × Err)

-- kine/pkg/commsdb/setupcomms.go: the four clients.
pub record Clients (D : Type 0) : Type 0 where
  pub client : DatabaseClient D
  pub client_publisher : DatabaseClient D
  pub client_query04 : DatabaseClient D
  pub client_small_queries : DatabaseClient D

abbrev pub publish_reply : {D : Type 0} → ResponsePublish × Err → Exec D (Bool × ℤ × Err)
publish_reply (response, some e) = pure (false, negsuc 0, some e)
publish_reply (response, none) = elim response.returning_id [
  | none ↦ panic
  | some id ↦ pure (true, id, none)
]

abbrev pub dispose_reply : Bool × Err → Bool × Err
dispose_reply (success, some e) = (false, some e)
dispose_reply (success, none) = (success, none)

abbrev pub rows_reply : List QueryGenericRow × Err → List QueryGenericRow × Err
rows_reply (rows, some e) = ([], some e)
rows_reply (rows, none) = (rows, none)

abbrev pub three_reply : ℤ × ℤ × Err → ℤ × ℤ × Err
three_reply (id, count, some e) = (negsuc 0, negsuc 0, some e)
three_reply (id, count, none) = (id, count, none)

abbrev pub id_reply : ℤ × Err → ℤ × Err
id_reply (id, some e) = (negsuc 0, some e)
id_reply (id, none) = (id, none)

module _ {D : Type 0} (c : Clients D) where
  -- The returning id is read whether it is set or not.
  unfoldable pub publish : ℤ → Bytes → ℤ → ℤ → ℤ → ℤ → ℤ → Bytes → Bytes → Exec D (Bool × ℤ × Err)
  publish id name created deleted create_revision prev_revision lease value old_value =
      c.client_publisher.request_publish (record {
        id = id;
        name = name;
        created = created;
        deleted = deleted;
        create_revision = create_revision;
        prev_revision = prev_revision;
        lease = lease;
        value = value;
        old_value = old_value;
      })
      >>= publish_reply

  unfoldable pub dispose : ℤ → Exec D (Bool × Err)
  dispose id = map_result dispose_reply (c.client_publisher.request_dispose id)

  -- Limit 0 means no limit, which is -1 for the database. Query 4 has a connection of its own.
  unfoldable pub query_generic :
      ℤ → Bytes → Bytes → Bytes → Bytes → Bytes → ℤ → Exec D (List QueryGenericRow × Err)
  query_generic query param1 param2 param3 param4 param5 limit =
      let current = if query ==ℤ pos 4 then c.client_query04 else c.client in
      map_result rows_reply (
        current.request_query_generic (record {
          query_identifier = query;
          param1 = param1;
          param2 = param2;
          param3 = param3;
          param4 = param4;
          param5 = param5;
          limit = if limit ==ℤ pos 0 then negsuc 0 else limit;
        }))

  unfoldable pub query_three : Bytes → Bytes → Exec D (ℤ × ℤ × Err)
  query_three param1 param2 = map_result three_reply (c.client.request_query_three param1 param2)

  unfoldable pub query_compact_revision : Exec D (ℤ × Err)
  query_compact_revision = map_result id_reply c.client_small_queries.request_query_compact_revision

  unfoldable pub query_maximum_id : Exec D (ℤ × Err)
  query_maximum_id = map_result id_reply c.client_small_queries.request_query_maximum_id
