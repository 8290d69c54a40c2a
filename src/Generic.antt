-- ===== src/Generic.antt =====
-- kine/pkg/drivers/generic/generic.go: the dialect whose table lives in the DDS database, and the
-- text of its SQL queries.
pub mod Client
pub mod Text
pub mod Faults
pub mod Counting
pub mod Inserting
pub mod Opening
pub mod Storing
use Client.{
  Clients, publish, dispose, query_generic, query_three, query_compact_revision, query_maximum_id,
}
use Text.{format_int, is_fill, fill_name}
use thesis_code.Prelude.{
  ℕ, Bytes, codes, ℤ, pos, negsuc, ltb_ℤ, ◌==ℤ◌, Bool, true, false, not, List, [], ◌∷◌, Option,
  none, some, Exec, pure, map_result, ◌>>=◌, if◌then◌else◌,
}
use thesis_code.Server.Types.{Error, QueryGenericRow, Err, Dialect}

abbrev pub flag : Bool → ℤ
flag b = if b then pos 1 else pos 0

abbrev pub parse_include_delete : Bool → Bytes
parse_include_delete include_delete = if include_delete then codes "t" else codes "f"

-- configureConnectionPooling: the number of idle connections that is set.
abbrev max_idle : ℤ → ℤ
max_idle n = if ltb_ℤ n (pos 0) then pos 0 else if n ==ℤ pos 0 then pos 2 else n

abbrev pub failed : Bool × Err → Err
failed (succeeded, some e) = some e
failed (true, none) = none
failed (false, none) = some Error.dds_failed

abbrev pub published : Bool × ℤ × Err → Err
published (succeeded, id, err) = failed (succeeded, err)

-- The second test of DeleteRevision, for a refusal without an error, stands behind a first one that
-- holds then too.
abbrev pub deleted : Bool × Err → Err
deleted (succeeded, err) = err

abbrev pub compact_revision_of : ℤ × Err → ℤ × Err
compact_revision_of (id, some e) = (id, some e)
compact_revision_of (id, none) = if ltb_ℤ id (pos 0) then (pos 0, none) else (id, none)

-- First the count, then the maximum id.
abbrev pub count_of : ℤ × ℤ × Err → ℤ × ℤ × Err
count_of (max_id, count, some e) = (count, max_id, some e)
count_of (max_id, count, none) =
    if ltb_ℤ max_id (pos 0) then (count, max_id, some Error.dds_failed) else (count, max_id, none)

abbrev pub inserted : Bool × ℤ × Err → ℤ × Err
inserted (is_ok, id, err) =
    let id' = if is_ok then id else pos 0 in
    if ltb_ℤ id' (pos 0) then (pos 0, some Error.dds_failed) else (id', err)

module _ {D : Type 0} (c : Clients D) where
  unfoldable pub get_compact_revision : Exec D (ℤ × Err)
  unfolding query_compact_revision
  get_compact_revision = map_result compact_revision_of (query_compact_revision c)

  -- The row is published again under the id that the database reports; an error of that report is
  -- overwritten.
  unfoldable pub set_compact_revision : ℤ → Exec D Err
  unfolding query_compact_revision publish
  set_compact_revision revision = do
    found ← query_compact_revision c
    map_result published (
        publish c found.0 (codes "compact_rev_key") (pos 1) (pos 0) (pos 0) revision (pos 0)
          (codes "\\x") [])

  unfoldable pub delete_revision : ℤ → Exec D Err
  unfolding dispose
  delete_revision revision = map_result deleted (dispose c revision)

  unfoldable pub list_current : Bytes → ℤ → Bool → Exec D (List QueryGenericRow × Err)
  unfolding query_generic
  list_current prefix limit include_deleted =
      query_generic c (pos 4) prefix (parse_include_delete include_deleted) [] [] [] limit

  abbrev pub list_query : Bytes → Bytes → ℤ → ℤ → Bool → Exec D (List QueryGenericRow × Err)
  list_query prefix [] limit revision include_deleted =
      query_generic c (pos 11) prefix (format_int revision) (parse_include_delete include_deleted)
        [] [] limit
  list_query prefix (b ∷ start_key) limit revision include_deleted =
      query_generic c (pos 9) prefix (format_int revision) (b ∷ start_key) (format_int revision)
        (parse_include_delete include_deleted) limit

  unfoldable pub list : Bytes → Bytes → ℤ → ℤ → Bool → Exec D (List QueryGenericRow × Err)
  unfolding query_generic
  list prefix start_key limit revision include_deleted =
      list_query prefix start_key limit revision include_deleted

  unfoldable pub count : Bytes → Exec D (ℤ × ℤ × Err)
  unfolding query_three
  count prefix = map_result count_of (query_three c prefix (codes "'f'"))

  unfoldable pub current_revision : Exec D (ℤ × Err)
  unfolding query_maximum_id
  current_revision = query_maximum_id c

  unfoldable pub after : Bytes → ℤ → ℤ → Exec D (List QueryGenericRow × Err)
  unfolding query_generic
  after prefix rev limit = query_generic c (pos 1) prefix (format_int rev) [] [] [] limit

  -- A filler row: deleted, under a name of its own.
  unfoldable pub fill : ℤ → Exec D Err
  unfolding publish fill_name
  fill revision =
      map_result published
        (publish c revision (fill_name revision) (pos 0) (pos 1) (pos 0) (pos 0) (pos 0) [] [])

  -- The id -1 asks the database for the next one.
  unfoldable pub insert : Bytes → Bool → Bool → ℤ → ℤ → ℤ → Bytes → Bytes → Exec D (ℤ × Err)
  unfolding publish
  insert key create delete create_revision previous_revision ttl value prev_value =
      map_result inserted (
        publish c (negsuc 0) key (flag create) (flag delete) create_revision previous_revision ttl
          value prev_value)

  -- Compact and BeginTx do nothing, PostCompact has nothing to do, and the size is not reported.
  unfoldable pub dialect : Dialect D
  unfolding get_compact_revision set_compact_revision delete_revision list_current list count
      current_revision after fill insert is_fill
  dialect = record {
    list_current = list_current;
    list = list;
    count = count;
    current_revision = current_revision;
    after = after;
    insert = insert;
    delete_revision = delete_revision;
    get_compact_revision = get_compact_revision;
    set_compact_revision = set_compact_revision;
    compact = λ revision. pure (pos 0, none);
    post_compact = pure none;
    fill = fill;
    is_fill = is_fill;
    begin_tx = pure (none, none);
    get_size =
        pure (pos 0, some (Error.not_supported (codes "driver does not support size reporting")));
  }
