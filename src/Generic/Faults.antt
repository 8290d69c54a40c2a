-- ===== src/Generic/Faults.antt =====
-- What the dialect does when the database refuses a request or is not reached.
use thesis_code.Prelude.{
  codes, ℤ, pos, negsuc, Bool, false, List, [], ◌∷◌, none, some, returned, panicked, ◌≡◌,
}
use thesis_code.Server.Types.{Error, QueryGenericRow}
use thesis_code.SqlLog.{SqlState}
use thesis_code.SqlLog.Compaction.{compact_start}
use thesis_code.Generic.Client.{Clients}
use thesis_code.Generic.{dialect, delete_revision, set_compact_revision}

module _ {D : Type 0} (c : Clients D) where
  -- When the database answers a dispose request without a transport error, DeleteRevision reports no
  -- error, whether the database says that it deleted the row or that it did not.
  pub delete_revision_silent :
      (revision : ℤ) (success : Bool) (s t : D)
      → c.client_publisher.request_dispose revision s ≡ returned ((success, none), t)
      → delete_revision c revision s ≡ returned (none, t)
  unfolding delete_revision
  delete_revision_silent revision success s t h = rw h

  -- When the database cannot be asked for the compacted revision, SetCompactRevision still publishes
  -- the row of compact_rev_key, under the id -1, which asks for a new row; if that is done it
  -- reports no error.
  pub set_compact_revision_blind :
      (revision id row_id : ℤ) (e : Error) (s t u : D)
      → c.client_small_queries.request_query_compact_revision s ≡ returned ((id, some e), t)
      → c.client_publisher.request_publish
          (record {
            id = negsuc 0;
            name = codes "compact_rev_key";
            created = pos 1;
            deleted = pos 0;
            create_revision = pos 0;
            prev_revision = revision;
            lease = pos 0;
            value = codes "\\x";
            old_value = [];
          })
          t
        ≡ returned ((record { success = false; returning_id = some row_id }, none), u)
      → set_compact_revision c revision s ≡ returned (none, u)
  unfolding set_compact_revision
  set_compact_revision_blind revision id row_id e s t u h k = rw (h, k)

  -- If the table has more than one row of compact_rev_key, and the query for them is answered,
  -- compactStart panics: the transaction that it opens is nil.
  pub compact_start_panics :
      (row row' : QueryGenericRow) (rows : List QueryGenericRow) (s : SqlState D) (t : D)
      → (dialect c).after (codes "compact_rev_key") (pos 0) (pos 0) s.db
        ≡ returned ((row ∷ row' ∷ rows, none), t)
      → compact_start (dialect c) s ≡ panicked
  unfolding compact_start dialect
  compact_start_panics row row' rows s t h = rw h
