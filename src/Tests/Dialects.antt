-- ===== src/Tests/Dialects.antt =====
-- A dialect over a fixed table, which answers every call.
use thesis_code.Prelude.{
  codes, ℤ, pos, ltb_ℤ, ◌<ℤ◌, true, Bool-cases, inl, inr, List, [], ◌∷◌, none, some, pure,
  has_prefix, ◌≡◌, arith, if◌then◌else◌,
}
use thesis_code.Server.Types.{QueryGenericRow, Dialect, Transaction}
use thesis_code.SqlLog.Poll.Order.{Ascending, IsOrdered}

abbrev pub row : ℤ → QueryGenericRow
row id = record {
  max_id = pos 5;
  compaction_prev_revision = pos 0;
  theid = id;
  name = codes "/pods/a";
  created = pos 1;
  deleted = pos 0;
  create_revision = pos 0;
  prev_revision = pos 0;
  lease = pos 0;
  value = codes "v";
  old_value = [];
}

-- Revision 3 is missing.
abbrev pub table : List QueryGenericRow
table = row (pos 1) ∷ row (pos 2) ∷ row (pos 4) ∷ row (pos 5) ∷ []

-- The rows behind a revision.
abbrev pub above : ℤ → List QueryGenericRow → List QueryGenericRow
above rev [] = []
above rev (r ∷ rows) = let rest = above rev rows in if ltb_ℤ rev r.theid then r ∷ rows else rest

above-Ascending :
    (rev lo : ℤ) (rows : List QueryGenericRow) → Ascending lo rows → Ascending rev (above rev rows)
above-Ascending rev lo [] h = tt
above-Ascending rev lo (r ∷ rows) h = elim (Bool-cases (ltb_ℤ rev r.theid)) [
  | inl e ↦ rw e (is_above e, h.1)
  | inr e ↦ rw e (above-Ascending rev r.theid rows h.1)
]
  where
    is_above : ltb_ℤ rev r.theid ≡ true → rev <ℤ r.theid
    is_above e = ground arith

abbrev pub transaction : Transaction (Unit {0})
transaction = record {
  commit = pure none;
  get_compact_revision = pure (pos 10, none);
  set_compact_revision = λ revision. pure none;
  compact = λ revision. pure (pos 7, none);
  delete_revision = λ revision. pure none;
  current_revision = pure (pos 5000, none);
  must_commit = pure tt;
  must_rollback = pure tt;
}

abbrev pub table_dialect : Dialect (Unit {0})
table_dialect = record {
  list_current = λ prefix limit include_deleted. pure (table, none);
  list = λ prefix start_key limit revision include_deleted. pure (table, none);
  count = λ prefix. pure (pos 5, pos 1, none);
  current_revision = pure (pos 5, none);
  after = λ prefix rev limit. pure (above rev table, none);
  insert = λ key create delete create_revision previous_revision ttl value prev_value.
      pure (pos 6, none);
  delete_revision = λ revision. pure none;
  get_compact_revision = pure (pos 0, none);
  set_compact_revision = λ revision. pure none;
  compact = λ revision. pure (pos 0, none);
  post_compact = pure none;
  fill = λ revision. pure none;
  is_fill = λ key. has_prefix key (codes "gap-");
  begin_tx = pure (some transaction, none);
  get_size = pure (pos 0, none);
}

pub table-IsOrdered : IsOrdered table_dialect
table-IsOrdered = record {
  after_lem = λ last s.
      above-Ascending last (pos 0) table
        (omega arith, (omega arith, (omega arith, (omega arith, tt))));
  fill_lem = λ rev s. tt;
}
