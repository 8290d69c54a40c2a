-- ===== src/Generic/Counting.antt =====
-- How many keys are counted, from the database up to Backend.Count.
use thesis_code.Prelude.{ℕ, Bytes, codes, pos, ltb_ℤ, ◌==ℤ◌, false, none, returned, ◌≡◌, arith}
use thesis_code.SqlLog.{SqlState, like_prefix}
use thesis_code.SqlLog.Interface.{sql_log}
use thesis_code.LogStructured.{count}
use thesis_code.Generic.Client.{Clients}
use thesis_code.Generic.{dialect}

nonneg : (n : ℕ) → ltb_ℤ (pos n) (pos 0) ≡ false
nonneg n = ground arith

-- When the database answers a count query with a positive maximum id and a count, the backend over
-- that dialect returns the count in the place of the revision and the maximum id in the place of
-- the count.
pub count_swapped :
    {D : Type 0} (c : Clients D) (fuel : ℕ) (prefix : Bytes) (max_id n : ℕ) (s : SqlState D) (t : D)
    → c.client.request_query_three (like_prefix prefix) (codes "'f'") s.db
      ≡ returned ((pos max_id, pos n, none), t)
    → (pos max_id ==ℤ pos 0) ≡ false
    → count (sql_log (dialect c)) fuel prefix s
      ≡ returned ((pos n, pos max_id, none), record s { db = t })
unfolding count dialect sql_log
count_swapped c fuel prefix max_id n s t h p = rw (h, nonneg max_id, p)
