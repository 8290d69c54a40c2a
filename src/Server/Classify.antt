-- ===== src/Server/Classify.antt =====
-- kine/pkg/server: isCreate, isUpdate, isDelete and isCompact, which recognise the four forms of
-- transaction that the server serves.
use thesis_code.Prelude.{
  Bytes, codes, bytes_eq, ℤ, pos, ◌==ℤ◌, Bool, true, false, ◌&&◌, List, [], ◌∷◌, Option, none, some,
  if◌then◌else◌,
}
use thesis_code.Etcd.{
  Compare, CompareTarget, CompareResult, RequestOp, RangeRequest, PutRequest, DeleteRangeRequest,
  TxnRequest,
}

infixl 10 ◌>>=◌
abbrev ◌>>=◌ : {A B : Type 0} → Option A → (A → Option B) → Option B
none >>= f = none
some a >>= f = f a

-- The one item of a list of length 1.
abbrev pub sole : {A : Type 0} → List A → Option A
sole [] = none
sole (x ∷ []) = some x
sole (x ∷ y ∷ xs) = none

abbrev pub is_empty : {A : Type 0} → List A → Bool
is_empty [] = true
is_empty (x ∷ xs) = false

-- The generated getters of the oneof RequestOp.
abbrev pub get_request_range : RequestOp → Option RangeRequest
get_request_range (RequestOp.request_range r) = some r
get_request_range _ = none

abbrev pub get_request_put : RequestOp → Option PutRequest
get_request_put (RequestOp.request_put r) = some r
get_request_put _ = none

abbrev pub get_request_delete_range : RequestOp → Option DeleteRangeRequest
get_request_delete_range (RequestOp.request_delete_range r) = some r
get_request_delete_range _ = none

abbrev pub is_equal : CompareResult → Bool
is_equal CompareResult.equal = true
is_equal _ = false

abbrev pub is_mod : CompareTarget → Bool
is_mod CompareTarget.modification = true
is_mod _ = false

abbrev pub is_version : CompareTarget → Bool
is_version CompareTarget.version = true
is_version _ = false

unfoldable pub is_create : TxnRequest → Option PutRequest
is_create txn = do
  c ← sole txn.compare
  op ← sole txn.success
  put ← get_request_put op
  if is_mod c.target && is_equal c.result && c.mod_revision ==ℤ pos 0 && is_empty txn.failure
      then some put
      else none

unfoldable pub is_update : TxnRequest → Option (ℤ × Bytes × Bytes × ℤ)
is_update txn = do
  c ← sole txn.compare
  op ← sole txn.success
  put ← get_request_put op
  otherwise ← sole txn.failure
  range ← get_request_range otherwise
  if is_mod c.target && is_equal c.result
      then some (c.mod_revision, c.key, put.value, put.lease)
      else none

-- The unconditional form reads the key and deletes it.
abbrev pub is_delete_any : List Compare → List RequestOp → List RequestOp → Option (ℤ × Bytes)
is_delete_any [] (read ∷ remove ∷ []) [] = do
  range ← get_request_range read
  rng ← get_request_delete_range remove
  some (pos 0, rng.key)
is_delete_any _ _ _ = none

abbrev pub is_delete_at : TxnRequest → Option (ℤ × Bytes)
is_delete_at txn = do
  c ← sole txn.compare
  otherwise ← sole txn.failure
  range ← get_request_range otherwise
  op ← sole txn.success
  rng ← get_request_delete_range op
  if is_mod c.target && is_equal c.result then some (c.mod_revision, rng.key) else none

abbrev pub or_else : {A : Type 0} → Option A → Option A → Option A
or_else none second = second
or_else (some a) second = some a

unfoldable pub is_delete : TxnRequest → Option (ℤ × Bytes)
is_delete txn = or_else (is_delete_any txn.compare txn.success txn.failure) (is_delete_at txn)

abbrev pub compact_rev_key : Bytes
compact_rev_key = codes "compact_rev_key"

abbrev compact_form : TxnRequest → Option Compare
compact_form txn = do
  c ← sole txn.compare
  op ← sole txn.success
  put ← get_request_put op
  otherwise ← sole txn.failure
  range ← get_request_range otherwise
  if is_version c.target && is_equal c.result then some c else none

unfoldable pub is_compact : TxnRequest → Bool
is_compact txn = elim (compact_form txn) [ none ↦ false | some c ↦ bytes_eq c.key compact_rev_key ]
