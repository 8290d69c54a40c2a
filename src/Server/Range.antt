-- ===== src/Server/Range.antt =====
-- kine/pkg/server: LimitedServer.Range of limited.go, get of get.go and list of list.go.
pub mod Paging
pub mod Prefix
use thesis_code.Prelude.{
  ◌+◌, ◌%◌, Bytes, codes, has_suffix, ℤ, pos, pos_part, ltb_ℤ, ◌==ℤ◌, add64, sub64, Bool, true,
  false, not, ◌&&◌, ◌==◌, List, [], ◌∷◌, ◌++◌, length, take, Option, none, some, Exec, pure,
  map_result, if◌then◌else◌,
}
use thesis_code.Etcd.{RangeRequest, ResponseHeader}
use thesis_code.Server.Types.{Error, KeyValue, Err, Backend}
use thesis_code.Server.Convert.{txn_header}
use thesis_code.Server.Classify.{is_empty}

pub record RangeResponse : Type 0 where
  pub header : ResponseHeader
  pub kvs : List (Option KeyValue)
  pub more : Bool
  pub count : ℤ

abbrev pub RangeReply : Type 0
RangeReply = Option RangeResponse × Err

abbrev slash : Bytes
slash = codes "/"

-- The last byte less one, as a byte. (The source builds it in the array of r.RangeEnd.)
unfoldable pub decrement_last : Bytes → Bytes
decrement_last [] = []
decrement_last (b ∷ []) = (b + 255) % 256 ∷ []
decrement_last (b ∷ c ∷ bs) = b ∷ decrement_last (c ∷ bs)

unfoldable pub list_prefix : Bytes → Bytes
unfolding decrement_last has_suffix
list_prefix range_end =
    let prefix = decrement_last range_end in
    if has_suffix prefix slash then prefix else prefix ++ slash

-- bytes.TrimRight(key, "\x00")
unfoldable pub trim_zeros : Bytes → Bytes
trim_zeros [] = []
trim_zeros (b ∷ bs) = let rest = trim_zeros bs in if b == 0 && is_empty rest then [] else b ∷ rest

-- One more than the client asked for shows whether there are more.
unfoldable pub list_limit : ℤ → ℤ
list_limit limit = if ltb_ℤ (pos 0) limit then add64 limit (pos 1) else limit

unfoldable pub list_response : ℤ → ℤ → ℤ → List (Option KeyValue) → RangeResponse
list_response limit asked rev kvs =
    if ltb_ℤ (pos 0) limit && ltb_ℤ asked (pos (length kvs))
    then record {
      header = txn_header rev;
      kvs = take (pos_part (sub64 limit (pos 1))) kvs;
      more = true;
      count = pos (length kvs);
    }
    else record { header = txn_header rev; kvs = kvs; more = false; count = pos (length kvs) }

unfoldable pub get_reply : ℤ × Option KeyValue × Err → RangeReply
get_reply (rev, kv, some e) = (none, some e)
get_reply (rev, none, none) =
    (some (record { header = txn_header rev; kvs = []; more = false; count = pos 0 }), none)
get_reply (rev, some kv, none) = (
  some (record { header = txn_header rev; kvs = some kv ∷ []; more = false; count = pos 0 }),
  none,
)

unfoldable pub count_reply : ℤ × ℤ × Err → RangeReply
count_reply (rev, count, some e) = (none, some e)
count_reply (rev, count, none) =
    (some (record { header = txn_header rev; kvs = []; more = false; count = count }), none)

unfoldable pub list_reply : ℤ → ℤ → ℤ × List (Option KeyValue) × Err → RangeReply
unfolding list_response
list_reply limit asked (rev, kvs, some e) = (none, some e)
list_reply limit asked (rev, kvs, none) = (some (list_response limit asked rev kvs), none)

module _ {S : Type 0} (backend : Backend S) where
  unfoldable pub get : RangeRequest → Exec S RangeReply
  unfolding get_reply
  get r =
      if not (r.limit ==ℤ pos 0) && not (is_empty r.range_end)
      then pure (none, some (Error.invalid (codes "invalid combination of rangeEnd and limit")))
      else map_result get_reply (backend.get r.key r.range_end r.limit r.revision)

  unfoldable pub list : RangeRequest → Exec S RangeReply
  unfolding list_prefix trim_zeros list_limit count_reply list_reply
  list r =
      if is_empty r.range_end
      then pure (none, some (Error.invalid (codes "invalid range end length of 0")))
      else if r.count_only
      then map_result count_reply (backend.count (list_prefix r.range_end))
      else map_result (list_reply (list_limit r.limit) r.limit) (
          backend.list (list_prefix r.range_end) (trim_zeros r.key) (list_limit r.limit) r.revision)

  unfoldable pub range : RangeRequest → Exec S RangeReply
  unfolding get list
  range r = if is_empty r.range_end then get r else list r
