-- ===== src/Nats/Listing.antt =====
-- kine/pkg/drivers/nats/nats.go: List, Count, and the walks over the keys and values of a prefix.
pub mod Order
pub mod Current
pub mod Starting
use thesis_code.Prelude.{
  ℕ, zero, suc, Bytes, codes, bytes_eq, bytes_ltb, has_prefix, has_suffix, ℤ, pos, ltb_ℤ, leb_ℤ,
  ◌==ℤ◌, Bool, true, false, not, ◌&&◌, ◌||◌, List, [], ◌∷◌, ◌++◌, map, length, Option, none, some,
  Result, ok, failed, Exec, pure, map_result, ◌>>=◌, ◌>>◌, if◌then◌else◌,
}
use thesis_code.Server.Types.{Error, KeyValue, Err}
use thesis_code.Server.Classify.{is_empty}
use thesis_code.LogStructured.{deref, ListResult}
use thesis_code.Nats.Bucket.{Entry, Watcher}
use thesis_code.Nats.Driver.{JsValue, Driver, int64_of, decode, current_revision, is_key_expired}

-- sort.Slice and sort.Strings by an order.
module _ {A : Type 0} (less : A → A → Bool) where
  unfoldable pub insert_sorted : A → List A → List A
  insert_sorted x [] = x ∷ []
  insert_sorted x (y ∷ ys) = if less y x then y ∷ insert_sorted x ys else x ∷ y ∷ ys

  unfoldable pub sort : List A → List A
  unfolding insert_sorted
  sort [] = []
  sort (x ∷ xs) = insert_sorted x (sort xs)

abbrev pub key_less : Entry → Entry → Bool
key_less a b = bytes_ltb a.key b.key

-- The values that a watcher sends before its first nil.
unfoldable pub until_nil : List (Option Entry) → List Entry
until_nil [] = []
until_nil (none ∷ updates) = []
until_nil (some e ∷ updates) = e ∷ until_nil updates

abbrev pub newer_or : ℤ → Entry → Option Entry → Option Entry
newer_or revision e (some found) = some found
newer_or revision e none = if leb_ℤ (int64_of e.revision) revision then some e else none

-- The newest entry that is not after a revision: the list is walked from its end.
unfoldable pub newest_at : ℤ → List Entry → Option Entry
newest_at revision [] = none
newest_at revision (e ∷ entries) = newer_or revision e (newest_at revision entries)

abbrev pub is_open : ℕ → ℤ → Bool
is_open count limit = ltb_ℤ (pos count) limit || (limit ==ℤ pos 0)

abbrev pub is_none : Err → Bool
is_none none = true
is_none (some e) = false

abbrev pub cons_if : Bool → Option KeyValue → List (Option KeyValue) → List (Option KeyValue)
cons_if b kv kvs = if b then kv ∷ kvs else kvs

-- A start key that begins a prefix with a slash at its end is none.
unfoldable pub effective_start : Bytes → Bytes → Bytes
unfolding has_suffix bytes_eq has_prefix
effective_start prefix start_key =
    if has_suffix prefix (codes "/") && (bytes_eq prefix start_key || has_prefix prefix start_key)
    then []
    else start_key

-- The greatest revision above `next` and not after `revision`, of one history walked from its end.
unfoldable pub step_back : ℤ → ℤ × Option Entry → List Entry → ℤ × Option Entry
step_back revision (next, found) [] = (next, found)
step_back revision (next, found) (e ∷ newer_first) =
    if ltb_ℤ next (int64_of e.revision) && leb_ℤ (int64_of e.revision) revision
    then (int64_of e.revision, some e)
    else if leb_ℤ (int64_of e.revision) next
    then (next, found)
    else step_back revision (next, found) newer_first

unfoldable pub next_entry : ℤ → ℤ × Option Entry → List (List Entry) → ℤ × Option Entry
unfolding step_back
next_entry revision best [] = best
next_entry revision best (newer_first ∷ histories) =
    next_entry revision (step_back revision best newer_first) histories

abbrev pub reversed : List Entry → List Entry
reversed [] = []
reversed (e ∷ entries) = reversed entries ++ e ∷ []

module _ {S : Type 0} (d : Driver S) where
  abbrev pub collected :
      (List Entry → List Entry) → Result Error (Watcher S) → Exec S (Result Error (List Entry))
  collected f (failed e) = pure (failed e)
  collected f (ok w) = w.stop >> pure (ok (f (until_nil w.updates)))

  unfoldable pub get_key_values : Bytes → Bool → Exec S (Result Error (List Entry))
  unfolding until_nil sort bytes_ltb
  get_key_values prefix sort_results =
      d.kv.watch prefix false
      >>= collected (λ entries. if sort_results then sort key_less entries else entries)

  abbrev pub keys_of :
      (List Bytes → List Bytes) → Result Error (Watcher S) → Exec S (Result Error (List Bytes))
  keys_of f (failed e) = pure (failed e)
  keys_of f (ok w) = w.stop >> pure (ok (f (map (λ e. e.key) (until_nil w.updates))))

  unfoldable pub get_keys : Bytes → Bool → Exec S (Result Error (List Bytes))
  unfolding until_nil sort bytes_ltb
  get_keys prefix sort_results =
      d.kv.watch prefix true
      >>= keys_of (λ keys. if sort_results then sort bytes_ltb keys else keys)

  -- The values of the current revision, until there are `limit` of them.
  unfoldable pub list_values : ℤ → ℕ → List Entry → Exec S (List (Option KeyValue))
  unfolding decode is_key_expired
  list_values limit count [] = pure []
  list_values limit count (e ∷ entries) =
      if is_open count limit
      then (decode d e >>= λ (v, err). is_key_expired d e.created v >>= λ expired.
          let keep = not expired && is_none err in
          map_result (cons_if keep v.kv)
            (list_values limit (if keep then suc count else count) entries))
      else pure []

  abbrev pub decoded_at : Option Entry → Exec S (Bool × Option KeyValue)
  decoded_at none = pure (false, none)
  decoded_at (some e) = map_result (λ (v, err). (is_none err, v.kv)) (decode d e)

  -- The value that a key had at a revision, and whether there is one that can be decoded.
  abbrev pub value_at : ℤ → Result Error (List Entry) → Exec S (Bool × Option KeyValue)
  value_at revision (failed e) = pure (false, none)
  value_at revision (ok history) = decoded_at (newest_at revision history)

  unfoldable pub list_histories : ℤ → ℤ → ℕ → List Bytes → Exec S (List (Option KeyValue))
  unfolding decode newest_at
  list_histories limit revision count [] = pure []
  list_histories limit revision count (key ∷ keys) =
      (if is_open count limit then (d.kv.history key >>= value_at revision) else pure (false, none))
      >>= λ (keep, kv).
          map_result (cons_if keep kv)
            (list_histories limit revision (if keep then suc count else count) keys)

  abbrev pub cons_history :
      Exec S (List (List Entry)) → Result Error (List Entry) → Exec S (List (List Entry))
  cons_history rest (failed e) = rest
  cons_history rest (ok history) = map_result (λ histories. history ∷ histories) rest

  -- The histories of the other keys; a key whose history cannot be read is logged.
  unfoldable pub other_histories : Bytes → List Bytes → Exec S (List (List Entry))
  unfolding bytes_eq
  other_histories start_key [] = pure []
  other_histories start_key (key ∷ keys) =
      let rest = other_histories start_key keys in
      if bytes_eq key start_key then rest else (d.kv.history key >>= cons_history rest)

  abbrev pub list_failed : Error → Exec S ListResult
  list_failed e = pure (pos 0, [], some e)

  abbrev pub found_value : ℤ → JsValue × Err → ListResult
  found_value rev (v, some e) = (pos 0, [], some e)
  found_value rev (v, none) = (rev, v.kv ∷ [], none)

  abbrev pub list_found : ℤ → ℤ × Option Entry → Exec S ListResult
  list_found rev (next, none) = pure (rev, [], none)
  list_found rev (next, some e) = map_result (found_value rev) (decode d e)

  abbrev pub min_revision : Option Entry → ℤ
  min_revision none = pos 0
  min_revision (some e) = int64_of e.revision

  -- `iterate` is the order in which Go walks a map.
  module _ (iterate : List (List Entry) → List (List Entry)) where
    abbrev pub list_others :
        Bytes → ℤ → ℤ → List Entry → Result Error (List Bytes) → Exec S ListResult
    list_others start_key revision rev entries (failed e) = list_failed e
    list_others start_key revision rev entries (ok keys) =
        other_histories start_key keys >>= λ histories. list_found rev (
          next_entry revision (min_revision (newest_at revision entries), none)
            (map reversed (iterate (entries ∷ histories))))

    abbrev pub list_start : Bytes → Bytes → ℤ → ℤ → Result Error (List Entry) → Exec S ListResult
    list_start prefix start_key revision rev (failed e) = list_failed e
    list_start prefix start_key revision rev (ok entries) =
        get_keys prefix true >>= list_others start_key revision rev entries

    abbrev pub list_entries : ℤ → ℤ → Result Error (List Entry) → Exec S ListResult
    list_entries limit rev (failed e) = list_failed e
    list_entries limit rev (ok entries) =
        map_result (λ kvs. (rev, kvs, none)) (list_values limit 0 entries)

    abbrev pub list_keys : ℤ → ℤ → Result Error (List Bytes) → Exec S ListResult
    list_keys limit revision (failed e) = list_failed e
    list_keys limit revision (ok keys) =
        map_result (λ kvs. (revision, kvs, none)) (list_histories limit revision 0 keys)

    abbrev pub list_after : Bytes → Bytes → ℤ → ℤ → ℤ × Err → Exec S ListResult
    list_after prefix start_key limit revision (rev, some e) = list_failed e
    list_after prefix start_key limit revision (rev, none) =
        if not (is_empty start_key)
        then d.kv.history start_key >>= list_start prefix start_key revision rev
        else if revision ==ℤ pos 0
        then get_key_values prefix true >>= list_entries limit rev
        else (get_keys prefix true >>= list_keys limit revision)

    unfoldable pub list : Bytes → Bytes → ℤ → ℤ → Exec S ListResult
    unfolding effective_start current_revision get_key_values get_keys list_values list_histories
        other_histories next_entry newest_at
    list prefix start_key limit revision =
        current_revision d >>= list_after prefix (effective_start prefix start_key) limit revision

  abbrev pub count_result : ℕ → ℤ × Err → ℤ × ℤ × Err
  count_result n (rev, some e) = (pos 0, pos 0, some e)
  count_result n (rev, none) = (rev, pos n, none)

  abbrev pub count_keys : Result Error (List Bytes) → Exec S (ℤ × ℤ × Err)
  count_keys (failed e) = pure (pos 0, pos 0, some e)
  count_keys (ok keys) = map_result (count_result (length keys)) (current_revision d)

  unfoldable pub count : Bytes → Exec S (ℤ × ℤ × Err)
  unfolding get_keys current_revision
  count prefix = get_keys prefix false >>= count_keys
