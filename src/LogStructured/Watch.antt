-- ===== src/LogStructured/Watch.antt =====
-- logstructured.go, Watch and filter: a watch begins with the events of the log after a revision and
-- goes on with the lists of new events that come through a channel. The channel is the list of what
-- it delivers before it is closed. `none` is a read of a nil pointer.
pub mod Stream
use thesis_code.Prelude.{
  ℤ, pos, ltb_ℤ, leb_ℤ, sub64, Bool, true, false, List, [], ◌∷◌, ◌++◌, Option, none, some,
  if◌then◌else◌,
}
use thesis_code.Server.Types.{KeyValue, Event, Err}
use thesis_code.Server.Classify.{is_empty}

-- The test on the first event: it is dropped, or the whole list stays.
abbrev pub drop_first : ℤ → Option KeyValue → Option (List Event) → List Event → Option (List Event)
drop_first rev none rest whole = none
drop_first rev (some kv) rest whole = if leb_ℤ kv.mod_revision rev then rest else some whole

-- Events up to a revision are dropped from the front.
unfoldable pub filter : List Event → ℤ → Option (List Event)
filter [] rev = some []
filter (event ∷ events) rev =
    let rest = filter events rev in drop_first rev event.kv rest (event ∷ events)

abbrev pub push : Option (List Event) → Option (List (List Event)) → Option (List (List Event))
push none batches = none
push (some events) none = none
push (some events) (some batches) = some (events ∷ batches)

unfoldable pub filter_all : List (List Event) → ℤ → Option (List (List Event))
unfolding filter
filter_all [] rev = some []
filter_all (events ∷ batches) rev = push (filter events rev) (filter_all batches rev)

-- The current revision is included in the list.
unfoldable pub after_revision : ℤ → ℤ
after_revision revision = if ltb_ℤ (pos 0) revision then sub64 revision (pos 1) else revision

-- The lists that the watch sends: `answer` is what After returned. On an error the context is
-- cancelled, which closes the channel, and what came with the error is sent all the same.
unfoldable pub watch : ℤ → ℤ × List Event × Err → List (List Event) → Option (List (List Event))
unfolding filter_all after_revision
watch revision (rev, [], err) batches = filter_all batches (after_revision revision)
watch revision (rev, event ∷ kvs, err) batches = push (some (event ∷ kvs)) (filter_all batches rev)
