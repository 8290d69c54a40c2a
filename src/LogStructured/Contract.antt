-- ===== src/LogStructured/Contract.antt =====
-- What the backend relies on: a log whose newest event of a key can be read and to which an event
-- can be appended, while no other client writes. A state is seen as its revision, the newest event
-- of each key, and the event that a listing without deletions shows of each key.
use thesis_code.Prelude.{
  ◌==◌, ◌||◌, ◌≤ℤ◌, true, Bytes, codes, bytes_eq, has_suffix, ℤ, pos, ◌<ℤ◌, Bool, false, List, [],
  ◌∷◌, Option, none, some, Ends, ◌≡◌, ◌⊎◌, ◌&&◌, not, if◌then◌else◌,
}
use thesis_code.Server.Types.{Error, KeyValue, Event, Err}
use thesis_code.LogStructured.{Log}

pub record View (S : Type 0) : Type 0 where
  pub revision : S → ℤ
  pub latest : S → Bytes → Option Event
  pub shown : S → Bytes → Option Event

-- A key that a listing does not read as a pattern: neither the log, to which a slash at the end means
-- a prefix, nor the database, to which a percent sign means any text.
abbrev pub has_percent : Bytes → Bool
has_percent [] = false
has_percent (b ∷ key) = let rest = has_percent key in b == 37 || rest

abbrev pub is_single : Bytes → Bool
is_single key = not (has_suffix key (codes "/")) && not (has_percent key)

module _ {S : Type 0} (v : View S) where
  -- The view of the state stays.
  abbrev pub Keeps : S → S → Type 0
  Keeps s t =
      (v.revision t ≡ v.revision s)
      × ((k : Bytes) → v.latest t k ≡ v.latest s k)
      × ((k : Bytes) → v.shown t k ≡ v.shown s k)

  -- A write is lost: the revision may grow, and no key gets a new event.
  abbrev pub Skips : S → S → Type 0
  Skips s t = (v.revision s ≤ℤ v.revision t) × ((k : Bytes) → v.latest t k ≡ v.latest s k)

  -- The event that a listing of a key shows, with deletions or without.
  abbrev pub asked : Bool → S → Bytes → Option Event
  asked include_deletes s k = if include_deletes then v.latest s k else v.shown s k

  -- The revision grows, one key gets a new event, and the other keys keep theirs.
  abbrev pub Writes : Bytes → Event → S → S → Type 0
  Writes key event s t =
      (v.revision s <ℤ v.revision t)
      × ((k : Bytes) → v.latest t k ≡ (if bytes_eq key k then some event else v.latest s k))

-- The answer to a listing of one key: the revision comes with the event, and is 0 without one.
abbrev pub found : ℤ → Option Event → ℤ × List Event × Err
found rev none = (pos 0, [], none)
found rev (some e) = (rev, e ∷ [], none)

-- The previous value as it comes back from the log: its revision and its bytes.
abbrev pub stored_prev : Bool → Option KeyValue → Option KeyValue
stored_prev create prev = if create then none else some (kept prev)
  where
    kept : Option KeyValue → KeyValue
    kept none = record {
      key = [];
      create_revision = pos 0;
      mod_revision = pos 0;
      value = [];
      lease = pos 0;
    }
    kept (some kv) = record {
      key = [];
      create_revision = pos 0;
      mod_revision = kv.mod_revision;
      value = kv.value;
      lease = pos 0;
    }

-- An event as it comes back from the log after it was appended with revision `rev`.
abbrev pub stored : Event → KeyValue → ℤ → Event
stored event kv rev = record {
  delete = event.delete;
  create = event.create;
  kv = some (record {
    key = kv.key;
    create_revision = if event.create then rev else kv.create_revision;
    mod_revision = rev;
    value = kv.value;
    lease = kv.lease;
  });
  prev_kv = stored_prev event.create event.prev_kv;
}

pub record Contract {S : Type 0} (log : Log S) : Type 0 where
  pub view : View S
  pub latest_kv :
      (s : S) (k : Bytes) (e : Event)
      → view.latest s k ≡ some e
      → (kv : KeyValue) × (e.kv ≡ some kv) × (kv.key ≡ k)
  -- A listing without deletions shows the newest event or nothing. That it shows just the newest
  -- events that are no deletions is not asked: Database.cpp, query_common_subquery, also shows some
  -- deletions, and may leave out a live key.
  pub shown_latest :
      (s : S) (k : Bytes) (e : Event) → view.shown s k ≡ some e → view.latest s k ≡ some e
  pub current_lem :
      (s : S)
      → Ends (λ a t. (a ≡ (view.revision s, none)) × Keeps view s t) (log.current_revision s)
  pub list_lem :
      (key : Bytes) (limit : ℤ) (include_deletes : Bool) (s : S)
      → is_single key ≡ true
      → Ends
          (λ a t. (a ≡ found (view.revision s) (asked view include_deletes s key)) × Keeps view s t)
          (log.list key [] limit (pos 0) include_deletes s)
  -- An append is done whole, or it is lost and answered like one that is done (Database.cpp,
  -- core_publish_returningid, reports a write that failed so), or it fails and changes nothing.
  pub append_lem :
      (event : Event) (kv : KeyValue) (s : S)
      → event.kv ≡ some kv
      → Ends
          (λ a t.
            ((a ≡ (view.revision t, none))
              × Writes view kv.key (stored event kv (view.revision t)) s t)
            ⊎ ((a ≡ (view.revision t, none)) × Skips view s t)
            ⊎ ((e : Error) × (a ≡ (pos 0, some e)) × Keeps view s t))
          (log.append event s)

-- The value of a key, if it has one: its newest event is no deletion.
abbrev pub live_of : Option Event → Option KeyValue
live_of none = none
live_of (some e) = if e.delete then none else e.kv

abbrev pub live : {S : Type 0} → View S → S → Bytes → Option KeyValue
live v s key = live_of (v.latest s key)

-- The value that a listing of the key without deletions shows.
abbrev pub kv_of : Option Event → Option KeyValue
kv_of none = none
kv_of (some e) = e.kv

abbrev pub shown_kv : {S : Type 0} → View S → S → Bytes → Option KeyValue
shown_kv v s key = kv_of (v.shown s key)
