-- ===== src/Server/Watch.antt =====
-- kine/pkg/server/watch.go: the watches of one client. The backend's channel of a watch is the list
-- of what it delivers; `send` is the gRPC stream to the client, in a state `S`.
pub mod Sending
use thesis_code.Prelude.{
  ℤ, pos, ◌==ℤ◌, add64, Bool, true, false, List, [], ◌∷◌, ◌++◌, get_last?, Option, none, some, Exec,
  pure, panic, map_result, ◌>>=◌, ◌>>◌, Outcome, returned, panicked, out_of_fuel, if◌then◌else◌,
}
use thesis_code.Etcd.{EtcdEvent, ResponseHeader}
use thesis_code.Server.Types.{Error, Event, Err}
use thesis_code.Server.Convert.{txn_header, to_events}

pub data WatchResponse : Type 0 where
  created : ℤ → WatchResponse
  delivered : ResponseHeader → ℤ → List EtcdEvent → WatchResponse
  canceled : ℤ → WatchResponse

-- The counter watchID, the map of the watches that are not cancelled, and the watches whose cancel
-- function was called, newest first.
pub record Watcher (S : Type 0) : Type 0 where
  pub watch_id : ℤ
  pub watches : List ℤ
  pub cancelled : List ℤ
  pub client : S

unfoldable pub mem : ℤ → List ℤ → Bool
mem id [] = false
mem id (w ∷ watches) = let rest = mem id watches in if w ==ℤ id then true else rest

unfoldable pub delete : ℤ → List ℤ → List ℤ
delete id [] = []
delete id (w ∷ watches) = let rest = delete id watches in if w ==ℤ id then rest else w ∷ rest

-- The part of Cancel under the lock.
unfoldable pub forget : {S : Type 0} → ℤ → Watcher S → Watcher S
unfolding mem delete
forget id w =
    if mem id w.watches
    then record w { watches = delete id w.watches; cancelled = id ∷ w.cancelled }
    else w

-- Start, up to the goroutine.
unfoldable pub open_watch : {S : Type 0} → Watcher S → ℤ × Watcher S
unfolding add64
open_watch w =
    let id = add64 w.watch_id (pos 1) in (id, record w { watch_id = id; watches = id ∷ w.watches })

-- Close cancels what is left in the map.
unfoldable pub close : {S : Type 0} → Watcher S → Watcher S
close w = record w { cancelled = w.watches ++ w.cancelled }

module _ {S : Type 0} (send : WatchResponse → Exec S Err) where
  abbrev with_client : Watcher S → Outcome (Err × S) → Outcome (Err × Watcher S)
  with_client w (returned (err, s)) = returned (err, record w { client = s })
  with_client w panicked = panicked
  with_client w out_of_fuel = out_of_fuel

  unfoldable pub send_to : WatchResponse → Exec (Watcher S) Err
  send_to response w = with_client w (send response w.client)

  -- An error of the last send is only logged.
  unfoldable pub cancel : ℤ → Exec (Watcher S) (Unit {0})
  unfolding send_to forget
  cancel id w = map_result (λ _. tt) (send_to (canceled id)) (forget id w)

  abbrev pub header_of : List Event → Option ResponseHeader
  header_of events = elim (get_last? events) [
    | none ↦ none
    | some event ↦ elim event.kv [ none ↦ none | some kv ↦ some (txn_header kv.mod_revision) ]
  ]

  abbrev pub or_cancel : ℤ → Err → Exec (Watcher S) (Unit {0})
  or_cancel id none = pure tt
  or_cancel id (some e) = cancel id

  -- One list of events; a failed send cancels the watch, and the loop goes on.
  abbrev pub deliver : ℤ → List Event → Exec (Watcher S) (Unit {0})
  deliver id [] = pure tt
  deliver id (event ∷ events) = elim (header_of (event ∷ events)) [
    | none ↦ panic
    | some header ↦ send_to (delivered header id (to_events (event ∷ events))) >>= or_cancel id
  ]

  unfoldable pub stream : ℤ → List (List Event) → Exec (Watcher S) (Unit {0})
  unfolding send_to cancel
  stream id [] = cancel id
  stream id (events ∷ batches) = deliver id events >>= λ _. stream id batches

  abbrev pub started : ℤ → List (List Event) → Err → Exec (Watcher S) (Unit {0})
  started id batches (some e) = cancel id
  started id batches none = stream id batches

  -- The goroutine of a watch.
  unfoldable pub serve : ℤ → List (List Event) → Exec (Watcher S) (Unit {0})
  unfolding stream
  serve id batches = send_to (created id) >>= started id batches
