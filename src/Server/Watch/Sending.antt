-- ===== src/Server/Watch/Sending.antt =====
-- What a client sees of a watch.
use thesis_code.Prelude.{
  ℤ, pos, List, [], ◌∷◌, ◌++◌, append_assoc, none, some, Exec, Outcome, returned, and_then, ◌≡◌,
  refl, ap, Bool-cases, inl, inr, ◌∙◌, All,
}
use thesis_code.Server.Types.{KeyValue, Event, Err}
use thesis_code.Server.Convert.{txn_header, to_events}
use thesis_code.Server.Watch.{
  mem, WatchResponse, created, delivered, canceled, Watcher, forget, send_to, cancel, deliver,
  stream, serve, header_of,
}

-- A client that takes every response and keeps them, oldest first.
abbrev pub record_response : WatchResponse → Exec (List WatchResponse) Err
record_response response sent = returned (none, sent ++ response ∷ [])

abbrev pub HasValue : Event → Type 0
HasValue event = (kv : KeyValue) × (event.kv ≡ some kv)

abbrev pub last_revision : List Event → ℤ
last_revision [] = pos 0
last_revision (event ∷ []) = elim event.kv [ none ↦ pos 0 | some kv ↦ kv.mod_revision ]
last_revision (event ∷ event' ∷ events) = last_revision (event' ∷ events)

-- The responses for the lists of events: none for an empty list, else one with all its events and
-- the revision of the last.
abbrev pub responses : ℤ → List (List Event) → List WatchResponse
responses id [] = []
responses id ([] ∷ batches) = responses id batches
responses id ((event ∷ events) ∷ batches) =
    delivered (txn_header (last_revision (event ∷ events))) id (to_events (event ∷ events))
    ∷ responses id batches

header-last :
    (event : Event) (events : List Event)
    → All HasValue (event ∷ events)
    → header_of record_response (event ∷ events)
      ≡ some (txn_header (last_revision (event ∷ events)))
header-last event [] ((kv, e), h) = rw e
header-last event (event' ∷ events) h = header-last event' events h.1

abbrev pub Client : Type 0
Client = List WatchResponse

-- The client has no part in what forget does.
forget-client :
    (id : ℤ) (w : Watcher Client) (a b : Client)
    → ◌≡◌ {A = Watcher Client}
        (record (forget id (record w { client = a })) { client = b })
        (record (forget id w) { client = b })
unfolding forget
forget-client id w a b = elim (Bool-cases (mem id w.watches)) [ inl e ↦ rw e | inr e ↦ rw e ]

client-forget : (id : ℤ) (w : Watcher Client) → (forget id w).client ≡ w.client
unfolding forget
client-forget id w = elim (Bool-cases (mem id w.watches)) [ inl e ↦ rw e | inr e ↦ rw e ]

abbrev pub ended : ℤ → Watcher Client → Client → Outcome (Unit {0} × Watcher Client)
ended id w sent = returned (tt, record (forget id w) { client = sent })

cancel_sends :
    (id : ℤ) (w : Watcher Client)
    → cancel record_response id w ≡ ended id w (w.client ++ canceled id ∷ [])
unfolding cancel
cancel_sends id w = ap (λ (c : Client). ended id w (c ++ canceled id ∷ [])) (client-forget id w)

deliver_sends :
    (id : ℤ) (event : Event) (events : List Event) (w : Watcher Client)
    → All HasValue (event ∷ events)
    → deliver record_response id (event ∷ events) w
      ≡ returned (
        tt,
        record w {
          client =
              w.client
              ++ delivered
                  (txn_header (last_revision (event ∷ events)))
                  id
                  (to_events (event ∷ events))
                ∷ [];
        },
      )
unfolding send_to
deliver_sends id event events w h = rw (header-last event events h, deliver)

stream-cons :
    (id : ℤ) (events : List Event) (batches : List (List Event)) (w : Watcher Client)
    → stream record_response id (events ∷ batches) w
      ≡ and_then (deliver record_response id events w) (λ _. stream record_response id batches)
unfolding stream
stream-cons id events batches w = refl

stream_sends :
    (id : ℤ) (batches : List (List Event)) (w : Watcher Client)
    → All (All HasValue) batches
    → stream record_response id batches w
      ≡ ended id w (w.client ++ (responses id batches ++ canceled id ∷ []))
stream_sends id [] w h = unfold stream in cancel_sends id w
stream_sends id ([] ∷ batches) w h = stream-cons id [] batches w ∙ stream_sends id batches w h.1
stream_sends id ((event ∷ events) ∷ batches) w h =
    let sent =
      delivered (txn_header (last_revision (event ∷ events))) id (to_events (event ∷ events)) in
    let w' : Watcher Client = record w { client = w.client ++ sent ∷ [] } in
    let more = responses id batches ++ canceled id ∷ [] in
    stream-cons id (event ∷ events) batches w
    ∙ ap
        (λ (o : Outcome (Unit {0} × Watcher Client)).
          and_then o (λ _. stream record_response id batches))
        (deliver_sends id event events w h.0)
    ∙ stream_sends id batches w' h.1
    ∙ ap (λ (x : Watcher Client). returned (tt, x))
        (forget-client id w w'.client (w'.client ++ more))
    ∙ ap (ended id w) (append_assoc w.client (sent ∷ []) more)

-- If the client takes every response, the goroutine of a watch sends that the watch was created,
-- then one response for each list of events that is not empty, in their order, with all its events
-- and the revision of the last, and at the end, once, that the watch is cancelled. The watch
-- is taken out of the map and its context cancelled, if it is there.
pub serve_sends :
    (id : ℤ) (batches : List (List Event)) (w : Watcher Client)
    → All (All HasValue) batches
    → serve record_response id batches w
      ≡ ended id w (w.client ++ (created id ∷ responses id batches ++ canceled id ∷ []))
unfolding serve
serve_sends id batches w h =
    let w' : Watcher Client = record w { client = w.client ++ created id ∷ [] } in
    let more = responses id batches ++ canceled id ∷ [] in
    stream_sends id batches w' h
    ∙ ap (λ (x : Watcher Client). returned (tt, x))
        (forget-client id w w'.client (w'.client ++ more))
    ∙ ap (ended id w) (append_assoc w.client (created id ∷ []) more)
