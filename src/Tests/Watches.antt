-- ===== src/Tests/Watches.antt =====
-- The theorems on the watches and the connection string of the NATS driver at concrete inputs.
use thesis_code.Prelude.{
  ℕ, Bytes, codes, bytes_eq, pos, true, false, [], ◌∷◌, map, none, some, ok, pure, Ends, ◌≡◌, refl,
  inl,
}
use thesis_code.Nats.Driver.{Driver}
use thesis_code.Nats.Watching.{forward, update_events, event_of}
use thesis_code.Nats.Watching.Events.{IsReadable, Replies, later, shown, change_of, forward_lem}
use thesis_code.Nats.Watching.Previous.{newest_value, created_prev_self}
use thesis_code.Nats.Connection.{
  Url, Query, TlsInfo, Config, Parsers, parse_uint8, parse_connection, invalid,
}
use thesis_code.Nats.Connection.Limits.{asked, Between, parse_connection_bounds}
use thesis_code.Tests.MemoryBucket.{
  Stream, AnyKey, stream_view, memory, toy_driver, toy_driver-Laws,
}
use thesis_code.Tests.Buckets.{pod_entry, pod_at, pod_created, one_pod, one_pod-Holds}

-- A driver whose keys all hold the pod.
abbrev pods_only : Driver Stream
pods_only = record toy_driver {
  kv = record memory {
    get = λ key. pure (ok pod_entry);
    get_revision = λ key revision. pure (ok pod_entry);
  };
}

pod-IsReadable : IsReadable pods_only pod_entry
pod-IsReadable = (pod_created, pod_at (pos 0), refl, refl, refl)

pods_reply : Replies pods_only
pods_reply = record {
  status_returns = λ s. tt;
  now_returns = λ s. tt;
  delete_returns = λ key s. tt;
  get_returns = λ key s. inl (pod_entry, refl, pod-IsReadable);
  get_revision_returns = λ key revision s. inl (pod_entry, refl, pod-IsReadable);
}

forward_lem_example :
    Ends
      (λ a t.
        map (shown pods_only pods_reply) a
        ≡ map
            (change_of pods_only pods_reply)
            (later pods_only pods_reply (pos 0) (some pod_entry ∷ none ∷ some pod_entry ∷ [])))
      (forward pods_only (pos 0) (some pod_entry ∷ none ∷ some pod_entry ∷ []) one_pod)
forward_lem_example =
    forward_lem pods_only pods_reply (pos 0) (some pod_entry ∷ none ∷ some pod_entry ∷ []) one_pod
      (pod-IsReadable, (pod-IsReadable, tt))

created_prev_self_example :
    Ends
      (λ a t.
        a
        ≡ (event_of
              (newest_value toy_driver stream_view AnyKey toy_driver-Laws pod_entry)
              (some (pod_at (pos 1)))
            ∷ [])
          ∷ [])
      (update_events toy_driver (pos 0) pod_entry one_pod)
unfolding bytes_eq
created_prev_self_example =
    created_prev_self toy_driver stream_view AnyKey toy_driver-Laws (pos 0) pod_entry one_pod tt
      one_pod-Holds refl refl refl refl refl

abbrev local_url : Url
local_url = record {
  scheme = codes "nats";
  user = none;
  host = codes "localhost";
  hostname = codes "localhost";
  port = [];
  raw_query = [];
}

-- A query that asks for three of everything.
abbrev three : Query
three = record { get = λ name. if_replicas name; has = λ name. false }
  where
    if_replicas : Bytes → Bytes
    if_replicas name = elim (bytes_eq name (codes "replicas")) [ true ↦ codes "3" | false ↦ [] ]

abbrev local_parsers : Parsers
local_parsers = record {
  parse_url = λ text. ok local_url;
  parse_query = λ text. ok three;
  parse_duration = λ text. ok (pos 0);
  atoi = λ text. pos 0;
  load_context = λ text. invalid;
  embedded = false;
}

abbrev no_tls : TlsInfo
no_tls = record { cert_file = []; key_file = []; ca_file = [] }

abbrev local_config : Config
local_config = record {
  client_url = codes "nats://localhost";
  client_options = [];
  rev_history = 10;
  bucket = codes "kine";
  replicas = 3;
  slow_threshold = pos 500000000;
  no_embed = false;
  dont_listen = false;
  server_config = [];
  stdout_logging = false;
  host = codes "localhost";
  port = pos 0;
}

parse_connection_bounds_example :
    (◌≡◌ {A = ℕ} 3 (asked 1 (parse_uint8 (codes "3"))))
    × (◌≡◌ {A = ℕ} 10 (asked 10 (parse_uint8 [])))
    × Between 1 5 3
    × Between 2 64 10
unfolding parse_connection bytes_eq
parse_connection_bounds_example =
    parse_connection_bounds local_parsers (codes "nats://localhost?replicas=3") no_tls local_url
      three local_config refl refl refl
