-- ===== src/Nats/Connection.antt =====
-- kine/pkg/drivers/nats/nats.go: parseConnection, which reads a connection string. What the code
-- takes from the packages net/url, strconv and time on one text, and the file of a NATS context,
-- are fields of a record.
pub mod Limits
use thesis_code.Prelude.{
  ℕ, zero, suc, ◌+◌, ◌*◌, ◌-◌, ltb, leb, ◌==◌, Bytes, codes, bytes_eq, ℤ, pos, Bool, true, false,
  not, ◌&&◌, ◌||◌, List, [], ◌∷◌, ◌++◌, Option, none, some, Result, ok, failed, split_on,
  if◌then◌else◌,
}
use thesis_code.Server.Types.{Error}
use thesis_code.Server.Classify.{is_empty}

-- url.URL, with what Hostname, Port and User.String give.
pub record Url : Type 0 where
  pub scheme : Bytes
  pub user : Option Bytes
  pub host : Bytes
  pub hostname : Bytes
  pub port : Bytes
  pub raw_query : Bytes

-- url.Values.
pub record Query : Type 0 where
  pub get : Bytes → Bytes
  pub has : Bytes → Bool

pub data ClientOption : Type 0 where
  client_cert : Bytes → Bytes → ClientOption
  root_cas : Bytes → ClientOption
  user_info : Bytes → Bytes → ClientOption
  token : Bytes → ClientOption
  loaded : Bytes → ClientOption

-- A context that was read from a file: its server URL, and what NATSOptions makes of options.
pub record NatsContext : Type 0 where
  pub server_url : Bytes
  pub nats_options : List ClientOption → Result Error (List ClientOption)

pub record TlsInfo : Type 0 where
  pub cert_file : Bytes
  pub key_file : Bytes
  pub ca_file : Bytes

pub record Config : Type 0 where
  pub client_url : Bytes
  pub client_options : List ClientOption
  pub rev_history : ℕ
  pub bucket : Bytes
  pub replicas : ℕ
  pub slow_threshold : ℤ
  pub no_embed : Bool
  pub dont_listen : Bool
  pub server_config : Bytes
  pub stdout_logging : Bool
  pub host : Bytes
  pub port : ℤ

-- `atoi` gives the number that strconv.Atoi returns also with an error, and `embedded` is the
-- constant natsserver.Embedded of the build.
pub record Parsers : Type 0 where
  pub parse_url : Bytes → Result Error Url
  pub parse_query : Bytes → Result Error Query
  pub parse_duration : Bytes → Result Error ℤ
  pub atoi : Bytes → ℤ
  pub load_context : Bytes → Result Error NatsContext
  pub embedded : Bool

abbrev pub then_ok : {A B : Type 0} → Result Error A → (A → Result Error B) → Result Error B
then_ok (failed e) f = failed e
then_ok (ok a) f = f a

abbrev pub default_config : Config
default_config = record {
  client_url = [];
  client_options = [];
  rev_history = 10;
  bucket = codes "kine";
  replicas = 1;
  slow_threshold = pos 500000000;
  no_embed = false;
  dont_listen = false;
  server_config = [];
  stdout_logging = false;
  host = [];
  port = pos 0;
}

abbrev is_digit : ℕ → Bool
is_digit c = leb b'0' c && leb c b'9'

-- The number of a text of digits, at most 255.
unfoldable pub digits : ℕ → Bytes → Option ℕ
digits n [] = some n
digits n (c ∷ s) =
    let rest = digits (n * 10 + (c - b'0')) s in
    if is_digit c && ltb (n * 10 + (c - b'0')) 256 then rest else none

-- strconv.ParseUint(v, 10, 8).
unfoldable pub parse_uint8 : Bytes → Option ℕ
unfolding digits
parse_uint8 [] = none
parse_uint8 (c ∷ s) = digits 0 (c ∷ s)

abbrev pub invalid : {A : Type 0} → Result Error A
invalid = failed (Error.invalid [])

abbrev pub bucket_or : Bytes → Config → Config
bucket_or v c = if is_empty v then c else record c { bucket = v }

-- A text that is no number of eight bits, or none, leaves the default.
unfoldable pub with_replicas : Option ℕ → Config → Result Error Config
with_replicas none c = ok c
with_replicas (some r) c = if leb 1 r && leb r 5 then ok (record c { replicas = r }) else invalid

unfoldable pub with_rev_history : Option ℕ → Config → Result Error Config
with_rev_history none c = ok c
with_rev_history (some revs) c =
    if leb 2 revs && leb revs 64 then ok (record c { rev_history = revs }) else invalid

abbrev pub with_options : List ClientOption → Config → Config
with_options options c = record c { client_options = c.client_options ++ options }

unfoldable pub with_tls : TlsInfo → Config → Config
with_tls tls c =
    let cert =
      if not (is_empty tls.key_file) && not (is_empty tls.cert_file)
      then with_options (ClientOption.client_cert tls.cert_file tls.key_file ∷ []) c
      else c in
    if is_empty tls.ca_file
    then cert
    else with_options (ClientOption.root_cas tls.ca_file ∷ []) cert

abbrev pub user_option : List Bytes → ClientOption
user_option [] = ClientOption.token []
user_option (user ∷ []) = ClientOption.token user
user_option (user ∷ password ∷ parts) = ClientOption.user_info user password

unfoldable pub user_options : Option Bytes → List ClientOption
unfolding split_on
user_options none = []
user_options (some user) = user_option (split_on b':' user) ∷ []

module _ (p : Parsers) where
  unfoldable pub with_slow_method : Bytes → Config → Result Error Config
  with_slow_method d c =
      if is_empty d
      then ok c
      else then_ok (p.parse_duration d) λ dur. ok (record c { slow_threshold = dur })

  -- The connections and the options that a context file gives in the place of those so far.
  abbrev pub from_context : Config → NatsContext → Result Error (List Bytes × Config)
  from_context c context =
      then_ok (context.nats_options c.client_options)
        λ options. ok (split_on b',' context.server_url, record c { client_options = options })

  unfoldable pub with_context :
      Bytes → Url → List Bytes → Config → Result Error (List Bytes × Config)
  unfolding split_on
  with_context f u connections c =
      if is_empty f
      then ok (connections, c)
      else if not (is_empty u.host)
      then invalid
      else then_ok (p.load_context f) (from_context c)

  -- The user of the first URL is an option, and the host of each is part of the client's URL.
  unfoldable pub build : Bool → List Bytes → Bytes → Config → Result Error Config
  unfolding user_options
  build first [] url c = ok (record c { client_url = url })
  build first (connection ∷ connections) url c = then_ok (p.parse_url connection) λ u.
      if not (bytes_eq u.scheme (codes "nats"))
      then invalid
      else build false connections
          (url ++ (if first then [] else codes ",") ++ codes "nats://" ++ u.host)
          (if first then with_options (user_options u.user) c else c)

  abbrev pub with_embedded : Query → Config → Config
  with_embedded query c =
      if p.embedded
      then record c {
        no_embed = query.has (codes "noEmbed");
        server_config = query.get (codes "serverConfig");
        stdout_logging = query.has (codes "stdoutLogging");
        dont_listen = query.has (codes "dontListen");
      }
      else c

  abbrev pub with_host : Url → Config → Config
  with_host u c = record c {
    host = u.hostname;
    port = if is_empty u.port then c.port else p.atoi u.port;
  }

  abbrev pub first_of : List Bytes → Bytes
  first_of [] = []
  first_of (connection ∷ connections) = connection

  abbrev pub finish : Query → List Bytes × Config → Result Error Config
  finish query (connections, c) =
      then_ok (build true connections [] c) λ c'. ok (with_embedded query c')

  abbrev pub configure : TlsInfo → List Bytes → Url → Query → Result Error Config
  configure tls connections u query =
      let named = bucket_or (query.get (codes "bucket")) (with_host u default_config) in
      then_ok (with_replicas (parse_uint8 (query.get (codes "replicas"))) named) λ c1.
        then_ok (with_slow_method (query.get (codes "slowMethod")) c1) λ c2.
          then_ok (with_rev_history (parse_uint8 (query.get (codes "revHistory"))) c2) λ c3.
            then_ok (with_context (query.get (codes "contextFile")) u connections (with_tls tls c3))
              (finish query)

  unfoldable pub parse_connection : Bytes → TlsInfo → Result Error Config
  unfolding split_on bytes_eq parse_uint8 with_replicas with_rev_history with_tls with_slow_method
      with_context build
  parse_connection dsn tls =
      let connections = split_on b',' dsn in
      then_ok (p.parse_url (first_of connections))
        λ u. then_ok (p.parse_query u.raw_query) λ query. configure tls connections u query
