-- ===== src/Nats/Connection/Limits.antt =====
-- The limits of a configuration that was read.
use thesis_code.Prelude.{
  ℕ, ◌≤◌, leb, Bytes, codes, bytes_eq, Bool, true, false, ◌&&◌, Bool-cases, inl, inr, List, [], ◌∷◌,
  Option, none, some, Result, ok, failed, split_on, ◌≡◌, refl, arith, if◌then◌else◌,
}
use thesis_code.Server.Types.{Error}
use thesis_code.Server.Classify.{is_empty}
use thesis_code.Nats.Connection.{
  Url, Query, NatsContext, TlsInfo, Config, Parsers, then_ok, default_config, bucket_or,
  parse_uint8, with_replicas, with_rev_history, with_options, with_tls, user_options,
  with_slow_method, from_context, with_context, build, with_host, first_of, finish, configure,
  parse_connection,
}

-- The number that was asked for, or the default.
abbrev pub asked : ℕ → Option ℕ → ℕ
asked default none = default
asked default (some n) = n

abbrev pub Between : ℕ → ℕ → ℕ → Type 0
Between lo hi n = (lo ≤ n) × (n ≤ hi)

-- If there is a result, it satisfies `P`.
abbrev Gives : {A : Type 0} → (A → Type 0) → Result Error A → Type 0
Gives P (ok a) = P a
Gives P (failed e) = Unit {0}

then_ok-Gives :
    {A B : Type 0} (P : A → Type 0) (Q : B → Type 0) (r : Result Error A) (f : A → Result Error B)
    → Gives P r
    → ((a : A) → P a → Gives Q (f a))
    → Gives Q (then_ok r f)
then_ok-Gives P Q (ok a) f h k = k a h
then_ok-Gives P Q (failed e) f h k = tt

any-Gives : {A : Type 0} (r : Result Error A) → Gives (λ a. Unit {0}) r
any-Gives (ok a) = tt
any-Gives (failed e) = tt

abbrev pub Has : ℕ → ℕ → Config → Type 0
Has replicas revs c = (c.replicas ≡ replicas) × (c.rev_history ≡ revs)

with_replicas-Has :
    (o : Option ℕ) (c : Config) (revs : ℕ)
    → Has 1 revs c
    → Gives (λ c'. Has (asked 1 o) revs c' × Between 1 5 (asked 1 o)) (with_replicas o c)
unfolding with_replicas
with_replicas-Has none c revs h = (h, omega arith)
with_replicas-Has (some r) c revs h = elim (Bool-cases (leb 1 r && leb r 5)) [
  | inl y ↦ rw y ((refl, h.1), ground arith)
  | inr y ↦ rw y tt
]

with_rev_history-Has :
    (o : Option ℕ) (c : Config) (replicas : ℕ)
    → Has replicas 10 c
    → Gives (λ c'. Has replicas (asked 10 o) c' × Between 2 64 (asked 10 o)) (with_rev_history o c)
unfolding with_rev_history
with_rev_history-Has none c replicas h = (h, omega arith)
with_rev_history-Has (some r) c replicas h = elim (Bool-cases (leb 2 r && leb r 64)) [
  | inl y ↦ rw y ((h.0, refl), ground arith)
  | inr y ↦ rw y tt
]

module _ (p : Parsers) (replicas revs : ℕ) where
  with_slow_method-Has :
      (d : Bytes) (c : Config)
      → Has replicas revs c
      → Gives (Has replicas revs) (with_slow_method p d c)
  unfolding with_slow_method
  with_slow_method-Has d c h = elim (Bool-cases (is_empty d)) [
    | inl y ↦ rw y h
    | inr y ↦ rw y (
        then_ok-Gives (λ _. Unit {0}) (Has replicas revs) (p.parse_duration d) _
          (any-Gives (p.parse_duration d)) λ dur _. h)
  ]

  with_tls-Has :
      (tls : TlsInfo) (c : Config) → Has replicas revs c → Has replicas revs (with_tls tls c)
  unfolding with_tls
  with_tls-Has tls c h = ground arith

  from_context-Has :
      (c : Config) (context : NatsContext)
      → Has replicas revs c
      → Gives (λ r. Has replicas revs r.1) (from_context p c context)
  from_context-Has c context h =
      then_ok-Gives (λ _. Unit {0}) (λ r. Has replicas revs r.1)
        (context.nats_options c.client_options) _
        (any-Gives (context.nats_options c.client_options)) λ options _. h

  with_context-Has :
      (f : Bytes) (u : Url) (connections : List Bytes) (c : Config)
      → Has replicas revs c
      → Gives (λ r. Has replicas revs r.1) (with_context p f u connections c)
  unfolding with_context
  with_context-Has f u connections c h = elim (Bool-cases (is_empty f)) [
    | inl y ↦ rw y h
    | inr y ↦ elim (Bool-cases (is_empty u.host)) [
      | inl z ↦
          rw (y, z)
            (then_ok-Gives (λ _. Unit {0}) (λ r. Has replicas revs r.1) (p.load_context f) _
              (any-Gives (p.load_context f)) λ context _. from_context-Has c context h)
      | inr z ↦ rw (y, z) tt
    ]
  ]

  build-Has :
      (first : Bool) (connections : List Bytes) (url : Bytes) (c : Config)
      → Has replicas revs c
      → Gives (Has replicas revs) (build p first connections url c)
  unfolding build
  build-Has first [] url c h = h
  build-Has first (connection ∷ connections) url c h =
      then_ok-Gives (λ _. Unit {0}) (Has replicas revs) (p.parse_url connection) _
        (any-Gives (p.parse_url connection))
        λ u _. elim (Bool-cases (bytes_eq u.scheme (codes "nats"))) [
          | inl y ↦ rw y (build-Has false connections _ _ (option_Has first u))
          | inr y ↦ rw y tt
        ]
    where
      option_Has :
          (b : Bool) (u : Url)
          → Has replicas revs (if b then with_options (user_options u.user) c else c)
      option_Has true u = h
      option_Has false u = h

  finish-Has :
      (query : Query) (r : List Bytes × Config)
      → Has replicas revs r.1
      → Gives (Has replicas revs) (finish p query r)
  finish-Has query (connections, c) h =
      then_ok-Gives (Has replicas revs) (Has replicas revs) (build p true connections [] c) _
        (build-Has true connections [] c h)
        λ c' k. elim (Bool-cases p.embedded) [ inl y ↦ rw y k | inr y ↦ rw y k ]

bucket_or-Has : (v : Bytes) (c : Config) → Has 1 10 c → Has 1 10 (bucket_or v c)
bucket_or-Has v c h = ground arith

configure-Has :
    (p : Parsers) (tls : TlsInfo) (connections : List Bytes) (u : Url) (query : Query)
    → let r = asked 1 (parse_uint8 (query.get (codes "replicas"))) in
      let h = asked 10 (parse_uint8 (query.get (codes "revHistory"))) in
      Gives (λ c. Has r h c × Between 1 5 r × Between 2 64 h) (configure p tls connections u query)
configure-Has p tls connections u query =
    let asked_replicas = parse_uint8 (query.get (codes "replicas")) in
    let asked_revs = parse_uint8 (query.get (codes "revHistory")) in
    let r = asked 1 asked_replicas in
    let h = asked 10 asked_revs in
    let Limits : Config → Type 0 = λ c. Has r h c × Between 1 5 r × Between 2 64 h in
    let named = bucket_or (query.get (codes "bucket")) (with_host p u default_config) in
    then_ok-Gives (λ c. Has r 10 c × Between 1 5 r) Limits (with_replicas asked_replicas named) _
      (with_replicas-Has asked_replicas named 10
        (bucket_or-Has (query.get (codes "bucket")) (with_host p u default_config) (refl, refl)))
      λ c1 k1.
        then_ok-Gives (Has r 10) Limits (with_slow_method p (query.get (codes "slowMethod")) c1) _
          (with_slow_method-Has p r 10 (query.get (codes "slowMethod")) c1 k1.0)
          λ c2 k2.
            then_ok-Gives (λ c. Has r h c × Between 2 64 h) Limits (with_rev_history asked_revs c2)
              _ (with_rev_history-Has asked_revs c2 r k2)
              λ c3 k3.
                then_ok-Gives (λ x. Has r h x.1) Limits
                  (with_context p (query.get (codes "contextFile")) u connections (with_tls tls c3))
                  _
                  (with_context-Has p r h (query.get (codes "contextFile")) u connections
                    (with_tls tls c3) (with_tls-Has p r h tls c3 k3.0))
                  λ x k4. limits r h (finish p query x) (finish-Has p r h query x k4) k1.1 k3.1
  where
    limits :
        (r h : ℕ) (o : Result Error Config)
        → Gives (Has r h) o
        → Between 1 5 r
        → Between 2 64 h
        → Gives (λ c. Has r h c × Between 1 5 r × Between 2 64 h) o
    limits r h (ok c) k a b = (k, a, b)
    limits r h (failed e) k a b = tt

-- A configuration that is read from a connection string has the replicas and the length of the
-- history that its first URL asks for by a number of eight bits, and else 1 and 10; the replicas
-- are 1 to 5, and the history 2 to 64.
pub parse_connection_bounds :
    (p : Parsers) (dsn : Bytes) (tls : TlsInfo) (u : Url) (query : Query) (c : Config)
    → p.parse_url (first_of p (split_on b',' dsn)) ≡ ok u
    → p.parse_query u.raw_query ≡ ok query
    → parse_connection p dsn tls ≡ ok c
    → (c.replicas ≡ asked 1 (parse_uint8 (query.get (codes "replicas"))))
      × (c.rev_history ≡ asked 10 (parse_uint8 (query.get (codes "revHistory"))))
      × Between 1 5 c.replicas
      × Between 2 64 c.rev_history
unfolding parse_connection
parse_connection_bounds p dsn tls u query c url parsed result =
    let k = configure-Has p tls (split_on b',' dsn) u query in
    let same : configure p tls (split_on b',' dsn) u query ≡ ok c = rw (url, parsed) at result in
    let (has, a, b) = rw same at k in (has.0, has.1, rw has.0 a, rw has.1 b)
