-- ===== src/Endpoint.antt =====
-- kine/pkg/endpoint/endpoint.go: the schemes of the listener and of the storage endpoint.
pub mod Schemes
use thesis_code.Prelude.{
  ℕ, Bytes, codes, bytes_eq, has_prefix, ℤ, Bool, true, false, not, ◌&&◌, List, [], ◌∷◌, ◌++◌, drop,
  Option, none, some, if◌then◌else◌,
}

abbrev pub separator : Bytes
separator = codes "://"

abbrev pub extend : ℕ → Bytes × Bytes → Bytes × Bytes
extend b (network, address) = (b ∷ network, address)

-- strings.SplitN(str, "://", 2): what stands before the first separator and what stands after it.
unfoldable pub split : Bytes → Option (Bytes × Bytes)
unfolding has_prefix
split [] = none
split (b ∷ str) =
    let rest = split str in
    if has_prefix (b ∷ str) separator
    then some ([], drop 3 (b ∷ str))
    else elim rest [ none ↦ none | some parts ↦ some (extend b parts) ]

unfoldable pub network_and_address : Bytes → Bytes × Bytes
unfolding split
network_and_address str = elim (split str) [ none ↦ ([], str) | some parts ↦ parts ]

-- The driver and the data source name.
unfoldable pub parse_storage_endpoint : Bytes → Bytes × Bytes
unfolding network_and_address bytes_eq
parse_storage_endpoint endpoint =
    let (network, address) = network_and_address endpoint in
    if bytes_eq network []
    then (codes "sqlite", [])
    else if bytes_eq network (codes "nats")
    then (codes "nats", endpoint)
    else if bytes_eq network (codes "http")
    then (codes "etcd3", address)
    else if bytes_eq network (codes "https")
    then (codes "etcd3", address)
    else (network, address)

-- The listener and the files of the certificate and of its key, of a Config.
pub record Config : Type 0 where
  pub listener : Bytes
  pub cert_file : Bytes
  pub key_file : Bytes

abbrev pub kine_socket : Bytes
kine_socket = codes "unix://kine.sock"

abbrev pub has_tls : Config → Bool
has_tls config = not (bytes_eq config.cert_file []) && not (bytes_eq config.key_file [])

unfoldable pub endpoint_scheme : Config → Bytes
unfolding network_and_address bytes_eq
endpoint_scheme config =
    let listener = if bytes_eq config.listener [] then kine_socket else config.listener in
    let (network, address) = network_and_address listener in
    let scheme = if bytes_eq network (codes "unix") then network else codes "http" in
    if has_tls config then scheme ++ codes "s" else scheme

-- What createListener gives to net.Listen.
unfoldable pub listen_address : Config → Bytes × Bytes
unfolding network_and_address bytes_eq
listen_address config =
    let listener = if bytes_eq config.listener [] then kine_socket else config.listener in
    let (network, address) = network_and_address listener in
    (if bytes_eq network (codes "unix") then network else codes "tcp", address)
