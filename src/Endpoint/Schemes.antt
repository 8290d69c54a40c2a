-- ===== src/Endpoint/Schemes.antt =====
-- How an endpoint is split, and the schemes that come out.
use thesis_code.Prelude.{
  Bytes, codes, sym, append-nil, bytes_eq, bytes_eq-eq, has_prefix, Bool, true, false, Bool-cases,
  inl, inr, [], ◌∷◌, ◌++◌, some, ◌≡◌, ◌≢◌, refl, arith, All, if◌then◌else◌,
}
use thesis_code.Endpoint.{
  separator, split, network_and_address, Config, has_tls, endpoint_scheme, listen_address,
  kine_socket,
}

-- A scheme: no colon in it.
abbrev pub IsScheme : Bytes → Type 0
IsScheme = All (λ b. b ≢ 58)

split-append :
    (network address : Bytes)
    → IsScheme network
    → split (network ++ (separator ++ address)) ≡ some (network, address)
unfolding split has_prefix
split-append [] address h = refl
split-append (b ∷ network) address h = ground (arith, split-append network address h.1, h.0)

-- An endpoint "network://address" whose network has no colon is split at that separator, whatever
-- other separators the address has.
pub network_and_address-append :
    (network address : Bytes)
    → IsScheme network
    → network_and_address (network ++ (separator ++ address)) ≡ (network, address)
unfolding network_and_address
network_and_address-append network address h =
    rw (split-append network address h, network_and_address)

scheme_fits :
    (network : Bytes) (tls : Bool)
    → (let scheme = if bytes_eq network (codes "unix") then network else codes "http" in
        if tls then scheme ++ codes "s" else scheme)
      ≡ (if bytes_eq
            (if bytes_eq network (codes "unix") then network else codes "tcp")
            (codes "unix")
          then codes "unix"
          else codes "http")
        ++ (if tls then codes "s" else [])
unfolding bytes_eq
scheme_fits network tls = elim (Bool-cases (bytes_eq network (codes "unix"))) [
  | inl e ↦ rw (bytes_eq-eq network (codes "unix") e) (append_if tls (codes "unix"))
  | inr e ↦ rw e (append_if tls (codes "http"))
]
  where
    append_if :
        (b : Bool) (scheme : Bytes)
        → (if b then scheme ++ codes "s" else scheme) ≡ scheme ++ (if b then codes "s" else [])
    append_if true scheme = refl
    append_if false scheme = sym (append-nil scheme)

-- The scheme that clients are told fits what createListener listens on: it is "unix" for a unix
-- socket and "http" for anything else, with an "s" behind it exactly when both the certificate and
-- its key are configured.
pub endpoint_scheme_lem :
    (config : Config)
    → endpoint_scheme config
      ≡ (if bytes_eq (listen_address config).0 (codes "unix") then codes "unix" else codes "http")
        ++ (if has_tls config then codes "s" else [])
unfolding endpoint_scheme listen_address
endpoint_scheme_lem config =
    scheme_fits
      (network_and_address (if bytes_eq config.listener [] then kine_socket else config.listener)).0
      (has_tls config)
