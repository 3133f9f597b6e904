-- ===== src/Api/Webhooks.antt =====
-- crates/api/src/webhooks.rs, the choice of the address that a delivery connects to. The URL parser,
-- the resolver and the HTTP client's builder are the fields of `Network`.
pub mod Vetting
pub mod Agreement
pub mod Delivery
pub mod Routes
pub mod Due
pub mod Signed
pub mod Owner
pub mod Fires
mod Tests
use cellora.Prelude.{
  ℕ, ◌/◌, ◌*◌, ◌+◌, ◌%◌, Bool, true, false, ◌&&◌, ◌||◌, not, Option, none, some, List, [], ◌∷◌,
  Bytes, bytes_eq, codes, Result, ok, err, ok_or, guard, ◌>>=◌, ◌>>◌, leb, ◌==◌, if◌then◌else◌,
}

-- std's `Ipv4Addr` as its octets, and `Ipv6Addr` as its segments
pub data IpAddr : Type 0 where
  v4 : (a b c d : ℕ) → IpAddr
  v6 : (s0 s1 s2 s3 s4 s5 s6 s7 : ℕ) → IpAddr

pub record SocketAddr : Type 0 where
  pub ip : IpAddr
  pub port : ℕ

-- is_private: 10.0.0.0/8, 172.16.0.0/12, 192.168.0.0/16
unfoldable pub is_private : ℕ → ℕ → Bool
is_private a b = a == 10 || (a == 172 && (leb 16 b && leb b 31) || a == 192 && b == 168)

-- is_documentation: 192.0.2.0/24, 198.51.100.0/24, 203.0.113.0/24
unfoldable pub is_documentation : ℕ → ℕ → ℕ → Bool
is_documentation a b c =
    a == 192 && (b == 0 && c == 2)
    || (a == 198 && (b == 51 && c == 100) || a == 203 && (b == 0 && c == 113))

-- is_loopback, is_private, is_link_local, is_unspecified, is_broadcast, is_documentation, and the
-- three tests of the octets
unfoldable pub is_blocked_v4 : ℕ → ℕ → ℕ → ℕ → Bool
is_blocked_v4 a b c d =
    a == 127
    || (is_private a b
        || (a == 169 && b == 254
            || (a == 0 && (b == 0 && (c == 0 && d == 0))
                || (a == 255 && (b == 255 && (c == 255 && d == 255))
                    || (is_documentation a b c
                        || (a == 0 || (leb 240 a || a == 100 && b / 64 == 1)))))))

-- to_ipv4_mapped: ::ffff:0:0/96
unfoldable pub is_mapped : ℕ → ℕ → ℕ → ℕ → ℕ → ℕ → Bool
is_mapped s0 s1 s2 s3 s4 s5 =
    s0 == 0 && (s1 == 0 && (s2 == 0 && (s3 == 0 && (s4 == 0 && s5 == 65535))))

-- seven segments of zeros before the last
unfoldable pub is_low : ℕ → ℕ → ℕ → ℕ → ℕ → ℕ → ℕ → Bool
is_low s0 s1 s2 s3 s4 s5 s6 =
    s0 == 0 && (s1 == 0 && (s2 == 0 && (s3 == 0 && (s4 == 0 && (s5 == 0 && s6 == 0)))))

unfoldable pub is_blocked_ip : IpAddr → Bool
is_blocked_ip (v4 a b c d) = is_blocked_v4 a b c d
is_blocked_ip (v6 s0 s1 s2 s3 s4 s5 s6 s7) =
    if is_mapped s0 s1 s2 s3 s4 s5
    then is_blocked_v4 (s6 / 256) (s6 % 256) (s7 / 256) (s7 % 256)
    else is_low s0 s1 s2 s3 s4 s5 s6 && s7 == 1
      || (is_low s0 s1 s2 s3 s4 s5 s6 && s7 == 0
          || (s0 / 256 == 255 || (s0 / 512 == 126 || s0 / 64 == 1018)))

pub record Url : Type 0 where
  pub scheme : Bytes
  pub host : Option Bytes
  pub port : Option ℕ

-- `Url::parse`, `lookup_host`, and whether `Client::builder` builds a client pinned to an address
pub record Network : Type 0 where
  pub parse : Bytes → Option Url
  pub lookup_host : Bytes → ℕ → Option (List SocketAddr)
  pub build : Bytes → SocketAddr → Bool

unfoldable pub port_or_known_default : Url → ℕ
port_or_known_default url = elim url.port [
  | some port ↦ port
  | none ↦ if bytes_eq url.scheme (codes "http") then 80 else 443
]

-- the checks that both functions start with: the host, and the addresses that it resolves to
unfoldable pub resolve_host : Network → Bytes → Result Bytes (Bytes × List SocketAddr)
resolve_host net raw = do
  url ← ok_or (net.parse raw) (codes "invalid url")
  guard (bytes_eq url.scheme (codes "http") || bytes_eq url.scheme (codes "https"))
      (codes "scheme must be http or https")
  host ← ok_or url.host (codes "url has no host")
  addrs ← ok_or (net.lookup_host host (port_or_known_default url)) (codes "could not resolve host")
  ok (host, addrs)

-- `if pinned.is_none()`
abbrev pub first_of : Option SocketAddr → SocketAddr → Option SocketAddr
first_of none addr = some addr
first_of (some p) addr = some p

-- the loop that keeps the first address and rejects any blocked one
unfoldable pub pin : Option SocketAddr → List SocketAddr → Result Bytes (Option SocketAddr)
pin pinned [] = ok pinned
pin pinned (addr ∷ addrs) =
    let rest = pin (first_of pinned addr) addrs in
    if is_blocked_ip addr.ip then err (codes "url resolves to a non-public address") else rest

-- The client is the address that it is pinned to.
unfoldable pub build_pinned_client : Network → Bytes → Result Bytes SocketAddr
build_pinned_client net raw = do
  (host, addrs) ← resolve_host net raw
  found ← pin none addrs
  pinned ← ok_or found (codes "url did not resolve to any address")
  guard (net.build host pinned) (codes "failed to build http client")
  ok pinned

-- the loop of `validate_webhook_url`, and whether it saw an address
unfoldable pub vet : Bool → List SocketAddr → Result Bytes Bool
vet resolved [] = ok resolved
vet resolved (addr ∷ addrs) =
    let rest = vet true addrs in
    if is_blocked_ip addr.ip then err (codes "url resolves to a non-public address") else rest

unfoldable pub validate_webhook_url : Network → Bytes → Result Bytes (Unit {0})
validate_webhook_url net raw = do
  (host, addrs) ← resolve_host net raw
  resolved ← vet false addrs
  guard resolved (codes "url did not resolve to any address")
