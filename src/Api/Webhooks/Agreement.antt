-- ===== src/Api/Webhooks/Agreement.antt =====
-- A URL that is accepted when a webhook is created is one that a delivery would accept.
use cellora.Prelude.{
  ◌≡◌, ◌↔◌, refl, true, false, Bool, Bool-cases, inl, inr, Option, none, some, List, [], ◌∷◌, Bytes,
  codes, Result, ok, err, ok_or, guard, ◌>>=◌, ◌>>◌,
}
use cellora.Api.Webhooks.{
  SocketAddr, Network, is_blocked_ip, resolve_host, pin, build_pinned_client, vet,
  validate_webhook_url,
}

-- what `validate_webhook_url` does with the outcome of its loop
abbrev judged : Result Bytes Bool → Result Bytes (Unit {0})
judged r = r >>= λ resolved. guard resolved (codes "url did not resolve to any address")

-- what `build_pinned_client` does with the outcome of its loop
abbrev connected : Network → Bytes → Result Bytes (Option SocketAddr) → Result Bytes SocketAddr
connected net host r = r >>= λ found.
    ok_or found (codes "url did not resolve to any address") >>= λ p.
    guard (net.build host p) (codes "failed to build http client") >> ok p

pin-vet :
    (first : SocketAddr) (addrs : List SocketAddr)
    → pin (some first) addrs ≡ (vet true addrs >>= λ _. ok (some first))
unfolding pin vet
pin-vet first [] = refl
pin-vet first (addr ∷ addrs) = elim (Bool-cases (is_blocked_ip addr.ip)) [
  | inl e ↦ rw e
  | inr e ↦ rw (e, pin-vet first addrs)
]

vet-true : (addrs : List SocketAddr) (b : Bool) → vet true addrs ≡ ok b → b ≡ true
unfolding vet
vet-true [] b h = cc
vet-true (addr ∷ addrs) b h = elim (Bool-cases (is_blocked_ip addr.ip)) [
  | inl e ↦ absurd (cc (rw e at h))
  | inr e ↦ vet-true addrs b (rw e at h)
]

-- The checks agree on every list of addresses.
chosen :
    (net : Network) (host : Bytes) (addrs : List SocketAddr)
    → ((h : Bytes) (a : SocketAddr) → net.build h a ≡ true)
    → (judged (vet false addrs) ≡ ok tt)
      ↔ ((pinned : SocketAddr) × (connected net host (pin none addrs) ≡ ok pinned))
unfolding pin vet
chosen net host [] always = (λ h. absurd cc, λ x. absurd (cc x.1))
chosen net host (addr ∷ addrs) always = elim (Bool-cases (is_blocked_ip addr.ip)) [
  | inl e ↦ rw e (λ h. absurd cc, λ x. absurd (cc x.1))
  | inr e ↦ rw (e, pin-vet addr addrs) (by_vet (vet true addrs) (vet-true addrs))
]
  where
    by_vet :
        (r : Result Bytes Bool)
        → ((b : Bool) → r ≡ ok b → b ≡ true)
        → (judged r ≡ ok tt)
          ↔ ((pinned : SocketAddr) × (connected net host (r >>= λ _. ok (some addr)) ≡ ok pinned))
    by_vet (ok b) all = (λ h. (addr, rw (always host addr)), λ x. rw (all b refl))
    by_vet (err m) all = (λ h. absurd cc, λ x. absurd (cc x.1))

-- With the same answers of the resolver, and a client that can be built, a URL passes the check at
-- creation exactly when a delivery would find an address to connect to.
pub validate_webhook_url-build_pinned_client :
    (net : Network) (raw : Bytes)
    → ((h : Bytes) (a : SocketAddr) → net.build h a ≡ true)
    → (validate_webhook_url net raw ≡ ok tt)
      ↔ ((pinned : SocketAddr) × (build_pinned_client net raw ≡ ok pinned))
unfolding validate_webhook_url build_pinned_client
validate_webhook_url-build_pinned_client net raw always = by_host (resolve_host net raw)
  where
    by_host :
        (r : Result Bytes (Bytes × List SocketAddr))
        → ((r >>= λ (host, addrs). judged (vet false addrs)) ≡ ok tt) ↔ (
            (pinned : SocketAddr) × ((r >>= λ (host, addrs). connected net host (pin none addrs))
              ≡ ok pinned))
    by_host (ok (host, addrs)) = chosen net host addrs always
    by_host (err m) = (λ h. absurd cc, λ x. absurd (cc x.1))
