-- ===== src/Api/Webhooks/Vetting.antt =====
-- A delivery connects only to an address that was vetted.
use mathlib.Core.List.{Memᴰ}
use cellora.Prelude.{
  ◌≡◌, refl, false, Bool-cases, inl, inr, Option, none, some, List, [], ◌∷◌, Bytes, Result, ok, err,
  ok_or, All, Ensures, Ensures-bind, Ensures-guard, Ensures-ok, ok_or-eq-ok,
}
use cellora.Api.Webhooks.{
  SocketAddr, Network, is_blocked_ip, resolve_host, pin, build_pinned_client,
}

-- None of the addresses is blocked.
abbrev pub NoneBlocked : List SocketAddr → Type 0
NoneBlocked = All λ (addr : SocketAddr). is_blocked_ip addr.ip ≡ false

-- The host resolved to public addresses only, of which the client's is one.
abbrev pub Vetted : Network → Bytes → SocketAddr → Type 0
Vetted net raw pinned =
    (host : Bytes) × (addrs : List SocketAddr) × (resolve_host net raw ≡ ok (host, addrs))
    × NoneBlocked addrs
    × Memᴰ pinned addrs

-- what `pin` returns: a first address that it was given, or one of the list
abbrev Pinned : Option SocketAddr → List SocketAddr → Option SocketAddr → Type 0
Pinned (some first) addrs found = NoneBlocked addrs × (found ≡ some first)
Pinned none [] found = found ≡ none
Pinned none (addr ∷ addrs) found = NoneBlocked (addr ∷ addrs) × (found ≡ some addr)

pin-some :
    (first : SocketAddr) (addrs : List SocketAddr)
    → Ensures (Pinned (some first) addrs) (pin (some first) addrs)
unfolding pin
pin-some first [] = (tt, refl)
pin-some first (addr ∷ addrs) = elim (Bool-cases (is_blocked_ip addr.ip)) [
  | inl e ↦ rw e tt
  | inr e ↦ rw e (add e (pin (some first) addrs) (pin-some first addrs))
]
  where
    add :
        is_blocked_ip addr.ip ≡ false
        → (r : Result Bytes (Option SocketAddr)) → Ensures (Pinned (some first) addrs) r
        → Ensures (Pinned (some first) (addr ∷ addrs)) r
    add e (ok found) h = ((e, h.0), h.1)
    add e (err m) h = tt

pin-none : (addrs : List SocketAddr) → Ensures (Pinned none addrs) (pin none addrs)
unfolding pin
pin-none [] = refl
pin-none (addr ∷ addrs) = elim (Bool-cases (is_blocked_ip addr.ip)) [
  | inl e ↦ rw e tt
  | inr e ↦ rw e (add e (pin (some addr) addrs) (pin-some addr addrs))
]
  where
    add :
        is_blocked_ip addr.ip ≡ false
        → (r : Result Bytes (Option SocketAddr)) → Ensures (Pinned (some addr) addrs) r
        → Ensures (Pinned none (addr ∷ addrs)) r
    add e (ok found) h = ((e, h.0), h.1)
    add e (err m) h = tt

Pinned-Mem :
    (addrs : List SocketAddr) (found : Option SocketAddr) (pinned : SocketAddr)
    → Pinned none addrs found
    → found ≡ some pinned
    → NoneBlocked addrs × Memᴰ pinned addrs
Pinned-Mem [] found pinned h e = absurd (cc (h, e))
Pinned-Mem (addr ∷ addrs) found pinned h e =
    let same : pinned ≡ addr = cc (h.1, e) in (h.0, Memᴰ.head same)

built : (net : Network) (raw : Bytes) → Ensures (Vetted net raw) (build_pinned_client net raw)
unfolding build_pinned_client
built net raw =
    let P : SocketAddr → Type 0 = Vetted net raw in
    Ensures-bind P (resolve_host net raw) _ λ a ea. Ensures-bind P (pin none a.1) _ λ found ef.
      Ensures-bind P (ok_or found _) _ λ pinned ep. Ensures-guard P (net.build a.0 pinned) _ _ λ _.
        let public =
          Pinned-Mem a.1 found pinned
            (Ensures-ok (Pinned none a.1) (pin none a.1) found (pin-none a.1) ef)
            (ok_or-eq-ok found _ ep) in
        (a.0, a.1, ea, public.0, public.1)

-- A delivery's client is pinned to one of the addresses that the host resolved to in that same
-- lookup, and none of those is blocked.
pub build_pinned_client-Vetted :
    (net : Network) (raw : Bytes) (pinned : SocketAddr)
    → build_pinned_client net raw ≡ ok pinned
    → Vetted net raw pinned
build_pinned_client-Vetted net raw pinned h =
    Ensures-ok (Vetted net raw) (build_pinned_client net raw) pinned (built net raw) h
