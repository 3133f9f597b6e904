-- ===== src/Api/Webhooks/Signed.antt =====
-- What a receiver can rely on in the requests that a delivery makes.
use mathlib.Core.Path.{subst}
use cellora.Prelude.{
  ◌≡◌, refl, Bool, false, ℕ, Option, none, some, List, ◌++◌, Bytes, bytes_eq, bytes_eq_refl, codes,
  inl, inr, Result-cases, first,
}
use cellora.Prelude.Text.{decimal}
use cellora.Api.Webhooks.{SocketAddr, Network, build_pinned_client}
use cellora.Api.Webhooks.Vetting.{Vetted, build_pinned_client-Vetted}
use cellora.Api.Webhooks.Delivery.{
  Signing, Delivery, OutboundRequest, signed_bytes, signature_with, signature_headers, post,
  deliver,
}

-- the first header of a name
unfoldable pub header : Bytes → List (Bytes × Bytes) → Option Bytes
header name headers = elim (first (λ (h : Bytes × Bytes). bytes_eq h.0 name) headers) [
  | none ↦ none
  | some h ↦ some h.1
]

-- the digest that the receiver computes, against the one that it was sent
unfoldable pub compares : Signing → (Bytes → Bytes) → Bytes → Option Bytes → Option Bytes → Bool
compares sign mac body (some timestamp) (some signature) =
    bytes_eq signature (codes "sha256=" ++ sign.hex_encode (mac (timestamp ++ codes "." ++ body)))
compares sign mac body timestamp signature = false

-- How a receiver that has the secret checks a request.
unfoldable pub passes : Signing → Option (Bytes → Bytes) → OutboundRequest → Bool
passes sign none r = false
passes sign (some mac) r =
    compares sign mac r.body (header (codes "x-webhook-timestamp") r.headers)
      (header (codes "x-webhook-signature") r.headers)

-- How a receiver that has the secret checks a request.
unfoldable pub authentic : Signing → Bytes → OutboundRequest → Bool
authentic sign secret r = passes sign (sign.new_from_slice secret) r

-- Signed, if there is a secret.
abbrev pub Signed : Signing → Option Bytes → OutboundRequest → Type 0
Signed sign none r = header (codes "x-webhook-signature") r.headers ≡ none
Signed sign (some secret) r = authentic sign secret r ≡ Bool.true

-- HMAC takes keys of every length.
abbrev pub AnyKey : Signing → Type 0
AnyKey sign = (key : Bytes) → (mac : Bytes → Bytes) × (sign.new_from_slice key ≡ some mac)

post-Signed :
    (sign : Signing) (timestamp : ℕ) (url : Bytes) (secret : Option Bytes) (body : Bytes)
    (pinned : SocketAddr)
    → AnyKey sign
    → Signed sign secret
        (post sign timestamp (record { url = url; secret = secret; body = body }) pinned)
unfolding header first authentic passes compares signature_headers signature_with signed_bytes
    bytes_eq
post-Signed sign timestamp url none body pinned keys = refl
post-Signed sign timestamp url (some secret) body pinned keys =
    let mac = keys secret in
    rw mac.1 (bytes_eq_refl (sign.hex_encode (mac.0 (signed_bytes (decimal timestamp) body))))

-- A delivery posts its body to its URL, through one of the addresses that the host of the URL resolves
-- to at that time, none of which is_blocked_ip blocks; with a secret the request passes the check of a receiver that
-- knows it, and without one it has no signature. HMAC is taken to accept any key.
pub deliver-Signed :
    (sign : Signing) (net : Network) (timestamp : ℕ) (d : Delivery) (r : OutboundRequest)
    → AnyKey sign
    → deliver sign net timestamp d ≡ some r
    → (r.url ≡ d.url) × (r.body ≡ d.body) × Vetted net d.url r.address × Signed sign d.secret r
unfolding deliver
deliver-Signed sign net timestamp d r keys h = elim (Result-cases (build_pinned_client net d.url)) [
  | inl (pinned, e) ↦
      let same : post sign timestamp d pinned ≡ r = cc (rw e at h) in
      subst
        (λ (q : OutboundRequest).
          (q.url ≡ d.url) × (q.body ≡ d.body) × Vetted net d.url q.address × Signed sign d.secret q)
        same
        (
          refl,
          refl,
          build_pinned_client-Vetted net d.url pinned e,
          post-Signed sign timestamp d.url d.secret d.body pinned keys,
        )
  | inr (reason, e) ↦ absurd (cc (rw e at h))
]
