-- ===== src/Api/RateLimit/Admission.antt =====
-- How many requests a bucket admits, and when a denied one can be repeated.
use mathlib.Core.Path.{subst}
use native.Mathlib.Nat.{lt-div-mul-add}
use cellora.Prelude.{
  ℕ, ◌+◌, ◌-◌, ◌*◌, ◌/◌, ◌≤◌, ◌<◌, ◌≡◌, refl, sym, ap, ◌∙◌, Bool-cases, inl, inr, Option, none,
  some, List, [], ◌∷◌, arith, leb, lt→ltb, leb→le, le→leb,
}
use cellora.Api.RateLimit.{
  LimitParams, Bucket, one, div_ceil, present, refilled, ttl_ms, retry_after, kept, token_bucket,
}

-- The requests admitted of those made at the given times.
unfoldable pub admitted : LimitParams → List ℕ → Option Bucket → ℕ
admitted p [] stored = 0
admitted p (now ∷ times) stored =
    let (reply, b) = token_bucket p now 1 stored in reply.allowed + admitted p times (some b)

-- The last of the times, or `t` where there is none.
abbrev pub last_time : ℕ → List ℕ → ℕ
last_time t [] = t
last_time t (now ∷ times) = last_time now times

-- The times do not go back, from `t` on.
abbrev pub InOrder : ℕ → List ℕ → Type 0
InOrder t [] = Unit {0}
InOrder t (now ∷ times) = (t ≤ now) × InOrder now times

div_ceil-covers : (a b : ℕ) → 0 < b → a ≤ div_ceil a b * b
div_ceil-covers a b h =
    let step : a + (b - 1) < (a + (b - 1)) / b * b + b = lt-div-mul-add h in omega (arith, step)

gap : (t now r : ℕ) → t ≤ now → (now - t) * r + t * r ≡ now * r
gap t now r h = grind arith

mul_le : (a b r : ℕ) → a ≤ b → a * r ≤ b * r
mul_le a b r h = grind arith

ttl_covers : (p : LimitParams) → 0 < p.refill → p.burst * one p ≤ ttl_ms p * p.refill
unfolding ttl_ms
ttl_covers p h =
    rw (lt→ltb 0 p.refill h) (omega (arith, div_ceil-covers (p.burst * one p * 2) p.refill h))

-- The bucket has never more than what it had and what time has refilled: a bucket that Redis let
-- expire would have been full.
refilled-gain :
    (p : LimitParams) (b : Bucket) (now : ℕ)
    → 0 < p.refill
    → b.last ≤ now
    → b.expires_at ≡ b.last + ttl_ms p
    → refilled p now (present now (some b)) + b.last * p.refill ≤ b.tokens + now * p.refill
unfolding present refilled
refilled-gain p b now h le e =
    let full = ttl_covers p h in
    let time = gap b.last now p.refill le in
    elim (Bool-cases (leb b.expires_at now)) [
      | inl gone ↦
          let late =
            mul_le (ttl_ms p) (now - b.last) p.refill
              (ground (arith, e, leb→le b.expires_at now gone)) in
          rw gone (omega (arith, late, full, time))
      | inr live ↦ rw live (omega (arith, time))
    ]

-- The potential of a bucket: admitting costs a token, and waiting refills.
token_bucket-gain :
    (p : LimitParams) (b : Bucket) (now : ℕ)
    → 0 < p.refill
    → b.last ≤ now
    → b.expires_at ≡ b.last + ttl_ms p
    → (token_bucket p now 1 (some b)).0.allowed * one p
        + ((token_bucket p now 1 (some b)).1.tokens + b.last * p.refill)
      ≤ b.tokens + now * p.refill
unfolding token_bucket kept
token_bucket-gain p b now h le e =
    let gain = refilled-gain p b now h le e in
    elim (Bool-cases (leb (1 * one p) (refilled p now (present now (some b))))) [
      | inl enough ↦ rw enough (omega (arith, gain, leb→le (1 * one p) _ enough))
      | inr short ↦ rw short (omega (arith, gain))
    ]

token_bucket-kept :
    (p : LimitParams) (stored : Option Bucket) (now : ℕ)
    → ((token_bucket p now 1 stored).1.last ≡ now)
      × ((token_bucket p now 1 stored).1.expires_at ≡ now + ttl_ms p)
unfolding token_bucket kept
token_bucket-kept p stored now =
    elim (Bool-cases (leb (1 * one p) (refilled p now (present now stored)))) [
      | inl enough ↦ rw enough (refl, refl)
      | inr short ↦ rw short (refl, refl)
    ]

admitted-some :
    (p : LimitParams) (times : List ℕ) (b : Bucket)
    → 0 < p.refill
    → InOrder b.last times
    → b.expires_at ≡ b.last + ttl_ms p
    → admitted p times (some b) * one p + b.last * p.refill
      ≤ b.tokens + last_time b.last times * p.refill
unfolding admitted
admitted-some p [] b h order e = omega arith
admitted-some p (now ∷ times) b h order e =
    let (last, expires) = token_bucket-kept p (some b) now in
    let next = (token_bucket p now 1 (some b)).1 in
    let ih =
      admitted-some p times next h (subst (λ t. InOrder t times) (sym last) order.1)
        (expires ∙ ap (λ t. t + ttl_ms p) (sym last)) in
    let ih' =
      subst
        (λ t.
          admitted p times (some next) * one p + t * p.refill
          ≤ next.tokens + last_time t times * p.refill)
        last ih in
    let gain = token_bucket-gain p b now h order.0 e in grind (arith, ih', gain)

-- a full bucket, which acts as a missing one
abbrev full : LimitParams → ℕ → Bucket
full p now = record { tokens = p.burst * one p; last = now; expires_at = now + ttl_ms p }

full-refilled :
    (p : LimitParams) (now : ℕ) → refilled p now (present now (some (full p now))) ≡ p.burst * one p
unfolding present refilled
full-refilled p now = elim (Bool-cases (leb (now + ttl_ms p) now)) [
  | inl gone ↦ rw gone
  | inr live ↦ rw live (ground arith)
]

full-token_bucket :
    (p : LimitParams) (now : ℕ)
    → token_bucket p now 1 (some (full p now)) ≡ token_bucket p now 1 none
unfolding token_bucket
full-token_bucket p now = rw (full-refilled p now, missing p now)
  where
    missing : (p : LimitParams) (now : ℕ) → refilled p now (present now none) ≡ p.burst * one p
    missing p now = unfold refilled in unfold present in refl

last_time_le : (t : ℕ) (times : List ℕ) → InOrder t times → t ≤ last_time t times
last_time_le t [] order = omega arith
last_time_le t (now ∷ times) order = omega (arith, order.0, last_time_le now times order.1)

denied_by :
    (p : LimitParams) (stored : Option Bucket) (now : ℕ)
    → (token_bucket p now 1 stored).0.allowed ≡ 0
    → ((token_bucket p now 1 stored).0.retry_after_ms
        ≡ retry_after p 1 (refilled p now (present now stored)))
      × ((token_bucket p now 1 stored).1 ≡ kept p now (refilled p now (present now stored)))
unfolding token_bucket
denied_by p stored now denied =
    elim (Bool-cases (leb (1 * one p) (refilled p now (present now stored)))) [
      | inl enough ↦ absurd (omega (arith, rw enough at denied))
      | inr short ↦ rw short (refl, refl)
    ]

-- A bucket that starts full admits, over requests at times in order, at most its burst and what the
-- refill rate yields between the first request and the last (in units of a token).
pub admitted-Bounded :
    (p : LimitParams) (first : ℕ) (times : List ℕ)
    → 0 < p.refill
    → InOrder first times
    → admitted p (first ∷ times) none * one p
      ≤ p.burst * one p + (last_time first times - first) * p.refill
admitted-Bounded p first times h order =
    let b = full p first in
    let bound = admitted-some p (first ∷ times) b h (omega arith, order) refl in
    let later = last_time_le first times order in
    let time = gap first (last_time first times) p.refill later in
    let count : admitted p (first ∷ times) none ≡ admitted p (first ∷ times) (some b) =
      unfold admitted in rw (full-token_bucket p first) in
    rw count (omega (arith, bound, time))

admitted_when :
    (p : LimitParams) (stored : Option Bucket) (now : ℕ)
    → 1 * one p ≤ refilled p now (present now stored)
    → (token_bucket p now 1 stored).0.allowed ≡ 1
unfolding token_bucket
admitted_when p stored now h = rw (le→leb (1 * one p) (refilled p now (present now stored)) h)

waited :
    (p : LimitParams) (tokens now later : ℕ)
    → 0 < p.refill
    → 1 ≤ p.burst
    → now + retry_after p 1 tokens ≤ later
    → 1 * one p ≤ refilled p later (present later (some (kept p now tokens)))
unfolding retry_after refilled present kept
waited p tokens now later h burst wait =
    let wait' : now + div_ceil (1 * one p - tokens) p.refill ≤ later =
      rw (lt→ltb 0 p.refill h) at wait in
    let fill = div_ceil-covers (1 * one p - tokens) p.refill h in
    let time =
      mul_le (div_ceil (1 * one p - tokens) p.refill) (later - now) p.refill
        (omega (arith, wait')) in
    let room = mul_le 1 p.burst (one p) burst in
    elim (Bool-cases (leb (now + ttl_ms p) later)) [
      | inl gone ↦ rw gone room
      | inr live ↦ rw live (omega (arith, fill, time, room))
    ]

-- A request that was denied is admitted, for a burst of at least one token and if nothing else was
-- asked of the bucket, from the moment on that `Retry-After` names in whole seconds.
pub retry_after-suffices :
    (p : LimitParams) (stored : Option Bucket) (now later : ℕ)
    → 0 < p.refill
    → 1 ≤ p.burst
    → (token_bucket p now 1 stored).0.allowed ≡ 0
    → now + div_ceil (token_bucket p now 1 stored).0.retry_after_ms 1000 * 1000 ≤ later
    → (token_bucket p later 1 (some (token_bucket p now 1 stored).1)).0.allowed ≡ 1
retry_after-suffices p stored now later h burst denied wait =
    let (ms, bucket) = denied_by p stored now denied in
    let whole = div_ceil-covers (token_bucket p now 1 stored).0.retry_after_ms 1000 (omega arith) in
    admitted_when p (some (token_bucket p now 1 stored).1) later (
      subst (λ b. 1 * one p ≤ refilled p later (present later (some b))) (sym bucket)
        (waited p (refilled p now (present now stored)) now later h burst
          (omega (arith, ms, whole, wait))))
