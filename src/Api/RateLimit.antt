-- ===== src/Api/RateLimit.antt =====
-- crates/api/src/ratelimit.rs: the token bucket that the Lua script keeps in Redis.
-- A refill rate is a fraction, `refill / per` tokens per second, and tokens are counted in units of
-- 1 / (1000 * per) of a token, so the bucket gains `refill` units a millisecond and the script's
-- floating-point numbers are exact here. One clock serves the service and Redis's expiry.
pub mod Admission
use mathlib.Core.Option
use cellora.Prelude.{
  ℕ, ◌+◌, ◌-◌, ◌*◌, ◌/◌, min, Bool, true, false, Option, none, some, List, [], ◌∷◌, ◌++◌, Bytes,
  bytes_eq, codes, Result, ok, err, ltb, leb, ◌==◌, if◌then◌else◌,
}
use cellora.Db.Rows.{ApiKeyTier, free, starter, pro}

pub data Surface : Type 0 where
  rest graphql : Surface

unfoldable pub slug : Surface → Bytes
slug rest = codes "rest"
slug graphql = codes "graphql"

-- `burst`, and `refill_per_sec` as a fraction
pub record LimitParams : Type 0 where
  pub burst : ℕ
  pub refill : ℕ
  pub per : ℕ

-- The limits of `Config`.
pub record Limits : Type 0 where
  pub free_rest : LimitParams
  pub starter_rest : LimitParams
  pub pro_rest : LimitParams
  pub free_graphql : LimitParams
  pub starter_graphql : LimitParams
  pub pro_graphql : LimitParams

unfoldable pub from_config : Limits → ApiKeyTier → Surface → LimitParams
from_config config free rest = config.free_rest
from_config config starter rest = config.starter_rest
from_config config pro rest = config.pro_rest
from_config config free graphql = config.free_graphql
from_config config starter graphql = config.starter_graphql
from_config config pro graphql = config.pro_graphql

-- The hash behind a key: `tokens`, `last`, and the time at which PEXPIRE lets it go.
pub record Bucket : Type 0 where
  pub tokens : ℕ
  pub last : ℕ
  pub expires_at : ℕ

-- What the script returns.
pub record Reply : Type 0 where
  pub allowed : ℕ
  pub remaining : ℕ
  pub retry_after_ms : ℕ

-- the units of one token
abbrev pub one : LimitParams → ℕ
one p = 1000 * p.per

abbrev pub div_ceil : ℕ → ℕ → ℕ
div_ceil a b = (a + (b - 1)) / b

-- HMGET, which finds nothing once the key has expired
unfoldable pub present : ℕ → Option Bucket → Option Bucket
present now none = none
present now (some b) = if leb b.expires_at now then none else some b

-- the tokens after the refill
unfoldable pub refilled : LimitParams → ℕ → Option Bucket → ℕ
refilled p now none = p.burst * one p
refilled p now (some b) = min (p.burst * one p) (b.tokens + (now - b.last) * p.refill)

unfoldable pub ttl_ms : LimitParams → ℕ
ttl_ms p = if ltb 0 p.refill then div_ceil (p.burst * one p * 2) p.refill else 60000

unfoldable pub retry_after : LimitParams → ℕ → ℕ → ℕ
retry_after p cost tokens =
    if ltb 0 p.refill then div_ceil (cost * one p - tokens) p.refill else 1000

-- HSET and PEXPIRE
unfoldable pub kept : LimitParams → ℕ → ℕ → Bucket
kept p now tokens = record { tokens = tokens; last = now; expires_at = now + ttl_ms p }

unfoldable pub token_bucket : LimitParams → ℕ → ℕ → Option Bucket → Reply × Bucket
token_bucket p now cost stored =
    let tokens = refilled p now (present now stored) in
    if leb (cost * one p) tokens
    then (
      record { allowed = 1; remaining = (tokens - cost * one p) / one p; retry_after_ms = 0 },
      kept p now (tokens - cost * one p),
    )
    else (
      record {
        allowed = 0;
        remaining = tokens / one p;
        retry_after_ms = retry_after p cost tokens;
      },
      kept p now tokens,
    )

pub record Decision : Type 0 where
  pub allowed : Bool
  pub remaining : ℕ
  pub retry_after_seconds : ℕ
  pub limit : ℕ

pub data LimitError : Type 0 where
  redis : LimitError

-- Redis: the bucket at each key, and whether it answers.
pub record Redis : Type 0 where
  pub at : Bytes → Option Bucket
  pub up : Bool

unfoldable pub bucket_key : Surface → Bytes → Bytes
bucket_key surface prefix = codes "rl:" ++ (slug surface ++ (codes ":" ++ prefix))

unfoldable pub put : Bytes → Bucket → (Bytes → Option Bucket) → Bytes → Option Bucket
put key b at k = if bytes_eq k key then some b else at k

unfoldable pub check :
    Bytes → Surface → LimitParams → ℕ → Redis → Result LimitError (Decision × Redis)
check prefix surface p now r =
    let key = bucket_key surface prefix in
    let (reply, b) = token_bucket p now 1 (r.at key) in
    if r.up
    then ok (
      record {
        allowed = reply.allowed == 1;
        remaining = reply.remaining;
        retry_after_seconds = div_ceil reply.retry_after_ms 1000;
        limit = p.burst;
      },
      record r { at = put key b r.at },
    )
    else err redis
