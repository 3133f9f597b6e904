-- ===== src/Api/Auth.antt =====
-- crates/api/src/auth.rs: resolving a bearer token, with the cache in front of the database.
-- The cache is moka's: an entry is there until `time_to_live` after its insertion, unless it was
-- evicted before.
pub mod Grounds
pub mod Revocation
use cellora.Prelude.{
  ℕ, ◌+◌, Bool, Option, none, some, List, [], ◌∷◌, Bytes, bytes_eq, codes, Result, ok, err, ok_or,
  map_err, ◌>>=◌, ◌>>◌, ltb, ◌&&◌, if◌then◌else◌, take, drop,
}
use cellora.Db.Rows.{ApiKey, ApiKeyTier}
use cellora.Db.Schema.{Connection}
use cellora.Db.ApiKeys.{find_active_by_prefix}
use cellora.Api.Error.{ApiError, ApiResult, unauthorized, from_db}
use cellora.Api.Keys.{VerifyPassword, split, verify}

pub record AuthenticatedKey : Type 0 where
  pub id : ℕ
  pub prefix : Bytes
  pub tier : ApiKeyTier

pub record Entry : Type 0 where
  pub token : Bytes
  pub value : AuthenticatedKey
  pub inserted_at : ℕ

unfoldable pub cache_get : ℕ → ℕ → Bytes → List Entry → Option AuthenticatedKey
cache_get ttl now token [] = none
cache_get ttl now token (e ∷ es) =
    if bytes_eq e.token token && ltb now (e.inserted_at + ttl)
    then some e.value
    else cache_get ttl now token es

abbrev pub cache_insert : ℕ → Bytes → AuthenticatedKey → List Entry → List Entry
cache_insert now token value es = record { token = token; value = value; inserted_at = now } ∷ es

abbrev pub authenticated : ApiKey → AuthenticatedKey
authenticated row = record { id = row.id; prefix = row.prefix; tier = row.tier }

-- the slow path: the database, then Argon2
unfoldable pub look_up : VerifyPassword → Connection → Bytes → List ApiKey → ApiResult ApiKey
look_up verify_password conn bearer keys = do
  (prefix, secret) ← map_err (λ _. unauthorized (codes "bad format")) (split bearer)
  found ← map_err from_db (find_active_by_prefix conn prefix keys)
  row ← ok_or found (unauthorized (codes "unknown prefix"))
  _ ←
      map_err (λ _. unauthorized (codes "secret mismatch"))
        (verify verify_password secret row.secret_hash)
  ok row

-- The key and the cache after, for a request that no other overlaps; Revocation takes the lookup and the
-- insertion into the cache apart. The spawned update of `last_used_at` is a statement of its own.
unfoldable pub resolve :
    VerifyPassword
    → Connection
    → ℕ
    → ℕ
    → Bytes
    → List ApiKey
    → List Entry
    → ApiResult (AuthenticatedKey × List Entry)
resolve verify_password conn ttl now bearer keys cache = elim (cache_get ttl now bearer cache) [
  | some cached ↦ ok (cached, cache)
  | none ↦ do
    row ← look_up verify_password conn bearer keys
    ok (authenticated row, cache_insert now bearer (authenticated row) cache)
]

unfoldable pub strip_bearer : Bytes → Option Bytes
strip_bearer raw = if bytes_eq (take 7 raw) (codes "Bearer ") then some (drop 7 raw) else none

-- The header's value, where there is one: `none` for a value that is not ASCII.
unfoldable pub extract_bearer : Option (Option Bytes) → ApiResult Bytes
extract_bearer header = do
  value ← ok_or header (unauthorized (codes "missing header"))
  raw ← ok_or value (unauthorized (codes "non-ascii header"))
  bearer ← ok_or (strip_bearer raw) (unauthorized (codes "not bearer"))
  if bytes_eq bearer [] then err (unauthorized (codes "empty token")) else ok bearer
