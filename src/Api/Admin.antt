-- ===== src/Api/Admin.antt =====
-- crates/api/src/routes/admin.rs, but for the sign-in, which is Oauth: what the handlers share, and
-- those behind the session middleware. A handler passes the world on where it fails too.
pub mod Oauth
pub mod Flow
pub mod State
pub mod SignIn
pub mod NewKey
pub mod HiddenKeys
mod Tests
use cellora.Prelude.{
  ℕ, ◌*◌, Bool, true, false, not, ◌&&◌, Option, none, some, List, [], ◌∷◌, map, Bytes, codes,
  Result, ok, err, ok_or, map_err, if◌then◌else◌,
}
use cellora.Prelude.Text.{trim, is_empty}
use cellora.Db.Rows.{User, Session, ApiKey, ApiKeyTier, free, starter, pro}
use cellora.Db.Schema.{Connection, DbResult}
use cellora.Db.Sessions
use cellora.Db.ApiKeys.{insert, list_for_user, rotate_for_user, revoke_for_user, is_revoked}
use cellora.Api.Error.{ApiError, ApiResult, not_found, internal}
use cellora.Api.Keys.{HashPassword, IssuedKey, generate}
use cellora.Api.Session.{AuthenticatedSession, Tokens}
use cellora.Api.Cookies.{HeaderText, clear_session_cookie}

-- What the dashboard's handlers change: three tables, and Redis's keys with their expiry.
pub record AdminWorld : Type 0 where
  pub users : List User
  pub sessions : List Session
  pub keys : List ApiKey
  pub redis_keys : List (Bytes × ℕ)

pub data RedisCommand : Type 0 where
  set get del : RedisCommand

-- The dashboard's part of `Config`.
pub record AdminConfig : Type 0 where
  pub client_id : Option Bytes
  pub client_secret : Option Bytes
  pub redirect_url : Option Bytes
  pub dashboard_redirect_url : Option Bytes
  pub session_ttl_days : ℕ
  pub cookie_secure : Bool

-- What one request meets: the configuration, the server, Redis (where there is a connection, the
-- commands on which it fails), the clock in milliseconds, and the libraries.
pub record Env : Type 0 where
  pub config : AdminConfig
  pub conn : Connection
  pub redis : Option (RedisCommand → Bool)
  pub now : ℕ
  pub tokens : Tokens
  pub accepts : HeaderText
  pub hash_password : HashPassword
  pub parse_str : Bytes → Option ℕ

abbrev pub M : Type 0 → Type 0
M A = AdminWorld → ApiResult A × AdminWorld

abbrev pub and_then :
    {A B : Type 0} → ApiResult A × AdminWorld → (A → M B) → ApiResult B × AdminWorld
and_then (ok a, w) f = f a w
and_then (err e, w) f = (err e, w)

infixl 5 ◌>>=◌ ◌>>◌
abbrev pub ◌>>=◌ : {A B : Type 0} → M A → (A → M B) → M B
◌>>=◌ m f w = and_then (m w) f

abbrev pub ◌>>◌ : {B : Type 0} → M (Unit {0}) → M B → M B
m >> k = m >>= λ _. k

abbrev pub pure : {A : Type 0} → A → M A
pure a w = (ok a, w)

-- a fallible step that changes nothing
abbrev pub lift : {A : Type 0} → ApiResult A → M A
lift r w = (r, w)

abbrev pub require : Bool → ApiError → ApiResult (Unit {0})
require true e = ok tt
require false e = err e

-- a statement on one table, with `ApiError::from` for its failure
abbrev pub stored :
    {A T : Type 0} → (T → AdminWorld) → AdminWorld → DbResult (A × T) → ApiResult A × AdminWorld
stored put w (ok (a, t)) = (ok a, put t)
stored put w (err e) = (err internal, w)

abbrev pub on_users : {A : Type 0} → (List User → DbResult (A × List User)) → M A
on_users f w = stored (λ t. record w { users = t }) w (f w.users)

abbrev pub on_sessions : {A : Type 0} → (List Session → DbResult (A × List Session)) → M A
on_sessions f w = stored (λ t. record w { sessions = t }) w (f w.sessions)

abbrev pub on_keys : {A : Type 0} → (List ApiKey → DbResult (A × List ApiKey)) → M A
on_keys f w = stored (λ t. record w { keys = t }) w (f w.keys)

-- a read leaves the table
abbrev pub with_table : {A T : Type 0} → DbResult A → T → DbResult (A × T)
with_table (ok a) t = ok (a, t)
with_table (err e) t = err e

pub record UserView : Type 0 where
  pub id : ℕ
  pub github_login : Bytes
  pub email : Option Bytes
  pub avatar_url : Option Bytes

abbrev pub user_view : User → UserView
user_view user = record {
  id = user.id;
  github_login = user.github_login;
  email = user.email;
  avatar_url = user.avatar_url;
}

unfoldable pub me : AuthenticatedSession → UserView
me auth = user_view auth.user

-- `ApiKeyTier::as_str`
unfoldable pub as_str : ApiKeyTier → Bytes
as_str free = codes "free"
as_str starter = codes "starter"
as_str pro = codes "pro"

pub record KeyView : Type 0 where
  pub id : ℕ
  pub label : Option Bytes
  pub tier : Bytes
  pub prefix : Bytes
  pub status : Bytes
  pub created_at : ℕ
  pub revoked_at : Option ℕ
  pub last_used_at : Option ℕ

unfoldable pub key_view : ApiKey → KeyView
key_view row = record {
  id = row.id;
  label = row.label;
  tier = as_str row.tier;
  prefix = row.prefix;
  status = if is_revoked row then codes "revoked" else codes "active";
  created_at = row.created_at;
  revoked_at = row.revoked_at;
  last_used_at = row.last_used_at;
}

pub record CreateKeyRequest : Type 0 where
  pub label : Option Bytes
  pub tier : Option ApiKeyTier

pub record CreateKeyResponse : Type 0 where
  pub key : KeyView
  pub secret : Bytes

-- .map(str::trim).filter(|s| !s.is_empty())
unfoldable pub clean_label : Option Bytes → Option Bytes
clean_label none = none
clean_label (some label) = if is_empty (trim label) then none else some (trim label)

abbrev pub or_free : Option ApiKeyTier → ApiKeyTier
or_free none = free
or_free (some tier) = tier

-- The random numbers that `keys::generate` draws.
pub record Draw : Type 0 where
  pub prefix_bytes : Bytes
  pub secret_bytes : Bytes
  pub salt : Bytes

module _ (env : Env) where
  unfoldable pub issue : Draw → ApiResult IssuedKey
  issue draw =
      map_err (λ _. internal)
        (generate env.hash_password env.tokens.hex_encode draw.prefix_bytes draw.secret_bytes
          draw.salt)

  unfoldable pub parse_uuid : Bytes → ApiResult ℕ
  parse_uuid raw = ok_or (env.parse_str raw) (not_found (codes "api key not found"))

  -- the `Set-Cookie` of the response
  unfoldable pub sign_out : AuthenticatedSession → M Bytes
  sign_out auth = do
    deleted ← on_sessions (Sessions.delete env.conn auth.session.token_hash)
    pure (clear_session_cookie env.accepts env.config.cookie_secure)

  unfoldable pub list_keys : AuthenticatedSession → M (List KeyView)
  list_keys auth = do
    rows ← on_keys λ keys. with_table (list_for_user env.conn auth.user.id keys) keys
    pure (map key_view rows)

  -- `id` is the `gen_random_uuid()` of the new row.
  unfoldable pub create_key :
      Draw → ℕ → AuthenticatedSession → CreateKeyRequest → M CreateKeyResponse
  create_key draw id auth body = do
    issued ← lift (issue draw)
    row ← λ w.
        on_keys
          (insert env.conn env.now id (map (λ (u : User). u.id) w.users) auth.user.id issued.prefix
            issued.secret_hash (or_free body.tier) (clean_label body.label))
          w
    pure (record { key = key_view row; secret = issued.full })

  unfoldable pub rotate_key : Draw → AuthenticatedSession → Bytes → M CreateKeyResponse
  rotate_key draw auth raw_id = do
    id ← lift (parse_uuid raw_id)
    issued ← lift (issue draw)
    rotated ← on_keys (rotate_for_user env.conn id auth.user.id issued.prefix issued.secret_hash)
    row ← lift (ok_or rotated (not_found (codes "api key not found")))
    pure (record { key = key_view row; secret = issued.full })

  unfoldable pub revoke_key : AuthenticatedSession → Bytes → M (Unit {0})
  revoke_key auth raw_id = do
    id ← lift (parse_uuid raw_id)
    revoked ← on_keys (revoke_for_user env.conn env.now id auth.user.id)
    lift (if revoked then ok tt else err (not_found (codes "api key not found")))
