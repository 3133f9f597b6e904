-- ===== src/Api/Session.antt =====
-- crates/api/src/session.rs. SHA-256, hexadecimal and base64 are the fields of `Tokens`, and the
-- operating system's random bytes are an argument.
pub mod Lifetime
use cellora.Prelude.{ℕ, List, Bytes, codes, ok, ok_or, map_err, ◌>>=◌}
use cellora.Db.Rows.{User, Session}
use cellora.Db.Schema.{Connection}
use cellora.Db.Sessions.{find_active}
use cellora.Db.Users.{find_by_id}
use cellora.Api.Error.{ApiResult, unauthorized, from_db}
use cellora.Api.Cookies.{Header, extract_session_cookie}

pub record AuthenticatedSession : Type 0 where
  pub session : Session
  pub user : User

pub record IssuedToken : Type 0 where
  pub plaintext : Bytes
  pub hash : Bytes

-- `Sha256::digest`, `hex::encode` and `URL_SAFE_NO_PAD.encode`
pub record Tokens : Type 0 where
  pub sha256 : Bytes → Bytes
  pub hex_encode : Bytes → Bytes
  pub base64_encode : Bytes → Bytes

unfoldable pub hash_token : Tokens → Bytes → Bytes
hash_token tokens token = tokens.hex_encode (tokens.sha256 token)

unfoldable pub generate_token : Tokens → Bytes → IssuedToken
generate_token tokens bytes =
    let plaintext = tokens.base64_encode bytes in
    record { plaintext = plaintext; hash = hash_token tokens plaintext }

unfoldable pub resolve :
    Connection → ℕ → Bytes → List User → List Session → ApiResult AuthenticatedSession
resolve conn now hash users sessions = do
  found ← map_err from_db (find_active conn now hash sessions)
  session ← ok_or found (unauthorized (codes "unknown or expired session"))
  owner ← map_err from_db (find_by_id conn session.user_id users)
  user ← ok_or owner (unauthorized (codes "orphaned session"))
  ok (record { session = session; user = user })

-- `next` is the handler. The spawned update of `last_seen_at` is a statement of its own.
unfoldable pub middleware :
    {A : Type 0}
    → Tokens
    → Connection
    → ℕ
    → Header
    → List User
    → List Session
    → (AuthenticatedSession → ApiResult A)
    → ApiResult A
middleware tokens conn now header users sessions next = do
  token ← ok_or (extract_session_cookie header) (unauthorized (codes "missing session"))
  resolved ← resolve conn now (hash_token tokens token) users sessions
  next resolved
