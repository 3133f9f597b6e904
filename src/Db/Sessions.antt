-- ===== src/Db/Sessions.antt =====
-- crates/db/src/sessions.rs, and the constraints of the `sessions` table. `now` is the clock of the
-- statement.
use cellora.Prelude.{
  ℕ, Bool, not, ◌&&◌, Option, List, ◌∷◌, map, Bytes, bytes_eq, ok, guard, ◌>>◌, ltb, leb, ◌==◌,
  if◌then◌else◌, any, first, select, length,
}
use cellora.Db.Rows.{User, Session}
use cellora.Db.Schema.{
  DbResult, Connection, send, unique_violation, foreign_key_violation, insert_session,
  select_session, update_session, delete_session,
}

-- `Session::is_active`
unfoldable pub is_active : ℕ → Session → Bool
is_active now s = ltb now s.expires_at

abbrev pub has_hash : Bytes → Session → Bool
has_hash token_hash s = bytes_eq s.token_hash token_hash

-- PRIMARY KEY (token_hash), user_id REFERENCES users(id)
unfoldable pub insert :
    Connection
    → ℕ
    → Bytes
    → ℕ
    → ℕ
    → Option Bytes
    → List User
    → List Session
    → DbResult (Session × List Session)
insert conn now token_hash user_id expires_at user_agent users sessions = do
  send conn insert_session
  guard (not (any (has_hash token_hash) sessions)) unique_violation
  guard (any (λ (u : User). u.id == user_id) users) foreign_key_violation
  let session : Session = record {
    token_hash = token_hash;
    user_id = user_id;
    created_at = now;
    expires_at = expires_at;
    last_seen_at = now;
    user_agent = user_agent;
  }
  ok (session, session ∷ sessions)

-- WHERE token_hash = $1 AND expires_at > now()
unfoldable pub find_active : Connection → ℕ → Bytes → List Session → DbResult (Option Session)
find_active conn now token_hash sessions = do
  send conn select_session
  ok (first (λ s. has_hash token_hash s && ltb now s.expires_at) sessions)

unfoldable pub touch_last_seen : Connection → ℕ → Bytes → List Session → DbResult (List Session)
touch_last_seen conn now token_hash sessions = do
  send conn update_session
  ok (map (λ s. if has_hash token_hash s then record s { last_seen_at = now } else s) sessions)

unfoldable pub delete : Connection → Bytes → List Session → DbResult (Bool × List Session)
delete conn token_hash sessions = do
  send conn delete_session
  ok (any (has_hash token_hash) sessions, select (λ s. not (has_hash token_hash s)) sessions)

unfoldable pub delete_expired : Connection → ℕ → List Session → DbResult (ℕ × List Session)
delete_expired conn now sessions = do
  send conn delete_session
  ok (
    length (select (λ (s : Session). leb s.expires_at now) sessions),
    select (λ (s : Session). not (leb s.expires_at now)) sessions,
  )
