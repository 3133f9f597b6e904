-- ===== src/Db/Users.antt =====
-- crates/db/src/users.rs, and the constraints of the `users` table. `now` is the clock of the
-- statement and `id` the `gen_random_uuid()` of an INSERT.
use cellora.Prelude.{
  ℕ, Bool, not, Option, none, some, List, ◌∷◌, map, Bytes, bytes_eq, ok, guard, ◌>>◌, ◌==◌,
  if◌then◌else◌, any, first,
}
use cellora.Db.Rows.{User}
use cellora.Db.Schema.{DbResult, Connection, send, unique_violation, upsert_user, select_user}

abbrev pub is_github : ℕ → User → Bool
is_github github_user_id u = u.github_user_id == github_user_id

-- DO UPDATE SET
abbrev pub refresh : ℕ → Bytes → Option Bytes → Option Bytes → User → User
refresh now github_login email avatar_url u = record u {
  github_login = github_login;
  email = email;
  avatar_url = avatar_url;
  updated_at = now;
}

-- PRIMARY KEY (id), and UNIQUE (github_user_id), on which the INSERT gives way to an UPDATE
unfoldable pub upsert_from_github :
    Connection
    → ℕ
    → ℕ
    → ℕ
    → Bytes
    → Option Bytes
    → Option Bytes
    → List User
    → DbResult (User × List User)
upsert_from_github conn now id github_user_id github_login email avatar_url users = do
  send conn upsert_user
  let fresh : User = record {
    id = id;
    github_user_id = github_user_id;
    github_login = github_login;
    email = email;
    avatar_url = avatar_url;
    created_at = now;
    updated_at = now;
  }
  let update = refresh now github_login email avatar_url
  elim (first (is_github github_user_id) users) [
    | some old ↦
        ok (update old, map (λ u. if is_github github_user_id u then update u else u) users)
    | none ↦
        guard (not (any (λ (u : User). u.id == id) users)) unique_violation
        >> ok (fresh, fresh ∷ users)
  ]

unfoldable pub find_by_id : Connection → ℕ → List User → DbResult (Option User)
find_by_id conn id users = do send conn select_user; ok (first (λ u. u.id == id) users)

unfoldable pub find_by_github_login : Connection → Bytes → List User → DbResult (Option User)
find_by_github_login conn login users = do
  send conn select_user
  ok (first (λ u. bytes_eq u.github_login login) users)
