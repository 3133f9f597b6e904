-- ===== src/Db/ApiKeys.antt =====
-- crates/db/src/api_keys.rs, and the constraints of the `api_keys` table. `now` is the clock of the
-- statement and `id` the `gen_random_uuid()` of an INSERT.
pub mod Scope
pub mod Dead
use cellora.Prelude.{
  ℕ, Bool, true, false, not, ◌&&◌, ◌||◌, Option, none, some, List, [], ◌∷◌, map, Bytes, bytes_eq,
  ok, guard, ◌>>=◌, ◌>>◌, ltb, ◌==◌, if◌then◌else◌, any, select, length,
}
use cellora.Prelude.Sorting.{order_desc}
use cellora.Db.Rows.{ApiKey, ApiKeyTier}
use cellora.Db.Schema.{
  DbResult, Connection, send, unique_violation, foreign_key_violation, insert_key, select_key,
  update_key,
}

unfoldable pub is_revoked : ApiKey → Bool
is_revoked k = elim k.revoked_at [ none ↦ false | some _ ↦ true ]

-- fetch_optional of a SELECT whose condition a key satisfies at most once
unfoldable pub find : (ApiKey → Bool) → List ApiKey → Option ApiKey
find p [] = none
find p (k ∷ ks) = if p k then some k else find p ks

-- PRIMARY KEY (id), UNIQUE (prefix), user_id REFERENCES users(id)
unfoldable pub insert :
    Connection
    → ℕ
    → ℕ
    → List ℕ
    → ℕ
    → Bytes
    → Bytes
    → ApiKeyTier
    → Option Bytes
    → List ApiKey
    → DbResult (ApiKey × List ApiKey)
insert conn now id users user_id prefix secret_hash tier label keys = do
  send conn insert_key
  guard (not (any (λ (k : ApiKey). k.id == id || bytes_eq k.prefix prefix) keys)) unique_violation
  guard (any (λ u. u == user_id) users) foreign_key_violation
  let key : ApiKey = record {
    id = id;
    user_id = user_id;
    prefix = prefix;
    secret_hash = secret_hash;
    tier = tier;
    label = label;
    created_at = now;
    revoked_at = none;
    last_used_at = none;
  }
  ok (key, key ∷ keys)

-- WHERE prefix = $1 AND revoked_at IS NULL
unfoldable pub active_at : Bytes → ApiKey → Bool
active_at prefix k = bytes_eq k.prefix prefix && not (is_revoked k)

unfoldable pub find_active_by_prefix : Connection → Bytes → List ApiKey → DbResult (Option ApiKey)
find_active_by_prefix conn prefix keys = do send conn select_key; ok (find (active_at prefix) keys)

-- ORDER BY created_at DESC
unfoldable pub newest_first : List ApiKey → List ApiKey
newest_first keys = order_desc (λ a b. ltb a.created_at b.created_at) keys

unfoldable pub list_all : Connection → List ApiKey → DbResult (List ApiKey)
list_all conn keys = do send conn select_key; ok (newest_first keys)

-- an UPDATE of the rows for which `p` holds
unfoldable pub update : (ApiKey → Bool) → (ApiKey → ApiKey) → List ApiKey → List ApiKey
update p f keys = map (λ k. if p k then f k else k) keys

abbrev pub revoke_at : ℕ → ApiKey → ApiKey
revoke_at now k = record k { revoked_at = some now }

unfoldable pub revoke : Connection → ℕ → Bytes → List ApiKey → DbResult (Bool × List ApiKey)
revoke conn now prefix keys = do
  send conn update_key
  ok (
    ltb 0 (length (select (active_at prefix) keys)),
    update (active_at prefix) (revoke_at now) keys,
  )

unfoldable pub touch_last_used : Connection → ℕ → Bytes → List ApiKey → DbResult (List ApiKey)
touch_last_used conn now prefix keys = do
  send conn update_key
  ok (update (λ k. bytes_eq k.prefix prefix) (λ k. record k { last_used_at = some now }) keys)

unfoldable pub list_for_user : Connection → ℕ → List ApiKey → DbResult (List ApiKey)
list_for_user conn user_id keys = do
  send conn select_key
  ok (newest_first (select (λ (k : ApiKey). k.user_id == user_id) keys))

unfoldable pub find_for_user : Connection → ℕ → ℕ → List ApiKey → DbResult (Option ApiKey)
find_for_user conn id user_id keys = do
  send conn select_key
  ok (find (λ k. k.id == id && k.user_id == user_id) keys)

-- WHERE id = $1 AND user_id = $2 AND revoked_at IS NULL
unfoldable pub active_for : ℕ → ℕ → ApiKey → Bool
active_for id user_id k = k.id == id && (k.user_id == user_id && not (is_revoked k))

abbrev pub rotate : Bytes → Bytes → ApiKey → ApiKey
rotate new_prefix new_secret_hash k = record k {
  prefix = new_prefix;
  secret_hash = new_secret_hash;
  last_used_at = none;
}

-- UNIQUE (prefix), where a row is updated: another row has the new prefix
unfoldable pub prefix_taken : ℕ → ℕ → Bytes → List ApiKey → Bool
prefix_taken id user_id new_prefix keys =
    any (active_for id user_id) keys
    && any (λ k. bytes_eq k.prefix new_prefix && not (active_for id user_id k)) keys

unfoldable pub rotate_for_user :
    Connection → ℕ → ℕ → Bytes → Bytes → List ApiKey → DbResult (Option ApiKey × List ApiKey)
rotate_for_user conn id user_id new_prefix new_secret_hash keys = do
  send conn update_key
  guard (not (prefix_taken id user_id new_prefix keys)) unique_violation
  let rotated = update (active_for id user_id) (rotate new_prefix new_secret_hash) keys
  ok (find (active_for id user_id) rotated, rotated)

unfoldable pub revoke_for_user :
    Connection → ℕ → ℕ → ℕ → List ApiKey → DbResult (Bool × List ApiKey)
revoke_for_user conn now id user_id keys = do
  send conn update_key
  ok (
    ltb 0 (length (select (active_for id user_id) keys)),
    update (active_for id user_id) (revoke_at now) keys,
  )
