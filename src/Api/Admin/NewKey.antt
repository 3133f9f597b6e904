-- ===== src/Api/Admin/NewKey.antt =====
-- A key that the dashboard issues works.
use mathlib.Core.Path.{subst}
use cellora.Prelude.{
  ℕ, ◌≡◌, refl, sym, true, Option, none, some, List, ◌∷◌, map, Bytes, bytes_eq_refl, ok, arith,
  length, map_err-eq-ok, ◌>>=◌,
}
use cellora.Db.Rows.{ApiKey, User}
use cellora.Db.Schema.{healthy}
use cellora.Db.ApiKeys.{find, active_at, is_revoked, find_active_by_prefix, insert}
use cellora.Api.Keys.{VerifyPassword, IssuedKey, split, verify}
use cellora.Api.Keys.Issued.{HexEncodes, Verifies, generate-IsIssued, split-issued}
use cellora.Api.Auth
use cellora.Api.Auth.{AuthenticatedKey, Entry, cache_get, authenticated, cache_insert, look_up}
use cellora.Api.Session.{AuthenticatedSession}
use cellora.Api.Admin.{
  AdminWorld, Env, Draw, CreateKeyRequest, CreateKeyResponse, or_free, clean_label, key_view, issue,
  create_key, pure, M,
}
use cellora.Api.Admin.Flow.{Succeeds, Succeeds-lift, Succeeds-stored, Succeeds-ok}

module _ (env : Env) (draw : Draw) (id : ℕ) (auth : AuthenticatedSession)
    (body : CreateKeyRequest) where
  -- The row of the new key.
  abbrev row_of : IssuedKey → ApiKey
  row_of issued = record {
    id = id;
    user_id = auth.user.id;
    prefix = issued.prefix;
    secret_hash = issued.secret_hash;
    tier = or_free body.tier;
    label = clean_label body.label;
    created_at = env.now;
    revoked_at = none;
    last_used_at = none;
  }

  record Created (w : AdminWorld) (response : CreateKeyResponse) (w' : AdminWorld) : Type 0 where
    issued : IssuedKey
    drawn : issue env draw ≡ ok issued
    shown : response.secret ≡ issued.full
    kept : w'.keys ≡ row_of issued ∷ w.keys

  insert-row :
      (issued : IssuedKey) (users : List ℕ) (keys keys' : List ApiKey) (row : ApiKey)
      → insert env.conn env.now id users auth.user.id issued.prefix issued.secret_hash
          (or_free body.tier)
          (clean_label body.label)
          keys
        ≡ ok (row, keys')
      → keys' ≡ row_of issued ∷ keys
  unfolding insert
  insert-row issued users keys keys' row h = ground arith

  create_key-Created : (w : AdminWorld) → Succeeds (Created w) (create_key env draw id auth body w)
  unfolding create_key
  create_key-Created w = Succeeds-lift (Created w) (issue env draw) w _ λ issued drawn.
      let r =
        insert env.conn env.now id (map (λ (u : User). u.id) w.users) auth.user.id issued.prefix
          issued.secret_hash (or_free body.tier) (clean_label body.label) w.keys in
      let done : ApiKey → M CreateKeyResponse =
        λ row. pure (record { key = key_view row; secret = issued.full }) in
      Succeeds-stored (Created w) (λ t. record w { keys = t }) w r done
        λ row keys added. record {
          issued = issued;
          drawn = drawn;
          shown = refl;
          kept = insert-row issued (map (λ (u : User). u.id) w.users) w.keys keys row added;
        }

-- The newest row is found by its prefix.
find-new :
    (k : ApiKey) (ks : List ApiKey)
    → k.revoked_at ≡ none
    → find (active_at k.prefix) (k ∷ ks) ≡ some k
unfolding find active_at is_revoked
find-new k ks live = rw (bytes_eq_refl k.prefix, live)

look_up-new :
    (verify_password : VerifyPassword) (row : ApiKey) (keys : List ApiKey) (full secret : Bytes)
    → row.revoked_at ≡ none
    → split full ≡ ok (row.prefix, secret)
    → verify_password secret row.secret_hash ≡ true
    → look_up verify_password healthy full (row ∷ keys) ≡ ok row
unfolding look_up find_active_by_prefix verify
look_up-new verify_password row keys full secret live parts right =
    rw (parts, find-new row keys live, right)

-- A newest row that is not revoked authenticates a token with its prefix and secret.
resolve-new :
    (verify_password : VerifyPassword) (row : ApiKey) (keys : List ApiKey) (full : Bytes)
    (ttl later : ℕ) (cache : List Entry)
    → look_up verify_password healthy full (row ∷ keys) ≡ ok row
    → cache_get ttl later full cache ≡ none
    → Auth.resolve verify_password healthy ttl later full (row ∷ keys) cache
      ≡ ok (authenticated row, cache_insert later full (authenticated row) cache)
unfolding Auth.resolve
resolve-new verify_password row keys full ttl later cache found miss =
    by_cache (cache_get ttl later full cache) miss
  where
    answer : AuthenticatedKey × List Entry
    answer = (authenticated row, cache_insert later full (authenticated row) cache)

    by_cache :
        (o : Option AuthenticatedKey)
        → o ≡ none
        → (elim o [
          | some cached ↦ ok (cached, cache)
          | none ↦ look_up verify_password healthy full (row ∷ keys) >>= λ r.
              ok (authenticated r, cache_insert later full (authenticated r) cache)
        ])
          ≡ ok answer
    by_cache none e = rw found
    by_cache (some a) e = absurd cc

-- The secret that `create_key` returns, presented as a bearer token, authenticates as the new key
-- with its tier: right away, and as long as its row is as it was written.
pub create_key-authenticates :
    (verify_password : VerifyPassword) (env : Env) (draw : Draw) (id : ℕ)
    (auth : AuthenticatedSession) (body : CreateKeyRequest) (w w' : AdminWorld)
    (response : CreateKeyResponse) (ttl later : ℕ) (cache : List Entry)
    → HexEncodes env.tokens.hex_encode
    → Verifies env.hash_password verify_password
    → length draw.prefix_bytes ≡ 4
    → length draw.secret_bytes ≡ 16
    → create_key env draw id auth body w ≡ (ok response, w')
    → cache_get ttl later response.secret cache ≡ none
    → (key : AuthenticatedKey) × (cache' : List Entry) × (Auth.resolve verify_password healthy ttl
          later response.secret w'.keys cache
        ≡ ok (key, cache'))
      × (key.id ≡ id)
      × (key.tier ≡ or_free body.tier)
create_key-authenticates verify_password env draw id auth body w w' response ttl later cache hex
      argon four sixteen h miss =
    let c =
      Succeeds-ok (Created env draw id auth body w) _ response w'
        (create_key-Created env draw id auth body w) h in
    let k =
      generate-IsIssued env.hash_password env.tokens.hex_encode draw.prefix_bytes draw.secret_bytes
        draw.salt c.issued (unfold issue in map_err-eq-ok _ _ c.drawn) in
    let parts : split response.secret ≡ ok (c.issued.prefix, c.issued.secret) =
      subst (λ full. split full ≡ ok (c.issued.prefix, c.issued.secret)) (sym c.shown)
        (split-issued env.hash_password env.tokens.hex_encode draw.prefix_bytes draw.secret_bytes
          draw.salt c.issued hex four sixteen k) in
    let row = row_of env draw id auth body c.issued in
    (
      authenticated row,
      cache_insert later response.secret (authenticated row) cache,
      subst
          (λ keys.
            Auth.resolve verify_password healthy ttl later response.secret keys cache
            ≡ ok (authenticated row, cache_insert later response.secret (authenticated row) cache))
          (sym c.kept)
          (resolve-new verify_password row w.keys response.secret ttl later cache
            (look_up-new verify_password row w.keys response.secret c.issued.secret refl parts
              (argon c.issued.secret draw.salt c.issued.secret_hash k.hash))
            miss),
      refl,
      refl,
    )
