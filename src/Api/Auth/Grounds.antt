-- ===== src/Api/Auth/Grounds.antt =====
-- On what grounds a bearer token is accepted.
use mathlib.Core.Path.{subst}
use mathlib.Core.List.{Memᴰ}
use cellora.Prelude.{
  ℕ, ◌+◌, ◌<◌, ◌≡◌, refl, sym, ap, ◌∙◌, ◌>>◌, ◌>>=◌, true, false, Bool, Bool-cases, not, ◌&&◌, inl,
  inr, Option, none, some, List, [], ◌∷◌, ◌++◌, Bytes, bytes_eq, bytes_eq_sound, Result, ok, err,
  arith, ltb, ltb→lt, Ensures, Ensures-bind, Ensures-ok, guard, map_err, ok_or, map_err-eq-ok,
  ok_or-eq-ok,
}
use cellora.Db.Rows.{ApiKey}
use cellora.Db.Schema.{Connection, send, select_key}
use cellora.Db.ApiKeys.{find, active_at, is_revoked, find_active_by_prefix}
use cellora.Api.Keys.{VerifyPassword, split, verify, mismatch}
use cellora.Api.Keys.Format.{split-KeyParts}
use cellora.Api.Auth.{
  AuthenticatedKey, Entry, cache_get, cache_insert, authenticated, look_up, resolve,
}

-- Either an entry of the cache for this very token, younger than the time to live; or a row of the
-- table, not revoked, with the token's prefix, whose hash verifies the token's secret.
pub data Grounds (verify_password : VerifyPassword) (ttl now : ℕ) (bearer : Bytes)
    (keys : List ApiKey) (cache : List Entry) : AuthenticatedKey × List Entry → Type 0 where
  cached :
      (e : Entry)
      → Memᴰ e cache
      → e.token ≡ bearer
      → now < e.inserted_at + ttl
      → Grounds verify_password ttl now bearer keys cache (e.value, cache)
  verified :
      (k : ApiKey) (secret : Bytes)
      → Memᴰ k keys
      → k.revoked_at ≡ none
      → bearer ≡ k.prefix ++ (95 ∷ secret)
      → split bearer ≡ ok (k.prefix, secret)
      → verify_password secret k.secret_hash ≡ true
      → Grounds verify_password ttl now bearer keys cache
          (authenticated k, cache_insert now bearer (authenticated k) cache)

find-Mem :
    (p : ApiKey → Bool) (ks : List ApiKey) (k : ApiKey)
    → find p ks ≡ some k
    → Memᴰ k ks × (p k ≡ true)
unfolding find
find-Mem p [] k e = absurd cc
find-Mem p (x ∷ xs) k e = elim (Bool-cases (p x)) [
  | inl hit ↦ let same : x ≡ k = cc (rw hit at e) in (Memᴰ.head (sym same), rw⁻¹ same hit)
  | inr miss ↦ let (m, h) = find-Mem p xs k (rw miss at e) in (Memᴰ.tail m, h)
]

both_true : (a b : Bool) → a && b ≡ true → (a ≡ true) × (b ≡ true)
both_true a b h = ground arith

active_parts :
    (prefix : Bytes) (k : ApiKey)
    → active_at prefix k ≡ true
    → (k.prefix ≡ prefix) × (not (is_revoked k) ≡ true)
unfolding active_at
active_parts prefix k h =
    let (same, live) = both_true (bytes_eq k.prefix prefix) (not (is_revoked k)) h in
    (bytes_eq_sound k.prefix prefix same, live)

not_revoked : (k : ApiKey) → not (is_revoked k) ≡ true → k.revoked_at ≡ none
unfolding is_revoked
not_revoked k h = ground arith

pub cache_get-Entry :
    (ttl now : ℕ) (token : Bytes) (es : List Entry) (a : AuthenticatedKey)
    → cache_get ttl now token es ≡ some a
    → (e : Entry) × Memᴰ e es × (e.token ≡ token) × (now < e.inserted_at + ttl) × (e.value ≡ a)
unfolding cache_get
cache_get-Entry ttl now token [] a h = absurd cc
cache_get-Entry ttl now token (e ∷ es) a h =
    elim (Bool-cases (bytes_eq e.token token && ltb now (e.inserted_at + ttl))) [
      | inl hit ↦
          let (same, young) =
            both_true (bytes_eq e.token token) (ltb now (e.inserted_at + ttl)) hit in
          (
            e,
            Memᴰ.head refl,
            bytes_eq_sound e.token token same,
            ltb→lt now (e.inserted_at + ttl) young,
            cc (rw hit at h),
          )
      | inr miss ↦
          let (f, m, same, young, value) = cache_get-Entry ttl now token es a (rw miss at h) in
          (f, Memᴰ.tail m, same, young, value)
    ]

-- What the slow path returns.
abbrev pub Verified : VerifyPassword → Bytes → List ApiKey → ApiKey → Type 0
Verified verify_password bearer keys k =
    (secret : Bytes) × Memᴰ k keys
    × (k.revoked_at ≡ none)
    × (bearer ≡ k.prefix ++ (95 ∷ secret))
    × (split bearer ≡ ok (k.prefix, secret))
    × (verify_password secret k.secret_hash ≡ true)

guard-true : {E : Type 0} (b : Bool) (e : E) (u : Unit {0}) → guard b e ≡ ok u → b ≡ true
guard-true true e u h = refl
guard-true false e u h = absurd cc

then_ok : {E : Type 0} {A : Type 0} (r : Result E (Unit {0})) (x o : A) → (r >> ok x) ≡ ok o → x ≡ o
then_ok (ok u) x o h = cc
then_ok (err e) x o h = absurd cc

found :
    (conn : Connection) (prefix : Bytes) (keys : List ApiKey) (o : Option ApiKey)
    → find_active_by_prefix conn prefix keys ≡ ok o
    → find (active_at prefix) keys ≡ o
unfolding find_active_by_prefix
found conn prefix keys o h = then_ok (send conn select_key) (find (active_at prefix) keys) o h

pub look_up-Verified :
    (verify_password : VerifyPassword) (conn : Connection) (bearer : Bytes) (keys : List ApiKey)
    → Ensures (Verified verify_password bearer keys) (look_up verify_password conn bearer keys)
unfolding look_up verify
look_up-Verified verify_password conn bearer keys =
    let P : ApiKey → Type 0 = Verified verify_password bearer keys in
    Ensures-bind P (map_err _ (split bearer)) _ λ a ea.
      Ensures-bind P (map_err _ (find_active_by_prefix conn a.0 keys)) _ λ o eo.
        Ensures-bind P (ok_or o _) _ λ k ek.
          Ensures-bind P (map_err _ (verify verify_password a.1 k.secret_hash)) _ λ u eu.
            let parts = split-KeyParts bearer a.0 a.1 (map_err-eq-ok _ (split bearer) ea) in
            let at =
              found conn a.0 keys o (map_err-eq-ok _ (find_active_by_prefix conn a.0 keys) eo) in
            let (member, active) = find-Mem (active_at a.0) keys k (at ∙ ok_or-eq-ok o _ ek) in
            let (prefix, live) = active_parts a.0 k active in
            (
              a.1,
              member,
              not_revoked k live,
              parts.whole ∙ ap (λ p. p ++ (95 ∷ a.1)) (sym prefix),
              map_err-eq-ok _ (split bearer) ea ∙ ap (λ p. ok (p, a.1)) (sym prefix),
              guard-true (verify_password a.1 k.secret_hash) mismatch u
                  (map_err-eq-ok _ (verify verify_password a.1 k.secret_hash) eu),
            )

-- A token is accepted only on grounds: a cache entry for it that is younger than the time to live, or
-- an unrevoked row with its prefix whose hash verifies its secret; only the latter enters the cache.
pub resolve-Grounds :
    (verify_password : VerifyPassword) (conn : Connection) (ttl now : ℕ) (bearer : Bytes)
    (keys : List ApiKey) (cache : List Entry) (x : AuthenticatedKey × List Entry)
    → resolve verify_password conn ttl now bearer keys cache ≡ ok x
    → Grounds verify_password ttl now bearer keys cache x
resolve-Grounds verify_password conn ttl now bearer keys cache x h =
    Ensures-ok (Grounds verify_password ttl now bearer keys cache)
      (resolve verify_password conn ttl now bearer keys cache) x resolved h
  where
    by_row :
        (k : ApiKey)
        → Verified verify_password bearer keys k
        → Grounds verify_password ttl now bearer keys cache
            (authenticated k, cache_insert now bearer (authenticated k) cache)
    by_row k (secret, member, live, whole, shape, good) =
        verified k secret member live whole shape good

    by_entry :
        (a : AuthenticatedKey)
        → ((e : Entry) × Memᴰ e cache
            × (e.token ≡ bearer)
            × (now < e.inserted_at + ttl)
            × (e.value ≡ a))
        → Grounds verify_password ttl now bearer keys cache (a, cache)
    by_entry a (e, member, token, young, value) =
        subst (λ v. Grounds verify_password ttl now bearer keys cache (v, cache)) value
          (cached e member token young)

    answered :
        (o : Option AuthenticatedKey)
        → cache_get ttl now bearer cache ≡ o
        → Ensures (Grounds verify_password ttl now bearer keys cache) (elim o [
          | some hit ↦ ok (hit, cache)
          | none ↦ look_up verify_password conn bearer keys >>= λ row.
              ok (authenticated row, cache_insert now bearer (authenticated row) cache)
        ])
    answered none miss =
        Ensures-bind (Grounds verify_password ttl now bearer keys cache)
          (look_up verify_password conn bearer keys) _
          λ k ek. by_row k (Ensures-ok _ _ k (look_up-Verified verify_password conn bearer keys) ek)
    answered (some a) hit = by_entry a (cache_get-Entry ttl now bearer cache a hit)

    resolved :
        Ensures
          (Grounds verify_password ttl now bearer keys cache)
          (resolve verify_password conn ttl now bearer keys cache)
    resolved = unfold resolve in answered (cache_get ttl now bearer cache) refl
