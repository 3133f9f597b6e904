-- ===== src/Api/Session/Lifetime.antt =====
-- The end of a session: what a deletion and the cleanup of expired rows change.
use cellora.Prelude.{
  ℕ, ◌≤◌, ◌≡◌, ◌≢◌, refl, sym, Bool, true, false, Bool-cases, not, ◌&&◌, inl, inr, none, List, [],
  ◌∷◌, Bytes, bytes_eq_sound, Result, ok, err, ◌>>◌, arith, first, ◌>>=◌, map_err, ok_or, codes,
  select, ltb, leb, then-eq-table, any, length,
}
use cellora.Db.Rows.{User, Session}
use cellora.Db.Schema.{Connection, DbError, send, delete_session, select_session}
use cellora.Api.Error.{unauthorized, from_db}
use cellora.Db.Users.{find_by_id}
use cellora.Db.Sessions.{has_hash, find_active, delete, delete_expired}
use cellora.Api.Session.{AuthenticatedSession, resolve}

abbrev active_with : ℕ → Bytes → Session → Bool
active_with now hash s = has_hash hash s && ltb now s.expires_at

-- A lookup passes the rows that a deletion drops, where it would not stop at one of them.
first-select :
    (p keep : Session → Bool) (ss : List Session)
    → ((s : Session) → keep s ≡ false → p s ≡ false)
    → first p (select keep ss) ≡ first p ss
unfolding first select
first-select p keep [] h = refl
first-select p keep (s ∷ ss) h = elim (Bool-cases (keep s)) [
  | inl e ↦ rw (e, first-select p keep ss h)
  | inr e ↦ rw (e, h s e, first-select p keep ss h)
]

first-none :
    (p keep : Session → Bool) (ss : List Session)
    → ((s : Session) → keep s ≡ true → p s ≡ false)
    → first p (select keep ss) ≡ none
unfolding first select
first-none p keep [] h = refl
first-none p keep (s ∷ ss) h = elim (Bool-cases (keep s)) [
  | inl e ↦ rw (e, h s e, first-none p keep ss h)
  | inr e ↦ rw (e, first-none p keep ss h)
]

-- `resolve` looks at the sessions by one lookup.
resolve-same :
    (conn : Connection) (now : ℕ) (hash : Bytes) (users : List User) (ss ss' : List Session)
    → first (active_with now hash) ss ≡ first (active_with now hash) ss'
    → resolve conn now hash users ss ≡ resolve conn now hash users ss'
unfolding resolve find_active
resolve-same conn now hash users ss ss' e = rw e

resolve-none :
    (conn : Connection) (now : ℕ) (hash : Bytes) (users : List User) (ss : List Session)
    (a : AuthenticatedSession)
    → first (active_with now hash) ss ≡ none
    → resolve conn now hash users ss ≢ ok a
unfolding resolve find_active
resolve-none conn now hash users ss a e = rw e (by_server (send conn select_session))
  where
    by_server :
        (r : Result DbError (Unit {0}))
        → (map_err from_db (r >> ok none) >>= λ found.
            ok_or found (unauthorized (codes "unknown or expired session")) >>= λ session.
            map_err from_db (find_by_id conn session.user_id users) >>= λ owner.
            ok_or owner (unauthorized (codes "orphaned session")) >>= λ user.
            ok (record { session = session; user = user }))
          ≢ ok a
    by_server (ok u) h = cc
    by_server (err x) h = cc

delete-rows :
    (conn : Connection) (hash : Bytes) (ss ss' : List Session) (b : Bool)
    → delete conn hash ss ≡ ok (b, ss')
    → ss' ≡ select (λ s. not (has_hash hash s)) ss
unfolding delete
delete-rows conn hash ss ss' b h =
    sym (then-eq-table (send conn delete_session) (any (has_hash hash) ss) _ h)

-- After the deletion of a session its token is refused, at any time, and every other token is
-- resolved as before.
pub delete-ends :
    (conn conn' : Connection) (hash other : Bytes) (later : ℕ) (users : List User)
    (ss ss' : List Session) (b : Bool) (a : AuthenticatedSession)
    → delete conn hash ss ≡ ok (b, ss')
    → other ≢ hash
    → (resolve conn' later hash users ss' ≢ ok a)
      × (resolve conn' later other users ss' ≡ resolve conn' later other users ss)
delete-ends conn conn' hash other later users ss ss' b a h different =
    let rows = delete-rows conn hash ss ss' b h in
    (
      resolve-none conn' later hash users ss' a
          (rw rows (first-none (active_with later hash) (λ s. not (has_hash hash s)) ss dropped)),
      resolve-same conn' later other users ss' ss
          (rw rows (first-select (active_with later other) (λ s. not (has_hash hash s)) ss passed)),
    )
  where
    dropped : (s : Session) → not (has_hash hash s) ≡ true → active_with later hash s ≡ false
    dropped s e = ground arith

    passed : (s : Session) → not (has_hash hash s) ≡ false → active_with later other s ≡ false
    passed s e = elim (Bool-cases (has_hash other s)) [
      | inl same ↦
          let one = bytes_eq_sound s.token_hash hash (ground arith) in
          let two = bytes_eq_sound s.token_hash other same in absurd (different (cc (one, two)))
      | inr miss ↦ rw miss
    ]

-- The cleanup of expired rows changes the resolution of no token, then or later.
pub delete_expired-harmless :
    (conn conn' : Connection) (now later n : ℕ) (hash : Bytes) (users : List User)
    (ss ss' : List Session)
    → delete_expired conn now ss ≡ ok (n, ss')
    → now ≤ later
    → resolve conn' later hash users ss' ≡ resolve conn' later hash users ss
unfolding delete_expired
delete_expired-harmless conn conn' now later n hash users ss ss' h order =
    let rows : select (λ (s : Session). not (leb s.expires_at now)) ss ≡ ss' =
      then-eq-table (send conn delete_session)
        (length (select (λ (s : Session). leb s.expires_at now) ss)) _ h in
    resolve-same conn' later hash users ss' ss
      (rw⁻¹ rows (first-select (active_with later hash) (λ s. not (leb s.expires_at now)) ss stale))
  where
    stale : (s : Session) → not (leb s.expires_at now) ≡ false → active_with later hash s ≡ false
    stale s e = ground arith
