-- ===== src/Db/ApiKeys/Scope.antt =====
-- The dashboard's updates reach one user's key, and keep what a rotation must keep.
use cellora.Prelude.{
  ℕ, ◌≡◌, ◌≢◌, refl, true, false, Bool, Bool-cases, inl, inr, not, Option, List, [], ◌∷◌, Bytes, ok,
  arith, if◌then◌else◌, Result, err, ◌>>◌, Ensures, Ensures-ok, guard,
}
use cellora.Db.Rows.{ApiKey}
use cellora.Db.Schema.{Connection, send, update_key, unique_violation}
use cellora.Db.ApiKeys.{
  is_revoked, active_for, rotate, revoke_at, update, prefix_taken, rotate_for_user, revoke_for_user,
}

-- Row by row: the rows satisfy `R` in pairs.
abbrev pub RowByRow : (ApiKey → ApiKey → Type 0) → List ApiKey → List ApiKey → Type 0
RowByRow R [] [] = Unit {0}
RowByRow R [] (l ∷ ls) = ⊥
RowByRow R (k ∷ ks) [] = ⊥
RowByRow R (k ∷ ks) (l ∷ ls) = R k l × RowByRow R ks ls

-- What becomes of a row when `user_id` rotates or revokes key `id`: a row of another user, another
-- key or a revoked key is unchanged, and no row changes its identity, owner, tier or age.
pub record Scoped (id user_id : ℕ) (k l : ApiKey) : Type 0 where
  pub same_id : l.id ≡ k.id
  pub same_user : l.user_id ≡ k.user_id
  pub same_tier : l.tier ≡ k.tier
  pub same_age : l.created_at ≡ k.created_at
  pub other_user : k.user_id ≢ user_id → l ≡ k
  pub other_key : k.id ≢ id → l ≡ k
  pub revoked : is_revoked k ≡ true → l ≡ k

Scoped-same : (id user_id : ℕ) (k : ApiKey) → Scoped id user_id k k
Scoped-same id user_id k = record {
  same_id = refl;
  same_user = refl;
  same_tier = refl;
  same_age = refl;
  other_user = λ _. refl;
  other_key = λ _. refl;
  revoked = λ _. refl;
}

active_for-parts :
    (id user_id : ℕ) (k : ApiKey)
    → active_for id user_id k ≡ true
    → (k.id ≡ id) × (k.user_id ≡ user_id) × (is_revoked k ≡ false)
unfolding active_for
active_for-parts id user_id k h = ground arith

-- an update that keeps identity, owner, tier and age, of the active key only
update-Scoped :
    (id user_id : ℕ) (f : ApiKey → ApiKey) (keys : List ApiKey)
    → ((k : ApiKey)
        → ((f k).id ≡ k.id)
          × ((f k).user_id ≡ k.user_id)
          × ((f k).tier ≡ k.tier)
          × ((f k).created_at ≡ k.created_at))
    → RowByRow (Scoped id user_id) keys (update (active_for id user_id) f keys)
unfolding update
update-Scoped id user_id f [] keeps = tt
update-Scoped id user_id f (k ∷ ks) keeps = (row, update-Scoped id user_id f ks keeps)
  where
    row : Scoped id user_id k (if active_for id user_id k then f k else k)
    row = elim (Bool-cases (active_for id user_id k)) [
      | inl e ↦
          let (i, u, r) = active_for-parts id user_id k e in
          let (same_id, same_user, same_tier, same_age) = keeps k in
          rw e (record {
            same_id = same_id;
            same_user = same_user;
            same_tier = same_tier;
            same_age = same_age;
            other_user = λ other. absurd (other u);
            other_key = λ other. absurd (other i);
            revoked = λ gone. absurd (cc (gone, r));
          })
      | inr e ↦ rw e (Scoped-same id user_id k)
    ]

Ensures-then :
    {E : Type 0} {B : Type 0} (P : B → Type 0) (m : Result E (Unit {0})) (r : Result E B)
    → Ensures P r
    → Ensures P (m >> r)
Ensures-then P (ok u) r h = h
Ensures-then P (err e) r h = tt

rotated :
    (conn : Connection) (id user_id : ℕ) (new_prefix new_secret_hash : Bytes) (keys : List ApiKey)
    → Ensures
        (λ (x : Option ApiKey × List ApiKey). RowByRow (Scoped id user_id) keys x.1)
        (rotate_for_user conn id user_id new_prefix new_secret_hash keys)
unfolding rotate_for_user
rotated conn id user_id new_prefix new_secret_hash keys =
    let P : Option ApiKey × List ApiKey → Type 0 = λ x. RowByRow (Scoped id user_id) keys x.1 in
    Ensures-then P (send conn update_key) _ (
      Ensures-then P (guard (not (prefix_taken id user_id new_prefix keys)) unique_violation) _ (
        update-Scoped id user_id (rotate new_prefix new_secret_hash) keys
          λ k. (refl, refl, refl, refl)))

revoked_rows :
    (conn : Connection) (now id user_id : ℕ) (keys : List ApiKey)
    → Ensures
        (λ (x : Bool × List ApiKey). RowByRow (Scoped id user_id) keys x.1)
        (revoke_for_user conn now id user_id keys)
unfolding revoke_for_user
revoked_rows conn now id user_id keys =
    let P : Bool × List ApiKey → Type 0 = λ x. RowByRow (Scoped id user_id) keys x.1 in
    Ensures-then P (send conn update_key) _
      (update-Scoped id user_id (revoke_at now) keys λ k. (refl, refl, refl, refl))

-- A rotation touches nothing but the active key of that id and user: every other row (of another
-- user, another id, or revoked) is as before, and no row changes its id, owner, tier or age.
pub rotate_for_user-Scoped :
    (conn : Connection) (id user_id : ℕ) (new_prefix new_secret_hash : Bytes)
    (keys keys' : List ApiKey) (o : Option ApiKey)
    → rotate_for_user conn id user_id new_prefix new_secret_hash keys ≡ ok (o, keys')
    → RowByRow (Scoped id user_id) keys keys'
rotate_for_user-Scoped conn id user_id new_prefix new_secret_hash keys keys' o h =
    Ensures-ok (λ (x : Option ApiKey × List ApiKey). RowByRow (Scoped id user_id) keys x.1) _
      (o, keys') (rotated conn id user_id new_prefix new_secret_hash keys) h

-- A revocation touches nothing but the active key of that id and user: every other row is as before,
-- and no row changes its id, owner, tier or age.
pub revoke_for_user-Scoped :
    (conn : Connection) (now id user_id : ℕ) (keys keys' : List ApiKey) (b : Bool)
    → revoke_for_user conn now id user_id keys ≡ ok (b, keys')
    → RowByRow (Scoped id user_id) keys keys'
revoke_for_user-Scoped conn now id user_id keys keys' b h =
    Ensures-ok (λ (x : Bool × List ApiKey). RowByRow (Scoped id user_id) keys x.1) _ (b, keys')
      (revoked_rows conn now id user_id keys) h
