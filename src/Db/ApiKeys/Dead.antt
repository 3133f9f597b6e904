-- ===== src/Db/ApiKeys/Dead.antt =====
-- A prefix whose key is revoked never comes to life again, whatever statement follows.
use mathlib.Core.Path.{subst}
use cellora.Prelude.{
  ℕ, ◌≡◌, refl, sym, ap, true, false, Bool, Bool-cases, inl, inr, not, ◌&&◌, ◌||◌, Option, some,
  List, [], ◌∷◌, map, Bytes, bytes_eq, bytes_eq_sound, ok, arith, All, any, ◌==◌, ltb, length,
  select, if◌then◌else◌, Ensures-guard, Ensures-ok,
}
use cellora.Db.Rows.{ApiKey, ApiKeyTier}
use cellora.Db.Schema.{
  Connection, driver, insert_key, update_key, unique_violation, foreign_key_violation,
}
use cellora.Db.ApiKeys.{
  is_revoked, active_at, active_for, rotate, revoke_at, update, prefix_taken, insert, revoke,
  touch_last_used, rotate_for_user, revoke_for_user,
}

-- a revoked row with the prefix
abbrev pub gone : Bytes → ApiKey → Bool
gone prefix k = bytes_eq k.prefix prefix && is_revoked k

-- There is a revoked key with the prefix, and no other.
pub record Dead (prefix : Bytes) (keys : List ApiKey) : Type 0 where
  pub none_live : All (λ (k : ApiKey). active_at prefix k ≡ false) keys
  pub row : any (gone prefix) keys ≡ true

any-map :
    (g : ApiKey → Bool) (f : ApiKey → ApiKey) (keys : List ApiKey)
    → ((k : ApiKey) → g k ≡ true → g (f k) ≡ true)
    → any g keys ≡ true
    → any g (map f keys) ≡ true
unfolding any
any-map g f [] step h = h
any-map g f (k ∷ ks) step h = elim (Bool-cases (g k)) [
  | inl e ↦ rw (step k e)
  | inr e ↦ let rest = any-map g f ks step (rw e at h) in ground (arith, rest)
]

All-map :
    (P : ApiKey → Type 0) (f : ApiKey → ApiKey) (keys : List ApiKey)
    → ((k : ApiKey) → P k → P (f k))
    → All P keys
    → All P (map f keys)
All-map P f [] step h = tt
All-map P f (k ∷ ks) step h = (step k h.0, All-map P f ks step h.1)

-- an update that keeps dead rows dead keeps the prefix dead
update-Dead :
    (prefix : Bytes) (p : ApiKey → Bool) (f : ApiKey → ApiKey) (keys : List ApiKey)
    → ((k : ApiKey) → p k ≡ true → active_at prefix k ≡ false → active_at prefix (f k) ≡ false)
    → ((k : ApiKey) → p k ≡ true → gone prefix k ≡ true → gone prefix (f k) ≡ true)
    → Dead prefix keys
    → Dead prefix (update p f keys)
unfolding update
update-Dead prefix p f keys live row d = record {
  none_live = All-map (λ k. active_at prefix k ≡ false) _ keys one d.none_live;
  row = any-map (gone prefix) _ keys kept d.row;
}
  where
    one :
        (k : ApiKey)
        → active_at prefix k ≡ false
        → active_at prefix (if p k then f k else k) ≡ false
    one k h = elim (Bool-cases (p k)) [ inl e ↦ rw e (live k e h) | inr e ↦ rw e h ]

    kept : (k : ApiKey) → gone prefix k ≡ true → gone prefix (if p k then f k else k) ≡ true
    kept k h = elim (Bool-cases (p k)) [ inl e ↦ rw e (row k e h) | inr e ↦ rw e h ]

touch-Dead :
    (now : ℕ) (prefix : Bytes) (p : ApiKey → Bool) (keys : List ApiKey)
    → Dead prefix keys
    → Dead prefix (update p (λ k. record k { last_used_at = some now }) keys)
unfolding active_at is_revoked
touch-Dead now prefix p keys d = update-Dead prefix p _ keys (λ k e h. h) (λ k e h. h) d

revoke-Dead :
    (now : ℕ) (prefix : Bytes) (p : ApiKey → Bool) (keys : List ApiKey)
    → Dead prefix keys
    → Dead prefix (update p (revoke_at now) keys)
unfolding active_at is_revoked
revoke-Dead now prefix p keys d =
    update-Dead prefix p (revoke_at now) keys (λ k e h. ground arith) (λ k e h. ground arith) d

other_prefix-Dead :
    (prefix new_prefix new_secret_hash : Bytes) (id user_id : ℕ) (keys : List ApiKey)
    → bytes_eq new_prefix prefix ≡ false
    → Dead prefix keys
    → Dead prefix (update (active_for id user_id) (rotate new_prefix new_secret_hash) keys)
unfolding active_at is_revoked active_for
other_prefix-Dead prefix new_prefix new_secret_hash id user_id keys other d =
    update-Dead prefix (active_for id user_id) (rotate new_prefix new_secret_hash) keys
      (λ k e h. ground arith) (λ k e h. ground arith) d

none_hit :
    (p : ApiKey → Bool) (f : ApiKey → ApiKey) (keys : List ApiKey)
    → any p keys ≡ false
    → update p f keys ≡ keys
unfolding any update
none_hit p f [] h = refl
none_hit p f (k ∷ ks) h = elim (Bool-cases (p k)) [
  | inl e ↦ absurd (cc (rw e at h))
  | inr e ↦ let rest = none_hit p f ks (rw e at h) in rw e (ap (λ xs. k ∷ xs) rest)
]

blocked_by_row :
    (prefix : Bytes) (id user_id : ℕ) (keys : List ApiKey)
    → any (gone prefix) keys ≡ true
    → any (λ k. bytes_eq k.prefix prefix && not (active_for id user_id k)) keys ≡ true
unfolding any active_for
blocked_by_row prefix id user_id [] h = h
blocked_by_row prefix id user_id (k ∷ ks) h =
    let rest = blocked_by_row prefix id user_id ks in ground (arith, rest)

left_false : (a b : Bool) → a && b ≡ false → b ≡ true → a ≡ false
left_false a b h t = ground arith

idle :
    (prefix : Bytes) (id user_id : ℕ) (keys : List ApiKey)
    → prefix_taken id user_id prefix keys ≡ false
    → any (gone prefix) keys ≡ true
    → any (active_for id user_id) keys ≡ false
unfolding prefix_taken
idle prefix id user_id keys h row =
    left_false (any (active_for id user_id) keys) _ h (blocked_by_row prefix id user_id keys row)

-- The unique prefix keeps a rotation from taking a revoked key's prefix.
rotate-Dead :
    (prefix new_prefix new_secret_hash : Bytes) (id user_id : ℕ) (keys : List ApiKey)
    → prefix_taken id user_id new_prefix keys ≡ false
    → Dead prefix keys
    → Dead prefix (update (active_for id user_id) (rotate new_prefix new_secret_hash) keys)
rotate-Dead prefix new_prefix new_secret_hash id user_id keys free d =
    elim (Bool-cases (bytes_eq new_prefix prefix)) [
      | inl e ↦
          let same : new_prefix ≡ prefix = bytes_eq_sound new_prefix prefix e in
          let none_active = idle prefix id user_id keys (rw same at free) d.row in
          subst (Dead prefix)
            (sym (
              none_hit (active_for id user_id) (rotate new_prefix new_secret_hash) keys
                none_active))
            d
      | inr e ↦ other_prefix-Dead prefix new_prefix new_secret_hash id user_id keys e d
    ]

taken_by_row :
    (prefix : Bytes) (id : ℕ) (keys : List ApiKey)
    → any (gone prefix) keys ≡ true
    → any (λ (k : ApiKey). k.id == id || bytes_eq k.prefix prefix) keys ≡ true
unfolding any
taken_by_row prefix id [] h = h
taken_by_row prefix id (k ∷ ks) h = let rest = taken_by_row prefix id ks in ground (arith, rest)

not-true : (b : Bool) → not b ≡ true → b ≡ false
not-true b h = ground arith

insert-Dead :
    (prefix new_prefix : Bytes) (id : ℕ) (k : ApiKey) (keys : List ApiKey)
    → k.prefix ≡ new_prefix
    → any (λ (l : ApiKey). l.id == id || bytes_eq l.prefix new_prefix) keys ≡ false
    → Dead prefix keys
    → Dead prefix (k ∷ keys)
insert-Dead prefix new_prefix id k keys own free d =
    elim (Bool-cases (bytes_eq new_prefix prefix)) [
      | inl e ↦
          let same : new_prefix ≡ prefix = bytes_eq_sound new_prefix prefix e in
          absurd (cc (taken_by_row prefix id keys d.row, rw same at free))
      | inr e ↦ record {
        none_live = (unfold active_at in rw (own, e), d.none_live);
        row = unfold any in rw (own, e, d.row);
      }
    ]

-- The statements of the module that change the table.
pub data KeyStatement (conn : Connection) (now : ℕ) (keys : List ApiKey)
    : List ApiKey → Type 0 where
  inserts :
      (id : ℕ) (users : List ℕ) (user_id : ℕ) (prefix secret_hash : Bytes) (tier : ApiKeyTier)
      (label : Option Bytes) (x : ApiKey × List ApiKey)
      → insert conn now id users user_id prefix secret_hash tier label keys ≡ ok x
      → KeyStatement conn now keys x.1
  touches :
      (prefix : Bytes) (keys' : List ApiKey)
      → touch_last_used conn now prefix keys ≡ ok keys'
      → KeyStatement conn now keys keys'
  revokes :
      (prefix : Bytes) (x : Bool × List ApiKey)
      → revoke conn now prefix keys ≡ ok x
      → KeyStatement conn now keys x.1
  revokes_for_user :
      (id user_id : ℕ) (x : Bool × List ApiKey)
      → revoke_for_user conn now id user_id keys ≡ ok x
      → KeyStatement conn now keys x.1
  rotates_for_user :
      (id user_id : ℕ) (new_prefix new_secret_hash : Bytes) (x : Option ApiKey × List ApiKey)
      → rotate_for_user conn id user_id new_prefix new_secret_hash keys ≡ ok x
      → KeyStatement conn now keys x.1

abbrev DeadAfter {ℓ} : {A : Type ℓ} → Bytes → A × List ApiKey → Type 0
DeadAfter prefix x = Dead prefix x.1

-- No statement brings a dead prefix to life.
pub KeyStatement-Dead :
    (conn : Connection) (now : ℕ) (prefix : Bytes) (keys keys' : List ApiKey)
    → KeyStatement conn now keys keys'
    → Dead prefix keys
    → Dead prefix keys'
unfolding insert touch_last_used revoke revoke_for_user rotate_for_user
KeyStatement-Dead conn now prefix keys keys'
      (inserts id users user_id new_prefix secret_hash tier label x e) d =
    Ensures-ok (DeadAfter prefix) _ x
      (Ensures-guard (DeadAfter prefix) (not (conn insert_key)) driver _ λ _.
        Ensures-guard (DeadAfter prefix)
          (not (any (λ (k : ApiKey). k.id == id || bytes_eq k.prefix new_prefix) keys))
          unique_violation _
          λ free.
            Ensures-guard (DeadAfter prefix) (any (λ u. u == user_id) users) foreign_key_violation _
              λ _. insert-Dead prefix new_prefix id _ keys refl (not-true _ free) d)
      e
KeyStatement-Dead conn now prefix keys keys' (touches touched keys'' e) d =
    Ensures-ok (Dead prefix) _ keys''
      (Ensures-guard (Dead prefix) (not (conn update_key)) driver _
        λ _. touch-Dead now prefix _ keys d)
      e
KeyStatement-Dead conn now prefix keys keys' (revokes revoked x e) d =
    Ensures-ok (DeadAfter prefix) _ x
      (Ensures-guard (DeadAfter prefix) (not (conn update_key)) driver _
        λ _. revoke-Dead now prefix (active_at revoked) keys d)
      e
KeyStatement-Dead conn now prefix keys keys' (revokes_for_user id user_id x e) d =
    Ensures-ok (DeadAfter prefix) _ x
      (Ensures-guard (DeadAfter prefix) (not (conn update_key)) driver _
        λ _. revoke-Dead now prefix (active_for id user_id) keys d)
      e
KeyStatement-Dead conn now prefix keys keys'
      (rotates_for_user id user_id new_prefix new_secret_hash x e) d =
    Ensures-ok (DeadAfter prefix) _ x
      (Ensures-guard (DeadAfter prefix) (not (conn update_key)) driver _ λ _.
        Ensures-guard (DeadAfter prefix) (not (prefix_taken id user_id new_prefix keys))
          unique_violation _
          λ free. rotate-Dead prefix new_prefix new_secret_hash id user_id keys (not-true _ free) d)
      e

revoked-All :
    (now : ℕ) (prefix : Bytes) (keys : List ApiKey)
    → All
        (λ (k : ApiKey). active_at prefix k ≡ false)
        (update (active_at prefix) (revoke_at now) keys)
unfolding update active_at is_revoked
revoked-All now prefix [] = tt
revoked-All now prefix (k ∷ ks) = (ground arith, revoked-All now prefix ks)

revoke_at-gone :
    (now : ℕ) (prefix : Bytes) (k : ApiKey)
    → active_at prefix k ≡ true
    → gone prefix (revoke_at now k) ≡ true
unfolding active_at is_revoked
revoke_at-gone now prefix k e = ground arith

revoked_one :
    (now : ℕ) (prefix : Bytes) (keys : List ApiKey)
    → ltb 0 (length (select (active_at prefix) keys)) ≡ true
    → any (gone prefix) (update (active_at prefix) (revoke_at now) keys) ≡ true
unfolding update select any
revoked_one now prefix [] h = absurd (ground arith)
revoked_one now prefix (k ∷ ks) h = elim (Bool-cases (active_at prefix k)) [
  | inl e ↦ rw e (now_gone e)
  | inr e ↦ let rest = revoked_one now prefix ks (rw e at h) in rw e (ground (arith, rest))
]
  where
    now_gone :
        active_at prefix k ≡ true
        → any (gone prefix) (revoke_at now k ∷ update (active_at prefix) (revoke_at now) ks) ≡ true
    now_gone e = rw (revoke_at-gone now prefix k e)

-- A revocation that found a key leaves its prefix dead.
pub revoke-Dead_after :
    (conn : Connection) (now : ℕ) (prefix : Bytes) (keys keys' : List ApiKey)
    → revoke conn now prefix keys ≡ ok (true, keys')
    → Dead prefix keys'
unfolding revoke
revoke-Dead_after conn now prefix keys keys' h =
    let P : Bool × List ApiKey → Type 0 = λ x. x.0 ≡ true → Dead prefix x.1 in
    Ensures-ok P (revoke conn now prefix keys) (true, keys')
      (Ensures-guard P (not (conn update_key)) driver _ λ _ found. record {
        none_live = revoked-All now prefix keys;
        row = revoked_one now prefix keys found;
      })
      h refl
