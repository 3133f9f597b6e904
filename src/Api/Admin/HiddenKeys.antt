-- ===== src/Api/Admin/HiddenKeys.antt =====
-- A request about a key that is not the user's to change is answered alike in every case.
use cellora.Prelude.{
  ℕ, ◌≡◌, ◌≢◌, ◌⊎◌, refl, Option, All, ◌==◌, ==_iff, ap, Bool, false, Bool-cases, inl, inr,
  Option-cases, none, some, List, [], ◌∷◌, Bytes, codes, ok, err, any, select,
}
use cellora.Db.Rows.{ApiKey}
use cellora.Db.Schema.{Connection, healthy}
use cellora.Db.ApiKeys.{
  find, update, is_revoked, active_for, prefix_taken, rotate, revoke_at, rotate_for_user,
  revoke_for_user,
}
use cellora.Api.Error.{not_found}
use cellora.Api.Keys.{IssuedKey}
use cellora.Api.Session.{AuthenticatedSession}
use cellora.Api.Admin.{AdminWorld, Env, Draw, issue, parse_uuid, rotate_key, revoke_key}

-- A key that the user may not change: another one, another user's, or a revoked one.
abbrev pub Untouchable : ℕ → ℕ → ApiKey → Type 0
Untouchable id user_id k = (k.id ≢ id) ⊎ (k.user_id ≢ user_id) ⊎ (k.revoked_at ≢ none)

-- The text is no id, or it is the id of no key that the user may change.
abbrev pub OutOfReach : ℕ → List ApiKey → Option ℕ → Type 0
OutOfReach user_id keys none = Unit
OutOfReach user_id keys (some id) = All (Untouchable id user_id) keys

Untouchable-active_for :
    (id user_id : ℕ) (k : ApiKey) → Untouchable id user_id k → active_for id user_id k ≡ false
unfolding active_for is_revoked
Untouchable-active_for id user_id k h = elim (Bool-cases (k.id == id)) [
  | inl e ↦ elim (Bool-cases (k.user_id == user_id)) [
    | inl f ↦ elim (Option-cases k.revoked_at) [
      | inl live ↦ absurd (elim h [
        | inl other_id ↦ other_id ((==_iff k.id id).0 e)
        | inr rest ↦ elim rest [
          | inl other_user ↦ other_user ((==_iff k.user_id user_id).0 f)
          | inr revoked ↦ revoked live
        ]
      ])
      | inr (at, gone) ↦ rw (e, f, gone)
    ]
    | inr f ↦ rw (e, f)
  ]
  | inr e ↦ rw e
]

none_active :
    (id user_id : ℕ) (ks : List ApiKey)
    → All (Untouchable id user_id) ks
    → any (active_for id user_id) ks ≡ false
unfolding any
none_active id user_id [] h = refl
none_active id user_id (k ∷ ks) h =
    rw (Untouchable-active_for id user_id k h.0) (none_active id user_id ks h.1)

update-none :
    (p : ApiKey → Bool) (f : ApiKey → ApiKey) (ks : List ApiKey)
    → any p ks ≡ false
    → update p f ks ≡ ks
unfolding update any
update-none p f [] h = refl
update-none p f (k ∷ ks) h = elim (Bool-cases (p k)) [
  | inl e ↦ absurd (cc (rw e at h))
  | inr e ↦ rw e (ap (λ l. k ∷ l) (update-none p f ks (rw e at h)))
]

select-none : (p : ApiKey → Bool) (ks : List ApiKey) → any p ks ≡ false → select p ks ≡ []
unfolding select any
select-none p [] h = refl
select-none p (k ∷ ks) h = elim (Bool-cases (p k)) [
  | inl e ↦ absurd (cc (rw e at h))
  | inr e ↦ rw e (select-none p ks (rw e at h))
]

find-none : (p : ApiKey → Bool) (ks : List ApiKey) → any p ks ≡ false → find p ks ≡ none
unfolding find any
find-none p [] h = refl
find-none p (k ∷ ks) h = elim (Bool-cases (p k)) [
  | inl e ↦ absurd (cc (rw e at h))
  | inr e ↦ rw e (find-none p ks (rw e at h))
]

rotate-none :
    (conn : Connection) (id user_id : ℕ) (prefix hash : Bytes) (ks : List ApiKey)
    → conn ≡ healthy
    → any (active_for id user_id) ks ≡ false
    → rotate_for_user conn id user_id prefix hash ks ≡ ok (none, ks)
unfolding rotate_for_user prefix_taken
rotate-none conn id user_id prefix hash ks up h = rw (
  up,
  h,
  update-none (active_for id user_id) (rotate prefix hash) ks h,
  find-none (active_for id user_id) ks h,
)

revoke-none :
    (conn : Connection) (now id user_id : ℕ) (ks : List ApiKey)
    → conn ≡ healthy
    → any (active_for id user_id) ks ≡ false
    → revoke_for_user conn now id user_id ks ≡ ok (false, ks)
unfolding revoke_for_user
revoke-none conn now id user_id ks up h = rw (
  up,
  select-none (active_for id user_id) ks h,
  update-none (active_for id user_id) (revoke_at now) ks h,
)

-- Whether the text is no id, or the id is unknown, another user's or of a revoked key, `rotate_key` and
-- `revoke_key` answer with one and the same error, and change nothing: on a server that answers, and
-- where a new key can be generated, which `rotate_key` does before it asks the table.
pub hidden-NotFound :
    (env : Env) (draw : Draw) (auth : AuthenticatedSession) (raw_id : Bytes) (w : AdminWorld)
    (issued : IssuedKey)
    → env.conn ≡ healthy
    → issue env draw ≡ ok issued
    → OutOfReach auth.user.id w.keys (env.parse_str raw_id)
    → (rotate_key env draw auth raw_id w ≡ (err (not_found (codes "api key not found")), w))
      × (revoke_key env auth raw_id w ≡ (err (not_found (codes "api key not found")), w))
unfolding rotate_key revoke_key parse_uuid
hidden-NotFound env draw auth raw_id w issued up drawn hidden =
    elim (Option-cases (env.parse_str raw_id)) [
      | inl e ↦ (rw e, rw e)
      | inr (id, e) ↦
          let hidden_id : All (Untouchable id auth.user.id) w.keys = rw e at hidden in
          let inactive = none_active id auth.user.id w.keys hidden_id in
          (
            rw (
              e,
              drawn,
              rotate-none env.conn id auth.user.id issued.prefix issued.secret_hash w.keys up
                  inactive,
            ),
            rw (e, revoke-none env.conn env.now id auth.user.id w.keys up inactive),
          )
    ]
