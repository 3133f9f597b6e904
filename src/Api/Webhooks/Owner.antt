-- ===== src/Api/Webhooks/Owner.antt =====
-- What a deletion removes of a user's webhooks.
use mathlib.Core.List.{Memᴰ}
use cellora.Prelude.{
  ℕ, ◌≡◌, ◌≢◌, ◌↔◌, ◌⊎◌, refl, ap, Bool, true, false, not, Bool-cases, Option-cases, inl, inr,
  Option, none, some, List, [], ◌∷◌, Bytes, codes, ok, err, any, select, length, arith, ◌==◌,
  ==_iff, map, All,
}
use cellora.Prelude.Members.{Memᴰ-select}
use cellora.Db.Schema.{healthy}
use cellora.Api.Error.{ApiError, ApiResult, bad_request, not_found}
use cellora.Api.Session.{AuthenticatedSession}
use cellora.Api.Webhooks.Delivery.{Webhook}
use cellora.Api.Webhooks.Routes.{
  of_user, owned_by, delete_owned, delete_webhook, webhook_response, list_webhooks, newest_first,
}

-- Another webhook, or another user's.
abbrev pub NotOwn : ℕ → ℕ → Webhook → Type 0
NotOwn id user_id w = (w.id ≢ id) ⊎ (w.user_id ≢ user_id)

-- None of the user's webhooks has the id, if there is one.
abbrev pub Unowned : ℕ → List Webhook → Option ℕ → Type 0
Unowned user_id table none = Unit
Unowned user_id table (some id) = All (NotOwn id user_id) table

owned_by-parts :
    (id user_id : ℕ) (w : Webhook)
    → owned_by id user_id w ≡ true
    → (w.id ≡ id) × (w.user_id ≡ user_id)
unfolding owned_by of_user
owned_by-parts id user_id w h = ground arith

owned_by-NotOwn :
    (id user_id : ℕ) (w : Webhook) → owned_by id user_id w ≡ false → NotOwn id user_id w
unfolding owned_by of_user
owned_by-NotOwn id user_id w h = elim (Bool-cases (w.id == id)) [
  | inl e ↦ inr λ same. ground arith
  | inr e ↦ inl λ same. ground arith
]

NotOwn-owned_by :
    (id user_id : ℕ) (w : Webhook) → NotOwn id user_id w → owned_by id user_id w ≡ false
unfolding owned_by of_user
NotOwn-owned_by id user_id w (inl h) = elim (Bool-cases (w.id == id)) [
  | inl e ↦ absurd (h ((==_iff w.id id).0 e))
  | inr e ↦ rw e
]
NotOwn-owned_by id user_id w (inr h) = elim (Bool-cases (w.user_id == user_id)) [
  | inl e ↦ absurd (h ((==_iff w.user_id user_id).0 e))
  | inr e ↦ elim (Bool-cases (w.id == id)) [ inl k ↦ rw (k, e) | inr k ↦ rw k ]
]

any-Mem :
    (p : Webhook → Bool) (ws : List Webhook)
    → any p ws ≡ true
    → (w : Webhook) × Memᴰ w ws × (p w ≡ true)
unfolding any
any-Mem p [] h = absurd cc
any-Mem p (w ∷ ws) h = elim (Bool-cases (p w)) [
  | inl e ↦ (w, Memᴰ.head refl, e)
  | inr e ↦ let found = any-Mem p ws (rw e at h) in (found.0, Memᴰ.tail found.1, found.2)
]

any-All :
    (p : Webhook → Bool) (P : Webhook → Type 0) (ws : List Webhook)
    → ((w : Webhook) → p w ≡ false → P w)
    → any p ws ≡ false
    → All P ws
unfolding any
any-All p P [] f h = tt
any-All p P (w ∷ ws) f h = elim (Bool-cases (p w)) [
  | inl e ↦ absurd (cc (rw e at h))
  | inr e ↦ (f w e, any-All p P ws f (rw e at h))
]

-- what is left of a table
left_iff :
    (id user_id : ℕ) (table : List Webhook) (w : Webhook)
    → Memᴰ w (select (λ r. not (owned_by id user_id r)) table)
      ↔ (Memᴰ w table × NotOwn id user_id w)
left_iff id user_id table w =
    let kept_iff = Memᴰ-select (λ r. not (owned_by id user_id r)) w table in
    (
      λ m.
          let k = kept_iff.0 m in
          (k.0, owned_by-NotOwn id user_id w (not_true-false (owned_by id user_id w) k.1)),
      λ x. kept_iff.1 (x.0, rw (NotOwn-owned_by id user_id w x.1)),
    )
  where
    not_true-false : (b : Bool) → not b ≡ true → b ≡ false
    not_true-false true h = absurd cc
    not_true-false false h = refl

any-length : (p : Webhook → Bool) (ws : List Webhook) → not (length (select p ws) == 0) ≡ any p ws
unfolding any select
any-length p [] = refl
any-length p (w ∷ ws) = elim (Bool-cases (p w)) [
  | inl e ↦ rw e (ground arith)
  | inr e ↦ rw e (any-length p ws)
]

-- a row of another user is not one of the deleted
kept :
    (id user_id other : ℕ) (w : Webhook)
    → other ≢ user_id
    → of_user other w ≡ true
    → owned_by id user_id w ≡ false
unfolding owned_by of_user
kept id user_id other w apart h = ground arith

select-kept :
    (p q : Webhook → Bool) (ws : List Webhook)
    → ((w : Webhook) → p w ≡ true → q w ≡ true)
    → select p (select q ws) ≡ select p ws
unfolding select
select-kept p q [] h = refl
select-kept p q (w ∷ ws) h = elim (Bool-cases (p w)) [
  | inl e ↦ rw (h w e, e, select-kept p q ws h)
  | inr e ↦ elim (Bool-cases (q w)) [
    | inl k ↦ rw (k, e, select-kept p q ws h)
    | inr k ↦ rw (k, e, select-kept p q ws h)
  ]
]

-- What is refused: a text that is no id, or an id that is not of a webhook of the user.
abbrev pub refusal : Option ℕ → ApiError
refusal none = bad_request (codes "invalid webhook id")
refusal (some id) = not_found (codes "webhook not found")

abbrev pub Deletion :
    (Bytes → Option ℕ)
    → AuthenticatedSession
    → AuthenticatedSession
    → Bytes
    → List Webhook
    → ApiResult (List Webhook)
    → Type 0
Deletion parse_str auth other raw_id table (ok rest) =
    (id : ℕ) × (parse_str raw_id ≡ some id)
    × (own : Webhook) × Memᴰ own table
    × (own.id ≡ id)
    × (own.user_id ≡ auth.user.id)
    × ((w : Webhook) → Memᴰ w rest ↔ (Memᴰ w table × NotOwn id auth.user.id w))
    × (list_webhooks healthy other rest ≡ list_webhooks healthy other table)
Deletion parse_str auth other raw_id table (err e) =
    Unowned auth.user.id table (parse_str raw_id) × (e ≡ refusal (parse_str raw_id))

-- On a server that answers, a deletion succeeds only where the path is the id of a webhook of the user;
-- of the table it removes what has that id and that user, and nothing else, so that the list of any
-- other user is what it was. It fails only where the path is the id of none of the user's webhooks: as
-- a bad request if it is no id, and as not found if it is.
pub delete_webhook-Deletion :
    (parse_str : Bytes → Option ℕ) (auth other : AuthenticatedSession) (raw_id : Bytes)
    (table : List Webhook)
    → other.user.id ≢ auth.user.id
    → Deletion parse_str auth other raw_id table
        (delete_webhook parse_str healthy auth raw_id table)
unfolding delete_webhook delete_owned list_webhooks
delete_webhook-Deletion parse_str auth other raw_id table apart =
    elim (Option-cases (parse_str raw_id)) [
      | inl e ↦ rw e (rw e tt, rw e refl)
      | inr (id, e) ↦
          let mine : Webhook → Bool = owned_by id auth.user.id in
          elim (Bool-cases (any mine table)) [
            | inl k ↦
                let (own, member, owned) = any-Mem mine table k in
                let parts = owned_by-parts id auth.user.id own owned in
                rw (e, any-length mine table, k)
                  (
                    id,
                    e,
                    own,
                    member,
                    parts.0,
                    parts.1,
                    left_iff id auth.user.id table,
                    ap (λ rows. ok (map webhook_response (newest_first rows)))
                        (select-kept (of_user other.user.id) (λ w. not (mine w)) table
                          λ w theirs. rw (kept id auth.user.id other.user.id w apart theirs)),
                  )
            | inr k ↦
                rw (e, any-length mine table, k)
                  (
                    rw e (
                        any-All mine (NotOwn id auth.user.id) table
                          (owned_by-NotOwn id auth.user.id) k),
                    rw e refl,
                  )
          ]
    ]
