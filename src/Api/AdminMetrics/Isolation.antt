-- ===== src/Api/AdminMetrics/Isolation.antt =====
-- A user's charts are about the user's own requests.
use cellora.Prelude.{
  ℕ, ◌≡◌, ◌∙◌, refl, sym, ap, Bool, false, ◌&&◌, Bool-cases, inl, inr, List, [], ◌∷◌, ◌++◌, map,
  any, select,
}
use cellora.Db.Rows.{ApiKey}
use cellora.Db.Schema.{Connection}
use cellora.Api.Session.{AuthenticatedSession}
use cellora.Api.AdminMetrics.{
  StoredLog, Percentile, last_day, owned_key, key_of, by_user, join_keys, usage, activity,
  rate_limits, endpoints,
}

-- the rows of an IN clause, and their join
abbrev among : List ApiKey → StoredLog → Bool
among own l = any (key_of l) own

abbrev rows_of : List ApiKey → List StoredLog → List (StoredLog × ApiKey)
rows_of own [] = []
rows_of own (l ∷ ls) = map (λ k. (l, k)) (select (key_of l) own) ++ rows_of own ls

select-none : (p : ApiKey → Bool) (ks : List ApiKey) → any p ks ≡ false → select p ks ≡ []
unfolding select any
select-none p [] h = refl
select-none p (k ∷ ks) h = elim (Bool-cases (p k)) [
  | inl e ↦ absurd (cc (rw e at h))
  | inr e ↦ rw e (select-none p ks (rw e at h))
]

-- a row of no own key joins with none
rows_of-select :
    (own : List ApiKey) (ls : List StoredLog) → rows_of own ls ≡ rows_of own (select (among own) ls)
unfolding select
rows_of-select own [] = refl
rows_of-select own (l ∷ ls) = elim (Bool-cases (any (key_of l) own)) [
  | inl e ↦ rw (e, rows_of-select own ls) refl
  | inr e ↦ rw (e, select-none (key_of l) own e, rows_of-select own ls)
]

select-both :
    (p q : StoredLog → Bool) (ls : List StoredLog)
    → select (λ l. p l && q l) ls ≡ select p (select q ls)
unfolding select
select-both p q [] = refl
select-both p q (l ∷ ls) = elim (Bool-cases (q l)) [
  | inl e ↦ elim (Bool-cases (p l)) [
    | inl k ↦ rw (e, k, select-both p q ls)
    | inr k ↦ rw (e, k, select-both p q ls)
  ]
  | inr e ↦ elim (Bool-cases (p l)) [
    | inl k ↦ rw (e, k, select-both p q ls)
    | inr k ↦ rw (e, k, select-both p q ls)
  ]
]

join_keys-rows_of :
    (user_id : ℕ) (keys : List ApiKey) (ls : List StoredLog)
    → join_keys user_id keys ls ≡ rows_of (select (owned_key user_id) keys) ls
unfolding join_keys
join_keys-rows_of user_id keys [] = refl
join_keys-rows_of user_id keys (l ∷ ls) = rw (join_keys-rows_of user_id keys ls)

-- a join sees the user's keys and the rows of these
join_keys-own :
    (user_id : ℕ) (keys : List ApiKey) (ls : List StoredLog)
    → join_keys user_id keys ls
      ≡ rows_of (select (owned_key user_id) keys) (select (by_user user_id keys) ls)
unfolding by_user
join_keys-own user_id keys ls =
    join_keys-rows_of user_id keys ls ∙ rows_of-select (select (owned_key user_id) keys) ls

-- What a user is shown of the requests (usage, activity, rate limits and endpoints) is decided by the
-- user's own keys and the requests made with them: two tables that agree on these, whatever else is in
-- them, give the same four answers.
pub usage_isolated :
    (percentile : Percentile) (conn : Connection) (now : ℕ) (auth : AuthenticatedSession)
    (keys keys' : List ApiKey) (logs logs' : List StoredLog)
    → select (owned_key auth.user.id) keys ≡ select (owned_key auth.user.id) keys'
    → select (by_user auth.user.id keys) logs ≡ select (by_user auth.user.id keys') logs'
    → (usage conn now auth keys logs ≡ usage conn now auth keys' logs')
      × (activity conn auth keys logs ≡ activity conn auth keys' logs')
      × (rate_limits conn auth keys logs ≡ rate_limits conn auth keys' logs')
      × (endpoints percentile conn now auth keys logs
          ≡ endpoints percentile conn now auth keys' logs')
unfolding usage activity rate_limits endpoints
usage_isolated percentile conn now auth keys keys' logs logs' same_keys same_rows =
    let user_id = auth.user.id in
    let rows : select (λ l. last_day now l && by_user user_id keys l) logs
        ≡ select (λ l. last_day now l && by_user user_id keys' l) logs' =
      select-both (last_day now) (by_user user_id keys) logs
      ∙ ap (select (last_day now)) same_rows
      ∙ sym (select-both (last_day now) (by_user user_id keys') logs') in
    let joined : join_keys user_id keys logs ≡ join_keys user_id keys' logs' =
      join_keys-own user_id keys logs
      ∙ ap (λ own. rows_of own (select (by_user user_id keys) logs)) same_keys
      ∙ ap (rows_of (select (owned_key user_id) keys')) same_rows
      ∙ sym (join_keys-own user_id keys' logs') in
    (rw rows, rw joined, rw joined, rw rows)
