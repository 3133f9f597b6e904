-- ===== src/Api/Auth/Revocation.antt =====
-- A revoked key is refused once the cache's time to live has passed, also where lookups overlap the
-- revocation.
use mathlib.Core.Path.{subst}
use mathlib.Core.List.{Memᴰ}
use mathlib.Core.List.Memᴰ
use cellora.Prelude.{
  ℕ, ◌+◌, ◌≤◌, ◌≡◌, refl, sym, ap, true, false, none, Option-cases, inl, inr, List, [], ◌∷◌, ◌++◌,
  Bytes, bytes_eq_refl, ok, arith, All, Ensures-ok,
}
use cellora.Db.Rows.{ApiKey}
use cellora.Db.Schema.{Connection}
use cellora.Db.ApiKeys.{active_at, is_revoked, revoke}
use cellora.Db.ApiKeys.Dead.{Dead, KeyStatement, KeyStatement-Dead, revoke-Dead_after}
use cellora.Api.Keys.{VerifyPassword, split}
use cellora.Api.Auth.{AuthenticatedKey, Entry, authenticated, cache_get, cache_insert, look_up}
use cellora.Api.Auth.Grounds.{Verified, cache_get-Entry, look_up-Verified}

-- A lookup in flight: it has read its row and verified the secret, and is still to be cached.
pub record Lookup : Type 0 where
  pub token : Bytes
  pub value : AuthenticatedKey

pub record AuthState : Type 0 where
  pub keys : List ApiKey
  pub cache : List Entry
  pub in_flight : List Lookup

-- What can happen at `now`. The slow path of `resolve` is two steps, between which others may come: it
-- reads the table, and later it inserts into the cache, unless its request was dropped. A hit in the
-- cache changes nothing and is no step. The cache may evict an entry, and a statement change the
-- table of keys.
pub data Step (verify_password : VerifyPassword) (ttl now : ℕ) (s : AuthState)
    : AuthState → Type 0 where
  looks_up :
      (conn : Connection) (bearer : Bytes) (row : ApiKey)
      → look_up verify_password conn bearer s.keys ≡ ok row
      → Step verify_password ttl now s (record s {
        in_flight = record { token = bearer; value = authenticated row } ∷ s.in_flight;
      })
  caches :
      (l : Lookup) (xs ys : List Lookup)
      → s.in_flight ≡ xs ++ (l ∷ ys)
      → Step verify_password ttl now s
          (record s { in_flight = xs ++ ys; cache = cache_insert now l.token l.value s.cache })
  abandons :
      (l : Lookup) (xs ys : List Lookup)
      → s.in_flight ≡ xs ++ (l ∷ ys)
      → Step verify_password ttl now s (record s { in_flight = xs ++ ys })
  evict :
      (e : Entry) (xs ys : List Entry)
      → s.cache ≡ xs ++ (e ∷ ys)
      → Step verify_password ttl now s (record s { cache = xs ++ ys })
  statement :
      (conn : Connection) (keys : List ApiKey)
      → KeyStatement conn now s.keys keys
      → Step verify_password ttl now s (record s { keys = keys })

-- Steps whose times do not go back.
pub data Run (verify_password : VerifyPassword) (ttl : ℕ) (s : AuthState) (t : ℕ)
    : AuthState → ℕ → Type 0 where
  stay : Run verify_password ttl s t s t
  and_then :
      {s' s'' : AuthState} {u now : ℕ}
      → Run verify_password ttl s t s' u
      → u ≤ now
      → Step verify_password ttl now s' s''
      → Run verify_password ttl s t s'' now

abbrev Carries : Bytes → Bytes → Type 0
Carries prefix token = (secret : Bytes) × (split token ≡ ok (prefix, secret))

-- The prefix is dead, and every entry of the cache is from `now` or before.
pub record Revoked (prefix : Bytes) (now : ℕ) (s : AuthState) : Type 0 where
  pub dead : Dead prefix s.keys
  pub past : (e : Entry) → Memᴰ e s.cache → e.inserted_at ≤ now

-- The prefix is dead, no lookup in flight has it, and the cache has tokens with it only from `t` or
-- before.
pub record Sealed (prefix : Bytes) (t : ℕ) (s : AuthState) : Type 0 where
  pub dead : Dead prefix s.keys
  pub quiet : (l : Lookup) → Memᴰ l s.in_flight → ¬ Carries prefix l.token
  pub old : (e : Entry) → Memᴰ e s.cache → Carries prefix e.token → e.inserted_at ≤ t

shrink :
    {A : Type 0} (e f : A) (xs ys zs : List A) → zs ≡ xs ++ (e ∷ ys) → Memᴰ f (xs ++ ys) → Memᴰ f zs
shrink {A} e f xs ys zs h m = subst (λ ws. Memᴰ f ws) (sym h) (widen xs m)
  where
    widen : (xs : List A) → Memᴰ f (xs ++ ys) → Memᴰ f (xs ++ (e ∷ ys))
    widen [] m = Memᴰ.tail m
    widen (x ∷ xs) (Memᴰ.head h) = Memᴰ.head h
    widen (x ∷ xs) (Memᴰ.tail m) = Memᴰ.tail (widen xs m)

amid : {A : Type 0} (e : A) (xs ys zs : List A) → zs ≡ xs ++ (e ∷ ys) → Memᴰ e zs
amid e xs ys zs h = subst (λ ws. Memᴰ e ws) (sym h) (Memᴰ.append_right xs (Memᴰ.head refl))

All-Mem : (P : ApiKey → Type 0) (ks : List ApiKey) (k : ApiKey) → All P ks → Memᴰ k ks → P k
All-Mem P [] k h m = absurd (elim m [ ])
All-Mem P (x ∷ xs) k h (Memᴰ.head e) = subst P (sym e) h.0
All-Mem P (x ∷ xs) k h (Memᴰ.tail m) = All-Mem P xs k h.1 m

live_active :
    (prefix : Bytes) (k : ApiKey)
    → k.revoked_at ≡ none
    → k.prefix ≡ prefix
    → active_at prefix k ≡ true
unfolding active_at is_revoked
live_active prefix k live own = rw (own, live, bytes_eq_refl prefix)

-- a live row of a dead prefix
no_live_row :
    (prefix : Bytes) (keys : List ApiKey) (k : ApiKey)
    → Dead prefix keys
    → Memᴰ k keys
    → k.revoked_at ≡ none
    → k.prefix ≡ prefix
    → ⊥
no_live_row prefix keys k d m live own =
    let quiet = All-Mem (λ l. active_at prefix l ≡ false) keys k d.none_live m in
    cc (quiet, live_active prefix k live own)

same_prefix :
    (token prefix other s s' : Bytes)
    → split token ≡ ok (prefix, s)
    → split token ≡ ok (other, s')
    → other ≡ prefix
same_prefix token prefix other s s' h h' = cc (h, h')

module _ (verify_password : VerifyPassword) (ttl : ℕ) (prefix : Bytes) where
  -- a dead prefix is not looked up
  refuses :
      (conn : Connection) (bearer secret : Bytes) (keys : List ApiKey) (row : ApiKey)
      → Dead prefix keys
      → split bearer ≡ ok (prefix, secret)
      → ¬ (look_up verify_password conn bearer keys ≡ ok row)
  refuses conn bearer secret keys row dead shape h =
      let (other, member, live, whole, shape', good) =
        Ensures-ok (Verified verify_password bearer keys) (look_up verify_password conn bearer keys)
          row (look_up-Verified verify_password conn bearer keys) h in
      no_live_row prefix keys row dead member live
        (same_prefix bearer prefix row.prefix secret other shape shape')

  Step-Revoked :
      (u now : ℕ) (s s' : AuthState)
      → u ≤ now
      → Step verify_password ttl now s s'
      → Revoked prefix u s
      → Revoked prefix now s'
  Step-Revoked u now s s' le (looks_up conn bearer row h) v = record {
    dead = v.dead;
    past = λ e m. let p = v.past e m in omega arith;
  }
  Step-Revoked u now s s' le (caches l xs ys h) v = record { dead = v.dead; past = inserted }
    where
      inserted :
          (e : Entry) → Memᴰ e (cache_insert now l.token l.value s.cache) → e.inserted_at ≤ now
      inserted e (Memᴰ.head h) =
          let at : e.inserted_at ≡ now = ap (λ (f : Entry). f.inserted_at) h in omega (arith, at)
      inserted e (Memᴰ.tail m) = let p = v.past e m in omega arith
  Step-Revoked u now s s' le (abandons l xs ys h) v = record {
    dead = v.dead;
    past = λ e m. let p = v.past e m in omega arith;
  }
  Step-Revoked u now s s' le (evict e xs ys h) v = record {
    dead = v.dead;
    past = λ f m. let p = v.past f (shrink e f xs ys s.cache h m) in omega arith;
  }
  Step-Revoked u now s s' le (statement conn keys h) v = record {
    dead = KeyStatement-Dead conn now prefix s.keys keys h v.dead;
    past = λ e m. let p = v.past e m in omega arith;
  }

  Run-Revoked :
      (s : AuthState) (t : ℕ) (s' : AuthState) (u : ℕ)
      → Run verify_password ttl s t s' u
      → Revoked prefix t s
      → Revoked prefix u s'
  Run-Revoked s t s' u stay v = v
  Run-Revoked s t s' u (and_then {s' = m} {u = w} run le step) v =
      Step-Revoked w u m s' le step (Run-Revoked s t m w run v)

  Step-Sealed :
      (t now : ℕ) (s s' : AuthState)
      → Step verify_password ttl now s s'
      → Sealed prefix t s
      → Sealed prefix t s'
  Step-Sealed t now s s' (looks_up conn bearer row h) v = record {
    dead = v.dead;
    quiet = still;
    old = v.old;
  }
    where
      still :
          (l : Lookup)
          → Memᴰ l (record { token = bearer; value = authenticated row } ∷ s.in_flight)
          → ¬ Carries prefix l.token
      still l (Memᴰ.head same) (secret, shape) =
          let own : split bearer ≡ ok (prefix, secret) =
            subst (λ (k : Lookup). split k.token ≡ ok (prefix, secret)) same shape in
          refuses conn bearer secret s.keys row v.dead own h
      still l (Memᴰ.tail m) has = v.quiet l m has
  Step-Sealed t now s s' (caches l xs ys h) v = record {
    dead = v.dead;
    quiet = λ k m. v.quiet k (shrink l k xs ys s.in_flight h m);
    old = fresh;
  }
    where
      fresh :
          (e : Entry)
          → Memᴰ e (cache_insert now l.token l.value s.cache)
          → Carries prefix e.token
          → e.inserted_at ≤ t
      fresh e (Memᴰ.head same) (secret, shape) =
          let own : split l.token ≡ ok (prefix, secret) =
            subst (λ (f : Entry). split f.token ≡ ok (prefix, secret)) same shape in
          absurd (v.quiet l (amid l xs ys s.in_flight h) (secret, own))
      fresh e (Memᴰ.tail m) has = v.old e m has
  Step-Sealed t now s s' (abandons l xs ys h) v = record {
    dead = v.dead;
    quiet = λ k m. v.quiet k (shrink l k xs ys s.in_flight h m);
    old = v.old;
  }
  Step-Sealed t now s s' (evict e xs ys h) v = record {
    dead = v.dead;
    quiet = v.quiet;
    old = λ f m. v.old f (shrink e f xs ys s.cache h m);
  }
  Step-Sealed t now s s' (statement conn keys h) v = record {
    dead = KeyStatement-Dead conn now prefix s.keys keys h v.dead;
    quiet = v.quiet;
    old = v.old;
  }

  Run-Sealed :
      (t : ℕ) (s : AuthState) (u : ℕ) (s' : AuthState) (v : ℕ)
      → Run verify_password ttl s u s' v
      → Sealed prefix t s
      → Sealed prefix t s'
  Run-Sealed t s u s' v stay seal = seal
  Run-Sealed t s u s' v (and_then {s' = m} {u = w} run le step) seal =
      Step-Sealed t v m s' step (Run-Sealed t s u m w run seal)

-- A revocation of a prefix found its key at a time by which every entry of the cache had been inserted;
-- lookups that had read the table before it may still be in flight, and enter the cache after it. Let
-- any steps follow, in order of time: lookups and their insertions, evictions, and statements on the
-- table of keys. From the time to live after a time `t` at which no lookup of that prefix is in flight,
-- the cache does not answer for a token with the prefix, and the table refuses it.
pub revoke-Refused :
    (verify_password : VerifyPassword) (ttl t0 t u now : ℕ) (conn conn' : Connection)
    (prefix bearer secret : Bytes) (keys keys' : List ApiKey) (cache : List Entry)
    (in_flight : List Lookup) (s s' : AuthState) (row : ApiKey)
    → revoke conn t0 prefix keys ≡ ok (true, keys')
    → ((e : Entry) → Memᴰ e cache → e.inserted_at ≤ t0)
    → Run verify_password ttl (record { keys = keys'; cache = cache; in_flight = in_flight }) t0 s t
    → ((l : Lookup) → Memᴰ l s.in_flight → ¬ Carries prefix l.token)
    → Run verify_password ttl s t s' u
    → split bearer ≡ ok (prefix, secret)
    → t + ttl ≤ now
    → (cache_get ttl now bearer s'.cache ≡ none)
      × ¬ (look_up verify_password conn' bearer s'.keys ≡ ok row)
revoke-Refused verify_password ttl t0 t u now conn conn' prefix bearer secret keys keys' cache
      in_flight s s' row gone past run drained run' shape late =
    (
      elim (Option-cases (cache_get ttl now bearer s'.cache)) [
        | inl miss ↦ miss
        | inr (a, hit) ↦
            let (e, m, token, young, value) = cache_get-Entry ttl now bearer s'.cache a hit in
            let carried : split e.token ≡ ok (prefix, secret) = rw token shape in
            let early = end.old e m (secret, carried) in absurd (omega arith)
      ],
      refuses verify_password ttl prefix conn' bearer secret s'.keys row end.dead shape,
    )
  where
    begun : Revoked prefix t s
    begun =
        Run-Revoked verify_password ttl prefix
          (record { keys = keys'; cache = cache; in_flight = in_flight }) t0 s t run
          (record { dead = revoke-Dead_after conn t0 prefix keys keys' gone; past = past })

    end : Sealed prefix t s'
    end =
        Run-Sealed verify_password ttl prefix t s t s' u run'
          (record { dead = begun.dead; quiet = drained; old = λ e m _. begun.past e m })
