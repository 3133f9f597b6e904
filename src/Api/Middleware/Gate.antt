-- ===== src/Api/Middleware/Gate.antt =====
-- What stands between a request and a handler of a rate-limited route.
use mathlib.Core.Path.{subst}
use cellora.Prelude.{
  ℕ, ◌+◌, ◌*◌, ◌≡◌, ◌⊎◌, refl, sym, ap, ◌∙◌, Bool, true, false, Bool-cases, inl, inr, Option, none,
  some, List, ◌∷◌, Bytes, bytes_eq_refl, Result, ok, err, arith, leb, leb→le, ◌==◌,
}
use cellora.Api.Error.{ApiError, ApiResult, status}
use cellora.Api.Tip
use cellora.Api.RateLimit.{
  Surface, LimitParams, Redis, Bucket, Decision, LimitError, from_config, one, present, refilled,
  kept, token_bucket, bucket_key, put, check,
}
use cellora.Api.Auth
use cellora.Api.Auth.{AuthenticatedKey, Entry, extract_bearer}
use cellora.Api.Middleware.{
  Response, into_response, insert_header, Service, ServiceEnv, Request, Next, Layer, fail_open,
  run_next, attach_rate_limit_headers, deny, decided, unreachable, on_check, rate_limit_for,
  with_key, on_resolve, on_bearer, auth_middleware, is_success, tip_value, tip_headers, enqueue,
  log_payload, log_key, observe_request, record_request_metrics, limited_route,
}

-- Why the rate limiter let a request through: there is none, it fails open on a Redis that does not
-- answer, or the key's bucket held a token, which is gone from it afterwards.
pub data Admission (env : ServiceEnv) (surface : Surface) (key : AuthenticatedKey)
    (before after : Redis) : Type 0 where
  no_limiter : env.fails_open ≡ none → after ≡ before → Admission env surface key before after
  failed_open :
      env.fails_open ≡ some true
      → before.up ≡ false
      → after ≡ before
      → Admission env surface key before after
  spent :
      (p : LimitParams) (tokens : ℕ) (b : Bucket)
      → p ≡ from_config env.limits key.tier surface
      → tokens ≡ refilled p env.now (present env.now (before.at (bucket_key surface key.prefix)))
      → after.at (bucket_key surface key.prefix) ≡ some b
      → b.tokens + one p ≡ tokens
      → Admission env surface key before after

-- With a key: the handler did not run, and the answer is 429 or 503; or it ran once, on an
-- admission, and the answer has its status.
pub data Passage {A : Type 0} (env : ServiceEnv) (surface : Surface) (key : AuthenticatedKey)
    (next : Next A) (app : A) (before : Redis) (code : ℕ) (app' : A) (after : Redis) : Type 0 where
  held :
      app' ≡ app
      → (code ≡ 429) ⊎ (code ≡ 503)
      → Passage env surface key next app before code app' after
  through :
      app' ≡ (next app).1
      → code ≡ (next app).0.status
      → Admission env surface key before after
      → Passage env surface key next app before code app' after

-- What the tokens are after a bucket let a request through.
bucket-spent :
    (p : LimitParams) (now : ℕ) (stored : Option Bucket)
    → (token_bucket p now 1 stored).0.allowed == 1 ≡ true
    → (token_bucket p now 1 stored).1.tokens + one p ≡ refilled p now (present now stored)
unfolding token_bucket kept
bucket-spent p now stored h =
    elim (Bool-cases (leb (1 * one p) (refilled p now (present now stored)))) [
      | inl e ↦
          let enough = leb→le (1 * one p) (refilled p now (present now stored)) e in
          rw e (omega (arith, enough))
      | inr e ↦ absurd (cc (rw e at h))
    ]

put_self : (key : Bytes) (b : Bucket) (at : Bytes → Option Bucket) → put key b at key ≡ some b
unfolding put
put_self key b at = rw (bytes_eq_refl key)

ok-parts :
    {d e : Decision} {r r' : Redis}
    → ◌≡◌ {A = Result LimitError (Decision × Redis)} (ok (d, r)) (ok (e, r'))
    → (d ≡ e) × (r ≡ r')
ok-parts h = (cc, cc)

-- What a decision says of the bucket behind it.
check-bucket :
    (prefix : Bytes) (surface : Surface) (p : LimitParams) (now : ℕ) (redis redis' : Redis)
    (d : Decision)
    → check prefix surface p now redis ≡ ok (d, redis')
    → (d.allowed ≡ ((token_bucket p now 1 (redis.at (bucket_key surface prefix))).0.allowed == 1))
      × (redis'.at (bucket_key surface prefix)
          ≡ some (token_bucket p now 1 (redis.at (bucket_key surface prefix))).1)
unfolding check
check-bucket prefix surface p now redis redis' d h = elim (Bool-cases redis.up) [
  | inl e ↦
      let (same_decision, same_redis) = ok-parts (rw e at h) in
      (
        sym (ap (λ (x : Decision). x.allowed) same_decision),
        sym (ap (λ (x : Redis). x.at (bucket_key surface prefix)) same_redis)
            ∙ put_self (bucket_key surface prefix) _ redis.at,
      )
  | inr e ↦ absurd (cc (rw e at h))
]

check-down :
    (prefix : Bytes) (surface : Surface) (p : LimitParams) (now : ℕ) (redis : Redis)
    (e : LimitError)
    → check prefix surface p now redis ≡ err e
    → redis.up ≡ false
unfolding check
check-down prefix surface p now redis e h = elim (Bool-cases redis.up) [
  | inl up ↦ absurd (cc (rw up at h))
  | inr down ↦ down
]

module _ {A : Type 0} (env : ServiceEnv) (surface : Surface) (key : AuthenticatedKey)
    (next : Next A) (s : Service A) where
  abbrev p : LimitParams
  p = from_config env.limits key.tier surface

  abbrev at : Bytes
  at = bucket_key surface key.prefix

  -- The limiter's part: a passage, and no log.
  abbrev Limited : Response × Service A → Type 0
  Limited x =
      Passage env surface key next s.app s.redis x.0.status x.1.app x.1.redis
      × (x.1.logs ≡ s.logs)
      × (x.1.requests ≡ s.requests)

  decided-Limited :
      (d : Decision) (redis' : Redis)
      → check key.prefix surface p env.now s.redis ≡ ok (d, redis')
      → Limited (decided surface key next d (record s { redis = redis' }))
  unfolding decided run_next deny attach_rate_limit_headers insert_header into_response status
  decided-Limited d redis' h = elim (Bool-cases d.allowed) [
    | inl e ↦
        let (allowed, kept_bucket) = check-bucket key.prefix surface p env.now s.redis redis' d h in
        rw e (
          through refl refl (
              spent p (refilled p env.now (present env.now (s.redis.at at)))
                (token_bucket p env.now 1 (s.redis.at at)).1 refl refl kept_bucket
                (bucket-spent p env.now (s.redis.at at) (sym allowed ∙ e))),
          refl,
          refl,
        )
    | inr e ↦ rw e (held refl (inl refl), refl, refl)
  ]

  unreachable-Limited :
      (fails_open : Bool)
      → env.fails_open ≡ some fails_open
      → s.redis.up ≡ false
      → Limited (unreachable fails_open surface key next s)
  unfolding unreachable run_next into_response status
  unreachable-Limited true e down = (through refl refl (failed_open e down refl), refl, refl)
  unreachable-Limited false e down = (held refl (inr refl), refl, refl)

  on_check-Limited :
      (fails_open : Bool) (c : Result LimitError (Decision × Redis))
      → env.fails_open ≡ some fails_open
      → check key.prefix surface p env.now s.redis ≡ c
      → Limited (on_check fails_open surface key next s c)
  on_check-Limited fails_open (ok (d, redis')) e h = decided-Limited d redis' h
  on_check-Limited fails_open (err x) e h =
      unreachable-Limited fails_open e (check-down key.prefix surface p env.now s.redis x h)

  rate_limit_for-Limited : Limited (rate_limit_for env surface (some key) next s)
  unfolding rate_limit_for run_next
  rate_limit_for-Limited = by_limiter env.fails_open refl
    where
      by_limiter :
          (o : Option Bool)
          → env.fails_open ≡ o
          → Limited (elim o [
            | none ↦
                run_next next
                  (record s { decisions = (surface, key.tier, fail_open) ∷ s.decisions })
            | some fails_open ↦
                on_check fails_open surface key next s (check key.prefix surface p env.now s.redis)
          ])
      by_limiter none e = (through refl refl (no_limiter e refl), refl, refl)
      by_limiter (some fails_open) e = on_check-Limited fails_open _ e refl

-- A request to a rate-limited route: turned away by the authentication, which only counts it;
-- or let in for the key that its bearer token resolves to, and logged with that key and the status of
-- its answer, whether or not the rate limiter held it. In every case the metrics observe the request
-- once, with the status of its answer.
pub data Gate {A : Type 0} (env : ServiceEnv) (surface : Surface) (request : Request)
    (handler : AuthenticatedKey → Next A) (s : Service A) (r : Response) (s' : Service A)
    : Type 0 where
  turned_away :
      (e : ApiError)
      → (extract_bearer request.authorization ≡ err e)
        ⊎ ((bearer : Bytes) × (extract_bearer request.authorization ≡ ok bearer)
            × (Auth.resolve env.verify_password env.conn env.cache_ttl env.now bearer env.keys
                  s.cache
                ≡ err e))
      → r.status ≡ status e
      → s' ≡ record s { requests = observe_request request r s.requests }
      → Gate env surface request handler s r s'
  let_in :
      (bearer : Bytes) (key : AuthenticatedKey) (cache : List Entry)
      → extract_bearer request.authorization ≡ ok bearer
      → Auth.resolve env.verify_password env.conn env.cache_ttl env.now bearer env.keys s.cache
        ≡ ok (key, cache)
      → Passage env surface key (handler key) s.app s.redis r.status s'.app s'.redis
      → s'.logs ≡ enqueue env.logging (env.json.to_string (log_payload request r key)) s.logs
      → s'.requests ≡ observe_request request r s.requests
      → Gate env surface request handler s r s'

tip_value-same :
    (o : Option ℕ) (r : Response)
    → ((tip_value o r).status ≡ r.status) × ((tip_value o r).key ≡ r.key)
unfolding insert_header
tip_value-same none r = (refl, refl)
tip_value-same (some tip) r = (refl, refl)

tip_headers-same :
    (monotonic : ℕ) (snap : Tip.TipSnapshot) (r : Response)
    → ((tip_headers monotonic snap r).status ≡ r.status)
      × ((tip_headers monotonic snap r).key ≡ r.key)
unfolding tip_headers insert_header
tip_headers-same monotonic snap r = elim (Bool-cases (is_success r)) [
  | inl e ↦ elim (Bool-cases (Tip.is_stale monotonic snap)) [
    | inl stale ↦ rw (e, stale) (tip_value-same snap.indexer_tip r)
    | inr fresh ↦ rw (e, fresh) (tip_value-same snap.indexer_tip r)
  ]
  | inr e ↦ rw e (refl, refl)
]

log_key-none :
    {A : Type 0} (env : ServiceEnv) (request : Request) (r : Response) (o : Option AuthenticatedKey)
    (s : Service A)
    → o ≡ none
    → log_key env request r o s ≡ s
log_key-none env request r none s e = refl
log_key-none env request r (some key) s e = absurd cc

log_key-some :
    {A : Type 0} (env : ServiceEnv) (request : Request) (r : Response) (o : Option AuthenticatedKey)
    (s : Service A) (key : AuthenticatedKey)
    → o ≡ some key
    → log_key env request r o s ≡ record s {
      logs = enqueue env.logging (env.json.to_string (log_payload request r key)) s.logs;
    }
log_key-some env request r none s key e = absurd cc
log_key-some env request r (some key') s key e = let same : key' ≡ key = cc in rw same

module _ {A : Type 0} (env : ServiceEnv) (surface : Surface) (request : Request)
    (handler : AuthenticatedKey → Next A) (s : Service A) where
  abbrev inner : AuthenticatedKey → Layer A
  inner key = rate_limit_for env surface (some key) (handler key)

  abbrev tagged : Response → Response
  tagged = tip_headers env.now env.tip

  -- what the outer layers make of the inner ones' answer
  abbrev outer : Response × Service A → Response × Service A
  outer (r, s') = (
    tagged r,
    log_key env request (tagged r) (tagged r).key
        (record s' { requests = observe_request request (tagged r) s'.requests }),
  )

  abbrev Gated : Response × Service A → Type 0
  Gated x = Gate env surface request handler s x.0 x.1

  away :
      (e : ApiError)
      → (extract_bearer request.authorization ≡ err e)
        ⊎ ((bearer : Bytes) × (extract_bearer request.authorization ≡ ok bearer)
            × (Auth.resolve env.verify_password env.conn env.cache_ttl env.now bearer env.keys
                  s.cache
                ≡ err e))
      → Gated (outer (into_response e, s))
  unfolding into_response
  away e why =
      let (same_status, same_key) = tip_headers-same env.now env.tip (into_response e) in
      let r = tagged (into_response e) in
      turned_away e why same_status (log_key-none env request r r.key _ same_key)

  inside :
      (bearer : Bytes) (key : AuthenticatedKey) (cache : List Entry)
      → extract_bearer request.authorization ≡ ok bearer
      → Auth.resolve env.verify_password env.conn env.cache_ttl env.now bearer env.keys s.cache
        ≡ ok (key, cache)
      → Gated (outer (with_key key (inner key (record s { cache = cache }))))
  inside bearer key cache eb er =
      let x = inner key (record s { cache = cache }) in
      let answer : Response = record x.0 { key = some key } in
      let r = tagged answer in
      let (passage, same_logs, same_requests) =
        rate_limit_for-Limited env surface key (handler key) (record s { cache = cache }) in
      let (same_status, same_key) = tip_headers-same env.now env.tip answer in
      let seen = record x.1 { requests = observe_request request r x.1.requests } in
      let text = env.json.to_string (log_payload request r key) in
      subst (λ s'. Gated (r, s')) (sym (log_key-some env request r r.key seen key same_key))
        (let_in bearer key cache eb er
          (subst (λ c. Passage env surface key (handler key) s.app s.redis c x.1.app x.1.redis)
            (sym same_status) passage)
          (ap (enqueue env.logging text) same_logs) (ap (observe_request request r) same_requests))

  by_resolve :
      (bearer : Bytes) (x : ApiResult (AuthenticatedKey × List Entry))
      → extract_bearer request.authorization ≡ ok bearer
      → Auth.resolve env.verify_password env.conn env.cache_ttl env.now bearer env.keys s.cache ≡ x
      → Gated (outer (on_resolve inner s x))
  by_resolve bearer (ok (key, cache)) eb er = inside bearer key cache eb er
  by_resolve bearer (err e) eb er = away e (inr (bearer, eb, er))

  by_bearer :
      (x : ApiResult Bytes)
      → extract_bearer request.authorization ≡ x
      → Gated (outer (on_bearer env inner s x))
  by_bearer (ok bearer) eb = by_resolve bearer _ eb refl
  by_bearer (err e) eb = away e (inl eb)

-- A request to a rate-limited route is turned away by the authentication, and changes nothing but the
-- request metrics; or it is let in for the key that its token resolves to and is logged with it, and
-- then the handler either did not run, and the answer is 429 or 503, or ran once: without a limiter,
-- on a Redis that does not answer and a limiter that fails open, or for one token of the bucket. In
-- every case the request metrics observe it once, with the status of its answer.
pub limited_route-Gate :
    {A : Type 0} (env : ServiceEnv) (surface : Surface) (request : Request)
    (handler : AuthenticatedKey → Next A) (s s' : Service A) (r : Response)
    → limited_route env surface request handler s ≡ (r, s')
    → Gate env surface request handler s r s'
unfolding limited_route record_request_metrics auth_middleware
limited_route-Gate env surface request handler s s' r h =
    subst (λ x. Gate env surface request handler s x.0 x.1) h
      (by_bearer env surface request handler s (extract_bearer request.authorization) refl)
