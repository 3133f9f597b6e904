-- ===== src/Api/Middleware.antt =====
-- The middleware of crates/api/src/lib.rs with that of auth.rs, and the counters of metrics.rs that
-- they keep: authentication, rate limits, tip headers and request metrics, in the order of
-- `build_app`. A handler is a function on a state of its own, `A`. The content type of an error and
-- what tower's layers add are left out; the elapsed time is in whole nanoseconds, and made
-- milliseconds without the rounding of a float; every text that the middleware makes a header's
-- value of is one that `HeaderValue` accepts. A request runs from its start to its answer with no
-- other in between, and the spawned update of `last_used_at` is a statement of its own.
pub mod Gate
mod Tests
use cellora.Prelude.{
  ℕ, Bool, true, false, not, ◌&&◌, Option, none, some, List, [], ◌∷◌, Bytes, bytes_eq, codes,
  Result, ok, err, leb, if◌then◌else◌, select, ◌/◌, min,
}
use cellora.Prelude.Int.{u32_max}
use cellora.Prelude.Text.{decimal}
use cellora.Db.Rows.{ApiKey, ApiKeyTier}
use cellora.Db.Schema.{Connection}
use cellora.Api.Error.{
  ApiError, ApiResult, code, status, public_message, rate_limited, upstream_unavailable, internal,
}
use cellora.Api.Tip
use cellora.Api.Tip.{TipSnapshot}
use cellora.Api.Keys.{VerifyPassword}
use cellora.Api.RateLimit.{Surface, Limits, Redis, Decision, LimitError, from_config, check}
use cellora.Api.Auth.{AuthenticatedKey, Entry, extract_bearer}
use cellora.Api.Auth
use cellora.Api.RequestLogs.{ApiRequestLogPayload, LogJson, lpush, ltrim}

pub data Body : Type 0 where
  -- `ErrorEnvelope`: a code and a message
  envelope : Bytes → Bytes → Body
  payload : Bytes → Body

-- `key` is the `AuthenticatedKey` among the extensions.
pub record Response : Type 0 where
  pub status : ℕ
  pub headers : List (Bytes × Bytes)
  pub body : Body
  pub key : Option AuthenticatedKey

-- IntoResponse for ApiError
unfoldable pub into_response : ApiError → Response
into_response e = record {
  status = status e;
  headers = [];
  body = envelope (code e) (public_message e);
  key = none;
}

-- HeaderMap::insert
unfoldable pub insert_header : Bytes → Bytes → Response → Response
insert_header name value r = record r {
  headers = (name, value) ∷ select (λ h. not (bytes_eq h.0 name)) r.headers;
}

pub data RateLimitOutcome : Type 0 where
  allowed limited fail_open fail_closed : RateLimitOutcome

-- One observation of `Metrics::observe_request`: the counter by method, path and status, and the
-- histogram of durations by method and path.
pub record RequestObservation : Type 0 where
  pub method : Bytes
  pub matched_path : Bytes
  pub status : ℕ
  pub elapsed : ℕ

-- What the middleware changes: the handlers' state, the cache of keys, Redis's buckets and list of
-- logs, and what the metrics observed, newest first: the rate-limit decisions, and the requests.
pub record Service (A : Type 0) : Type 0 where
  pub app : A
  pub cache : List Entry
  pub redis : Redis
  pub logs : List Bytes
  pub decisions : List (Surface × ApiKeyTier × RateLimitOutcome)
  pub requests : List RequestObservation

-- What one request meets. `fails_open` is `none` where there is no limiter, `logging` whether there
-- is a Redis connection to log to, and whether it carries the LPUSH and the LTRIM out.
pub record ServiceEnv : Type 0 where
  pub verify_password : VerifyPassword
  pub conn : Connection
  pub keys : List ApiKey
  pub cache_ttl : ℕ
  pub limits : Limits
  pub fails_open : Option Bool
  pub now : ℕ
  pub tip : TipSnapshot
  pub json : LogJson
  pub logging : Option (Bool × Bool)

pub record Request : Type 0 where
  pub method : Bytes
  pub matched_path : Bytes
  pub authorization : Option (Option Bytes)
  pub elapsed : ℕ

abbrev pub Next : Type 0 → Type 0
Next A = A → Response × A

-- the rest of the stack, in the middleware's terms
abbrev pub Layer : Type 0 → Type 0
Layer A = Service A → Response × Service A

unfoldable pub run_next : {A : Type 0} → Next A → Layer A
run_next next s = let (response, app) = next s.app in (response, record s { app = app })

unfoldable pub attach_rate_limit_headers : Decision → Response → Response
attach_rate_limit_headers d r =
    insert_header (codes "x-ratelimit-reset") (decimal d.retry_after_seconds) (
      insert_header (codes "x-ratelimit-remaining") (decimal d.remaining)
        (insert_header (codes "x-ratelimit-limit") (decimal d.limit) r))

-- the 429
unfoldable pub deny : Decision → Response
deny d = attach_rate_limit_headers d (
    insert_header (codes "retry-after") (decimal d.retry_after_seconds)
      (into_response (rate_limited d.retry_after_seconds)))

abbrev pub is_success : Response → Bool
is_success r = leb 200 r.status && leb r.status 299

abbrev pub tip_value : Option ℕ → Response → Response
tip_value none r = r
tip_value (some tip) r = insert_header (codes "x-indexer-tip") (decimal tip) r

-- `monotonic` is the clock at the response.
unfoldable pub tip_headers : ℕ → TipSnapshot → Response → Response
tip_headers monotonic snap r =
    if is_success r
    then (let tagged = tip_value snap.indexer_tip r in
        if Tip.is_stale monotonic snap
        then insert_header (codes "x-indexer-tip-stale") (codes "true") tagged
        else tagged)
    else r

-- the spawned task: LPUSH, and LTRIM whatever became of it
unfoldable pub enqueue : Option (Bool × Bool) → Bytes → List Bytes → List Bytes
enqueue none text logs = logs
enqueue (some (pushes, trims)) text logs =
    let pushed = if pushes then lpush text logs else logs in if trims then ltrim pushed else pushed

abbrev pub log_payload : Request → Response → AuthenticatedKey → ApiRequestLogPayload
log_payload request response key = record {
  api_key_id = key.id;
  method = request.method;
  path = request.matched_path;
  status_code = response.status;
  latency_ms = min (request.elapsed / 1000000) u32_max;
}

-- Metrics::observe_request, as an entry in front
unfoldable pub observe_request :
    Request → Response → List RequestObservation → List RequestObservation
observe_request request response seen =
    record {
      method = request.method;
      matched_path = request.matched_path;
      status = response.status;
      elapsed = request.elapsed;
    }
    ∷ seen

module _ {A : Type 0} where
  abbrev pub observe : Surface → ApiKeyTier → RateLimitOutcome → Service A → Service A
  observe surface tier outcome s = record s { decisions = (surface, tier, outcome) ∷ s.decisions }

  abbrev pub annotate : Decision → Response × Service A → Response × Service A
  annotate d (response, s) = (attach_rate_limit_headers d response, s)

  -- with a decision
  unfoldable pub decided : Surface → AuthenticatedKey → Next A → Decision → Layer A
  decided surface key next d s =
      if d.allowed
      then annotate d (run_next next (observe surface key.tier allowed s))
      else (deny d, observe surface key.tier limited s)

  -- the limiter's error
  unfoldable pub unreachable : Bool → Surface → AuthenticatedKey → Next A → Layer A
  unreachable true surface key next s = run_next next (observe surface key.tier fail_open s)
  unreachable false surface key next s = (
    into_response (upstream_unavailable (codes "rate limiter unreachable")),
    observe surface key.tier fail_closed s,
  )

  abbrev pub on_check :
      Bool
      → Surface
      → AuthenticatedKey
      → Next A
      → Service A
      → Result LimitError (Decision × Redis)
      → Response × Service A
  on_check fails_open surface key next s (ok (d, redis)) =
      decided surface key next d (record s { redis = redis })
  on_check fails_open surface key next s (err e) = unreachable fails_open surface key next s

  unfoldable pub rate_limit_for : ServiceEnv → Surface → Option AuthenticatedKey → Next A → Layer A
  rate_limit_for env surface none next s = (into_response internal, s)
  rate_limit_for env surface (some key) next s = elim env.fails_open [
    | none ↦ run_next next (observe surface key.tier fail_open s)
    | some fails_open ↦
        on_check fails_open surface key next s
          (check key.prefix surface (from_config env.limits key.tier surface) env.now s.redis)
  ]

  abbrev pub with_key : AuthenticatedKey → Response × Service A → Response × Service A
  with_key key (response, s) = (record response { key = some key }, s)

  abbrev pub on_resolve :
      (AuthenticatedKey → Layer A)
      → Service A
      → ApiResult (AuthenticatedKey × List Entry)
      → Response × Service A
  on_resolve inner s (ok (key, cache)) = with_key key (inner key (record s { cache = cache }))
  on_resolve inner s (err e) = (into_response e, s)

  -- `inner` is what runs with the key among the request's extensions.
  abbrev pub on_bearer :
      ServiceEnv → (AuthenticatedKey → Layer A) → Service A → ApiResult Bytes → Response × Service A
  on_bearer env inner s (ok bearer) =
      on_resolve inner s
        (Auth.resolve env.verify_password env.conn env.cache_ttl env.now bearer env.keys s.cache)
  on_bearer env inner s (err e) = (into_response e, s)

  unfoldable pub auth_middleware : ServiceEnv → Request → (AuthenticatedKey → Layer A) → Layer A
  auth_middleware env request inner s = on_bearer env inner s (extract_bearer request.authorization)

  abbrev pub log_key :
      ServiceEnv → Request → Response → Option AuthenticatedKey → Service A → Service A
  log_key env request response none s = s
  log_key env request response (some key) s = record s {
    logs = enqueue env.logging (env.json.to_string (log_payload request response key)) s.logs;
  }

  unfoldable pub record_request_metrics : ServiceEnv → Request → Layer A → Layer A
  record_request_metrics env request inner s =
      let (response, s') = inner s in
      let seen = record s' { requests = observe_request request response s'.requests } in
      (response, log_key env request response response.key seen)

  -- A rate-limited route of `build_app`: metrics, tip headers, authentication, rate limit, handler.
  unfoldable pub limited_route :
      ServiceEnv → Surface → Request → (AuthenticatedKey → Next A) → Layer A
  limited_route env surface request handler = record_request_metrics env request λ s.
      let (response, s') =
        auth_middleware env request (λ key. rate_limit_for env surface (some key) (handler key))
          s in
      (tip_headers env.now env.tip response, s')
