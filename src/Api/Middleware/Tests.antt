-- ===== src/Api/Middleware/Tests.antt =====
-- A rate-limited route and its request logs, on small data.
use cellora.Prelude.{
  ℕ, ◌≡◌, ◌≤◌, ◌+◌, refl, true, none, some, [], ◌∷◌, codes, take, drop, length, bytes_eq, select,
  ◌++◌, any,
}
use cellora.Db.Rows.{free}
use cellora.Db.Schema.{healthy}
use cellora.Api.Auth
use cellora.Api.Auth.{AuthenticatedKey, Entry, extract_bearer}
use cellora.Api.RateLimit
use cellora.Api.RateLimit.{Limits, LimitParams, rest}
use cellora.Api.RequestLogs
use cellora.Api.RequestLogs.{ApiRequestLogPayload, WorkerEnv, Logs, LogJson, lpush, ltrim, tick}
use cellora.Api.RequestLogs.Drain.{arrival, rows_of, tick-Oldest}
use cellora.Api.RequestLogs.Buffer.{Buffer, here, next, push, trim, Reach-IsBounded}
use cellora.Prelude.Text.{decimal, digits}
use cellora.Api.Tip.{is_stale}
use cellora.Api.Middleware
use cellora.Api.Middleware.{Response, payload, Service, ServiceEnv, Request, limited_route, allowed}
use cellora.Api.Middleware.Gate.{Gate, limited_route-Gate}

abbrev log : ApiRequestLogPayload
log = record { api_key_id = 1; method = []; path = []; status_code = 200; latency_ms = 2 }

abbrev json : LogJson
json = record { to_string = λ p. p.status_code ∷ []; from_str = λ text. some log }

abbrev worker : WorkerEnv
worker = record { json = json; key_ids = 1 ∷ []; inserts = λ p. true; answers = λ k. true }

abbrev logs : Logs
logs = record { queue = (3 ∷ []) ∷ (2 ∷ []) ∷ (1 ∷ []) ∷ []; rows = [] }

tick-Oldest_example :
    (arrival (tick worker logs) ≡ drop 1000 (arrival logs))
    × ((tick worker logs).rows ≡ rows_of worker (take 1000 (arrival logs)) ++ [])
tick-Oldest_example = tick-Oldest worker logs (λ k. refl)

-- The three entries come in, and one that cannot be read is lost.
ticked :
    (length (tick worker logs).rows ≡ 3)
    × (length (tick (record worker { json = record json { from_str = λ text. none } }) logs).rows
        ≡ 0)
unfolding tick RequestLogs.drain RequestLogs.batch RequestLogs.rpop RequestLogs.persist
    RequestLogs.insert_row any RequestLogs.u16_as_i16 RequestLogs.u32_as_i32
ticked = (refl, refl)

-- one entry pushed and trimmed
abbrev one_log : Buffer
one_log = record { queue = ltrim (lpush [] []); waiting = 0; missed = 0 }

Reach-IsBounded_example : length one_log.queue ≤ 100000 + 0 + 0
Reach-IsBounded_example = Reach-IsBounded one_log (next (next here (push [])) (trim 0 refl))

abbrev params : LimitParams
params = record { burst = 2; refill = 1; per = 1 }

abbrev limits : Limits
limits = record {
  free_rest = params;
  starter_rest = params;
  pro_rest = params;
  free_graphql = params;
  starter_graphql = params;
  pro_graphql = params;
}

abbrev key : AuthenticatedKey
key = record { id = 1; prefix = codes "cell_00000000"; tier = free }

abbrev env : ServiceEnv
env = record {
  verify_password = λ secret phc. true;
  conn = healthy;
  keys = [];
  cache_ttl = 60000;
  limits = limits;
  fails_open = some true;
  now = 5000;
  tip = record {
    indexer_tip = some 9;
    node_tip = none;
    observed_at = 5000;
    observed_monotonic = 5000;
  };
  json = json;
  logging = some (true, true);
}

abbrev request : Request
request = record {
  method = codes "GET";
  matched_path = codes "/v1/cells";
  authorization = some (some (codes "Bearer k"));
  elapsed = 1500000;
}

-- a handler that counts its calls
abbrev handler : AuthenticatedKey → ℕ → Response × ℕ
handler k n = (record { status = 200; headers = []; body = payload []; key = none }, n + 1)

abbrev service : Service ℕ
service = record {
  app = 0;
  cache = record { token = codes "k"; value = key; inserted_at = 4000 } ∷ [];
  redis = record { at = λ k. none; up = true };
  logs = [];
  decisions = [];
  requests = [];
}

limited_route-Gate_example :
    Gate env rest request handler service
      (limited_route env rest request handler service).0
      (limited_route env rest request handler service).1
limited_route-Gate_example =
    limited_route-Gate env rest request handler service
      (limited_route env rest request handler service).1
      (limited_route env rest request handler service).0 refl

-- The handler is called once, and the answer has the tip and the limit in its headers.
served :
    let x = limited_route env rest request handler service in
    (x.1.app ≡ 1)
    × (x.0.status ≡ 200)
    × (length x.0.headers ≡ 4)
    × (length x.1.logs ≡ 1)
    × (length x.1.requests ≡ 1)
unfolding Middleware.observe_request limited_route Middleware.record_request_metrics
    Middleware.tip_headers Middleware.auth_middleware extract_bearer Auth.strip_bearer bytes_eq
    Auth.resolve Auth.cache_get Middleware.rate_limit_for RateLimit.check Middleware.decided
    RateLimit.token_bucket RateLimit.from_config RateLimit.refilled RateLimit.present
    Middleware.attach_rate_limit_headers Middleware.insert_header Middleware.enqueue
    Middleware.run_next RateLimit.bucket_key RateLimit.kept RateLimit.put RateLimit.slug
    RateLimit.ttl_ms lpush ltrim is_stale select decimal digits
served = (refl, refl, refl, refl, refl)
