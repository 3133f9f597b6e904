-- ===== src/Api/AdminMetrics.antt =====
-- crates/api/src/routes/admin_metrics.rs, the charts of a user's requests: usage, activity, endpoints
-- and rate_limits. `now` is the clock of the statement in milliseconds, and PERCENTILE_CONT is a
-- parameter. The table is in the order of its rows.
pub mod Isolation
mod Tests
use cellora.Prelude.{
  ℕ, ◌+◌, ◌*◌, ◌/◌, Bool, true, false, ◌&&◌, List, [], ◌∷◌, ◌++◌, map, Bytes, bytes_eq, codes,
  Result, ok, map_err, ◌>>=◌, ◌>>◌, any, select, take, length, ltb, leb, ◌==◌, if◌then◌else◌,
}
use cellora.Prelude.Int.{ℤ, pos, negsuc}
use cellora.Prelude.Sorting.{order_desc}
use cellora.Db.Rows.{ApiKey}
use cellora.Db.Schema.{Connection, send, select_request_log}
use cellora.Api.Error.{ApiResult, from_db}
use cellora.Api.Session.{AuthenticatedSession}
use cellora.Api.RequestLogs.{RequestLogRow}

-- A row of `api_request_logs`, with the time of its insertion.
pub record StoredLog : Type 0 where
  pub timestamp : ℕ
  pub row : RequestLogRow

unfoldable pub starts_with : Bytes → Bytes → Bool
starts_with [] bs = true
starts_with (a ∷ as_) [] = false
starts_with (a ∷ as_) (b ∷ bs) = a == b && starts_with as_ bs

-- path LIKE '/graphql%'
unfoldable pub is_graphql : StoredLog → Bool
is_graphql l = starts_with (codes "/graphql") l.row.path

-- timestamp >= now() - interval '24 hours'
unfoldable pub last_day : ℕ → StoredLog → Bool
last_day now l = leb now (l.timestamp + 24 * 3600000)

abbrev pub owned_key : ℕ → ApiKey → Bool
owned_key user_id k = k.user_id == user_id

abbrev pub key_of : StoredLog → ApiKey → Bool
key_of l k = k.id == l.row.api_key_id

-- api_key_id IN (SELECT id FROM api_keys WHERE user_id = $1)
unfoldable pub by_user : ℕ → List ApiKey → StoredLog → Bool
by_user user_id keys l = any (key_of l) (select (owned_key user_id) keys)

pub record UsageDataPoint : Type 0 where
  pub timestamp : ℕ
  pub rest : ℕ
  pub graphql : ℕ

abbrev pub bump : Bool → UsageDataPoint → UsageDataPoint
bump true p = record p { graphql = p.graphql + 1 }
bump false p = record p { rest = p.rest + 1 }

-- GROUP BY date_trunc('hour', timestamp) ORDER BY 1, one row more
unfoldable pub count_in : ℕ → Bool → List UsageDataPoint → List UsageDataPoint
count_in hour graphql [] = bump graphql (record { timestamp = hour; rest = 0; graphql = 0 }) ∷ []
count_in hour graphql (p ∷ ps) =
    let later = count_in hour graphql ps in
    if hour == p.timestamp
    then bump graphql p ∷ ps
    else if ltb hour p.timestamp
    then bump graphql (record { timestamp = hour; rest = 0; graphql = 0 }) ∷ p ∷ ps
    else p ∷ later

unfoldable pub by_hour : List StoredLog → List UsageDataPoint
by_hour [] = []
by_hour (l ∷ ls) = count_in (l.timestamp / 3600000 * 3600000) (is_graphql l) (by_hour ls)

unfoldable pub usage :
    Connection
    → ℕ
    → AuthenticatedSession
    → List ApiKey
    → List StoredLog
    → ApiResult (List UsageDataPoint)
usage conn now auth keys logs = do
  map_err from_db (send conn select_request_log)
  ok (by_hour (select (λ l. last_day now l && by_user auth.user.id keys l) logs))

-- JOIN api_keys k ON l.api_key_id = k.id WHERE k.user_id = $1
unfoldable pub join_keys : ℕ → List ApiKey → List StoredLog → List (StoredLog × ApiKey)
join_keys user_id keys [] = []
join_keys user_id keys (l ∷ ls) =
    map (λ k. (l, k)) (select (key_of l) (select (owned_key user_id) keys))
    ++ join_keys user_id keys ls

-- ORDER BY l.timestamp DESC LIMIT 10
unfoldable pub last_ten : List (StoredLog × ApiKey) → List (StoredLog × ApiKey)
last_ten rows =
    take 10 (order_desc (λ (a b : StoredLog × ApiKey). ltb a.0.timestamp b.0.timestamp) rows)

pub record ActivityRow : Type 0 where
  pub method : Bytes
  pub path : Bytes
  pub key : Bytes
  pub status : ℤ
  pub ms : ℤ
  pub timestamp : ℕ

unfoldable pub activity :
    Connection → AuthenticatedSession → List ApiKey → List StoredLog → ApiResult (List ActivityRow)
activity conn auth keys logs = do
  map_err from_db (send conn select_request_log)
  ok (
      map
        (λ (l, k). record {
          method = l.row.method;
          path = l.row.path;
          key = k.prefix;
          status = l.row.status_code;
          ms = l.row.latency_ms;
          timestamp = l.timestamp;
        })
        (last_ten (join_keys auth.user.id keys logs)))

pub record RateLimitRow : Type 0 where
  pub endpoint : Bytes
  pub key : Bytes
  pub surface : Bytes
  pub ts : ℕ
  pub retry_after : ℕ

-- status_code = 429
abbrev pub is_429 : ℤ → Bool
is_429 (pos n) = n == 429
is_429 (negsuc n) = false

unfoldable pub rate_limits :
    Connection → AuthenticatedSession → List ApiKey → List StoredLog → ApiResult (List RateLimitRow)
rate_limits conn auth keys logs = do
  map_err from_db (send conn select_request_log)
  ok (
      map
        (λ (l, k). record {
          endpoint = l.row.path;
          key = k.prefix;
          surface = if is_graphql l then codes "GraphQL" else codes "REST";
          ts = l.timestamp;
          retry_after = 60;
        })
        (last_ten (
          select (λ (r : StoredLog × ApiKey). is_429 r.0.row.status_code)
            (join_keys auth.user.id keys logs))))

pub record EndpointRow : Type 0 where
  pub endpoint : Bytes
  pub requests : ℕ
  pub p95_ms : ℤ

-- GROUP BY path, one row more: a path and its latencies
unfoldable pub latency_in : Bytes → ℤ → List (Bytes × List ℤ) → List (Bytes × List ℤ)
latency_in path ms [] = (path, ms ∷ []) ∷ []
latency_in path ms ((p, all) ∷ groups) =
    let others = latency_in path ms groups in
    if bytes_eq p path then (p, ms ∷ all) ∷ groups else (p, all) ∷ others

unfoldable pub by_path : List StoredLog → List (Bytes × List ℤ)
by_path [] = []
by_path (l ∷ ls) = latency_in l.row.path l.row.latency_ms (by_path ls)

-- PERCENTILE_CONT(0.95) WITHIN GROUP (ORDER BY latency_ms), as an `i32`
abbrev pub Percentile : Type 0
Percentile = List ℤ → ℤ

unfoldable pub endpoints :
    Percentile
    → Connection
    → ℕ
    → AuthenticatedSession
    → List ApiKey
    → List StoredLog
    → ApiResult (List EndpointRow)
endpoints percentile conn now auth keys logs = do
  map_err from_db (send conn select_request_log)
  ok (
      map
        (λ (path, all). record { endpoint = path; requests = length all; p95_ms = percentile all })
        (take 10 (
          order_desc (λ (a b : Bytes × List ℤ). ltb (length a.1) (length b.1))
            (by_path (select (λ l. last_day now l && by_user auth.user.id keys l) logs)))))
