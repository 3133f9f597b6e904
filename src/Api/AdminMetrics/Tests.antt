-- ===== src/Api/AdminMetrics/Tests.antt =====
-- The charts of one user beside another's requests.
use cellora.Prelude.{ℕ, ◌≡◌, refl, none, List, [], ◌∷◌, Bytes, codes, ok, any, select, length}
use cellora.Prelude.Int.{pos}
use cellora.Db.Rows.{User, ApiKey, free}
use cellora.Db.Schema.{healthy}
use cellora.Api.Session.{AuthenticatedSession}
use cellora.Api.AdminMetrics
use cellora.Api.AdminMetrics.{
  StoredLog, Percentile, by_user, owned_key, usage, activity, rate_limits, endpoints,
}
use cellora.Api.AdminMetrics.Isolation.{usage_isolated}

abbrev ada : User
ada = record {
  id = 1;
  github_user_id = 1;
  github_login = [];
  email = none;
  avatar_url = none;
  created_at = 0;
  updated_at = 0;
}

abbrev auth : AuthenticatedSession
auth = record {
  session = record {
    token_hash = [];
    user_id = 1;
    created_at = 0;
    expires_at = 9;
    last_seen_at = 0;
    user_agent = none;
  };
  user = ada;
}

abbrev key : ℕ → ℕ → ApiKey
key id user_id = record {
  id = id;
  user_id = user_id;
  prefix = id ∷ [];
  secret_hash = [];
  tier = free;
  label = none;
  created_at = 0;
  revoked_at = none;
  last_used_at = none;
}

abbrev log : ℕ → ℕ → Bytes → ℕ → StoredLog
log timestamp api_key_id path status = record {
  timestamp = timestamp;
  row = record {
    api_key_id = api_key_id;
    method = codes "GET";
    path = path;
    status_code = pos status;
    latency_ms = pos 5;
  };
}

abbrev busy : List StoredLog
busy =
    log 7200001 4 (codes "/v1/cells") 200
    ∷ log 7200000 3 (codes "/graphql") 429
    ∷ log 7100000 3 (codes "/v1/cells") 200
    ∷ []

abbrev quiet : List StoredLog
quiet = log 7200000 3 (codes "/graphql") 429 ∷ log 7100000 3 (codes "/v1/cells") 200 ∷ []

used :
    usage healthy 7200002 auth (key 3 1 ∷ key 4 2 ∷ []) busy
    ≡ ok (
        record { timestamp = 3600000; rest = 1; graphql = 0 }
        ∷ record { timestamp = 7200000; rest = 0; graphql = 1 }
        ∷ [])
unfolding usage AdminMetrics.by_hour AdminMetrics.count_in AdminMetrics.is_graphql
    AdminMetrics.starts_with AdminMetrics.last_day by_user any select
used = refl

abbrev longest : Percentile
longest all = pos (length all)

same_rows :
    select (by_user 1 (key 3 1 ∷ key 4 2 ∷ [])) busy ≡ select (by_user 1 (key 3 1 ∷ [])) quiet
unfolding by_user any select
same_rows = refl

same_keys : select (owned_key 1) (key 3 1 ∷ key 4 2 ∷ []) ≡ select (owned_key 1) (key 3 1 ∷ [])
unfolding select
same_keys = refl

usage_isolated_example :
    (usage healthy 7200002 auth (key 3 1 ∷ key 4 2 ∷ []) busy
      ≡ usage healthy 7200002 auth (key 3 1 ∷ []) quiet)
    × (activity healthy auth (key 3 1 ∷ key 4 2 ∷ []) busy
        ≡ activity healthy auth (key 3 1 ∷ []) quiet)
    × (rate_limits healthy auth (key 3 1 ∷ key 4 2 ∷ []) busy
        ≡ rate_limits healthy auth (key 3 1 ∷ []) quiet)
    × (endpoints longest healthy 7200002 auth (key 3 1 ∷ key 4 2 ∷ []) busy
        ≡ endpoints longest healthy 7200002 auth (key 3 1 ∷ []) quiet)
usage_isolated_example =
    usage_isolated longest healthy 7200002 auth (key 3 1 ∷ key 4 2 ∷ []) (key 3 1 ∷ []) busy quiet
      same_keys same_rows
