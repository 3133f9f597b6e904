-- ===== src/Api/Error.antt =====
-- crates/api/src/error.rs. The source of an internal error is not kept: it is only logged.
use cellora.Prelude.{ℕ, Bytes, codes, Result}
use cellora.Db.Schema.{DbError}

pub data ApiError : Type 0 where
  not_found bad_request invalid_cursor unauthorized upstream_unavailable : Bytes → ApiError
  rate_limited : ℕ → ApiError
  internal : ApiError

abbrev pub ApiResult : Type 0 → Type 0
ApiResult = Result ApiError

unfoldable pub code : ApiError → Bytes
code (not_found _) = codes "not_found"
code (bad_request _) = codes "bad_request"
code (invalid_cursor _) = codes "invalid_cursor"
code (unauthorized _) = codes "unauthorized"
code (rate_limited _) = codes "rate_limited"
code (upstream_unavailable _) = codes "upstream_unavailable"
code internal = codes "internal"

unfoldable pub status : ApiError → ℕ
status (not_found _) = 404
status (bad_request _) = 400
status (invalid_cursor _) = 400
status (unauthorized _) = 401
status (rate_limited _) = 429
status (upstream_unavailable _) = 503
status internal = 500

unfoldable pub public_message : ApiError → Bytes
public_message (not_found msg) = msg
public_message (bad_request msg) = msg
public_message (invalid_cursor msg) = msg
public_message (upstream_unavailable msg) = msg
public_message internal = codes "internal error"
public_message (unauthorized _) = codes "unauthorized"
public_message (rate_limited _) = codes "rate limited"

-- impl From<cellora_db::DbError>
abbrev pub from_db : DbError → ApiError
from_db _ = internal
