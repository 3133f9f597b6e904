-- ===== src/Api/Health.antt =====
-- crates/api/src/routes/health.rs, the readiness probes: what each of them met within its second, and
-- the answer.

pub mod Ready
mod Tests
use cellora.Prelude.{
  ℕ, Bool, true, false, not, ◌||◌, Option, none, some, Bytes, bytes_eq, codes, if◌then◌else◌,
}

-- `timeout(PROBE_TIMEOUT, probe)`
pub data Probe (A : Type 0) : Type 0 where
  answered : A → Probe A
  failed elapsed : Probe A

pub record CkbNodeStatus : Type 0 where
  pub state : Bytes
  pub tip : Option ℕ
  pub is_synced : Bool

pub record ReadyResponse : Type 0 where
  pub status : Bytes
  pub db : Bytes
  pub redis : Bytes
  pub ckb_node : CkbNodeStatus

unfoldable pub probe_db : Probe ℕ → Bytes
probe_db (answered one) = codes "ok"
probe_db failed = codes "error"
probe_db elapsed = codes "error"

-- none where there is no connection
unfoldable pub probe_redis : Option (Probe Bytes) → Bytes
probe_redis none = codes "skipped"
probe_redis (some (answered pong)) = codes "ok"
probe_redis (some failed) = codes "error"
probe_redis (some elapsed) = codes "error"

abbrev pub ckb_error : CkbNodeStatus
ckb_error = record { state = codes "error"; tip = none; is_synced = false }

-- `is_initial_block_download` and the tip, where there is a client
unfoldable pub probe_ckb : Option (Probe (Bool × ℕ)) → CkbNodeStatus
probe_ckb none = record { state = codes "skipped"; tip = none; is_synced = true }
probe_ckb (some (answered (is_ibd, tip))) = record {
  state = codes "ok";
  tip = some tip;
  is_synced = not is_ibd;
}
probe_ckb (some failed) = ckb_error
probe_ckb (some elapsed) = ckb_error

unfoldable pub any_error : Bytes → Bytes → CkbNodeStatus → Bool
any_error db redis ckb_node =
    bytes_eq db (codes "error")
    || (bytes_eq redis (codes "error") || bytes_eq ckb_node.state (codes "error"))

unfoldable pub readiness :
    Probe ℕ → Option (Probe Bytes) → Option (Probe (Bool × ℕ)) → ℕ × ReadyResponse
readiness db redis ckb =
    let failing = any_error (probe_db db) (probe_redis redis) (probe_ckb ckb) in
    (
      if failing then 503 else 200,
      record {
        status = if failing then codes "not_ready" else codes "ready";
        db = probe_db db;
        redis = probe_redis redis;
        ckb_node = probe_ckb ckb;
      },
    )
