-- ===== src/Api/RequestLogs.antt =====
-- The buffered request logs: the enqueueing half of `record_request_metrics` in crates/api/src/lib.rs,
-- and crates/api/src/metrics_worker.rs. The Redis list `api_request_logs` is a list, its head first.
-- The JSON texts of serde are the fields of `LogJson`.
pub mod Drain
pub mod Buffer
use mathlib.Core.List.{reverse}
use cellora.Prelude.{
  ℕ, zero, suc, ◌-◌, ◌^◌, Bool, true, false, ◌&&◌, Option, none, some, List, [], ◌∷◌, Bytes, ltb,
  ◌==◌, if◌then◌else◌, any, take, drop, length,
}
use cellora.Prelude.Int.{ℤ, pos, negsuc}

pub record ApiRequestLogPayload : Type 0 where
  pub api_key_id : ℕ
  pub method : Bytes
  pub path : Bytes
  pub status_code : ℕ
  pub latency_ms : ℕ

-- A row of `api_request_logs`: SMALLINT and INTEGER columns are signed.
pub record RequestLogRow : Type 0 where
  pub api_key_id : ℕ
  pub method : Bytes
  pub path : Bytes
  pub status_code : ℤ
  pub latency_ms : ℤ

pub record LogJson : Type 0 where
  pub to_string : ApiRequestLogPayload → Bytes
  pub from_str : Bytes → Option ApiRequestLogPayload

abbrev pub max_buffered_logs : ℕ
max_buffered_logs = 100000

abbrev pub batch_size : ℕ
batch_size = 100

abbrev pub max_batches_per_tick : ℕ
max_batches_per_tick = 10

-- LPUSH
unfoldable pub lpush : Bytes → List Bytes → List Bytes
lpush payload queue = payload ∷ queue

-- LTRIM 0 MAX-1
unfoldable pub ltrim : List Bytes → List Bytes
ltrim queue = take max_buffered_logs queue

-- RPOP with a count: the elements from the tail on, and what it leaves
unfoldable pub rpop : ℕ → List Bytes → List Bytes × List Bytes
rpop count queue = (take count (reverse queue), reverse (drop count (reverse queue)))

-- u16 as i16
unfoldable pub u16_as_i16 : ℕ → ℤ
u16_as_i16 n = if ltb n (2 ^ 15) then pos n else negsuc (2 ^ 16 - n - 1)

-- u32 as i32
unfoldable pub u32_as_i32 : ℕ → ℤ
u32_as_i32 n = if ltb n (2 ^ 31) then pos n else negsuc (2 ^ 32 - n - 1)

abbrev pub row_of : ApiRequestLogPayload → RequestLogRow
row_of payload = record {
  api_key_id = payload.api_key_id;
  method = payload.method;
  path = payload.path;
  status_code = u16_as_i16 payload.status_code;
  latency_ms = u32_as_i32 payload.latency_ms;
}

-- What the worker meets: JSON, the ids of the keys, whether the server carries an INSERT out, and
-- whether Redis answers the RPOP with so many more batches to come.
pub record WorkerEnv : Type 0 where
  pub json : LogJson
  pub key_ids : List ℕ
  pub inserts : ApiRequestLogPayload → Bool
  pub answers : ℕ → Bool

-- one INSERT: api_key_id REFERENCES api_keys(id); a failure is only logged
unfoldable pub insert_row :
    WorkerEnv → ApiRequestLogPayload → List RequestLogRow → List RequestLogRow
insert_row env payload rows =
    if env.inserts payload && any (λ id. id == payload.api_key_id) env.key_ids
    then row_of payload ∷ rows
    else rows

abbrev pub insert_parsed :
    WorkerEnv → Option ApiRequestLogPayload → List RequestLogRow → List RequestLogRow
insert_parsed env none rows = rows
insert_parsed env (some payload) rows = insert_row env payload rows

-- the loop over one batch, newest row first
unfoldable pub persist : WorkerEnv → List Bytes → List RequestLogRow → List RequestLogRow
persist env [] rows = rows
persist env (item ∷ items) rows =
    persist env items (insert_parsed env (env.json.from_str item) rows)

pub record Logs : Type 0 where
  pub queue : List Bytes
  pub rows : List RequestLogRow

-- one batch popped and inserted
unfoldable pub batch : WorkerEnv → Logs → Logs
batch env logs = record {
  queue = (rpop batch_size logs.queue).1;
  rows = persist env (rpop batch_size logs.queue).0 logs.rows;
}

-- the loop of a tick, with `batches_remaining`
unfoldable pub drain : WorkerEnv → ℕ → Logs → Logs
drain env zero logs = logs
drain env (suc batches_remaining) logs =
    let rest = drain env batches_remaining (batch env logs) in
    let drained = length (rpop batch_size logs.queue).0 in
    if env.answers batches_remaining
    then (if drained == 0 then logs else if ltb drained batch_size then batch env logs else rest)
    else logs

unfoldable pub tick : WorkerEnv → Logs → Logs
tick env logs = drain env max_batches_per_tick logs
