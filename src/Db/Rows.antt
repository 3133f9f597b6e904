-- ===== src/Db/Rows.antt =====
-- crates/db/src/models.rs and the columns of migrations/20260417000001_init.up.sql. The `i64` and
-- `i32` columns hold what the parser converts from unsigned numbers, and are numbers here. A JSON
-- value is its text. Of the columns that the server fills from its clock, only `completed_at`
-- is kept.
use cellora.Prelude.{ℕ, Option, Bytes}

pub data HashType : Type 0 where
  data_ type_ data1 data2 : HashType

unfoldable pub as_i16 : HashType → ℕ
as_i16 data_ = 0
as_i16 type_ = 1
as_i16 data1 = 2
as_i16 data2 = 3

pub record BlockRow : Type 0 where
  pub number : ℕ
  pub hash : Bytes
  pub parent_hash : Bytes
  pub timestamp_ms : ℕ
  pub epoch : ℕ
  pub transactions_count : ℕ
  pub proposals_count : ℕ
  pub uncles_count : ℕ
  pub nonce : ℕ
  pub dao : Bytes

pub record TransactionRow : Type 0 where
  pub hash : Bytes
  pub block_number : ℕ
  pub tx_index : ℕ
  pub version : ℕ
  pub cell_deps : Bytes
  pub header_deps : Bytes
  pub witnesses : Bytes
  pub inputs_count : ℕ
  pub outputs_count : ℕ

pub record CellRow : Type 0 where
  pub tx_hash : Bytes
  pub output_index : ℕ
  pub block_number : ℕ
  pub capacity_shannons : ℕ
  pub lock_code_hash : Bytes
  pub lock_hash_type : HashType
  pub lock_args : Bytes
  pub lock_hash : Bytes
  pub type_code_hash : Option Bytes
  pub type_hash_type : Option HashType
  pub type_args : Option Bytes
  pub type_hash : Option Bytes
  pub content : Bytes

-- A row of the `cells` table: hash types are SMALLINTs, and the spend has three nullable columns.
pub record StoredCell : Type 0 where
  pub tx_hash : Bytes
  pub output_index : ℕ
  pub block_number : ℕ
  pub capacity_shannons : ℕ
  pub lock_code_hash : Bytes
  pub lock_hash_type : ℕ
  pub lock_args : Bytes
  pub lock_hash : Bytes
  pub type_code_hash : Option Bytes
  pub type_hash_type : Option ℕ
  pub type_args : Option Bytes
  pub type_hash : Option Bytes
  pub content : Bytes
  pub consumed_by_tx_hash : Option Bytes
  pub consumed_by_input_index : Option ℕ
  pub consumed_at_block_number : Option ℕ

pub record ConsumedCellRef : Type 0 where
  pub tx_hash : Bytes
  pub output_index : ℕ
  pub consumed_by_tx_hash : Bytes
  pub consumed_by_input_index : ℕ
  pub consumed_at_block_number : ℕ

pub record CheckpointRow : Type 0 where
  pub last_indexed_block : ℕ
  pub last_indexed_hash : Bytes

pub data ReorgStatus : Type 0 where
  in_progress completed failed : ReorgStatus

pub record ReorgLogEntry : Type 0 where
  pub id : ℕ
  pub divergence_block_number : ℕ
  pub divergence_node_hash : Bytes
  pub divergence_indexed_hash : Bytes
  pub depth : ℕ
  pub completed_at : Option ℕ
  pub status : ReorgStatus
  pub error : Option Bytes

pub data ApiKeyTier : Type 0 where
  free starter pro : ApiKeyTier

-- UUIDs are numbers, and times are milliseconds.
pub record ApiKey : Type 0 where
  pub id : ℕ
  pub user_id : ℕ
  pub prefix : Bytes
  pub secret_hash : Bytes
  pub tier : ApiKeyTier
  pub label : Option Bytes
  pub created_at : ℕ
  pub revoked_at : Option ℕ
  pub last_used_at : Option ℕ

pub record User : Type 0 where
  pub id : ℕ
  pub github_user_id : ℕ
  pub github_login : Bytes
  pub email : Option Bytes
  pub avatar_url : Option Bytes
  pub created_at : ℕ
  pub updated_at : ℕ

pub record Session : Type 0 where
  pub token_hash : Bytes
  pub user_id : ℕ
  pub created_at : ℕ
  pub expires_at : ℕ
  pub last_seen_at : ℕ
  pub user_agent : Option Bytes
