-- ===== src/Db/Schema.antt =====
-- The tables that the indexer writes, the statements that crates/db sends, and their errors.
-- A table is the list of its rows, newest first; no query depends on the order of rows but by an
-- ORDER BY. The database server is a parameter: `Connection` says of each statement whether the
-- driver fails on it (`DbError::Sqlx` for a lost connection), and everything else about a
-- statement is its effect on the tables. A transaction works on a copy of the database that an
-- error drops and a commit publishes.
use cellora.Prelude.{ℕ, Bool, not, Option, none, List, [], Bytes, Result, guard}
use cellora.Db.Rows.{BlockRow, TransactionRow, StoredCell, CheckpointRow, ReorgLogEntry}

pub record Database : Type 0 where
  pub blocks : List BlockRow
  pub transactions : List TransactionRow
  pub cells : List StoredCell
  pub indexer_state : Option CheckpointRow
  pub reorg_log : List ReorgLogEntry
  -- the BIGSERIAL sequence behind `reorg_log.id`
  pub next_log_id : ℕ

abbrev pub empty : Database
empty = record {
  blocks = [];
  transactions = [];
  cells = [];
  indexer_state = none;
  reorg_log = [];
  next_log_id = 1;
}

pub data DbError : Type 0 where
  driver unique_violation foreign_key_violation : DbError

abbrev pub DbResult : Type 0 → Type 0
DbResult = Result DbError

pub data Statement : Type 0 where
  begin commit : Statement
  select_hash insert_block : ℕ → Statement
  select_block : Statement
  delete_blocks restore_cells : ℕ → Statement
  insert_transaction : Bytes → Statement
  insert_cell update_consumed : Bytes → ℕ → Statement
  select_state upsert_state : Statement
  insert_log update_log : Statement
  select_cells : Statement
  insert_key select_key update_key : Statement
  upsert_user select_user : Statement
  insert_session select_session update_session delete_session : Statement
  insert_request_log select_request_log : Statement
  select_webhooks insert_webhook delete_webhook : Statement

abbrev pub Connection : Type 0
Connection = Statement → Bool

abbrev pub send : Connection → Statement → DbResult Unit
send conn s = guard (not (conn s)) driver

-- A server that answers every statement.
abbrev pub healthy : Connection
healthy _ = Bool.false
