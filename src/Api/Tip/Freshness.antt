-- ===== src/Api/Tip/Freshness.antt =====
-- A snapshot that is not stale is young: its two tips come from sources that answered.
use cellora.Prelude.{
  ℕ, ◌-◌, ◌≤◌, ◌≡◌, inl, inr, Bool, true, false, Bool-cases, ◌&&◌, List, [], ◌∷◌, Option, ok, arith,
  Result-cases, ◌∙◌,
}
use cellora.Db.Rows.{CheckpointRow}
use cellora.Db.Checkpoint
use cellora.Api.Tip.{
  TipSnapshot, Reading, is_stale, read_indexer_tip, read_node_tip, refresh_once, refreshes,
  stale_after,
}

-- The database and the node answered.
abbrev pub Answered : Reading → Type 0
Answered r =
    ((row : Option CheckpointRow) × (Checkpoint.read r.conn r.database ≡ ok row))
    × ((n : ℕ) × (r.tip_block_number ≡ ok n))

read_indexer_tip-true :
    (r : Reading) (s : TipSnapshot)
    → (read_indexer_tip r s).1 ≡ true
    → (row : Option CheckpointRow) × (Checkpoint.read r.conn r.database ≡ ok row)
unfolding read_indexer_tip
read_indexer_tip-true r s h = elim (Result-cases (Checkpoint.read r.conn r.database)) [
  | inl (row, e) ↦ (row, e)
  | inr (x, e) ↦ absurd (cc (h, e))
]

read_node_tip-true :
    (r : Reading) (s : TipSnapshot)
    → (read_node_tip r s).1 ≡ true
    → (n : ℕ) × (r.tip_block_number ≡ ok n)
unfolding read_node_tip
read_node_tip-true r s h = elim (Result-cases r.tip_block_number) [
  | inl (n, e) ↦ (n, e)
  | inr (x, e) ↦ absurd (cc (h, e))
]

both_true : (a b : Bool) → a && b ≡ true → (a ≡ true) × (b ≡ true)
both_true a b h = ground arith

-- One of the refreshes, at most `STALE_AFTER` before `now`, read both sources.
pub data Recent (now : ℕ) : List Reading → TipSnapshot → Type 0 where
  newest :
      {r : Reading} {rs : List Reading} {s : TipSnapshot}
      → Answered r
      → now - r.monotonic ≤ stale_after
      → Recent now (r ∷ rs) s
  older :
      {r : Reading} {rs : List Reading} {s : TipSnapshot} → Recent now rs s → Recent now (r ∷ rs) s

young_enough :
    (now : ℕ) (r : Reading) (p : TipSnapshot)
    → (read_indexer_tip r p).1 && (read_node_tip r p).1 ≡ true
    → is_stale now (refresh_once r p) ≡ false
    → now - r.monotonic ≤ stale_after
unfolding is_stale refresh_once
young_enough now r p e h = let k = rw e at h in ground arith

aged_alike :
    (now : ℕ) (r : Reading) (p : TipSnapshot)
    → (read_indexer_tip r p).1 && (read_node_tip r p).1 ≡ false
    → is_stale now p ≡ is_stale now (refresh_once r p)
unfolding is_stale refresh_once
aged_alike now r p e = rw e

-- If the snapshot after any refreshes of one that was stale at `now` is not stale at `now`, one of
-- the refreshes in the last five seconds read both sources: an outage of either shows as stale.
pub refreshes-Recent :
    (now : ℕ) (rs : List Reading) (s : TipSnapshot)
    → is_stale now s ≡ true
    → is_stale now (refreshes rs s) ≡ false
    → Recent now rs s
unfolding refreshes
refreshes-Recent now [] s old h = absurd cc
refreshes-Recent now (r ∷ rs) s old h =
    elim (Bool-cases
      ((read_indexer_tip r (refreshes rs s)).1 && (read_node_tip r (refreshes rs s)).1)) [
        | inl e ↦
            let (a, b) =
              both_true (read_indexer_tip r (refreshes rs s)).1 (read_node_tip r (refreshes rs s)).1
                e in
            newest
              (read_indexer_tip-true r (refreshes rs s) a, read_node_tip-true r (refreshes rs s) b)
              (young_enough now r (refreshes rs s) e h)
        | inr e ↦ older (refreshes-Recent now rs s old (aged_alike now r (refreshes rs s) e ∙ h))
      ]
