-- ===== src/Indexer/Poller/Depth.antt =====
-- The depth that a handled reorg reports is the number of blocks that it deleted.
use cellora.Prelude.{
  ℕ, suc, ◌+◌, ◌-◌, ◌<◌, ◌≤◌, ◌≡◌, refl, false, Bool-cases, inl, inr, some, List, [], ◌∷◌, Bytes,
  ok, arith, All, select, ltb, lt→ltb, length, ◌==◌, ==_iff,
}
use cellora.Prelude.Int.{pos, i32_max}
use cellora.Db.Rows.{BlockRow}
use cellora.Db.Schema.{Database, Connection}
use cellora.Db.Blocks
use cellora.Db.Blocks.{row_at}
use cellora.Indexer.Chain.{Node}
use cellora.Indexer.Reorg.{Ancestor, RollbackOutcome, find_common_ancestor, rollback_tx}
use cellora.Indexer.Reorg.Walk.{find_common_ancestor-IsCommonAncestor}
use cellora.Indexer.Reorg.Rollback.{rollback_tx-RolledBack}
use cellora.Indexer.Poller.Linked.{Linked, numbers_below}
use cellora.Indexer.Poller.Sync.{stored_row}

none_above :
    (x : ℕ) (bs : List BlockRow)
    → All (λ (c : BlockRow). c.number < x) bs
    → length (select (λ (c : BlockRow). ltb x c.number) bs) ≡ 0
unfolding select
none_above x [] h = refl
none_above x (b ∷ bs) h = ground (arith, none_above x bs h.1)

row_at_tail :
    (x : ℕ) (b : BlockRow) (bs : List BlockRow) (r : BlockRow)
    → (b.number == x) ≡ false
    → row_at x (b ∷ bs) ≡ some r
    → row_at x bs ≡ some r
unfolding row_at
row_at_tail x b bs r miss e = rw miss at e

none_stored : (x : ℕ) (r : BlockRow) → ¬ (row_at x [] ≡ some r)
unfolding row_at
none_stored x r e = cc

abbrev above : ℕ → List BlockRow → ℕ
above x bs = length (select (λ (c : BlockRow). ltb x c.number) bs)

above-cons :
    (x : ℕ) (b : BlockRow) (bs : List BlockRow) → x < b.number → above x (b ∷ bs) ≡ suc (above x bs)
unfolding select
above-cons x b bs h = rw (lt→ltb x b.number h)

above_skip :
    (x : ℕ) (b : BlockRow) (bs : List BlockRow) → b.number ≡ x → above x (b ∷ bs) ≡ above x bs
unfolding select
above_skip x b bs h = ground arith

-- Above a stored height of a chain stand as many blocks as the tip is higher.
length-above :
    (x : ℕ) (b : BlockRow) (bs : List BlockRow) (r : BlockRow)
    → Linked (b ∷ bs)
    → row_at x (b ∷ bs) ≡ some r
    → above x (b ∷ bs) + x ≡ b.number
length-above x b [] r h e = elim (Bool-cases (b.number == x)) [
  | inl hit ↦
      let same : b.number ≡ x = (==_iff b.number x).0 hit in
      omega (arith, above_skip x b [] same, none_above x [] tt)
  | inr miss ↦ absurd (none_stored x r (row_at_tail x b [] r miss e))
]
length-above x b (c ∷ cs) r h e = elim (Bool-cases (b.number == x)) [
  | inl hit ↦
      let same : b.number ≡ x = (==_iff b.number x).0 hit in
      omega (
        arith,
        above_skip x b (c ∷ cs) same,
        none_above x (c ∷ cs) (numbers_below x b (c ∷ cs) h (omega arith)),
      )
  | inr miss ↦
      let ih = length-above x c cs r h.1 (row_at_tail x b (c ∷ cs) r miss e) in
      omega (arith, ih, above-cons x b (c ∷ cs) (omega (arith, ih)))
]

-- On a chain with tip `b`, the rollback to the ancestor that the walk found reports as depth the
-- number of blocks that it deleted, which is the height of `b` above the ancestor (for depths that
-- fit an `i32`).
pub rollback_tx-depth :
    (node : Node) (conn : Connection) (now : ℕ) (x : Ancestor) (hash : Bytes) (b : BlockRow)
    (bs : List BlockRow) (d e : Database) (o : RollbackOutcome)
    → d.blocks ≡ b ∷ bs
    → Linked (b ∷ bs)
    → find_common_ancestor node (pos b.number) (λ h. Blocks.hash_at conn h d) ≡ ok x
    → rollback_tx conn now x b.number hash d ≡ ok (o, e)
    → b.number - x.block_number ≤ i32_max
    → (o.depth ≡ o.deleted_blocks) × (o.deleted_blocks + x.block_number ≡ b.number)
rollback_tx-depth node conn now x hash b bs d e o eb h ex er small =
    let a =
      find_common_ancestor-IsCommonAncestor node (λ k. Blocks.hash_at conn k d) b.number x ex in
    let (r, hit, _) = stored_row conn d x.block_number x.node_hash a.agree.stored in
    let v = rollback_tx-RolledBack conn now x b.number hash d o e er in
    let up = length-above x.block_number b bs r h (rw eb at hit) in
    let all : o.deleted_blocks + x.block_number ≡ b.number = rw (v.deleted, eb) up in
    (ground (arith, v.depth), all)
