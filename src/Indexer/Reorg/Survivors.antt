-- ===== src/Indexer/Reorg/Survivors.antt =====
-- What a rollback to height `a` leaves of the tables, and that writes above `a` do not change it.
use cellora.Prelude.{
  ℕ, ◌≤◌, ◌<◌, ◌≡◌, ◌⊎◌, Option-cases, lt→ltb, ltb, inl, inr, refl, sym, ap, ◌∙◌, true, false, some,
  List, [], ◌∷◌, map, arith, All, keep_if, select, any, leb, leb→le, le→leb, Bool-cases,
}
use mathlib.Core.Path.{subst}
use cellora.Db.Rows.{BlockRow, TransactionRow, StoredCell, ConsumedCellRef}
use cellora.Db.Schema.{Database}
use cellora.Db.Cells.{consume, mark, refers_to, consumed_above, release, restore}

unfoldable pub surviving_cells : ℕ → List StoredCell → List StoredCell
surviving_cells a [] = []
surviving_cells a (c ∷ cs) = keep_if (leb c.block_number a) (restore a c) (surviving_cells a cs)

-- The three tables of `d` after a rollback to `a`.
pub record Survive (a : ℕ) (d : Database) (e : Database) : Type 0 where
  pub blocks : select (λ (b : BlockRow). leb b.number a) d.blocks ≡ e.blocks
  pub transactions :
      select (λ (t : TransactionRow). leb t.block_number a) d.transactions ≡ e.transactions
  pub cells : surviving_cells a d.cells ≡ e.cells

-- `c` is not spent at a height up to `a`: its `consumed_*` columns are NULL, or name a height above.
abbrev pub Unspent : ℕ → StoredCell → Type 0
Unspent a c = (c ≡ release c) ⊎ ((n : ℕ) × (c.consumed_at_block_number ≡ some n) × a < n)

restore_released : (a : ℕ) (c : StoredCell) → restore a (release c) ≡ release c
unfolding restore consumed_above
restore_released a c = refl

restore-Unspent : (a : ℕ) (c : StoredCell) → Unspent a c → restore a c ≡ release c
restore-Unspent a c (inl e) = ap (restore a) e ∙ restore_released a c
restore-Unspent a c (inr (n, e, h)) =
    unfold restore in unfold consumed_above in rw (e, lt→ltb a n h)

restore-block_number : (a : ℕ) (c : StoredCell) → (restore a c).block_number ≡ c.block_number
unfolding restore
restore-block_number a c = ground arith

pub select-restore :
    (a : ℕ) (cs : List StoredCell)
    → select (λ (c : StoredCell). leb c.block_number a) (map (restore a) cs) ≡ surviving_cells a cs
unfolding select surviving_cells
select-restore a [] = refl
select-restore a (c ∷ cs) = rw (restore-block_number a c, select-restore a cs)

-- the whole loop of `mark_consumed`, on one row
unfoldable pub mark_all : List ConsumedCellRef → StoredCell → StoredCell
mark_all [] c = c
mark_all (r ∷ rs) c = mark_all rs (mark r c)

pub mark_all-block_number :
    (rs : List ConsumedCellRef) (c : StoredCell) → (mark_all rs c).block_number ≡ c.block_number
unfolding mark_all mark
mark_all-block_number [] c = refl
mark_all-block_number (r ∷ rs) c = mark_all-block_number rs (mark r c) ∙ ground arith

mark_miss : (r : ConsumedCellRef) (c : StoredCell) → refers_to r c ≡ false → mark r c ≡ c
unfolding mark
mark_miss r c e = rw e

restore-consume :
    (a : ℕ) (r : ConsumedCellRef) (c : StoredCell)
    → a < r.consumed_at_block_number
    → restore a (consume r c) ≡ release c
unfolding restore consumed_above
restore-consume a r c h = ground arith

restore-mark :
    (a : ℕ) (r : ConsumedCellRef) (c : StoredCell)
    → a < r.consumed_at_block_number
    → (refers_to r c ≡ true → Unspent a c)
    → restore a (mark r c) ≡ restore a c
unfolding mark
restore-mark a r c h live = elim (Bool-cases (refers_to r c)) [
  | inl e ↦ rw e (restore-consume a r c h ∙ sym (restore-Unspent a c (live e)))
  | inr e ↦ rw e
]

-- a reference that hits no longer spoils the cell for those after it
Unspent-mark :
    (a : ℕ) (r : ConsumedCellRef) (rs : List ConsumedCellRef) (c : StoredCell)
    → a < r.consumed_at_block_number
    → (any (λ s. refers_to s c) (r ∷ rs) ≡ true → Unspent a c)
    → any (λ s. refers_to s (mark r c)) rs ≡ true
    → Unspent a (mark r c)
Unspent-mark a r rs c h live hit = elim (Bool-cases (refers_to r c)) [
  | inl e ↦ unfold mark in rw e (inr (r.consumed_at_block_number, refl, h))
  | inr e ↦ subst (Unspent a) (sym (mark_miss r c e)) (live (miss e))
]
  where
    miss : refers_to r c ≡ false → any (λ s. refers_to s c) (r ∷ rs) ≡ true
    miss e =
        unfold any in rw e (subst (λ x. any (λ s. refers_to s x) rs ≡ true) (mark_miss r c e) hit)

pub restore-mark_all :
    (a : ℕ) (rs : List ConsumedCellRef) (c : StoredCell)
    → All (λ (r : ConsumedCellRef). a < r.consumed_at_block_number) rs
    → (any (λ r. refers_to r c) rs ≡ true → Unspent a c)
    → restore a (mark_all rs c) ≡ restore a c
unfolding mark_all
restore-mark_all a [] c hs live = refl
restore-mark_all a (r ∷ rs) c hs live =
    restore-mark_all a rs (mark r c) hs.1 (Unspent-mark a r rs c hs.0 live)
    ∙ restore-mark a r c hs.0 (λ e. live (unfold any in rw e))

-- No cell that `rs` spends, and that a rollback to `a` keeps, is spent up to height `a` already.
abbrev pub NoDoubleSpend : ℕ → List ConsumedCellRef → List StoredCell → Type 0
NoDoubleSpend a rs =
    All λ (c : StoredCell). c.block_number ≤ a → any (λ r. refers_to r c) rs ≡ true → Unspent a c

pub surviving_cells-mark :
    (a : ℕ) (rs : List ConsumedCellRef) (cs : List StoredCell)
    → All (λ (r : ConsumedCellRef). a < r.consumed_at_block_number) rs
    → NoDoubleSpend a rs cs
    → surviving_cells a (map (mark_all rs) cs) ≡ surviving_cells a cs
unfolding surviving_cells
surviving_cells-mark a rs [] hs live = refl
surviving_cells-mark a rs (c ∷ cs) hs live =
    simp (mark_all-block_number rs c, surviving_cells-mark a rs cs hs live.1)
      (elim (Bool-cases (leb c.block_number a)) [
        | inl e ↦ rw e (
            ap (λ x. x ∷ surviving_cells a cs)
              (restore-mark_all a rs c hs (live.0 (leb→le c.block_number a e))))
        | inr e ↦ rw e
      ])

-- a rollback to `a` after one to `x`, at or above it, is the rollback to `a`
restore-restore : (a x : ℕ) (c : StoredCell) → a ≤ x → restore a (restore x c) ≡ restore a c
unfolding restore consumed_above
restore-restore a x c h = ground arith

pub surviving_cells_idem :
    (a x : ℕ) (cs : List StoredCell)
    → a ≤ x
    → surviving_cells a (surviving_cells x cs) ≡ surviving_cells a cs
unfolding surviving_cells
surviving_cells_idem a x [] h = refl
surviving_cells_idem a x (c ∷ cs) h = elim (Bool-cases (leb c.block_number x)) [
  | inl e ↦
      rw e (cc (restore-block_number x c, restore-restore a x c h, surviving_cells_idem a x cs h))
  | inr e ↦ rw (e, above e) (surviving_cells_idem a x cs h)
]
  where
    above : leb c.block_number x ≡ false → leb c.block_number a ≡ false
    above e = ground arith

pub select-select {ℓ} :
    {A : Type ℓ} (f : A → ℕ) (a x : ℕ) (xs : List A)
    → a ≤ x
    → select (λ y. leb (f y) a) (select (λ y. leb (f y) x) xs) ≡ select (λ y. leb (f y) a) xs
unfolding select
select-select f a x [] h = refl
select-select f a x (y ∷ ys) h = ground (arith, select-select f a x ys h)

-- A spend of the cell, if there is one, is at or below height `a`.
abbrev pub SpentBy : ℕ → StoredCell → Type 0
SpentBy a c = (n : ℕ) → c.consumed_at_block_number ≡ some n → n ≤ a

-- Tables with nothing above height `a`: no row, and no spend.
pub record Below (a : ℕ) (d : Database) : Type 0 where
  pub blocks : All (λ (b : BlockRow). b.number ≤ a) d.blocks
  pub transactions : All (λ (t : TransactionRow). t.block_number ≤ a) d.transactions
  pub cells : All (λ (c : StoredCell). (c.block_number ≤ a) × SpentBy a c) d.cells

select-All {ℓ} :
    {A : Type ℓ} (f : A → ℕ) (a : ℕ) (xs : List A)
    → All (λ x. f x ≤ a) xs
    → select (λ x. leb (f x) a) xs ≡ xs
unfolding select
select-All f a [] h = refl
select-All f a (x ∷ xs) h = rw (le→leb (f x) a h.0, select-All f a xs h.1)

restore_below : (a : ℕ) (c : StoredCell) → SpentBy a c → restore a c ≡ c
unfolding restore consumed_above
restore_below a c h = elim (Option-cases c.consumed_at_block_number) [
  | inl e ↦ rw e
  | inr (n, e) ↦ rw (e, leb→false n (h n e))
]
  where
    leb→false : (n : ℕ) → n ≤ a → ltb a n ≡ false
    leb→false n le = ground arith

surviving_cells-All :
    (a : ℕ) (cs : List StoredCell)
    → All (λ (c : StoredCell). (c.block_number ≤ a) × SpentBy a c) cs
    → surviving_cells a cs ≡ cs
unfolding surviving_cells
surviving_cells-All a [] h = refl
surviving_cells-All a (c ∷ cs) h =
    rw (le→leb c.block_number a h.0.0, restore_below a c h.0.1, surviving_cells-All a cs h.1)

-- A rollback to `a` changes nothing in tables with nothing above `a`.
pub Below-Survive : {a : ℕ} {d : Database} → Below a d → Survive a d d
Below-Survive {a} {d} h = record {
  blocks = select-All (λ (b : BlockRow). b.number) a d.blocks h.blocks;
  transactions =
      select-All (λ (t : TransactionRow). t.block_number) a d.transactions h.transactions;
  cells = surviving_cells-All a d.cells h.cells;
}
