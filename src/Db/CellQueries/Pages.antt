-- ===== src/Db/CellQueries/Pages.antt =====
-- The primary key of the `cells` table makes the order of the pages strict.
use cellora.Prelude.{
  ◌≡◌, inl, inr, Bool, true, Bool-cases, List, [], ◌∷◌, All, select, Option-cases,
}
use cellora.Prelude.Sorting.{Pairwise, Comparable, Descending, order_desc, order_desc-Descending}
use cellora.Db.Rows.{BlockRow, StoredCell}
use cellora.Db.Schema.{Database}
use cellora.Db.Blocks.{row_at}
use cellora.Db.CellQueries.{LivenessFilter, Cell, key, join, matching}
use cellora.Db.CellQueries.Order.{cell_less, cell_less-StrictOrder, row_less_total}

-- PRIMARY KEY (tx_hash, output_index)
abbrev pub DistinctKeys : List StoredCell → Type 0
DistinctKeys = Pairwise λ a b. ¬ ((a.tx_hash ≡ b.tx_hash) × (a.output_index ≡ b.output_index))

All-select {ℓ κ} :
    {A : Type ℓ} (P : A → Type κ) (p : A → Bool) (xs : List A) → All P xs → All P (select p xs)
unfolding select
All-select P p [] h = tt
All-select P p (x ∷ xs) h = elim (Bool-cases (p x)) [
  | inl e ↦ rw e (h.0, All-select P p xs h.1)
  | inr e ↦ rw e (All-select P p xs h.1)
]

Pairwise-select {ℓ κ} :
    {A : Type ℓ} (R : A → A → Type κ) (p : A → Bool) (xs : List A)
    → Pairwise R xs
    → Pairwise R (select p xs)
unfolding select
Pairwise-select R p [] h = tt
Pairwise-select R p (x ∷ xs) h = elim (Bool-cases (p x)) [
  | inl e ↦ rw e (All-select (R x) p xs h.0, Pairwise-select R p xs h.1)
  | inr e ↦ rw e (Pairwise-select R p xs h.1)
]

All-join {κ} :
    (P : StoredCell → Type κ) (blocks : List BlockRow) (cs : List StoredCell)
    → All P cs
    → All (λ (c : Cell). P c.row) (join blocks cs)
unfolding join
All-join P blocks [] h = tt
All-join P blocks (c ∷ cs) h = elim (Option-cases (row_at c.block_number blocks)) [
  | inl e ↦ rw e (All-join P blocks cs h.1)
  | inr (b, e) ↦ rw e (h.0, All-join P blocks cs h.1)
]

apart :
    (c : Cell) (xs : List Cell)
    → All
        (λ (d : Cell).
          ¬ ((c.row.tx_hash ≡ d.row.tx_hash) × (c.row.output_index ≡ d.row.output_index)))
        xs
    → All (Comparable cell_less c) xs
apart c [] h = tt
apart c (d ∷ ds) h = (row_less_total (key c) (key d) h.0, apart c ds h.1)

join-Comparable :
    (blocks : List BlockRow) (cs : List StoredCell)
    → DistinctKeys cs
    → Pairwise (Comparable cell_less) (join blocks cs)
unfolding join
join-Comparable blocks [] h = tt
join-Comparable blocks (c ∷ cs) h = elim (Option-cases (row_at c.block_number blocks)) [
  | inl e ↦ rw e (join-Comparable blocks cs h.1)
  | inr (b, e) ↦ rw e (
    apart (record { row = c; block_hash = b.hash }) (join blocks cs)
        (All-join
          (λ (d : StoredCell). ¬ ((c.tx_hash ≡ d.tx_hash) × (c.output_index ≡ d.output_index)))
          blocks cs h.0),
    join-Comparable blocks cs h.1,
  )
]

-- Under the primary key the ordered rows of a query are strictly descending.
pub matching-Descending :
    (by : StoredCell → Bool) (liveness : LivenessFilter) (db : Database)
    → DistinctKeys db.cells
    → Descending cell_less (order_desc cell_less (matching by liveness db))
unfolding matching
matching-Descending by liveness db h = order_desc-Descending cell_less cell_less-StrictOrder _ (
    Pairwise-select (Comparable cell_less) _ (join db.blocks db.cells)
      (join-Comparable db.blocks db.cells h))

pub Descending-select :
    (p : Cell → Bool) (xs : List Cell)
    → Descending cell_less xs
    → Descending cell_less (select p xs)
Descending-select p xs = Pairwise-select (λ x y. cell_less y x ≡ true) p xs
