-- ===== src/Api/Cells/Complete.antt =====
-- A client that follows `next_cursor` sees every matching cell, in order and once.
use mathlib.Core.Path.{subst}
use cellora.Prelude.{
  ℕ, zero, suc, ◌+◌, ◌≤◌, ◌<◌, ◌≡◌, refl, sym, ap, ◌∙◌, inl, inr, ◌⊎◌, false, Option, none, some,
  List, [], ◌∷◌, ◌++◌, ok, arith, take, drop, length, take-drop, length-drop,
}
use cellora.Prelude.Sorting.{Descending}
use cellora.Db.Schema.{Database, Connection, select_cells}
use cellora.Db.CellQueries.{LivenessFilter, CellCursor, Cell, key, before}
use cellora.Db.CellQueries.Order.{cell_less}
use cellora.Db.CellQueries.Pages.{DistinctKeys, matching-Descending, Descending-select}
use cellora.Api.Cells.{ScriptFilter}
use cellora.Api.Cells.Paging.{
  walk, everything, remaining, condition, fetch-query, query-remaining, remaining_after,
  everything_left, cut_more, cut_end, last_taken,
}

le_or_lt : (n m : ℕ) → (n ≤ m) ⊎ (m < n)
le_or_lt n m = ground arith

append_nil : (xs : List Cell) → xs ++ [] ≡ xs
append_nil [] = refl
append_nil (x ∷ xs) = ap (λ ys. x ∷ ys) (append_nil xs)

module _ (conn : Connection) (filter : ScriptFilter) (liveness : LivenessFilter) (limit : ℕ)
    (db : Database) (up : conn select_cells ≡ false) (positive : 1 ≤ limit)
    (keys : DistinctKeys db.cells) where
  walk-remaining :
      (fuel : ℕ) (cursor : Option CellCursor)
      → length (remaining filter liveness cursor db) < fuel
      → walk fuel conn filter liveness limit cursor db ≡ ok (remaining filter liveness cursor db)
  unfolding walk
  walk-remaining zero cursor h = absurd (omega arith)
  walk-remaining (suc fuel) cursor h =
      elim (le_or_lt (length (remaining filter liveness cursor db)) limit) [
        | inl e ↦
            rw
              (
                fetch-query conn filter liveness cursor (limit + 1) db up,
                query-remaining filter liveness cursor (limit + 1) db,
                cut_end limit (remaining filter liveness cursor db) e,
              )
              (ap ok (append_nil (remaining filter liveness cursor db)))
        | inr e ↦
            let (l, el) = last_taken limit (remaining filter liveness cursor db) e positive in
            let d =
              Descending-select (before cursor) (everything filter liveness db)
                (matching-Descending (condition filter) liveness db keys) in
            let after = remaining_after filter liveness cursor limit db l d el in
            let rest : length (drop limit (remaining filter liveness cursor db)) < fuel =
              omega (arith, length-drop limit (remaining filter liveness cursor db)) in
            let ih =
              walk-remaining fuel (some (key l))
                (subst (λ xs. length xs < fuel) (sym after) rest) in
            rw
              (
                fetch-query conn filter liveness cursor (limit + 1) db up,
                query-remaining filter liveness cursor (limit + 1) db,
                cut_more limit (remaining filter liveness cursor db) l e el,
              )
              (rw ih (
                ap ok (
                  ap (λ xs. take limit (remaining filter liveness cursor db) ++ xs) after
                  ∙ take-drop limit (remaining filter liveness cursor db))))
      ]

-- A client that asks for pages of `limit` (at least 1) cells and follows `next_cursor` while there is
-- one, on a database that does not change meanwhile, whose primary key holds and whose server
-- answers, gets after at most one request more than there are matching cells exactly the list that
-- the query without cursor and limit would give: every matching cell once, in order.
pub walk-everything :
    (conn : Connection) (filter : ScriptFilter) (liveness : LivenessFilter) (limit : ℕ)
    (db : Database) (fuel : ℕ)
    → conn select_cells ≡ false
    → 1 ≤ limit
    → DistinctKeys db.cells
    → length (everything filter liveness db) < fuel
    → (walk fuel conn filter liveness limit none db ≡ ok (everything filter liveness db))
      × Descending cell_less (everything filter liveness db)
walk-everything conn filter liveness limit db fuel up positive keys h =
    let all = everything_left filter liveness db in
    (
      walk-remaining conn filter liveness limit db up positive keys fuel none
            (subst (λ xs. length xs < fuel) (sym all) h)
          ∙ ap ok all,
      matching-Descending (condition filter) liveness db keys,
    )
