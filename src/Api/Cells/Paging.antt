-- ===== src/Api/Cells/Paging.antt =====
-- A client that follows `next_cursor` sees the whole unpaginated list, each cell once, in order.
use cellora.Prelude.{
  ℕ, zero, suc, ◌+◌, ◌≤◌, ◌<◌, ◌≡◌, refl, sym, ap, ◌∙◌, inl, inr, Bool, true, false, Bool-cases,
  Option, none, some, List, [], ◌∷◌, ◌++◌, ok, ◌>>=◌, arith, All, select, take, drop, length,
  take_all, take-take-suc, length-take-suc, ltb, lt→ltb,
}
use cellora.Prelude.Sorting.{
  last, last-All, take-All, order_desc, order_desc-select, select-last, Descending,
}
use cellora.Db.Rows.{StoredCell}
use cellora.Db.Schema.{Database, DbResult, Connection, select_cells}
use cellora.Db.CellQueries.{
  LivenessFilter, CellCursor, Cell, key, before, matching, query, locked_by, typed_by,
  query_by_lock_hash, query_by_type_hash,
}
use cellora.Db.CellQueries.Order.{cell_less, cell_less-StrictOrder, row_less_trans}
use cellora.Api.Cells.{ScriptFilter, lock_filter, type_filter, cut, fetch}

-- The requests of a client that asks for pages of `limit` until there is no cursor, at most `fuel`.
unfoldable pub walk :
    ℕ
    → Connection
    → ScriptFilter
    → LivenessFilter
    → ℕ
    → Option CellCursor
    → Database
    → DbResult (List Cell)
walk zero conn filter liveness limit cursor db = ok []
walk (suc fuel) conn filter liveness limit cursor db = do
  rows ← fetch conn filter liveness cursor (limit + 1) db
  let (page, next) = cut limit rows
  rest ← elim next [ none ↦ ok [] | some c ↦ walk fuel conn filter liveness limit (some c) db ]
  ok (page ++ rest)

abbrev pub condition : ScriptFilter → StoredCell → Bool
condition (lock_filter hash) = locked_by hash
condition (type_filter hash) = typed_by hash

-- The rows of the WHERE clause without the cursor.
abbrev pub rows_of : ScriptFilter → LivenessFilter → Database → List Cell
rows_of filter liveness db = matching (condition filter) liveness db

-- The unpaginated list: all the rows of the WHERE clause, in the order of the ORDER BY.
abbrev pub everything : ScriptFilter → LivenessFilter → Database → List Cell
everything filter liveness db = order_desc cell_less (rows_of filter liveness db)

pub fetch-query :
    (conn : Connection) (filter : ScriptFilter) (liveness : LivenessFilter)
    (cursor : Option CellCursor) (limit : ℕ) (db : Database)
    → conn select_cells ≡ false
    → fetch conn filter liveness cursor limit db
      ≡ ok (query (condition filter) liveness cursor limit db)
unfolding fetch query_by_lock_hash query_by_type_hash
fetch-query conn (lock_filter hash) liveness cursor limit db h = rw h
fetch-query conn (type_filter hash) liveness cursor limit db h = rw h

select-true :
    (c : Option CellCursor) (xs : List Cell) → All (λ x. before c x ≡ true) (select (before c) xs)
unfolding select
select-true c [] = tt
select-true c (x ∷ xs) = elim (Bool-cases (before c x)) [
  | inl e ↦ rw e (e, select-true c xs)
  | inr e ↦ rw e (select-true c xs)
]

-- a condition that implies the one before it makes it superfluous
select-select-before :
    (c : Option CellCursor) (l : Cell) (xs : List Cell)
    → before c l ≡ true
    → select (λ z. cell_less z l) (select (before c) xs) ≡ select (λ z. cell_less z l) xs
unfolding select before
select-select-before c l [] h = refl
select-select-before c l (x ∷ xs) h = elim (Bool-cases (before c x)) [
  | inl e ↦ rw (e, select-select-before c l xs h)
  | inr e ↦ rw (e, not_less c e h, select-select-before c l xs h)
]
  where
    not_less :
        (c : Option CellCursor) → before c x ≡ false → before c l ≡ true → cell_less x l ≡ false
    not_less none e h = absurd cc
    not_less (some k) e h = elim (Bool-cases (cell_less x l)) [
      | inl m ↦ absurd (cc (e, row_less_trans (key x) (key l) k m h))
      | inr m ↦ m
    ]

pub last_taken :
    (n : ℕ) (xs : List Cell) → n < length xs → 1 ≤ n → (l : Cell) × (last (take n xs) ≡ some l)
last_taken zero xs h p = absurd (omega arith)
last_taken (suc n) [] h p = absurd (omega arith)
last_taken (suc zero) (x ∷ xs) h p = (x, refl)
last_taken (suc (suc n)) (x ∷ []) h p = absurd (omega arith)
last_taken (suc (suc n)) (x ∷ y ∷ ys) h p = last_taken (suc n) (y ∷ ys) (omega arith) (omega arith)

-- What is still to come at a cursor.
abbrev pub remaining : ScriptFilter → LivenessFilter → Option CellCursor → Database → List Cell
remaining filter liveness cursor db = select (before cursor) (everything filter liveness db)

select_everything :
    (cursor : Option CellCursor) (xs : List Cell)
    → order_desc cell_less (select (before cursor) xs)
      ≡ select (before cursor) (order_desc cell_less xs)
unfolding before
select_everything cursor xs =
    order_desc-select cell_less cell_less-StrictOrder (before cursor) xs (downward cursor)
  where
    downward :
        (c : Option CellCursor) (x y : Cell)
        → before c x ≡ true
        → cell_less y x ≡ true
        → before c y ≡ true
    downward none x y h l = refl
    downward (some k) x y h l = row_less_trans (key y) (key x) k l h

pub query-remaining :
    (filter : ScriptFilter) (liveness : LivenessFilter) (cursor : Option CellCursor) (limit : ℕ)
    (db : Database)
    → query (condition filter) liveness cursor limit db
      ≡ take limit (remaining filter liveness cursor db)
unfolding query
query-remaining filter liveness cursor limit db =
    rw (select_everything cursor (rows_of filter liveness db))

-- The rows at the next cursor are those after the page.
pub remaining_after :
    (filter : ScriptFilter) (liveness : LivenessFilter) (cursor : Option CellCursor) (limit : ℕ)
    (db : Database) (l : Cell)
    → Descending cell_less (remaining filter liveness cursor db)
    → last (take limit (remaining filter liveness cursor db)) ≡ some l
    → remaining filter liveness (some (key l)) db ≡ drop limit (remaining filter liveness cursor db)
unfolding before
remaining_after filter liveness cursor limit db l d e =
    sym (
      select-select-before cursor l (everything filter liveness db) (
        last-All (λ x. before cursor x ≡ true) (take limit (remaining filter liveness cursor db)) l
          (take-All (λ x. before cursor x ≡ true) limit (remaining filter liveness cursor db)
            (select-true cursor (everything filter liveness db)))
          e))
    ∙ select-last cell_less cell_less-StrictOrder limit (remaining filter liveness cursor db) l d e

pub everything_left :
    (filter : ScriptFilter) (liveness : LivenessFilter) (db : Database)
    → remaining filter liveness none db ≡ everything filter liveness db
unfolding select before
everything_left filter liveness db = all_kept (everything filter liveness db)
  where
    all_kept : (xs : List Cell) → select (before none) xs ≡ xs
    all_kept [] = refl
    all_kept (x ∷ xs) = ap (λ ys. x ∷ ys) (all_kept xs)

pub cut_more :
    (limit : ℕ) (xs : List Cell) (l : Cell)
    → limit < length xs
    → last (take limit xs) ≡ some l
    → cut limit (take (limit + 1) xs) ≡ (take limit xs, some (key l))
unfolding cut
cut_more limit xs l h e =
    let one : limit + 1 ≡ suc limit = omega arith in
    rw (
      one,
      lt→ltb limit (length (take (suc limit) xs)) (length-take-suc limit xs h),
      take-take-suc limit xs,
      e,
    )

pub cut_end :
    (limit : ℕ) (xs : List Cell) → length xs ≤ limit → cut limit (take (limit + 1) xs) ≡ (xs, none)
unfolding cut
cut_end limit xs h =
    let not_more : ltb limit (length xs) ≡ false = ground arith in
    rw (take_all (limit + 1) xs (omega arith), not_more)
