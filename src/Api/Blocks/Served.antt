-- ===== src/Api/Blocks/Served.antt =====
-- What the block routes serve of what the indexer stores.
use cellora.Prelude.{
  ℕ, ◌≡◌, ◌≤◌, ◌<◌, refl, false, Bool-cases, Option-cases, inl, inr, Option, none, some, List, [],
  ◌∷◌, codes, ok, err, leb, le→leb, lt→leb_false, ◌==◌, if◌then◌else◌, select, arith, ◌>>◌, guard,
  not, then-eq-table, ==_iff, ap, Ensures-bind, Ensures-guard, Ensures-ok,
}
use cellora.Prelude.Int.{i64_max, u64_max}
use cellora.Prelude.Text.{decimal}
use cellora.Prelude.Text.Numbers.{parse_u64-decimal}
use cellora.Db.Rows.{BlockRow}
use cellora.Db.Schema.{
  Database, Connection, healthy, send, insert_block, delete_blocks, unique_violation,
}
use cellora.Db.Blocks
use cellora.Db.Blocks.{row_at, latest_row, newer, clashes, cascade}
use cellora.Api.Error.{ApiResult, not_found}
use cellora.Api.Blocks.{BlockResponse, NonceText, quoted, try_from, parse_block_number, by_number}

not_fitting : (n : ℕ) → leb n u64_max ≡ false → u64_max < n
not_fitting n e = ground arith

-- The path of a block is its number in decimal. It is accepted where the number fits the column, and
-- a larger number is told apart from what is no number at all, as long as it fits 64 bits.
pub parse_block_number-decimal :
    (n : ℕ)
    → parse_block_number (decimal n) ≡ (
        if leb n i64_max
        then ok n
        else if leb n u64_max
        then err (quoted (codes "block number out of range: ") (decimal n))
        else err (quoted (codes "invalid block number: ") (decimal n)))
unfolding parse_block_number
parse_block_number-decimal n = elim (Bool-cases (leb n u64_max)) [
  | inl e ↦ elim (Bool-cases (leb n i64_max)) [
    | inl k ↦ rw (parse_u64-decimal n, e, k)
    | inr k ↦ rw (parse_u64-decimal n, e, k)
  ]
  | inr e ↦
      let large : leb n i64_max ≡ false = lt→leb_false n i64_max (omega (arith, not_fitting n e)) in
      rw (parse_u64-decimal n, e, large)
]

-- what a row that was looked up is answered with
abbrev pub answer : NonceText → Option BlockRow → ApiResult BlockResponse
answer to_string none = err (not_found (codes "block not indexed"))
answer to_string (some b) = try_from to_string b

pub by_number-row :
    (to_string : NonceText) (n : ℕ) (db : Database)
    → n ≤ i64_max
    → by_number to_string healthy (decimal n) db ≡ answer to_string (row_at n db.blocks)
unfolding by_number Blocks.get_by_number
by_number-row to_string n db h = elim (Option-cases (row_at n db.blocks)) [
  | inl e ↦ rw (parse_block_number-decimal n, le→leb n i64_max h, e)
  | inr (b, e) ↦ rw (parse_block_number-decimal n, le→leb n i64_max h, e)
]

abbrev inserted : BlockRow → Database → Database
inserted row db = record db { blocks = row ∷ db.blocks }

insert-blocks :
    (conn : Connection) (row : BlockRow) (db db' : Database)
    → Blocks.insert conn row db ≡ ok db'
    → inserted row db ≡ db'
unfolding Blocks.insert
insert-blocks conn row db db' h =
    let P : Database → Type 0 = λ d. inserted row db ≡ d in
    Ensures-ok P (Blocks.insert conn row db) db'
      (Ensures-bind P (send conn (insert_block row.number))
        (λ _. guard (not (clashes row db.blocks)) unique_violation >> ok (inserted row db))
        λ _ _.
          Ensures-guard P (not (clashes row db.blocks)) unique_violation (ok (inserted row db))
            λ _. refl)
      h

-- Once a block was inserted, its number serves it, and every other number serves what it did before.
pub by_number-insert :
    (to_string : NonceText) (conn : Connection) (row : BlockRow) (db db' : Database) (n : ℕ)
    → Blocks.insert conn row db ≡ ok db'
    → n ≤ i64_max
    → by_number to_string healthy (decimal n) db' ≡ (
        if row.number == n
        then try_from to_string row
        else by_number to_string healthy (decimal n) db)
unfolding row_at
by_number-insert to_string conn row db db' n h fits =
    rw⁻¹ (insert-blocks conn row db db' h) (elim (Bool-cases (row.number == n)) [
      | inl e ↦ rw (by_number-row to_string n (inserted row db) fits, e)
      | inr e ↦
          rw
            (by_number-row to_string n (inserted row db) fits, e, by_number-row to_string n db fits)
    ])

row_at-select :
    (n ancestor : ℕ) (bs : List BlockRow)
    → row_at n (select (λ (b : BlockRow). leb b.number ancestor) bs)
      ≡ (if leb n ancestor then row_at n bs else none)
unfolding row_at select
row_at-select n ancestor [] = elim (Bool-cases (leb n ancestor)) [ inl e ↦ rw e | inr e ↦ rw e ]
row_at-select n ancestor (b ∷ bs) = elim (Bool-cases (b.number == n)) [
  | inl e ↦
      let same : leb b.number ancestor ≡ leb n ancestor =
        ap (λ m. leb m ancestor) ((==_iff b.number n).0 e) in
      elim (Bool-cases (leb n ancestor)) [
        | inl k ↦ rw (same, k, e)
        | inr k ↦ let ih = row_at-select n ancestor bs in rw (same, k) (rw k at ih)
      ]
  | inr e ↦ elim (Bool-cases (leb b.number ancestor)) [
    | inl k ↦ rw (k, e, row_at-select n ancestor bs)
    | inr k ↦ rw (k, e, row_at-select n ancestor bs)
  ]
]

-- Once the blocks above a height were deleted, their numbers are not found, and every other number
-- serves what it did before.
pub by_number-delete_above :
    (to_string : NonceText) (conn : Connection) (ancestor n count : ℕ) (db db' : Database)
    → Blocks.delete_above conn ancestor db ≡ ok (count, db')
    → n ≤ i64_max
    → by_number to_string healthy (decimal n) db' ≡ (
        if leb n ancestor
        then by_number to_string healthy (decimal n) db
        else err (not_found (codes "block not indexed")))
unfolding Blocks.delete_above cascade
by_number-delete_above to_string conn ancestor n count db db' h fits =
    rw⁻¹ (then-eq-table (send conn (delete_blocks ancestor)) _ (cascade ancestor db) h)
      (elim (Bool-cases (leb n ancestor)) [
        | inl k ↦ rw (
          by_number-row to_string n (cascade ancestor db) fits,
          row_at-select n ancestor db.blocks,
          k,
          by_number-row to_string n db fits,
        )
        | inr k ↦ rw (
          by_number-row to_string n (cascade ancestor db) fits,
          row_at-select n ancestor db.blocks,
          k,
        )
      ])
