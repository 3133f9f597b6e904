-- ===== src/Db/CellQueries/Order.antt =====
-- The row comparison of the cells' queries is a strict order, total on the primary key.
use cellora.Prelude.{
  ◌≡◌, refl, inl, inr, Bool, true, false, Bool-cases, [], ◌∷◌, Bytes, bytes_eq, bytes_eq_sound,
  bytes_eq_refl, arith,
}
use cellora.Prelude.Sorting.{StrictOrder, Comparable}
use cellora.Db.CellQueries.{CellCursor, Cell, key, bytes_lt, row_less}

bytes_lt_irrefl : (xs : Bytes) → bytes_lt xs xs ≡ false
unfolding bytes_lt
bytes_lt_irrefl [] = refl
bytes_lt_irrefl (x ∷ xs) = ground (arith, bytes_lt_irrefl xs)

bytes_lt_trans :
    (xs ys zs : Bytes) → bytes_lt xs ys ≡ true → bytes_lt ys zs ≡ true → bytes_lt xs zs ≡ true
unfolding bytes_lt
bytes_lt_trans [] [] zs h k = absurd cc
bytes_lt_trans [] (y ∷ ys) [] h k = absurd cc
bytes_lt_trans [] (y ∷ ys) (z ∷ zs) h k = refl
bytes_lt_trans (x ∷ xs) [] zs h k = absurd cc
bytes_lt_trans (x ∷ xs) (y ∷ ys) [] h k = absurd cc
bytes_lt_trans (x ∷ xs) (y ∷ ys) (z ∷ zs) h k =
    let ih = bytes_lt_trans xs ys zs in ground (arith, ih)

bytes_lt_total :
    (xs ys : Bytes) → bytes_lt xs ys ≡ false → bytes_lt ys xs ≡ false → bytes_eq xs ys ≡ true
unfolding bytes_lt bytes_eq
bytes_lt_total [] [] h k = refl
bytes_lt_total [] (y ∷ ys) h k = absurd cc
bytes_lt_total (x ∷ xs) [] h k = absurd cc
bytes_lt_total (x ∷ xs) (y ∷ ys) h k = let ih = bytes_lt_total xs ys in ground (arith, ih)

bytes_eq_sym : (xs ys : Bytes) → bytes_eq xs ys ≡ true → bytes_eq ys xs ≡ true
bytes_eq_sym xs ys h = rw (bytes_eq_sound xs ys h) (bytes_eq_refl ys)

row_less_irrefl : (a : CellCursor) → row_less a a ≡ false
unfolding row_less
row_less_irrefl a = ground (arith, bytes_lt_irrefl a.tx_hash)

bytes_eq_trans :
    (xs ys zs : Bytes) → bytes_eq xs ys ≡ true → bytes_eq ys zs ≡ true → bytes_eq xs zs ≡ true
bytes_eq_trans xs ys zs h k = rw (bytes_eq_sound xs ys h) k

bytes_eq_lt :
    (xs ys zs : Bytes) → bytes_eq xs ys ≡ true → bytes_lt ys zs ≡ true → bytes_lt xs zs ≡ true
bytes_eq_lt xs ys zs h k = rw (bytes_eq_sound xs ys h) k

bytes_lt_eq :
    (xs ys zs : Bytes) → bytes_lt xs ys ≡ true → bytes_eq ys zs ≡ true → bytes_lt xs zs ≡ true
bytes_lt_eq xs ys zs h k = rw⁻¹ (bytes_eq_sound ys zs k) h

pub row_less_trans :
    (a b c : CellCursor) → row_less a b ≡ true → row_less b c ≡ true → row_less a c ≡ true
unfolding row_less
row_less_trans a b c h k =
    let lt = bytes_lt_trans a.tx_hash b.tx_hash c.tx_hash in
    let eq = bytes_eq_trans a.tx_hash b.tx_hash c.tx_hash in
    let eq_lt = bytes_eq_lt a.tx_hash b.tx_hash c.tx_hash in
    let lt_eq = bytes_lt_eq a.tx_hash b.tx_hash c.tx_hash in ground (arith, lt, eq, eq_lt, lt_eq)

row_less_split :
    (a b : CellCursor)
    → row_less a b ≡ false
    → row_less b a ≡ false
    → (bytes_eq a.tx_hash b.tx_hash ≡ true) × (a.output_index ≡ b.output_index)
unfolding row_less
row_less_split a b h k =
    let ab = bytes_lt_total a.tx_hash b.tx_hash in
    let ba = bytes_lt_total b.tx_hash a.tx_hash in
    let sym_eq = bytes_eq_sym a.tx_hash b.tx_hash in ground (arith, ab, ba, sym_eq)

-- The keys of two rows that differ in the primary key are comparable.
pub row_less_total :
    (a b : CellCursor)
    → ¬ ((a.tx_hash ≡ b.tx_hash) × (a.output_index ≡ b.output_index))
    → Comparable row_less a b
row_less_total a b h = elim (Bool-cases (row_less a b)) [
  | inl e ↦ inl e
  | inr e ↦ elim (Bool-cases (row_less b a)) [
    | inl k ↦ inr k
    | inr k ↦
        let (same, index) = row_less_split a b e k in
        absurd (h (bytes_eq_sound a.tx_hash b.tx_hash same, index))
  ]
]

-- The order of the pages.
abbrev pub cell_less : Cell → Cell → Bool
cell_less a b = row_less (key a) (key b)

pub cell_less-StrictOrder : StrictOrder cell_less
cell_less-StrictOrder = record {
  irrefl = λ a. row_less_irrefl (key a);
  trans = λ a b c. row_less_trans (key a) (key b) (key c);
}
