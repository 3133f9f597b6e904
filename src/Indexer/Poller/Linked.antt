-- ===== src/Indexer/Poller/Linked.antt =====
-- The `blocks` table as a chain, newest block first.
use cellora.Prelude.{
  ℕ, ◌+◌, ◌<◌, ◌≤◌, ◌≡◌, refl, true, false, Bool-cases, inl, inr, Option, none, some, List, [], ◌∷◌,
  arith, All, select, leb, le→leb, lt→leb_false, ==_iff, ◌==◌,
}
use cellora.Db.Rows.{BlockRow, CheckpointRow}
use cellora.Db.Blocks.{row_at}

-- `b` is the child of the newest block of the table, if it has one.
abbrev pub Follows : BlockRow → List BlockRow → Type 0
Follows b [] = Unit {0}
Follows b (c ∷ _) = (b.number ≡ c.number + 1) × (b.parent_hash ≡ c.hash)

-- Consecutive numbers, each block's parent hash the hash of the block below it.
abbrev pub Linked : List BlockRow → Type 0
Linked [] = Unit {0}
Linked (b ∷ bs) = Follows b bs × Linked bs

-- The checkpoint that stands for the table, and the block to ask for next.
abbrev pub tip_of : List BlockRow → Option CheckpointRow
tip_of [] = none
tip_of (b ∷ _) = some (record { last_indexed_block = b.number; last_indexed_hash = b.hash })

abbrev pub next_of : ℕ → List BlockRow → ℕ
next_of first [] = first
next_of first (b ∷ _) = b.number + 1

pub numbers_below :
    (n : ℕ) (b : BlockRow) (bs : List BlockRow)
    → Linked (b ∷ bs)
    → b.number ≤ n
    → All (λ (c : BlockRow). c.number < n) bs
numbers_below n b [] h le = tt
numbers_below n b (c ∷ cs) h le = (omega arith, numbers_below n c cs h.1 (omega arith))

select_below :
    (n : ℕ) (bs : List BlockRow)
    → All (λ (c : BlockRow). c.number < n) bs
    → select (λ (b : BlockRow). leb b.number n) bs ≡ bs
unfolding select
select_below n [] h = refl
select_below n (b ∷ bs) h = ground (arith, select_below n bs h.1)

row_at-lt :
    (n x : ℕ) (bs : List BlockRow) (r : BlockRow)
    → All (λ (c : BlockRow). c.number < n) bs
    → row_at x bs ≡ some r
    → x < n
unfolding row_at
row_at-lt n x [] r h e = absurd (cc)
row_at-lt n x (b ∷ bs) r h e = ground (arith, row_at-lt n x bs r h.1)

-- What is left of a chain by a cut at a stored height: the chain up to that block.
pub record Cut (x : ℕ) (r : BlockRow) (bs : List BlockRow) : Type 0 where
  pub linked : Linked bs
  pub tip : tip_of bs ≡ some (record { last_indexed_block = x; last_indexed_hash = r.hash })
  pub next : (first : ℕ) → next_of first bs ≡ x + 1

pub select-Cut :
    (x : ℕ) (bs : List BlockRow) (r : BlockRow)
    → Linked bs
    → row_at x bs ≡ some r
    → Cut x r (select (λ (b : BlockRow). leb b.number x) bs)
unfolding row_at
select-Cut x [] r h e = absurd (cc)
select-Cut x (b ∷ bs) r h e = elim (Bool-cases (b.number == x)) [
  | inl hit ↦ at hit
  | inr miss ↦ past miss (select-Cut x bs r h.1)
]
  where
    at : (b.number == x) ≡ true → Cut x r (select (λ (b : BlockRow). leb b.number x) (b ∷ bs))
    at hit =
        let same : b.number ≡ x = (==_iff b.number x).0 hit in
        let all : select (λ (c : BlockRow). leb c.number x) bs ≡ bs =
          select_below x bs (numbers_below x b bs h (omega arith)) in
        unfold select in
        rw (le→leb b.number x (omega arith), all)
          (record { linked = h; tip = ground arith; next = λ first. omega arith })

    past :
        (b.number == x) ≡ false
        → (row_at x bs ≡ some r → Cut x r (select (λ (b : BlockRow). leb b.number x) bs))
        → Cut x r (select (λ (b : BlockRow). leb b.number x) (b ∷ bs))
    past miss ih =
        let found : row_at x bs ≡ some r = ground arith in
        let above : x < b.number =
          row_at-lt b.number x bs r (numbers_below b.number b bs h (omega arith)) found in
        unfold select in rw (lt→leb_false b.number x above) (ih found)
