-- ===== src/Api/Blocks/Latest.antt =====
-- The latest block, and the numbers above it.
use mathlib.Core.Path.{subst}
use cellora.Prelude.{
  ℕ, ◌≡◌, ◌≤◌, ◌<◌, refl, false, Bool-cases, Option-cases, inl, inr, none, some, List, [], ◌∷◌,
  codes, ok, err, ◌==◌, arith, ◌∙◌, ltb→lt, Ensures, ==_iff, ltb, Ensures-bind, Ensures-ok,
}
use cellora.Prelude.Int.{i64_max}
use cellora.Prelude.Text.{decimal}
use cellora.Db.Rows.{BlockRow}
use cellora.Db.Schema.{Database, healthy}
use cellora.Db.Blocks
use cellora.Db.Blocks.{row_at, latest_row, newer, clashes, cascade}
use cellora.Api.Error.{not_found}
use cellora.Api.Hex.{try_from_slice}
use cellora.Api.Blocks.Served.{by_number-row}
use cellora.Api.Blocks.{BlockResponse, NonceText, try_from, latest, by_number}

-- the row that ORDER BY number DESC LIMIT 1 finds
abbrev Top : BlockRow → List BlockRow → Type 0
Top r bs = (row_at r.number bs ≡ some r) × ((n : ℕ) → r.number < n → row_at n bs ≡ none)

latest_row-none : (bs : List BlockRow) → latest_row bs ≡ none → bs ≡ []
unfolding latest_row
latest_row-none [] h = refl
latest_row-none (b ∷ bs) h = absurd cc

row_at-lower :
    (b : BlockRow) (bs : List BlockRow) (n : ℕ) → b.number < n → row_at n (b ∷ bs) ≡ row_at n bs
unfolding row_at
row_at-lower b bs n h = let differs : (b.number == n) ≡ false = ground arith in rw differs

Top-head :
    (b : BlockRow) (bs : List BlockRow)
    → ((n : ℕ) → b.number < n → row_at n bs ≡ none)
    → Top b (b ∷ bs)
unfolding row_at
Top-head b bs h = (rw ((==_iff b.number b.number).1 refl), λ n k. row_at-lower b bs n k ∙ h n k)

Top-tail : (b c : BlockRow) (bs : List BlockRow) → b.number < c.number → Top c bs → Top c (b ∷ bs)
Top-tail b c bs h top = (
  row_at-lower b bs c.number h ∙ top.0,
  λ n k. row_at-lower b bs n (omega (arith, h, k)) ∙ top.1 n k,
)

latest_row-Top : (bs : List BlockRow) (r : BlockRow) → latest_row bs ≡ some r → Top r bs
unfolding latest_row newer
latest_row-Top [] r h = absurd cc
latest_row-Top (b ∷ bs) r h = elim (Option-cases (latest_row bs)) [
  | inl e ↦
      let same : b ≡ r = cc (rw e at h) in
      let empty : bs ≡ [] = latest_row-none bs e in
      subst (λ q. Top q (b ∷ bs)) same (Top-head b bs λ n _. rw empty (unfold row_at in refl))
  | inr (c, e) ↦
      let top = latest_row-Top bs c e in
      elim (Bool-cases (ltb b.number c.number)) [
        | inl k ↦
            let same : c ≡ r = cc (rw (e, k) at h) in
            subst (λ q. Top q (b ∷ bs)) same (Top-tail b c bs (ltb→lt b.number c.number k) top)
        | inr k ↦
            let same : b ≡ r = cc (rw (e, k) at h) in
            subst (λ q. Top q (b ∷ bs)) same (Top-head b bs λ n l. top.1 n (not_lower b c n k l))
      ]
]
  where
    not_lower :
        (b c : BlockRow) (n : ℕ) → ltb b.number c.number ≡ false → b.number < n → c.number < n
    not_lower b c n k l = ground arith

try_from-number :
    (to_string : NonceText) (b : BlockRow)
    → Ensures (λ (resp : BlockResponse). resp.number ≡ b.number) (try_from to_string b)
unfolding try_from
try_from-number to_string b =
    let P : BlockResponse → Type 0 = λ resp. resp.number ≡ b.number in
    Ensures-bind P (try_from_slice b.hash) _ λ _ _.
      Ensures-bind P (try_from_slice b.parent_hash) _
        λ _ _. Ensures-bind P (try_from_slice b.dao) _ λ _ _. refl

-- The latest block is the one that its own number serves, and no higher number is found.
pub latest-by_number :
    (to_string : NonceText) (db : Database) (resp : BlockResponse) (n : ℕ)
    → latest to_string healthy db ≡ ok resp
    → resp.number < n
    → n ≤ i64_max
    → (by_number to_string healthy (decimal resp.number) db ≡ ok resp)
      × (by_number to_string healthy (decimal n) db ≡ err (not_found (codes "block not indexed")))
unfolding latest Blocks.latest
latest-by_number to_string db resp n h above fits = elim (Option-cases (latest_row db.blocks)) [
  | inl e ↦ absurd (cc (rw e at h))
  | inr (b, e) ↦
      let shown : try_from to_string b ≡ ok resp = rw e at h in
      let same : resp.number ≡ b.number =
        Ensures-ok (λ (q : BlockResponse). q.number ≡ b.number) (try_from to_string b) resp
          (try_from-number to_string b) shown in
      let top = latest_row-Top db.blocks b e in
      let found : row_at resp.number db.blocks ≡ some b = rw same top.0 in
      (
        rw (by_number-row to_string resp.number db (omega (arith, above, fits)), found, shown),
        rw (by_number-row to_string n db fits, top.1 n (omega (arith, above, same))),
      )
]
