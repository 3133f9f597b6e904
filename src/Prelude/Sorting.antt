-- ===== src/Prelude/Sorting.antt =====
-- ORDER BY ... DESC as an insertion sort, and what a keyset cursor selects of a sorted table.
use mathlib.Core.Path.{◌≡◌, refl, subst}
use mathlib.Core.Logic.{◌⊎◌, inl, inr}
use mathlib.Core.Bool.{Bool, true, false}
use mathlib.Core.List.{List, [], ◌∷◌}
use mathlib.Core.Option.{Option, none, some}
use Prim.Native.Nat.{ℕ, zero, suc}
use cellora.Prelude.Tests.{if◌then◌else◌, Bool-cases}
use cellora.Prelude.Lists.{take, drop, select, All}

module _ {ℓ} {A : Type ℓ} where
  abbrev pub last : List A → Option A
  last [] = none
  last (x ∷ []) = some x
  last (x ∷ y ∷ ys) = last (y ∷ ys)

  abbrev pub Pairwise {κ} : (A → A → Type κ) → List A → Type κ
  Pairwise R [] = Unit {κ}
  Pairwise R (x ∷ xs) = All (R x) xs × Pairwise R xs

  unfoldable pub insert_desc : (A → A → Bool) → A → List A → List A
  insert_desc less x [] = x ∷ []
  insert_desc less x (y ∷ ys) =
      let rest = insert_desc less x ys in if less y x then x ∷ y ∷ ys else y ∷ rest

  unfoldable pub order_desc : (A → A → Bool) → List A → List A
  order_desc less [] = []
  order_desc less (x ∷ xs) = insert_desc less x (order_desc less xs)

-- The laws of a strict order.
pub record StrictOrder {ℓ} {A : Type ℓ} (less : A → A → Bool) : Type ℓ where
  pub irrefl : (x : A) → less x x ≡ false
  pub trans : (x y z : A) → less x y ≡ true → less y z ≡ true → less x z ≡ true

-- One of the two is the larger.
abbrev pub Comparable {ℓ} : {A : Type ℓ} → (A → A → Bool) → A → A → Type 0
Comparable less x y = (less x y ≡ true) ⊎ (less y x ≡ true)

-- Strictly descending.
abbrev pub Descending {ℓ} : {A : Type ℓ} → (A → A → Bool) → List A → Type 0
Descending less = Pairwise λ x y. less y x ≡ true

module _ {ℓ} {A : Type ℓ} where
  pub last-All {κ} : (P : A → Type κ) (xs : List A) (l : A) → All P xs → last xs ≡ some l → P l
  last-All P [] l h e = absurd cc
  last-All P (x ∷ []) l h e = let same : x ≡ l = cc in subst P same h.0
  last-All P (x ∷ y ∷ ys) l h e = last-All P (y ∷ ys) l h.1 e

  pub take-All {κ} : (P : A → Type κ) (n : ℕ) (xs : List A) → All P xs → All P (take n xs)
  take-All P zero xs h = tt
  take-All P (suc n) [] h = tt
  take-All P (suc n) (x ∷ xs) h = (h.0, take-All P n xs h.1)

module _ {ℓ} {A : Type ℓ} (less : A → A → Bool) (order : StrictOrder less) where
  less_asym : (x y : A) → less x y ≡ true → less y x ≡ false
  less_asym x y h = elim (Bool-cases (less y x)) [
    | inl e ↦ absurd (cc (order.trans x y x h e, order.irrefl x))
    | inr e ↦ e
  ]

  All-insert_desc {κ} :
      (P : A → Type κ) (x : A) (ys : List A) → P x → All P ys → All P (insert_desc less x ys)
  unfolding insert_desc
  All-insert_desc P x [] p h = (p, tt)
  All-insert_desc P x (y ∷ ys) p h = elim (Bool-cases (less y x)) [
    | inl e ↦ rw e (p, h)
    | inr e ↦ rw e (h.0, All-insert_desc P x ys p h.1)
  ]

  below-All :
      (x y : A) (ys : List A)
      → less y x ≡ true
      → All (λ z. less z y ≡ true) ys
      → All (λ z. less z x ≡ true) ys
  below-All x y [] e h = tt
  below-All x y (z ∷ zs) e h = (order.trans z y x h.0 e, below-All x y zs e h.1)

  insert_desc-Descending :
      (x : A) (ys : List A)
      → All (Comparable less x) ys
      → Descending less ys
      → Descending less (insert_desc less x ys)
  unfolding insert_desc
  insert_desc-Descending x [] h d = (tt, tt)
  insert_desc-Descending x (y ∷ ys) h d = elim (Bool-cases (less y x)) [
    | inl e ↦ rw e ((e, below-All x y ys e d.0), d)
    | inr e ↦ rw e (
      All-insert_desc (λ z. less z y ≡ true) x ys (other h.0 e) d.0,
      insert_desc-Descending x ys h.1 d.1,
    )
  ]
    where
      other : Comparable less x y → less y x ≡ false → less x y ≡ true
      other (inl l) e = l
      other (inr l) e = absurd (cc (l, e))

  All-order_desc {κ} : (P : A → Type κ) (xs : List A) → All P xs → All P (order_desc less xs)
  unfolding order_desc
  All-order_desc P [] h = tt
  All-order_desc P (x ∷ xs) h =
      All-insert_desc P x (order_desc less xs) h.0 (All-order_desc P xs h.1)

  -- Rows of which any two differ in their key come out strictly descending.
  pub order_desc-Descending :
      (xs : List A) → Pairwise (Comparable less) xs → Descending less (order_desc less xs)
  unfolding order_desc
  order_desc-Descending [] h = tt
  order_desc-Descending (x ∷ xs) h =
      insert_desc-Descending x (order_desc less xs) (All-order_desc (Comparable less x) xs h.0)
        (order_desc-Descending xs h.1)

  skip_insert :
      (p : A → Bool) (x : A) (ys : List A)
      → p x ≡ false
      → select p (insert_desc less x ys) ≡ select p ys
  unfolding insert_desc select
  skip_insert p x [] e = rw e
  skip_insert p x (y ∷ ys) e = elim (Bool-cases (less y x)) [
    | inl l ↦ rw (l, e)
    | inr l ↦ rw (l, skip_insert p x ys e)
  ]

  -- A condition that holds of every row below one of which it holds.
  abbrev pub Downward : (A → Bool) → Type ℓ
  Downward p = (x y : A) → p x ≡ true → less y x ≡ true → p y ≡ true

  keep_insert :
      (p : A → Bool) (x : A) (ys : List A)
      → Downward p
      → p x ≡ true
      → select p (insert_desc less x ys) ≡ insert_desc less x (select p ys)
  unfolding insert_desc select
  keep_insert p x [] down e = rw e
  keep_insert p x (y ∷ ys) down e = elim (Bool-cases (less y x)) [
    | inl l ↦ rw (l, e, down x y e l, l)
    | inr l ↦ elim (Bool-cases (p y)) [
      | inl m ↦ rw (l, m, l, keep_insert p x ys down e)
      | inr m ↦ rw (l, m, keep_insert p x ys down e)
    ]
  ]

  -- A WHERE clause that holds downward commutes with the ORDER BY.
  pub order_desc-select :
      (p : A → Bool) (xs : List A)
      → Downward p
      → order_desc less (select p xs) ≡ select p (order_desc less xs)
  unfolding order_desc select
  order_desc-select p [] down = refl
  order_desc-select p (x ∷ xs) down = elim (Bool-cases (p x)) [
    | inl e ↦ rw (e, order_desc-select p xs down, keep_insert p x (order_desc less xs) down e)
    | inr e ↦ rw (e, order_desc-select p xs down, skip_insert p x (order_desc less xs) e)
  ]

  select_below_head :
      (x : A) (xs : List A) → All (λ z. less z x ≡ true) xs → select (λ z. less z x) xs ≡ xs
  unfolding select
  select_below_head x [] h = refl
  select_below_head x (y ∷ ys) h = rw (h.0, select_below_head x ys h.1)

  -- Below the last of the first rows of a descending table are the rows after them.
  pub select-last :
      (n : ℕ) (xs : List A) (l : A)
      → Descending less xs
      → last (take n xs) ≡ some l
      → select (λ z. less z l) xs ≡ drop n xs
  unfolding select
  select-last zero xs l d e = absurd cc
  select-last (suc n) [] l d e = refl
  select-last (suc zero) (x ∷ xs) l d e =
      let same : x ≡ l = cc in
      subst (λ k. select (λ z. less z k) (x ∷ xs) ≡ xs) same
        (unfold select in rw (order.irrefl x) (select_below_head x xs d.0))
  select-last (suc (suc n)) (x ∷ []) l d e =
      let same : x ≡ l = cc in rw⁻¹ same (unfold select in rw (order.irrefl x))
  select-last (suc (suc n)) (x ∷ y ∷ ys) l d e =
      let low : less l x ≡ true =
        last-All (λ z. less z x ≡ true) (take (suc n) (y ∷ ys)) l
          (take-All (λ z. less z x ≡ true) (suc n) (y ∷ ys) d.0) e in
      rw (less_asym l x low) (select-last (suc n) (y ∷ ys) l d.1 e)
