-- ===== src/Prelude/Results.antt =====
-- Fallible code: Rust's `Result<T, E>` with `?` as bind, and `Option` with `ok_or`.
use mathlib.Core.Path.{◌≡◌, refl, subst}
use mathlib.Core.Logic.{◌⊎◌, inl, inr}
use mathlib.Core.Bool.{Bool, true, false}
use mathlib.Core.Option.{Option, none, some}

pub data Result {ℓ} (E : Type 0) (A : Type ℓ) : Type ℓ where
  ok : A → Result E A
  err : E → Result E A

module _ {ℓ κ} {E : Type 0} {A : Type ℓ} {B : Type κ} where
  infixl 5 ◌>>=◌
  abbrev pub ◌>>=◌ : Result E A → (A → Result E B) → Result E B
  ok a >>= f = f a
  err e >>= f = err e

module _ {ℓ} {E : Type 0} {B : Type ℓ} where
  infixl 5 ◌>>◌
  abbrev pub ◌>>◌ : Result E (Unit {0}) → Result E B → Result E B
  m >> k = m >>= λ _. k

abbrev pub guard : {E : Type 0} → Bool → E → Result E (Unit {0})
guard true e = ok tt
guard false e = err e

abbrev pub ok_or {ℓ} : {E : Type 0} {A : Type ℓ} → Option A → E → Result E A
ok_or none e = err e
ok_or (some a) e = ok a

abbrev pub map_err {ℓ} : {E F : Type 0} {A : Type ℓ} → (E → F) → Result E A → Result F A
map_err f (ok a) = ok a
map_err f (err e) = err (f e)

pub Result-cases {ℓ} :
    {E : Type 0} {A : Type ℓ} (r : Result E A) → ((a : A) × (r ≡ ok a)) ⊎ ((e : E) × (r ≡ err e))
Result-cases (ok a) = inl (a, refl)
Result-cases (err e) = inr (e, refl)

-- `P` holds of the result, where there is one.
abbrev pub Ensures {ℓ κ} : {E : Type 0} {A : Type ℓ} → (A → Type κ) → Result E A → Type κ
Ensures P (ok a) = P a
Ensures P (err e) = Unit

-- The rule for a bind: what follows may use that the first step returned.
pub Ensures-bind {ℓ κ ι} :
    {E : Type 0} {A : Type ℓ} {B : Type κ} (P : B → Type ι) (m : Result E A) (f : A → Result E B)
    → ((a : A) → m ≡ ok a → Ensures P (f a))
    → Ensures P (m >>= f)
Ensures-bind P (ok a) f h = h a refl
Ensures-bind P (err e) f h = tt

pub Ensures-guard {κ ι} :
    {E : Type 0} {B : Type κ} (P : B → Type ι) (b : Bool) (e : E) (r : Result E B)
    → (b ≡ true → Ensures P r)
    → Ensures P (guard b e >> r)
Ensures-guard P true e r h = h refl
Ensures-guard P false e r h = tt

pub Ensures-map_err {ℓ κ} :
    {E F : Type 0} {A : Type ℓ} (P : A → Type κ) (f : E → F) (r : Result E A)
    → Ensures P r
    → Ensures P (map_err f r)
Ensures-map_err P f (ok a) h = h
Ensures-map_err P f (err e) h = tt

pub Ensures-ok {ℓ κ} :
    {E : Type 0} {A : Type ℓ} (P : A → Type κ) (r : Result E A) (a : A)
    → Ensures P r
    → r ≡ ok a
    → P a
Ensures-ok {E = E} P r a h e = subst (λ (x : Result E _). Ensures P x) e h

pub map_err-eq-ok {ℓ} :
    {E F : Type 0} {A : Type ℓ} (f : E → F) (r : Result E A) {a : A} → map_err f r ≡ ok a → r ≡ ok a
map_err-eq-ok f (ok a) h = cc
map_err-eq-ok f (err e) h = cc

pub ok_or-eq-ok {ℓ} :
    {E : Type 0} {A : Type ℓ} (o : Option A) (e : E) {a : A} → ok_or o e ≡ ok a → o ≡ some a
ok_or-eq-ok none e h = cc
ok_or-eq-ok (some a) e h = cc

-- What follows a step that gives no value.
pub then-eq-ok {ℓ} :
    {E : Type 0} {B : Type ℓ} (m : Result E (Unit {0})) (r : Result E B) {b : B}
    → (m >> r) ≡ ok b
    → (m ≡ ok tt) × (r ≡ ok b)
then-eq-ok (ok u) r h = (refl, h)
then-eq-ok (err e) r h = absurd cc

-- The table that a statement leaves.
pub then-eq-table :
    {E A T : Type 0} (m : Result E (Unit {0})) (a : A) (t : T) {b : A} {u : T}
    → ◌≡◌ {A = Result E (A × T)} (◌>>◌ {B = A × T} m (ok (a, t))) (ok (b, u))
    → t ≡ u
then-eq-table (ok v) a t h = cc
then-eq-table (err e) a t h = absurd cc
