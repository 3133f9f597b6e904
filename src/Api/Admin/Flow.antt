-- ===== src/Api/Admin/Flow.antt =====
-- What holds of a handler's result where it succeeds, step by step.
use cellora.Prelude.{◌≡◌, refl, true, false, Bool, ok, err}
use mathlib.Core.Path.{subst}
use cellora.Db.Schema.{DbResult}
use cellora.Api.Error.{ApiError, ApiResult}
use cellora.Api.Admin.{AdminWorld, M, and_then, stored, require}

-- `P` holds of the value and the world, where there is a value.
abbrev pub Succeeds : {A : Type 0} → (A → AdminWorld → Type 0) → ApiResult A × AdminWorld → Type 0
Succeeds P (ok a, w) = P a w
Succeeds P (err e, w) = Unit

module _ {A B : Type 0} (P : B → AdminWorld → Type 0) where
  pub Succeeds-bind :
      (x : ApiResult A × AdminWorld) (f : A → M B)
      → ((a : A) (w : AdminWorld) → x ≡ (ok a, w) → Succeeds P (f a w))
      → Succeeds P (and_then x f)
  Succeeds-bind (ok a, w) f h = h a w refl
  Succeeds-bind (err e, w) f h = tt

  -- a step that changes nothing
  pub Succeeds-lift :
      (r : ApiResult A) (w : AdminWorld) (f : A → M B)
      → ((a : A) → r ≡ ok a → Succeeds P (f a w))
      → Succeeds P (and_then (r, w) f)
  Succeeds-lift (ok a) w f h = h a refl
  Succeeds-lift (err e) w f h = tt

  -- a statement
  pub Succeeds-stored :
      {T : Type 0} (put : T → AdminWorld) (w : AdminWorld) (r : DbResult (A × T)) (f : A → M B)
      → ((a : A) (t : T) → r ≡ ok (a, t) → Succeeds P (f a (put t)))
      → Succeeds P (and_then (stored put w r) f)
  Succeeds-stored put w (ok (a, t)) f h = h a t refl
  Succeeds-stored put w (err e) f h = tt

module _ {B : Type 0} (P : B → AdminWorld → Type 0) where
  -- a guard
  pub Succeeds-require :
      (b : Bool) (e : ApiError) (w : AdminWorld) (f : Unit {0} → M B)
      → (b ≡ true → Succeeds P (f tt w))
      → Succeeds P (and_then (require b e, w) f)
  Succeeds-require true e w f h = h refl
  Succeeds-require false e w f h = tt

  pub Succeeds-ok :
      (x : ApiResult B × AdminWorld) (b : B) (w : AdminWorld) → Succeeds P x → x ≡ (ok b, w) → P b w
  Succeeds-ok x b w h e = subst (Succeeds P) e h
