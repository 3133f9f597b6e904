-- ===== src/Prelude/Members.antt =====
-- Membership in a table: what a WHERE clause keeps, an ORDER BY moves, and ANY finds.
use mathlib.Core.Path.{◌≡◌, refl, sym, subst}
use mathlib.Core.Logic.{◌↔◌, ◌⊎◌, inl, inr}
use mathlib.Core.Bool.{Bool, true}
use mathlib.Core.List.{List, [], ◌∷◌, map, Memᴰ}
use mathlib.Core.List.Memᴰ
use cellora.Prelude.Tests.{Bool-cases}
use cellora.Prelude.Lists.{select, any}
use cellora.Prelude.Strings.{Bytes, bytes_eq, bytes_eq_sound, bytes_eq_refl}
use cellora.Prelude.Sorting.{insert_desc, order_desc}

module _ {ℓ} {A : Type ℓ} where
  pub Memᴰ-select :
      (p : A → Bool) (x : A) (xs : List A) → Memᴰ x (select p xs) ↔ (Memᴰ x xs × (p x ≡ true))
  unfolding select
  Memᴰ-select p x [] = (λ m. absurd (Memᴰ.not-nil m), λ m. absurd (Memᴰ.not-nil m.0))
  Memᴰ-select p x (y ∷ ys) = elim (Bool-cases (p y)) [
    | inl e ↦ rw e (
      λ m. elim (Memᴰ.cases_cons m) [
        | inl same ↦ (Memᴰ.head same, subst (λ z. p z ≡ true) (sym same) e)
        | inr t ↦ let r = (Memᴰ-select p x ys).0 t in (Memᴰ.tail r.0, r.1)
      ],
      λ m. elim (Memᴰ.cases_cons m.0) [
        | inl same ↦ Memᴰ.head same
        | inr t ↦ Memᴰ.tail ((Memᴰ-select p x ys).1 (t, m.1))
      ],
    )
    | inr e ↦ rw e (
      λ m. let r = (Memᴰ-select p x ys).0 m in (Memᴰ.tail r.0, r.1),
      λ m. elim (Memᴰ.cases_cons m.0) [
        | inl same ↦ let no : p y ≡ true = subst (λ z. p z ≡ true) same m.1 in absurd cc
        | inr t ↦ (Memᴰ-select p x ys).1 (t, m.1)
      ],
    )
  ]

  Memᴰ-insert_desc :
      (less : A → A → Bool) (x y : A) (ys : List A)
      → ((x ≡ y) ⊎ Memᴰ x ys)
      → Memᴰ x (insert_desc less y ys)
  unfolding insert_desc
  Memᴰ-insert_desc less x y [] (inl e) = Memᴰ.head e
  Memᴰ-insert_desc less x y [] (inr m) = Memᴰ.tail m
  Memᴰ-insert_desc less x y (z ∷ zs) m = elim (Bool-cases (less z y)) [
    | inl l ↦ rw l (elim m [ inl e ↦ Memᴰ.head e | inr t ↦ Memᴰ.tail t ])
    | inr l ↦ rw l (elim m [
      | inl e ↦ Memᴰ.tail (Memᴰ-insert_desc less x y zs (inl e))
      | inr t ↦ elim (Memᴰ.cases_cons t) [
        | inl same ↦ Memᴰ.head same
        | inr u ↦ Memᴰ.tail (Memᴰ-insert_desc less x y zs (inr u))
      ]
    ])
  ]

  pub Memᴰ-order_desc :
      (less : A → A → Bool) (x : A) (xs : List A) → Memᴰ x xs → Memᴰ x (order_desc less xs)
  unfolding order_desc
  Memᴰ-order_desc less x [] m = m
  Memᴰ-order_desc less x (y ∷ ys) m =
      Memᴰ-insert_desc less x y (order_desc less ys)
        (elim (Memᴰ.cases_cons m) [ inl e ↦ inl e | inr t ↦ inr (Memᴰ-order_desc less x ys t) ])

  pub Memᴰ-map : {B : Type ℓ} (f : A → B) (x : A) (xs : List A) → Memᴰ x xs → Memᴰ (f x) (map f xs)
  Memᴰ-map f x [] m = absurd (Memᴰ.not-nil m)
  Memᴰ-map f x (y ∷ ys) m = elim (Memᴰ.cases_cons m) [
    | inl e ↦ Memᴰ.head (cc e)
    | inr t ↦ Memᴰ.tail (Memᴰ-map f x ys t)
  ]

-- $1 = ANY(texts)
pub any-bytes_eq :
    (text : Bytes) (texts : List Bytes) → (any (bytes_eq text) texts ≡ true) ↔ Memᴰ text texts
unfolding any
any-bytes_eq text [] = (λ h. absurd cc, λ m. absurd (Memᴰ.not-nil m))
any-bytes_eq text (t ∷ ts) = elim (Bool-cases (bytes_eq text t)) [
  | inl e ↦ rw e (λ h. Memᴰ.head (bytes_eq_sound text t e), λ m. refl)
  | inr e ↦ rw e (
    λ h. Memᴰ.tail ((any-bytes_eq text ts).0 h),
    λ m. elim (Memᴰ.cases_cons m) [
      | inl same ↦
          let yes : bytes_eq text t ≡ true =
            subst (λ z. bytes_eq text z ≡ true) same (bytes_eq_refl text) in
          absurd cc
      | inr u ↦ (any-bytes_eq text ts).1 u
    ],
  )
]
