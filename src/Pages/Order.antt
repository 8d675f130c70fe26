-- ===== src/Pages/Order.antt =====
-- Selection in a sorted list, and where a cursor cuts it.
use mathlib.Core.Bool.{Bool}
use dalm_backend.Prelude.{
  All, All-map, Bool-cases, List, [], ap, false, if◌then◌else◌, inl, inr, insert_by, insert_by-All,
  order_by, refl, select, select-All, sym, true, ◌&&◌, ◌++◌, ◌∙◌, ◌∷◌, ◌≡◌, ◌⊎◌,
}

module _ {A : Type 0} (le : A → A → Bool) where
  -- Every row comes before all that follow it.
  abbrev pub Sorted : List A → Type 0
  Sorted [] = Unit
  Sorted (x ∷ xs) = All (λ y. le x y ≡ true) xs × Sorted xs

  module _ (total : (x y : A) → (le x y ≡ true) ⊎ (le y x ≡ true))
      (transitive : (x y z : A) → le x y ≡ true → le y z ≡ true → le x z ≡ true) where
    insert_by-Sorted : (x : A) (ys : List A) → Sorted ys → Sorted (insert_by le x ys)
    insert_by-Sorted x [] h = (tt, tt)
    insert_by-Sorted x (y ∷ ys) h = elim (Bool-cases (le x y)) [
      | inl e ↦ rw e ((e, All-map ys (λ z k. transitive x y z e k) h.0), h)
      | inr e ↦ rw e (insert_by-All _ le x ys (after e) h.0, insert_by-Sorted x ys h.1)
    ]
      where
        after : le x y ≡ false → le y x ≡ true
        after e = elim (total x y) [ inl k ↦ cc | inr k ↦ k ]

    pub order_by-Sorted : (xs : List A) → Sorted (order_by le xs)
    order_by-Sorted [] = tt
    order_by-Sorted (x ∷ xs) = insert_by-Sorted x (order_by le xs) (order_by-Sorted xs)

    insert_by-front :
        (x : A) (ys : List A) → All (λ y. le x y ≡ true) ys → insert_by le x ys ≡ x ∷ ys
    insert_by-front x [] h = refl
    insert_by-front x (y ∷ ys) h = rw h.0 refl

    select-insert_by :
        (t : A → Bool) (x : A) (ys : List A)
        → Sorted ys
        → select t (insert_by le x ys) ≡ (if t x then insert_by le x (select t ys) else select t ys)
    select-insert_by t x [] h = elim (Bool-cases (t x)) [ inl e ↦ rw e refl | inr e ↦ rw e refl ]
    select-insert_by t x (y ∷ ys) h = elim (Bool-cases (le x y)) [
      | inl e ↦ elim (Bool-cases (t x)) [
        | inr k ↦ rw (e, k) refl
        | inl k ↦
            rw (e, k)
              (sym (
                insert_by-front x (select t (y ∷ ys)) (
                  select-All (λ z. le x z ≡ true) t (y ∷ ys)
                    (e, All-map ys (λ z m. transitive x y z e m) h.0))))
      ]
      | inr e ↦ elim (Bool-cases (t x)) [
        | inr k ↦ elim (Bool-cases (t y)) [
          | inl m ↦ rw (e, k, m) (ap (λ zs. y ∷ zs) (rw k at (select-insert_by t x ys h.1)))
          | inr m ↦ rw (e, k, m) (rw k at (select-insert_by t x ys h.1))
        ]
        | inl k ↦ elim (Bool-cases (t y)) [
          | inl m ↦ rw (e, k, m, e) (ap (λ zs. y ∷ zs) (rw k at (select-insert_by t x ys h.1)))
          | inr m ↦ rw (e, k, m) (rw k at (select-insert_by t x ys h.1))
        ]
      ]
    ]

    -- A WHERE may be applied after the ORDER BY.
    pub order_by-select :
        (t : A → Bool) (xs : List A) → order_by le (select t xs) ≡ select t (order_by le xs)
    order_by-select t [] = refl
    order_by-select t (x ∷ xs) =
        let step = select-insert_by t x (order_by le xs) (order_by-Sorted xs) in
        elim (Bool-cases (t x)) [
          | inl e ↦ rw e (ap (insert_by le x) (order_by-select t xs) ∙ sym (rw e at step))
          | inr e ↦ rw e (order_by-select t xs ∙ sym (rw e at step))
        ]

module _ {A : Type 0} where
  pub select-weaker :
      (t u : A → Bool) (xs : List A)
      → ((x : A) → u x ≡ true → t x ≡ true)
      → select u (select t xs) ≡ select u xs
  select-weaker t u [] h = refl
  select-weaker t u (x ∷ xs) h = elim (Bool-cases (t x)) [
    | inl e ↦ elim (Bool-cases (u x)) [
      | inl k ↦ rw (e, k) (ap (λ zs. x ∷ zs) (select-weaker t u xs h))
      | inr k ↦ rw (e, k) (select-weaker t u xs h)
    ]
    | inr e ↦ elim (Bool-cases (u x)) [
      | inl k ↦ absurd (cc (h x k))
      | inr k ↦ rw (e, k) (select-weaker t u xs h)
    ]
  ]

  pub select_whole : (t : A → Bool) (xs : List A) → All (λ x. t x ≡ true) xs → select t xs ≡ xs
  select_whole t [] h = refl
  select_whole t (x ∷ xs) h = rw h.0 (ap (λ zs. x ∷ zs) (select_whole t xs h.1))

  pub select-Sorted :
      (le : A → A → Bool) (t : A → Bool) (xs : List A) → Sorted le xs → Sorted le (select t xs)
  select-Sorted le t [] h = tt
  select-Sorted le t (x ∷ xs) h = elim (Bool-cases (t x)) [
    | inl e ↦ rw e (select-All (λ y. le x y ≡ true) t xs h.0, select-Sorted le t xs h.1)
    | inr e ↦ rw e (select-Sorted le t xs h.1)
  ]

  pub All-at {κ} : (P : A → Type κ) (xs : List A) (y : A) (ys : List A) → All P (xs ++ y ∷ ys) → P y
  All-at P [] y ys h = h.0
  All-at P (x ∷ xs) y ys h = All-at P xs y ys h.1

  pub select-both :
      (t u : A → Bool) (xs : List A) → select (λ x. t x && u x) xs ≡ select u (select t xs)
  select-both t u [] = refl
  select-both t u (x ∷ xs) = elim (Bool-cases (t x)) [
    | inr e ↦ rw e (select-both t u xs)
    | inl e ↦ elim (Bool-cases (u x)) [
      | inl k ↦ rw (e, k) (ap (λ zs. x ∷ zs) (select-both t u xs))
      | inr k ↦ rw (e, k) (select-both t u xs)
    ]
  ]
