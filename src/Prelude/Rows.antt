-- ===== src/Prelude/Rows.antt =====
-- Laws of selection, sorting and update on tables.
use mathlib.Core.Path.{◌≡◌, refl, ap, ◌∙◌, fun_ext}
use mathlib.Core.Logic.{◌⊎◌, inl, inr}
use mathlib.Core.Bool.{Bool, true}
use mathlib.Core.List.{List, [], ◌∷◌, ◌++◌}
use dalm_backend.Prelude.Lists.{All, Extends, insert_by, order_by, select, update_where}
use dalm_backend.Prelude.Tests.{Bool-cases}

module _ {ℓ} {A : Type ℓ} where
  -- What holds of all selected rows holds of every row that passes the test.
  pub All-select {κ} :
      (P : A → Type κ) (t : A → Bool) (xs : List A)
      → All P (select t xs)
      → All (λ x. t x ≡ true → P x) xs
  All-select P t [] h = tt
  All-select P t (x ∷ xs) h = elim (Bool-cases (t x)) [
    | inl e ↦ let h' : P x × All P (select t xs) = rw e at h in (λ _. h'.0, All-select P t xs h'.1)
    | inr e ↦ let h' : All P (select t xs) = rw e at h in ((λ e'. cc), All-select P t xs h')
  ]

  pub All-map {κ ι} :
      {P : A → Type κ} {Q : A → Type ι} (xs : List A) → ((x : A) → P x → Q x) → All P xs → All Q xs
  All-map [] f h = tt
  All-map (x ∷ xs) f h = (f x h.0, All-map xs f h.1)

  All-insert_by {κ} :
      (P : A → Type κ) (le : A → A → Bool) (x : A) (ys : List A)
      → All P (insert_by le x ys)
      → P x × All P ys
  All-insert_by P le x [] h = h
  All-insert_by P le x (y ∷ ys) h = elim (Bool-cases (le x y)) [
    | inl e ↦ let h' : P x × All P (y ∷ ys) = rw e at h in h'
    | inr e ↦
        let h' : P y × All P (insert_by le x ys) = rw e at h in
        let r = All-insert_by P le x ys h'.1 in (r.0, (h'.0, r.1))
  ]

  pub All-order_by {κ} :
      (P : A → Type κ) (le : A → A → Bool) (xs : List A) → All P (order_by le xs) → All P xs
  All-order_by P le [] h = tt
  All-order_by P le (x ∷ xs) h =
      let r = All-insert_by P le x (order_by le xs) h in (r.0, All-order_by P le xs r.1)

  pub insert_by-All {κ} :
      (P : A → Type κ) (le : A → A → Bool) (x : A) (ys : List A)
      → P x
      → All P ys
      → All P (insert_by le x ys)
  insert_by-All P le x [] p h = (p, tt)
  insert_by-All P le x (y ∷ ys) p h = elim (Bool-cases (le x y)) [
    | inl e ↦ rw e (p, h)
    | inr e ↦ rw e (h.0, insert_by-All P le x ys p h.1)
  ]

  pub order_by-All {κ} :
      (P : A → Type κ) (le : A → A → Bool) (xs : List A) → All P xs → All P (order_by le xs)
  order_by-All P le [] h = tt
  order_by-All P le (x ∷ xs) h =
      insert_by-All P le x (order_by le xs) h.0 (order_by-All P le xs h.1)

  pub select-All {κ} :
      (P : A → Type κ) (t : A → Bool) (xs : List A) → All P xs → All P (select t xs)
  select-All P t [] h = tt
  select-All P t (x ∷ xs) h = elim (Bool-cases (t x)) [
    | inl e ↦ rw e (h.0, select-All P t xs h.1)
    | inr e ↦ rw e (select-All P t xs h.1)
  ]

  -- Selected rows pass the test.
  pub select-passes : (t : A → Bool) (xs : List A) → All (λ x. t x ≡ true) (select t xs)
  select-passes t [] = tt
  select-passes t (x ∷ xs) = elim (Bool-cases (t x)) [
    | inl e ↦ rw e (e, select-passes t xs)
    | inr e ↦ rw e (select-passes t xs)
  ]

  -- An update that the test does not see commutes with the selection.
  pub select-update_where :
      (t : A → Bool) (f : A → A) (xs : List A)
      → ((x : A) → t x ≡ true → t (f x) ≡ true)
      → select t (update_where t f xs) ≡ update_where t f (select t xs)
  select-update_where t f [] h = refl
  select-update_where t f (x ∷ xs) h = elim (Bool-cases (t x)) [
    | inl e ↦ rw (e, h x e) (rw e (ap (◌∷◌ (f x)) (select-update_where t f xs h)))
    | inr e ↦ rw (e, e) (select-update_where t f xs h)
  ]

-- Growth of a table, row by row.
module _ {ℓ} {A : Type ℓ} (R : A → A → Type 0) (F : A → Type 0) where
  pub Extends-refl : ((x : A) → R x x) → (xs : List A) → Extends R F xs xs
  Extends-refl r [] = tt
  Extends-refl r (x ∷ xs) = (r x, Extends-refl r xs)

  pub Extends-update_where :
      (t : A → Bool) (f : A → A) (xs : List A)
      → ((x : A) → R x x)
      → All (λ x. t x ≡ true → R x (f x)) xs
      → Extends R F xs (update_where t f xs)
  Extends-update_where t f [] r h = tt
  Extends-update_where t f (x ∷ xs) r h = elim (Bool-cases (t x)) [
    | inl e ↦ rw e (h.0 e, Extends-update_where t f xs r h.1)
    | inr e ↦ rw e (r x, Extends-update_where t f xs r h.1)
  ]

  pub Extends-append : (xs ys : List A) → ((x : A) → R x x) → All F ys → Extends R F xs (xs ++ ys)
  Extends-append [] ys r h = h
  Extends-append (x ∷ xs) ys r h = (r x, Extends-append xs ys r h)

  fresh_kept :
      (ys zs : List A) → ((x y : A) → R x y → F x → F y) → All F ys → Extends R F ys zs → All F zs
  fresh_kept [] zs k a h = h
  fresh_kept (y ∷ ys) [] k a h = elim h [ ]
  fresh_kept (y ∷ ys) (z ∷ zs) k a h = (k y z h.0 a.0, fresh_kept ys zs k a.1 h.1)

  -- A property of the fresh rows that the relation keeps holds of the whole table after growth.
  pub Extends-All :
      (xs ys : List A) → ((x y : A) → R x y → F x → F y) → All F xs → Extends R F xs ys → All F ys
  Extends-All = fresh_kept

  pub Extends-trans :
      (xs ys zs : List A)
      → ((x y z : A) → R x y → R y z → R x z)
      → ((x y : A) → R x y → F x → F y)
      → Extends R F xs ys
      → Extends R F ys zs
      → Extends R F xs zs
  Extends-trans [] ys zs t k g h = fresh_kept ys zs k g h
  Extends-trans (x ∷ xs) [] zs t k g h = elim g [ ]
  Extends-trans (x ∷ xs) (y ∷ ys) [] t k g h = elim h [ ]
  Extends-trans (x ∷ xs) (y ∷ ys) (z ∷ zs) t k g h =
      (t x y z g.0 h.0, Extends-trans xs ys zs t k g.1 h.1)

module _ {ℓ} {A : Type ℓ} where
  -- What a query for one row can find.
  pub Rows-cases :
      (xs : List A)
      → (xs ≡ [])
        ⊎ ((x : A) × (xs ≡ x ∷ []))
        ⊎ ((x : A) × (y : A) × (r : List A) × (xs ≡ x ∷ y ∷ r))
  Rows-cases [] = inl refl
  Rows-cases (x ∷ []) = inr (inl (x, refl))
  Rows-cases (x ∷ y ∷ r) = inr (inr (x, y, r, refl))

  pub All-update_where {κ} :
      (P : A → Type κ) (t : A → Bool) (f : A → A) (xs : List A)
      → ((x : A) → P x → P (f x))
      → All P xs
      → All P (update_where t f xs)
  All-update_where P t f [] k h = tt
  All-update_where P t f (x ∷ xs) k h = elim (Bool-cases (t x)) [
    | inl e ↦ rw e (k x h.0, All-update_where P t f xs k h.1)
    | inr e ↦ rw e (h.0, All-update_where P t f xs k h.1)
  ]

  pub All-intro {κ} : (P : A → Type κ) (xs : List A) → ((x : A) → P x) → All P xs
  All-intro P [] h = tt
  All-intro P (x ∷ xs) h = (h x, All-intro P xs h)

module _ {ℓ} {A : Type ℓ} where
  passing : (t : A → Bool) (f : A → A) (x : A) → t x ≡ true → update_where t f (x ∷ []) ≡ f x ∷ []
  passing t f x e = rw e

  -- A query finds its single row again after an update of that row which keeps the test.
  pub select-update_found :
      (t u : A → Bool) (f : A → A) (xs : List A) (x : A)
      → ((y : A) → u y ≡ t y)
      → ((y : A) → t y ≡ true → t (f y) ≡ true)
      → select t xs ≡ x ∷ []
      → select t (update_where u f xs) ≡ f x ∷ []
  select-update_found t u f xs x same keep found =
      let passes : All (λ y. t y ≡ true) (x ∷ []) = rw found at (select-passes t xs) in
      rw (fun_ext same) (select-update_where t f xs keep ∙ (rw found (passing t f x passes.0)))

  -- After an update every row that passes its test has what the update gives.
  pub update_where-All {κ} :
      (P : A → Type κ) (t : A → Bool) (f : A → A) (xs : List A)
      → ((x : A) → P (f x))
      → All (λ x. t x ≡ true → P x) (update_where t f xs)
  update_where-All P t f [] h = tt
  update_where-All P t f (x ∷ xs) h = elim (Bool-cases (t x)) [
    | inl e ↦ rw e ((λ _. h x), update_where-All P t f xs h)
    | inr e ↦ rw e ((λ e'. cc), update_where-All P t f xs h)
  ]

  -- What holds of every row that passes the test holds of the selected rows.
  pub All-selected {κ} :
      (P : A → Type κ) (t : A → Bool) (xs : List A)
      → All (λ x. t x ≡ true → P x) xs
      → All P (select t xs)
  All-selected P t [] h = tt
  All-selected P t (x ∷ xs) h = elim (Bool-cases (t x)) [
    | inl e ↦ rw e (h.0 e, All-selected P t xs h.1)
    | inr e ↦ rw e (All-selected P t xs h.1)
  ]
