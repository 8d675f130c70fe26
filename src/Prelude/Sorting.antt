-- ===== src/Prelude/Sorting.antt =====
-- The first row of an ORDER BY.
use mathlib.Core.Path.{◌≡◌, refl, ap, subst}
use mathlib.Core.Logic.{◌≢◌, ◌⊎◌, inl, inr}
use mathlib.Core.Bool.{Bool, true, false}
use mathlib.Core.Option.{none, some, some-injective}
use mathlib.Core.List.{List, [], ◌∷◌, ◌++◌, map}
use dalm_backend.Prelude.Tests.{Bool-cases}
use dalm_backend.Prelude.Lists.{Any, head?, select, insert_by, order_by, All}
use dalm_backend.Prelude.Rows.{
  All-intro, All-map, All-select, All-order_by, insert_by-All, order_by-All, select-passes,
}

module _ {ℓ} {A : Type ℓ} where
  insert_by-some : (le : A → A → Bool) (x : A) (ys : List A) → head? (insert_by le x ys) ≢ none
  insert_by-some le x [] h = cc
  insert_by-some le x (y ∷ ys) h = elim (Bool-cases (le x y)) [
    | inl e ↦ let h' : some x ≡ none = rw e at h in cc
    | inr e ↦ let h' : some y ≡ none = rw e at h in cc
  ]

module _ {ℓ} {A : Type ℓ} where
  pub All-head? {κ} : (P : A → Type κ) (xs : List A) (x : A) → head? xs ≡ some x → All P xs → P x
  All-head? P [] x h a = cc
  All-head? P (y ∷ ys) x h a = subst P (some-injective y x h) a.0

  -- An ORDER BY over a selection has no first row only where no row passes the test.
  pub head?-none :
      (t : A → Bool) (le : A → A → Bool) (xs : List A)
      → head? (order_by le (select t xs)) ≡ none
      → All (λ x. t x ≢ true) xs
  head?-none t le [] h = tt
  head?-none t le (x ∷ xs) h = elim (Bool-cases (t x)) [
    | inl e ↦
        let h' : head? (insert_by le x (order_by le (select t xs))) ≡ none = rw e at h in
        absurd (insert_by-some le x (order_by le (select t xs)) h')
    | inr e ↦
        let h' : head? (order_by le (select t xs)) ≡ none = rw e at h in
        ((λ e'. cc), head?-none t le xs h')
  ]

  -- The same of the images of the selection.
  pub map-head?-none {κ} :
      {B : Type κ} (f : A → B) (t : A → Bool) (le : B → B → Bool) (xs : List A)
      → head? (order_by le (map f (select t xs))) ≡ none
      → All (λ x. t x ≢ true) xs
  map-head?-none f t le [] h = tt
  map-head?-none f t le (x ∷ xs) h = elim (Bool-cases (t x)) [
    | inl e ↦
        let h' : head? (insert_by le (f x) (order_by le (map f (select t xs)))) ≡ none =
          rw e at h in
        absurd (insert_by-some le (f x) (order_by le (map f (select t xs))) h')
    | inr e ↦
        let h' : head? (order_by le (map f (select t xs))) ≡ none = rw e at h in
        ((λ e'. cc), map-head?-none f t le xs h')
  ]

  -- An order that is total on the rows that are fine.
  module _ (le : A → A → Bool) (fine : A → Type 0)
      (total : (x y : A) → fine x → fine y → (le x y ≡ true) ⊎ (le y x ≡ true))
      (transitive : (x y z : A) → le x y ≡ true → le y z ≡ true → le x z ≡ true) where
    reflexive : (x : A) → fine x → le x x ≡ true
    reflexive x f = elim (total x x f f) [ inl h ↦ h | inr h ↦ h ]

    -- The first row comes before every row.
    abbrev IsLeast : List A → Type 0
    IsLeast [] = Unit
    IsLeast (x ∷ xs) = All (λ y. le x y ≡ true) (x ∷ xs)

    insert_by-IsLeast :
        (x : A) (ys : List A) → fine x → All fine ys → IsLeast ys → IsLeast (insert_by le x ys)
    insert_by-IsLeast x [] f g h = (reflexive x f, tt)
    insert_by-IsLeast x (y ∷ ys) f g h = elim (Bool-cases (le x y)) [
      | inl e ↦ rw e (reflexive x f, (e, All-map ys (λ z k. transitive x y z e k) h.1))
      | inr e ↦ rw e (reflexive y g.0, insert_by-All _ le x ys (later e) h.1)
    ]
      where
        later : le x y ≡ false → le y x ≡ true
        later e = elim (total x y f g.0) [ inl k ↦ cc | inr k ↦ k ]

    order_by-IsLeast : (xs : List A) → All fine xs → IsLeast (order_by le xs)
    order_by-IsLeast [] f = tt
    order_by-IsLeast (x ∷ xs) f =
        insert_by-IsLeast x (order_by le xs) f.0 (order_by-All fine le xs f.1)
          (order_by-IsLeast xs f.1)

    first_least :
        (ys : List A) (x : A) → head? ys ≡ some x → IsLeast ys → All (λ y. le x y ≡ true) ys
    first_least [] x h k = tt
    first_least (y ∷ ys) x h k =
        subst (λ z. All (λ w. le z w ≡ true) (y ∷ ys)) (some-injective y x h) k

    -- The first row of an ORDER BY comes before every row.
    pub head?-least :
        (xs : List A) (x : A)
        → All fine xs
        → head? (order_by le xs) ≡ some x
        → All (λ y. le x y ≡ true) xs
    head?-least xs x f h =
        All-order_by _ le xs (first_least (order_by le xs) x h (order_by-IsLeast xs f))

  -- The first row of an ORDER BY over a selection: it passes the test, and comes before every row that
  -- does.
  pub head?-order_by :
      (le : A → A → Bool)
      → ((x y : A) → (le x y ≡ true) ⊎ (le y x ≡ true))
      → ((x y z : A) → le x y ≡ true → le y z ≡ true → le x z ≡ true)
      → (t : A → Bool) (xs : List A) (x : A) → head? (order_by le (select t xs)) ≡ some x
      → (t x ≡ true) × All (λ y. t y ≡ true → le x y ≡ true) xs
  head?-order_by le total transitive t xs x h = (
    All-head? _ (order_by le (select t xs)) x h
        (order_by-All (λ y. t y ≡ true) le (select t xs) (select-passes t xs)),
    All-select _ t xs (
        head?-least le (λ _. Unit) (λ y z _ _. total y z) transitive (select t xs) x
          (All-intro _ (select t xs) (λ _. tt)) h),
  )

  -- A row that no row comes before stands first.
  insert_by-first :
      (le : A → A → Bool) (x y : A) (ys : List A)
      → le y x ≡ false
      → head? ys ≡ some x
      → head? (insert_by le y ys) ≡ some x
  insert_by-first le x y [] h k = cc
  insert_by-first le x y (z ∷ zs) h k =
      let same : z ≡ x = some-injective z x k in let e : le y z ≡ false = rw same h in rw e k

  pub order_by-last :
      (le : A → A → Bool) (x : A) (xs : List A)
      → All (λ y. le y x ≡ false) xs
      → head? (order_by le (xs ++ x ∷ [])) ≡ some x
  order_by-last le x [] h = refl
  order_by-last le x (y ∷ ys) h =
      insert_by-first le x y (order_by le (ys ++ x ∷ [])) h.0 (order_by-last le x ys h.1)

  pub select-append :
      (t : A → Bool) (xs ys : List A) → select t (xs ++ ys) ≡ select t xs ++ select t ys
  select-append t [] ys = refl
  select-append t (x ∷ xs) ys = elim (Bool-cases (t x)) [
    | inl e ↦ rw e (ap (λ zs. x ∷ zs) (select-append t xs ys))
    | inr e ↦ rw e (select-append t xs ys)
  ]

  -- What holds of every selected row's image holds of the image of every row that passes the test.
  pub All-map-select {κ ι} :
      {B : Type ι} (P : B → Type κ) (f : A → B) (t : A → Bool) (xs : List A)
      → All P (map f (select t xs))
      → All (λ x. t x ≡ true → P (f x)) xs
  All-map-select P f t xs h = All-select (λ x. P (f x)) t xs (go (select t xs) h)
    where
      go : (ys : List A) → All P (map f ys) → All (λ x. P (f x)) ys
      go [] k = tt
      go (y ∷ ys) k = (k.0, go ys k.1)

  -- The image of a selection comes from rows that pass the test.
  pub map-select-Any {ι} :
      {B : Type ι} (P : A → B → Type 0) (f : A → B) (t : A → Bool) (xs : List A)
      → ((x : A) → t x ≡ true → P x (f x))
      → All (λ y. Any (λ x. P x y) xs) (map f (select t xs))
  map-select-Any P f t [] h = tt
  map-select-Any P f t (x ∷ xs) h =
      let rest =
        All-map {P = λ y. Any (λ z. P z y) xs} {Q = λ y. Any (λ z. P z y) (x ∷ xs)}
          (map f (select t xs)) (λ y k. inr k) (map-select-Any P f t xs h) in
      elim (Bool-cases (t x)) [ inl e ↦ rw e (inl (h x e), rest) | inr e ↦ rw e rest ]

  pub map-select-All {κ ι} :
      {B : Type ι} (P : B → Type κ) (f : A → B) (t : A → Bool) (xs : List A)
      → ((x : A) → t x ≡ true → P (f x))
      → All P (map f (select t xs))
  map-select-All P f t [] h = tt
  map-select-All P f t (x ∷ xs) h = elim (Bool-cases (t x)) [
    | inl e ↦ rw e (h x e, map-select-All P f t xs h)
    | inr e ↦ rw e (map-select-All P f t xs h)
  ]
