-- ===== src/Pages/Walk.antt =====
-- Reading a list by its cursors.
use mathlib.Core.Option
use mathlib.Core.List.{append_assoc}
use dalm_backend.Pages.{
  Cursor, Page, behind, has_next, last?, map_page, map_result, page_of, prepend, walk, walk_on,
}
use dalm_backend.Pages.Order.{All-at, Sorted, select-Sorted, select-weaker, select_whole}
use dalm_backend.Prelude.{
  All, Bool, List, Option, Option-cases, [], ap, arith, false, inl, inr, length, length-append, map,
  none, refl, select, select-passes, some, subst, suc, sym, take, true, zero, ℕ, ◌++◌, ◌<◌, ◌∙◌,
  ◌∷◌, ◌≡◌, ◌⊎◌,
}
use dalm_backend.Store.{Result, err, ok}

module _ {A : Type 0} where
  -- What a page of `suc m` rows can be: the rest of the list, or a part of it that ends in `z`.
  abbrev pub PageOf : ℕ → List A → Type 0
  PageOf m rows =
      (take (suc m) (take (suc (suc m)) rows) ≡ rows)
        × (has_next (suc m) (take (suc (suc m)) rows) ≡ false)
      ⊎ ((a : List A) × (z : A) × (b : List A) × (rows ≡ a ++ z ∷ b)
          × (take (suc m) (take (suc (suc m)) rows) ≡ a ++ z ∷ [])
          × (has_next (suc m) (take (suc (suc m)) rows) ≡ true))

  pub page_cases : (m : ℕ) (rows : List A) → PageOf m rows
  page_cases m [] = inl (refl, ground arith)
  page_cases zero (x ∷ []) = inl (refl, refl)
  page_cases zero (x ∷ y ∷ rows) = inr ([], x, y ∷ rows, refl, refl, refl)
  page_cases (suc m) (x ∷ rows) = elim (page_cases m rows) [
    | inl (whole, rest) ↦ inl (ap (λ zs. x ∷ zs) whole, ground arith)
    | inr (a, z, b, cut, shown, more) ↦
        inr (x ∷ a, z, b, ap (λ zs. x ∷ zs) cut, ap (λ zs. x ∷ zs) shown, ground arith)
  ]

  pub last-append : (xs : List A) (z : A) → last? (xs ++ z ∷ []) ≡ some z
  last-append [] z = refl
  last-append (x ∷ []) z = refl
  last-append (x ∷ y ∷ xs) z = last-append (y ∷ xs) z

module _ {A B K : Type 0} (f : A → B) (fetch : Option K → Result (Page A K)) where
  map-append : (xs ys : List A) → map f (xs ++ ys) ≡ map f xs ++ map f ys
  map-append [] ys = refl
  map-append (x ∷ xs) ys = ap (λ zs. f x ∷ zs) (map-append xs ys)

  prepended :
      (xs : List A) (r : Result (List A))
      → prepend (map f xs) (map_result (map f) r) ≡ map_result (map f) (prepend xs r)
  prepended xs (err e) = refl
  prepended xs (ok ys) = ap (λ zs. ok zs) (sym (map-append xs ys))

  walk_on-map_page :
      (fuel : ℕ)
      → ((k : K)
          → walk fuel (λ k. map_result (map_page f) (fetch k)) (some k)
            ≡ map_result (map f) (walk fuel fetch (some k)))
      → (r : Result (Page A K))
      → walk_on (walk fuel (λ k. map_result (map_page f) (fetch k))) (map_result (map_page f) r)
        ≡ map_result (map f) (walk_on (walk fuel fetch) r)
  walk_on-map_page fuel h (err e) = refl
  walk_on-map_page fuel h (ok page) = elim (Option-cases page.next) [
    | inl last ↦ rw last refl
    | inr (k, more) ↦
        rw more
          (ap (prepend (map f page.items)) (h k) ∙ prepended page.items (walk fuel fetch (some k)))
  ]

  -- A client that is shown images of the rows reads the images.
  pub walk-map_page :
      (fuel : ℕ) (cursor : Option K)
      → walk fuel (λ k. map_result (map_page f) (fetch k)) cursor
        ≡ map_result (map f) (walk fuel fetch cursor)
  unfolding walk
  walk-map_page zero cursor = refl
  walk-map_page (suc fuel) cursor =
      walk_on-map_page fuel (λ k. walk-map_page fuel (some k)) (fetch cursor)

module _ {A : Type 0} (key : A → Cursor) where
  abbrev pub is_behind : Option Cursor → A → Bool
  is_behind c x = behind c (key x).at (key x).id

  abbrev pub precedes : A → A → Bool
  precedes x = is_behind (some (key x))

  -- The cursor of a row cuts off that row and all before it.
  select-cut :
      (a : List A) (z : A) (b : List A)
      → Sorted precedes (a ++ z ∷ b)
      → select (precedes z) (a ++ z ∷ b) ≡ b
  select-cut [] z b h =
      let itself : precedes z z ≡ false = ground arith in
      rw itself (select_whole (precedes z) b h.0)
  select-cut (x ∷ a) z b h =
      let after : precedes x z ≡ true = All-at (λ y. precedes x y ≡ true) a z b h.0 in
      let before : precedes z x ≡ false = ground arith in rw before (select-cut a z b h.1)

  behind_trans :
      (c : Option Cursor) (z x : A)
      → is_behind c z ≡ true
      → precedes z x ≡ true
      → is_behind c x ≡ true
  behind_trans none z x h k = refl
  behind_trans (some c) z x h k = ground arith

  -- What is behind the last row of a page is what follows the page.
  behind-cut :
      (c : Option Cursor) (whole a : List A) (z : A) (b : List A)
      → Sorted precedes whole
      → select (is_behind c) whole ≡ a ++ z ∷ b
      → select (precedes z) whole ≡ b
  behind-cut c whole a z b sorted cut =
      let passes : All (λ x. is_behind c x ≡ true) (a ++ z ∷ b) =
        subst (All (λ x. is_behind c x ≡ true)) cut (select-passes (is_behind c) whole) in
      let reached : is_behind c z ≡ true = All-at (λ x. is_behind c x ≡ true) a z b passes in
      sym (select-weaker (is_behind c) (precedes z) whole (λ x. behind_trans c z x reached))
      ∙ ap (select (precedes z)) cut
      ∙ select-cut a z b
          (subst (Sorted precedes) cut (select-Sorted precedes (is_behind c) whole sorted))

  module _ {K : Type 0} (encode : Cursor → K) (fetch : Option K → Result (Page A K)) (m : ℕ)
      (whole : List A) (sorted : Sorted precedes whole)
      (fetched : (c : Option Cursor)
        → fetch (Option.map encode c)
          ≡ ok (page_of encode key (suc m) (take (suc (suc m)) (select (is_behind c) whole)))) where
    -- Following the cursors reads all that is behind the first one, each row once and in order.
    pub walk-all :
        (fuel : ℕ) (c : Option Cursor)
        → length (select (is_behind c) whole) < fuel
        → walk fuel fetch (Option.map encode c) ≡ ok (select (is_behind c) whole)
    unfolding walk
    walk-all zero c h = absurd (ground arith)
    walk-all (suc fuel) c h = elim (page_cases m (select (is_behind c) whole)) [
      | inl (shown, last) ↦ rw (walk, fetched c, last, shown) refl
      | inr (a, z, b, cut, shown, more) ↦
          let rest = behind-cut c whole a z b sorted cut in
          let shorter : length (select (precedes z) whole) < fuel =
            rw rest (ground (arith, ap length cut, length-append a (z ∷ b))) in
          rw
            (
              walk,
              fetched c,
              more,
              shown,
              last-append a z,
              walk-all fuel (some (key z)) shorter,
              rest,
            )
            (ap (λ xs. ok xs) (append_assoc a (z ∷ []) b ∙ sym cut))
    ]
