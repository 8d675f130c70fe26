-- ===== src/Pages/Keys.antt =====
-- A list with unique identifiers, newest first: each row is strictly behind the one before.
use dalm_backend.Models.{
  embedding_status_eq, notification_type_eq, photo_status_eq, report_target_eq, term_type_eq,
  user_status_eq, validation_status_eq,
}
use dalm_backend.Pages.{Cursor}
use dalm_backend.Pages.Order.{Sorted, order_by-Sorted, order_by-select, select-Sorted, select-both}
use dalm_backend.Pages.Walk.{is_behind, precedes}
use dalm_backend.Prelude.{
  All, Bool, Bool-cases, List, Option, [], any, ap, arith, false, inl, inr, insert_by,
  insert_by-All, leb, ltb, nat_eq, not, option_eq, order_by, order_by-All, select, string_eq, true,
  ◌&&◌, ◌==◌, ◌||◌, ◌∙◌, ◌∷◌, ◌≡◌, ◌⊎◌,
}
use dalm_backend.Store.{unique}

module _ {A : Type 0} where
  abbrev apart : (A → A → Bool) → A → A → Bool
  apart clash x y = not (clash x y)

  none_clash :
      (clash : A → A → Bool) (x : A) (ys : List A)
      → any (clash x) ys ≡ false
      → All (λ y. apart clash x y ≡ true) ys
  none_clash clash x [] h = tt
  none_clash clash x (y ∷ ys) h = (ground arith, none_clash clash x ys (ground arith))

  pub unique-Sorted :
      (clash : A → A → Bool) (xs : List A) → unique clash xs ≡ true → Sorted (apart clash) xs
  unique-Sorted clash [] h = tt
  unique-Sorted clash (x ∷ xs) h =
      (none_clash clash x xs (ground arith), unique-Sorted clash xs (ground arith))

  module _ (ne le : A → A → Bool) (symmetric : (x y : A) → ne x y ≡ true → ne y x ≡ true) where
    insert_by-apart :
        (x : A) (ys : List A)
        → All (λ y. ne x y ≡ true) ys
        → Sorted ne ys
        → Sorted ne (insert_by le x ys)
    insert_by-apart x [] h s = (tt, tt)
    insert_by-apart x (y ∷ ys) h s = elim (Bool-cases (le x y)) [
      | inl e ↦ rw e (h, s)
      | inr e ↦ rw e (
        insert_by-All (λ z. ne y z ≡ true) le x ys (symmetric x y h.0) s.0,
        insert_by-apart x ys h.1 s.1,
      )
    ]

    pub order_by-apart : (xs : List A) → Sorted ne xs → Sorted ne (order_by le xs)
    order_by-apart [] h = tt
    order_by-apart (x ∷ xs) h =
        insert_by-apart x (order_by le xs) (order_by-All (λ y. ne x y ≡ true) le xs h.0)
          (order_by-apart xs h.1)

  Sorted-both :
      (r s t : A → A → Bool) (xs : List A)
      → ((x y : A) → r x y ≡ true → s x y ≡ true → t x y ≡ true)
      → Sorted r xs
      → Sorted s xs
      → Sorted t xs
  Sorted-both r s t [] k g h = tt
  Sorted-both r s t (x ∷ xs) k g h = (both xs g.0 h.0, Sorted-both r s t xs k g.1 h.1)
    where
      both :
          (ys : List A)
          → All (λ y. r x y ≡ true) ys
          → All (λ y. s x y ≡ true) ys
          → All (λ y. t x y ≡ true) ys
      both [] a b = tt
      both (y ∷ ys) a b = (k x y a.0 b.0, both ys a.1 b.1)

module _ {A : Type 0} (key : A → Cursor) where
  -- `ORDER BY at DESC, id DESC`.
  abbrev pub later : A → A → Bool
  later x y = ltb (key y).at (key x).at || (key x).at == (key y).at && leb (key y).id (key x).id

  abbrev pub same_id : A → A → Bool
  same_id x y = (key x).id == (key y).id

  later_total : (x y : A) → (later x y ≡ true) ⊎ (later y x ≡ true)
  later_total x y = elim (Bool-cases (later x y)) [ inl h ↦ inl h | inr h ↦ inr (ground arith) ]

  later_trans : (x y z : A) → later x y ≡ true → later y z ≡ true → later x z ≡ true
  later_trans x y z h k = ground arith

  -- The WHERE of the cursor cuts the rows that the rest of the query sorts.
  pub order_by-behind :
      (base : A → Bool) (c : Option Cursor) (xs : List A)
      → order_by later (select (λ x. base x && is_behind key c x) xs)
        ≡ select (is_behind key c) (order_by later (select base xs))
  order_by-behind base c xs =
      ap (order_by later) (select-both base (is_behind key c) xs)
      ∙ order_by-select later later_total later_trans (is_behind key c) (select base xs)

  pub order_by-precedes :
      (base : A → Bool) (xs : List A)
      → unique same_id xs ≡ true
      → Sorted (precedes key) (order_by later (select base xs))
  order_by-precedes base xs h =
      Sorted-both later (apart same_id) (precedes key) (order_by later (select base xs))
        (λ x y g k. ground arith) (order_by-Sorted later later_total later_trans (select base xs))
        (order_by-apart (apart same_id) later (λ x y k. ground arith) (select base xs)
          (select-Sorted (apart same_id) base xs (unique-Sorted same_id xs h)))
