-- ===== src/Prelude/Quiet.antt =====
-- Rows that an update leaves unready, and the selection of the first ready row.
use mathlib.Core.Path.{◌≡◌}
use mathlib.Core.Logic.{inl, inr}
use mathlib.Core.Bool.{Bool, true, false}
use mathlib.Core.List.{List, [], ◌∷◌}
use mathlib.Core.Option.{some}
use dalm_backend.Prelude.Lists.{All, head?, order_by, select, update_where}
use dalm_backend.Prelude.Rows.{order_by-All, select-All}
use dalm_backend.Prelude.Sorting.{All-head?}
use dalm_backend.Prelude.Tests.{Bool-cases}

module _ {ℓ} {A : Type ℓ} (at due : A → Bool) where
  pub quiet-update_where :
      (f : A → A) (xs : List A)
      → All (λ x. at x ≡ true → due (f x) ≡ false) xs
      → All (λ x. at x ≡ true → due x ≡ false) (update_where at f xs)
  quiet-update_where f [] h = tt
  quiet-update_where f (x ∷ xs) h = elim (Bool-cases (at x)) [
    | inl e ↦ rw e ((λ _. h.0 e), quiet-update_where f xs h.1)
    | inr e ↦ rw e ((λ e'. cc), quiet-update_where f xs h.1)
  ]

  -- The first of the ready rows is none of those that are not due.
  pub quiet-head? :
      (ready : A → Bool) (before : A → A → Bool) (xs : List A) (x : A)
      → All (λ y. at y ≡ true → due y ≡ false) xs
      → head? (order_by before (select ready xs)) ≡ some x
      → at x ≡ true
      → due x ≡ false
  quiet-head? ready before xs x h e =
      All-head? (λ y. at y ≡ true → due y ≡ false) _ x e
        (order_by-All _ before (select ready xs) (select-All _ ready xs h))
