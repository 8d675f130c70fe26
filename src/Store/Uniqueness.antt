-- ===== src/Store/Uniqueness.antt =====
-- What a unique index refuses.
use dalm_backend.Prelude.{Bool, List, [], any, arith, false, true, ◌++◌, ◌∷◌, ◌≡◌}
use dalm_backend.Store.Constraints.{unique}

any-last {ℓ} :
    {A : Type ℓ} (t : A → Bool) (xs : List A) (x : A) → t x ≡ true → any t (xs ++ x ∷ []) ≡ true
any-last t [] x h = ground arith
any-last t (y ∷ ys) x h = ground (arith, any-last t ys x h)

-- A unique index refuses a row that clashes with an earlier one.
pub unique-clash {ℓ} :
    {A : Type ℓ} (clash : A → A → Bool) (xs : List A) (x : A)
    → any (λ y. clash y x) xs ≡ true
    → unique clash (xs ++ x ∷ []) ≡ false
unique-clash clash [] x h = cc
unique-clash clash (y ∷ ys) x h = ground (arith, any-last (clash y) ys x, unique-clash clash ys x)
