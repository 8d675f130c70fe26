-- ===== src/Floats.antt =====
-- Python's floats: the values are patterns of 64 bits, and the operations are a parameter of what
-- computes with them.
use dalm_backend.Models.{Float}
use dalm_backend.Prelude.{Bool, List, [], not, true, ℕ, ◌&&◌, ◌∷◌, ◌≡◌, ◌⊎◌}

pub record FloatOps : Type 0 where
  pub add : Float → Float → Float
  pub mul : Float → Float → Float
  pub div : Float → Float → Float
  pub sqrt : Float → Float
  -- `round(x, 6)`.
  pub round6 : Float → Float
  pub is_finite : Float → Bool
  pub le : Float → Float → Bool
  -- The float of an integer, and the literal of so many hundredths.
  pub of_int : ℕ → Float
  pub hundredths : ℕ → Float

module _ (ops : FloatOps) where
  abbrev pub lt : Float → Float → Bool
  lt a b = ops.le a b && not (ops.le b a)

  abbrev pub float_eq : Float → Float → Bool
  float_eq a b = ops.le a b && ops.le b a

  -- `0 <= x <= 1`.
  abbrev pub in_unit : Float → Bool
  in_unit x = ops.le (ops.of_int 0) x && ops.le x (ops.of_int 1)

  -- Python's `sum`, from the left.
  abbrev pub sum_from : Float → List Float → Float
  sum_from acc [] = acc
  sum_from acc (x ∷ xs) = sum_from (ops.add acc x) xs

  abbrev pub products : List Float → List Float → List Float
  products [] ys = []
  products (x ∷ xs) [] = []
  products (x ∷ xs) (y ∷ ys) = ops.mul x y ∷ products xs ys

  abbrev pub dot : List Float → List Float → Float
  dot xs ys = sum_from (ops.of_int 0) (products xs ys)

-- The comparison of IEEE 754: a float that is compared to hold is no NaN, which is the one float that is
-- not at most itself; the others are ordered totally; and rounding makes no NaN of another float.
pub record IsOrdered (ops : FloatOps) : Type 0 where
  pub compared : (a b : Float) → ops.le a b ≡ true → (ops.le a a ≡ true) × (ops.le b b ≡ true)
  pub total :
      (a b : Float)
      → ops.le a a ≡ true
      → ops.le b b ≡ true
      → (ops.le a b ≡ true) ⊎ (ops.le b a ≡ true)
  pub transitive : (a b c : Float) → ops.le a b ≡ true → ops.le b c ≡ true → ops.le a c ≡ true
  pub rounded : (a : Float) → ops.le a a ≡ true → ops.le (ops.round6 a) (ops.round6 a) ≡ true
