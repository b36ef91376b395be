-- ===== src/Number.antt =====
-- The numbers of the source that need not be whole (`number`, an IEEE double): the operations that
-- the code applies to them, and the documented laws that its bounds rest on. The type is a
-- parameter; NaN is the value that is not `<=` itself.
pub mod Hundredths
use connect_hub.Base.{ℕ, ◌≤◌, ◌≡◌, ◌⊎◌, Bool, true, not, if◌then◌else◌}

pub record Number (W : Type 0) : Type 0 where
  pub le : W → W → Bool
  pub is_finite : W → Bool
  pub plus : W → W → W
  pub minus : W → W → W
  pub times : W → W → W
  -- The literal `n / 10 ^ k`.
  pub decimal : ℕ → ℕ → W

infix 50 ◌≼◌
abbrev pub ◌≼◌ : {W : Type 0} ⦃n : Number W⦄ → W → W → Type 0
◌≼◌ ⦃n⦄ x y = n.le x y ≡ true

module _ {W : Type 0} ⦃n : Number W⦄ where
  -- `Math.max(x, y)`
  abbrev pub maximum : W → W → W
  maximum x y =
      if not (n.le x x) then x else if not (n.le y y) then y else if n.le x y then y else x

  -- `Math.min(x, y)`
  abbrev pub minimum : W → W → W
  minimum x y =
      if not (n.le x x) then x else if not (n.le y y) then y else if n.le x y then x else y

  abbrev pub nought : W
  nought = n.decimal 0 0

-- Comparison is a total order away from NaN, and orders the literals of the code.
pub record IsOrdered (W : Type 0) ⦃n : Number W⦄ : Type 0 where
  pub refl_of_le : (x y : W) → x ≼ y → (x ≼ x) × (y ≼ y)
  pub trans : (x y z : W) → x ≼ y → y ≼ z → x ≼ z
  pub total : (x y : W) → x ≼ x → y ≼ y → (x ≼ y) ⊎ (y ≼ x)
  pub zero_le_min : n.decimal 0 0 ≼ n.decimal 15 2
  pub min_le_half : n.decimal 15 2 ≼ n.decimal 5 1
  pub half_le_max : n.decimal 5 1 ≼ n.decimal 85 2
  pub max_le_one : n.decimal 85 2 ≼ n.decimal 1 0
  pub whole_le : (i j : ℕ) → i ≤ j → n.decimal i 0 ≼ n.decimal j 0

-- Rounding is monotone: a share of a finite length lies within the length, and so does what is left
-- of it.
pub record IsRounded (W : Type 0) ⦃n : Number W⦄ : Type 0 where
  pub finite_of_le : (x y : W) → nought ≼ x → x ≼ y → n.is_finite y ≡ true → n.is_finite x ≡ true
  pub share_nonneg :
      (x r : W)
      → n.is_finite x ≡ true
      → nought ≼ x
      → nought ≼ r
      → r ≼ n.decimal 1 0
      → nought ≼ n.times x r
  pub share_le :
      (x r : W)
      → n.is_finite x ≡ true
      → nought ≼ x
      → nought ≼ r
      → r ≼ n.decimal 1 0
      → n.times x r ≼ x
  pub rest_nonneg : (x y : W) → n.is_finite x ≡ true → nought ≼ y → y ≼ x → nought ≼ n.minus x y
  pub rest_le : (x y : W) → n.is_finite x ≡ true → nought ≼ y → y ≼ x → n.minus x y ≼ x
  pub minus-literal_le :
      (x : W) (i : ℕ) → n.is_finite x ≡ true → nought ≼ x → n.minus x (n.decimal i 0) ≼ x
