-- ===== src/Float.antt =====
-- Floating-point numbers as the source uses them: confidences, weights, thresholds and scores.
-- The type and its arithmetic are parameters, with the built-in `sum` and the logarithm and the
-- exponential of `math`. What these give where the source's calls raise is never used, and
-- `exp_overflows` tells for which numbers `math.exp` raises OverflowError. Where a theorem needs an
-- order, it asks for one that is total and transitive, which holds of every double but NaN.
use impostarr.Prelude.{
  ℕ, ◌+◌, ◌-◌, ◌*◌, ◌/◌, ◌≡◌, Bool, true, false, not, ◌&&◌, List, [], ◌∷◌, arith, leb,
  if◌then◌else◌,
}

pub record Float (F : Type 0) : Type 0 where
  pub nought : F
  pub unit : F
  pub le : F → F → Bool
  pub add : F → F → F
  pub sub : F → F → F
  pub mul : F → F → F
  pub div : F → F → F
  pub neg : F → F
  pub log : F → F
  pub exp : F → F
  pub exp_overflows : F → Bool
  pub sum : List F → F

pub record IsOrdered {F : Type 0} (o : Float F) : Type 0 where
  pub total : (a b : F) → o.le a b ≡ false → o.le b a ≡ true
  pub trans : (a b c : F) → o.le a b ≡ true → o.le b c ≡ true → o.le a c ≡ true
  pub refl_le : (a : F) → o.le a a ≡ true

module _ {F : Type 0} (o : Float F) where
  -- `a < b`, for numbers that are not NaN.
  abbrev pub lt : F → F → Bool
  lt a b = not (o.le b a)

  abbrev pub is_zero : F → Bool
  is_zero a = o.le a o.nought && o.le o.nought a

  -- `max(a, b)`: the first of two that are equal.
  abbrev pub max : F → F → F
  max a b = if lt a b then b else a

  -- `min(a, b)`: the first of two that are equal.
  abbrev pub min : F → F → F
  min a b = if lt b a then b else a

abbrev milli_sum : List ℕ → ℕ
milli_sum [] = 0
milli_sum (x ∷ xs) = x + milli_sum xs

-- Thousandths, for the tests; the logarithm and the exponential are the identity.
abbrev pub milli : Float ℕ
milli = record {
  nought = 0;
  unit = 1000;
  le = leb;
  add = λ a b. a + b;
  sub = λ a b. a - b;
  mul = λ a b. a * b / 1000;
  div = λ a b. a * 1000 / b;
  neg = λ a. a;
  log = λ a. a;
  exp = λ a. a;
  exp_overflows = λ a. false;
  sum = milli_sum;
}

pub milli-IsOrdered : IsOrdered milli
milli-IsOrdered = record {
  total = λ a b h. ground arith;
  trans = λ a b c h k. ground arith;
  refl_le = λ a. ground arith;
}
