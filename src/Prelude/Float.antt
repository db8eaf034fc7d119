-- ===== src/Prelude/Float.antt =====
-- Python's `float`, a double that is not NaN, as an interface: the type, the operations the program
-- applies, and the facts of IEEE 754 arithmetic that it relies on. `ratio n d` is `n / d` of two
-- integers, `div_int x n` is `x / n`, for an n
-- that `int_fits`: a larger one raises OverflowError, and `sum_float` is the built-in `sum`.
use native.Mathlib.Nat.{
  le-div_iff_mul-le, div-mul-le_self, mul-div_cancel_left, zero-div, le_trans, ℕ_set,
}
use ragbench_kr_implementati.Prelude.{
  ℕ, suc, ◌≡◌, ◌≤◌, ◌*◌, ◌+◌, ◌/◌, ◌^◌, Bool, true, List, [], ◌∷◌, arith, leb, le→leb, le→leb,
}
use ragbench_kr_implementati.Prelude.Int.{ℤ, pos_part}
use ragbench_kr_implementati.Prelude.Sorting.{Preorder, ascending_nat}

pub record Float : Type 1 where
  pub F : Type 0
  pub float_set : IsSet F
  pub zero_float : F
  pub one_float : F
  pub add : F → F → F
  pub ratio : ℕ → ℕ → F
  pub div_int : F → ℤ → F
  pub int_fits : ℤ → Bool
  pub sum_float : List F → F
  pub is_finite : F → Bool
  pub order : Preorder F
  -- Division is correctly rounded, and rounding is monotone and exact on 0 and 1.
  pub ratio_zero : (d : ℕ) → ratio 0 (suc d) ≡ zero_float
  pub ratio_self : (d : ℕ) → ratio (suc d) (suc d) ≡ one_float
  pub ratio_mono_left : (m n d : ℕ) → m ≤ n → order.le (ratio m (suc d)) (ratio n (suc d)) ≡ true
  pub ratio_mono_right : (n d e : ℕ) → d ≤ e → order.le (ratio n (suc e)) (ratio n (suc d)) ≡ true

-- Fixed-point numbers with six decimals meet the interface: a model to run examples in.
abbrev pub unit : ℕ
unit = 1000000

abbrev pub sum_nat : List ℕ → ℕ
sum_nat [] = 0
sum_nat (n ∷ ns) = n + sum_nat ns

pub fixed_mono_left : (m n d : ℕ) → m ≤ n → leb (m * unit / suc d) (n * unit / suc d) ≡ true
fixed_mono_left m n d h = le→leb _ _ (
    (le-div_iff_mul-le {k = suc d} (omega arith)).1
      (omega (arith, div-mul-le_self (m * unit) (suc d))))

pub fixed_mono_right : (n d e : ℕ) → d ≤ e → leb (n * unit / suc e) (n * unit / suc d) ≡ true
fixed_mono_right n d e h =
    let q = n * unit / suc e in
    let less : q * suc d ≤ q * suc e = grind arith in
    le→leb _ _ (
      (le-div_iff_mul-le {k = suc d} (omega arith)).1
        (le_trans less (div-mul-le_self (n * unit) (suc e))))

pub fixed_self : (d : ℕ) → suc d * unit / suc d ≡ unit
fixed_self d = mul-div_cancel_left unit (omega arith)

pub fixed_zero : (d : ℕ) → 0 * unit / suc d ≡ 0
fixed_zero d = zero-div (suc d)

-- Amounts below 0 do not arise in the examples: a negative divisor is read as 0.
abbrev pub fixed_point : Float
fixed_point = record {
  F = ℕ;
  float_set = ℕ_set;
  zero_float = 0;
  one_float = unit;
  add = λ a b. a + b;
  ratio = λ n d. n * unit / d;
  div_int = λ a n. a / pos_part n;
  int_fits = λ n. leb (pos_part n) (2 ^ 1023);
  sum_float = sum_nat;
  is_finite = λ _. true;
  order = ascending_nat;
  ratio_zero = fixed_zero;
  ratio_self = fixed_self;
  ratio_mono_left = fixed_mono_left;
  ratio_mono_right = fixed_mono_right;
}
