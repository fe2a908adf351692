-- ===== src/Double.antt =====
-- The type `double`, which the program computes statistics in: its operations are an interface, and
-- no theorem takes it for the exact reals. What the theorems on order need is the IEEE 754
-- comparison of numbers, as opposed to NaN.
use ti_features.Prelude.{ℕ, ◌+◌, ◌-◌, ◌*◌, ◌/◌, ◌≡◌, Bool, true, false, ltb, leb, ◌==◌}
use ti_features.CircularBuffer.{Zeroed}

pub record Double (D : Type 0) : Type 0 where
  pub of_ℕ : ℕ → D
  pub negate : D → D
  pub add : D → D → D
  pub sub : D → D → D
  pub mul : D → D → D
  pub div : D → D → D
  pub sqrt : D → D
  pub log2 : D → D
  pub abs : D → D
  pub log : D → D
  pub pow : D → D → D
  -- The cast to an unsigned integer.
  pub to_ℕ : D → ℕ
  pub lt : D → D → Bool
  pub le : D → D → Bool
  pub eq : D → D → Bool

-- Memory of zero bytes holds the number 0.
instance abbrev pub zeroed_double : {D : Type 0} ⦃d : Double D⦄ → Zeroed D
zeroed_double ⦃d⦄ = record { zeroed = d.of_ℕ 0 }

-- Comparison is a total order on numbers, and an unsigned integer converts to a number.
pub record IsOrdered (D : Type 0) ⦃d : Double D⦄ : Type 1 where
  pub IsNumber : D → Type 0
  pub of_ℕ-IsNumber : (n : ℕ) → IsNumber (d.of_ℕ n)
  pub negate-IsNumber : (x : D) → IsNumber x → IsNumber (d.negate x)
  pub lt_irrefl : (x : D) → d.lt x x ≡ false
  pub lt_asymm : (x y : D) → d.lt x y ≡ true → d.lt y x ≡ false
  pub ge_trans :
      (x y z : D)
      → IsNumber x
      → IsNumber y
      → IsNumber z
      → d.lt x y ≡ false
      → d.lt y z ≡ false
      → d.lt x z ≡ false

-- The unsigned integers stand in for `double` where a test computes.
instance abbrev pub count_double : Double ℕ
count_double = record {
  of_ℕ = λ n. n;
  negate = λ n. 0;
  add = λ a b. a + b;
  sub = λ a b. a - b;
  mul = λ a b. a * b;
  div = λ a b. a / b;
  sqrt = λ a. a;
  log2 = λ a. a;
  abs = λ a. a;
  log = λ a. a;
  pow = λ a b. a;
  to_ℕ = λ a. a;
  lt = ltb;
  le = leb;
  eq = ◌==◌;
}
