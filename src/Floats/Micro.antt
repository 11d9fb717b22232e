-- ===== src/Floats/Micro.antt =====
-- A concrete `Double` for runs: whole millionths, with `none` for NaN. Arithmetic is exact on sums,
-- and `hypot` is the sum of the two distances, which is the distance along an axis.
use Prim.Native.Nat.{◌+◌, ◌-◌, ◌*◌, ◌/◌, ◌%◌, ◌^◌}
use autonomous_rc_taxi.Prelude.{
  ℕ, suc, Bool, true, false, not, ◌&&◌, Option, none, some, arith, leb, if◌then◌else◌,
}
use autonomous_rc_taxi.Floats.{Double}
use autonomous_rc_taxi.Floats.Laws.{IsOrdered, IsAdditive}

-- `negsuc n` is -(n + 1).
pub data ℤ : Type 0 where
  pos : ℕ → ℤ
  negsuc : ℕ → ℤ

abbrev pub sub_ℕ : ℕ → ℕ → ℤ
sub_ℕ a b = if leb b a then pos (a - b) else negsuc (b - a - 1)

abbrev add_ℤ : ℤ → ℤ → ℤ
add_ℤ (pos a) (pos b) = pos (a + b)
add_ℤ (pos a) (negsuc b) = sub_ℕ a (suc b)
add_ℤ (negsuc a) (pos b) = sub_ℕ b (suc a)
add_ℤ (negsuc a) (negsuc b) = negsuc (a + b + 1)

abbrev neg_ℤ : ℤ → ℤ
neg_ℤ (pos n) = sub_ℕ 0 n
neg_ℤ (negsuc n) = pos (suc n)

abbrev size : ℤ → ℕ
size (pos n) = n
size (negsuc n) = suc n

abbrev signed : Bool → ℕ → ℤ
signed true n = neg_ℤ (pos n)
signed false n = pos n

abbrev is_neg : ℤ → Bool
is_neg (pos n) = false
is_neg (negsuc n) = true

abbrev le_ℤ : ℤ → ℤ → Bool
le_ℤ (pos a) (pos b) = leb a b
le_ℤ (pos a) (negsuc b) = false
le_ℤ (negsuc a) (pos b) = true
le_ℤ (negsuc a) (negsuc b) = leb b a

abbrev xor : Bool → Bool → Bool
xor true b = not b
xor false b = b

abbrev pub Micro : Type 0
Micro = Option ℤ

abbrev lift₂ : (ℤ → ℤ → ℤ) → Micro → Micro → Micro
lift₂ f (some a) (some b) = some (f a b)
lift₂ f _ _ = none

abbrev test : (ℤ → ℤ → Bool) → Micro → Micro → Bool
test f (some a) (some b) = f a b
test f _ _ = false

abbrev lift₁ : (ℤ → ℤ) → Micro → Micro
lift₁ f (some a) = some (f a)
lift₁ f none = none

-- Python's `%` has the sign of the divisor; the code only uses positive ones.
abbrev mod_ℤ : ℤ → ℕ → ℤ
mod_ℤ (pos a) m = pos (a % m)
mod_ℤ (negsuc a) m = pos (m - 1 - a % m)

instance abbrev pub micro_double : Double Micro
micro_double = record {
  lit = λ m k. some (pos (m * 10 ^ (6 - k)));
  infinity = some (pos (10 ^ 30));
  add = lift₂ add_ℤ;
  sub = lift₂ (λ a b. add_ℤ a (neg_ℤ b));
  mul = lift₂ (λ a b. signed (xor (is_neg a) (is_neg b)) (size a * size b / 10 ^ 6));
  div = lift₂ (λ a b. signed (xor (is_neg a) (is_neg b)) (size a * 10 ^ 6 / size b));
  mod_by = lift₂ (λ a b. mod_ℤ a (size b));
  neg = lift₁ neg_ℤ;
  abs = lift₁ (λ a. pos (size a));
  le = test le_ℤ;
  lt = test (λ a b. not (le_ℤ b a));
  eq = test (λ a b. le_ℤ a b && le_ℤ b a);
  is_finite = λ a. elim a [ none ↦ false | some _ ↦ true ];
  of_nat = λ n. some (pos (n * 10 ^ 6));
  ceil = λ a. elim a [ none ↦ 0 | some x ↦ (size x + (10 ^ 6 - 1)) / 10 ^ 6 ];
  hypot = lift₂ (λ a b. pos (size a + size b));
  atan2 = λ y x. some (pos 0);
  atan = λ x. x;
  sin = λ x. x;
  cos = λ x. x;
  tan = λ x. x;
  degrees = λ x. x;
  radians = λ x. x;
}

pub Micro-IsOrdered : IsOrdered Micro
Micro-IsOrdered = ground arith

pub Micro-IsAdditive : IsAdditive Micro
Micro-IsAdditive = ground arith
