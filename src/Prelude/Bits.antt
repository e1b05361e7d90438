-- ===== src/Prelude/Bits.antt =====
-- The exclusive or of numbers, digit by digit.
use Prim.Native.Nat.{
  bit_xor, digits, differ, bit_xor-bitwise, ◌%◌, ◌^◌, ℕ, zero, suc, ◌+◌, ◌*◌, ◌/◌, ◌<◌, ◌≤◌,
}
use mathlib.Core.Path.{◌≡◌, refl, ap}
use native.Mathlib.Omega.{arith}
use native.Mathlib.Nat.{pow-suc}

abbrev fuelled : ℕ → ℕ → ℕ → ℕ
fuelled n a b = digits (λ rest. rest) differ n a b

-- Fuel beyond the first number makes no difference.
spare_fuel : (a b more least : ℕ) → a ≤ least → a ≤ more → fuelled more a b ≡ fuelled least a b
spare_fuel (suc a) b (suc more) (suc least) le le' =
    omega (arith, spare_fuel (suc a / 2) (b / 2) more least (omega arith) (omega arith))
spare_fuel (suc a) b zero least le le' = absurd (omega arith)
spare_fuel (suc a) b (suc more) zero le le' = absurd (omega arith)
spare_fuel zero b zero zero le le' = refl
spare_fuel zero b zero (suc least) le le' = refl
spare_fuel zero b (suc more) zero le le' = refl
spare_fuel zero b (suc more) (suc least) le le' = refl

differ-parities : (a b : ℕ) → differ (a % 2) (b % 2) ≡ (a + b) % 2
differ-parities a b = ground (arith, bits (a % 2) (b % 2) (omega arith) (omega arith))
  where
    bits : (p q : ℕ) → p < 2 → q < 2 → differ p q ≡ (p + q) % 2
    bits zero q l m = omega arith
    bits (suc zero) zero l m = refl
    bits (suc zero) (suc zero) l m = refl
    bits p (suc (suc q)) l m = absurd (omega arith)
    bits (suc (suc p)) q l m = absurd (omega arith)

pub zero-xor : (b : ℕ) → bit_xor 0 b ≡ b
zero-xor b = bit_xor-bitwise 0 b

-- The lowest digit and the others.
pub xor_step : (a b : ℕ) → bit_xor a b ≡ 2 * bit_xor (a / 2) (b / 2) + (a + b) % 2
xor_step zero b = omega (arith, zero-xor b, zero-xor (b / 2))
xor_step (suc a) b = omega (
  arith,
  differ-parities (suc a) b,
  bit_xor-bitwise (suc a) b,
  bit_xor-bitwise (suc a / 2) (b / 2),
  spare_fuel (suc a / 2) (b / 2) a (suc a / 2) (omega arith) (omega arith),
)

pub xor-half : (a b : ℕ) → bit_xor a b / 2 ≡ bit_xor (a / 2) (b / 2)
xor-half a b = omega (arith, xor_step a b)

pub xor-parity : (a b : ℕ) → bit_xor a b % 2 ≡ (a + b) % 2
xor-parity a b = omega (arith, xor_step a b)

comm_upto : (n a b : ℕ) → a + b ≤ n → bit_xor a b ≡ bit_xor b a
comm_upto zero zero zero le = refl
comm_upto zero (suc a) b le = absurd (omega arith)
comm_upto zero zero (suc b) le = absurd (omega arith)
comm_upto (suc n) a b le =
    omega (arith, xor_step a b, xor_step b a, comm_upto n (a / 2) (b / 2) (omega arith))

pub xor_comm : (a b : ℕ) → bit_xor a b ≡ bit_xor b a
xor_comm a b = comm_upto (a + b) a b (omega arith)

assoc_upto : (n a b c : ℕ) → a + b + c ≤ n → bit_xor (bit_xor a b) c ≡ bit_xor a (bit_xor b c)
assoc_upto zero zero zero zero le = refl
assoc_upto zero (suc a) b c le = absurd (omega arith)
assoc_upto zero zero (suc b) c le = absurd (omega arith)
assoc_upto zero zero zero (suc c) le = absurd (omega arith)
assoc_upto (suc n) a b c le = omega (
  arith,
  xor_step (bit_xor a b) c,
  xor_step a (bit_xor b c),
  xor-parity a b,
  xor-parity b c,
  ap (λ h. bit_xor h (c / 2)) (xor-half a b),
  ap (λ h. bit_xor (a / 2) h) (xor-half b c),
  assoc_upto n (a / 2) (b / 2) (c / 2) (omega arith),
)

pub xor_assoc : (a b c : ℕ) → bit_xor (bit_xor a b) c ≡ bit_xor a (bit_xor b c)
xor_assoc a b c = assoc_upto (a + b + c) a b c (omega arith)

self_upto : (n a : ℕ) → a ≤ n → bit_xor a a ≡ 0
self_upto zero zero le = refl
self_upto zero (suc a) le = absurd (omega arith)
self_upto (suc n) a le = omega (arith, xor_step a a, self_upto n (a / 2) (omega arith))

pub xor_self : (a : ℕ) → bit_xor a a ≡ 0
xor_self a = self_upto a a (omega arith)

-- Twice an exclusive or.
pub xor-double : (a b : ℕ) → bit_xor (a * 2) (b * 2) ≡ bit_xor a b * 2
xor-double a b = rw (xor_step (a * 2) (b * 2), halved a, halved b) (omega arith)
  where
    halved : (n : ℕ) → n * 2 / 2 ≡ n
    halved n = omega arith

-- The operands' digits bound the result's.
pub xor_bound : (k a b : ℕ) → a < 2 ^ k → b < 2 ^ k → bit_xor a b < 2 ^ k
xor_bound zero zero zero l m = omega arith
xor_bound zero (suc a) b l m = absurd (omega arith)
xor_bound zero zero (suc b) l m = absurd (omega arith)
xor_bound (suc k) a b l m = omega (
  arith,
  pow-suc 2 k,
  xor_step a b,
  xor_bound k (a / 2) (b / 2) (omega (arith, pow-suc 2 k)) (omega (arith, pow-suc 2 k)),
)
