-- ===== src/Shamir/Bytes.antt =====
-- packages/cli/src/venya_cli/shamir.py, _gf256_add, _gf256_mul and _gf256_inv on the numbers
-- below 256: they are the field that the sharing asks for.
use native.Mathlib.Bridge.{le_prop}
use native.Mathlib.Decide.{ℕ_discrete}
use cubical.Cubical.Data.Sigma.Properties.{Σ≡Prop}
use venya.Prelude.{
  ℕ, zero, suc, ◌<◌, ◌≡◌, refl, ap, ◌≢◌, inl, inr, arith, ◌=?◌, if◌then◌else◌, Bool-cases, if-false,
}
use venya.Shamir.{ok, gf256_add, doubled, mul_rounds, gf256_mul, inv_rounds, gf256_inv}
use venya.Prelude.Bits.{xor_comm, xor_assoc, xor_self, zero-xor}
use venya.Shamir.Products.{by_table, passes, xor-byte}
use venya.Shamir.Factors.{mul-byte, one-mul, mul_comm, mul_assoc, xor-mul}
use venya.Shamir.Field.{Field}

abbrev pub Byte : Type 0
Byte = (n : ℕ) × (n < 256)

pub byte_eq : (a b : Byte) → a.0 ≡ b.0 → a ≡ b
byte_eq a b e = Σ≡Prop (λ n. le_prop) {u = a} {v = b} e

pub Byte_discrete : Discrete Byte
unfolding ℕ_discrete
Byte_discrete a b = elim (ℕ_discrete a.0 b.0) [
  | yes e ↦ yes (byte_eq a b e)
  | no n ↦ no (λ e. n (ap (λ c. c.0) e))
]

pub inv_rounds-byte : (n r b : ℕ) → r < 256 → b < 256 → inv_rounds n r b < 256
unfolding inv_rounds
inv_rounds-byte zero r b l m = l
inv_rounds-byte (suc n) r b l m =
    let d = mul-byte b b m in
    inv_rounds-byte n (gf256_mul r (gf256_mul b b)) (gf256_mul b b) (mul-byte r (gf256_mul b b) l) d

-- a ^ 254 is an inverse of each byte but zero.
abbrev inverse_test : ℕ → ℕ
inverse_test a = if a =? 0 then 1 else gf256_mul a (inv_rounds 7 1 a)

inverse_table : (a : ℕ) → a < 256 → inverse_test a ≡ 1
unfolding inv_rounds gf256_mul mul_rounds doubled gf256_add passes
inverse_table = by_table inverse_test (λ a. 1) refl

pub mul-inverse : (a : ℕ) → a < 256 → a ≢ 0 → gf256_mul a (inv_rounds 7 1 a) ≡ 1
mul-inverse a lt ne = ground (arith, inverse_table a lt)

unfoldable pub add_byte : Byte → Byte → Byte
unfolding gf256_add
add_byte a b = (gf256_add a.0 b.0, xor-byte a.0 b.0 a.1 b.1)

unfoldable pub mul_byte : Byte → Byte → Byte
mul_byte a b = (gf256_mul a.0 b.0, mul-byte a.0 b.0 a.1)

unfoldable pub inv_byte : Byte → Byte
inv_byte a = (inv_rounds 7 1 a.0, inv_rounds-byte 7 1 a.0 (omega arith) a.1)

instance unfoldable pub byte_field : Field Byte
unfolding gf256_add add_byte mul_byte inv_byte
byte_field = record {
  zero = (0, omega arith);
  one = (1, omega arith);
  add = add_byte;
  mul = mul_byte;
  inv = inv_byte;
  decide = Byte_discrete;
  add_assoc = λ a b c. byte_eq _ _ (xor_assoc a.0 b.0 c.0);
  add_comm = λ a b. byte_eq _ _ (xor_comm a.0 b.0);
  zero-add = λ a. byte_eq _ _ (zero-xor a.0);
  add_self = λ a. byte_eq _ _ (xor_self a.0);
  mul_assoc = λ a b c. byte_eq _ _ (mul_assoc a.0 b.0 c.0 a.1 b.1 c.1);
  mul_comm = λ a b. byte_eq _ _ (mul_comm a.0 b.0 a.1 b.1);
  one-mul = λ a. byte_eq _ _ (one-mul a.0 a.1);
  add-mul = λ a b c. byte_eq _ _ (xor-mul a.0 b.0 c.0 a.1 b.1);
  mul-inv = λ a ne. byte_eq _ _ (mul-inverse a.0 a.1 (λ e. ne (byte_eq _ _ e)));
  one-zero = λ e. absurd (omega (arith, ap (λ c. c.0) e));
}

pub inverse-byte : (a : Byte) → a ≢ byte_field.zero → gf256_inv a.0 ≡ ok (byte_field.inv a).0
unfolding gf256_inv byte_field inv_byte
inverse-byte a ne = if-false (a.0 =? 0) _ _ (elim (Bool-cases (a.0 =? 0)) [
  | inl e ↦ absurd (ne (byte_eq _ _ (ground (arith, e))))
  | inr e ↦ e
])

pub zero-number : byte_field.zero.0 ≡ 0
unfolding byte_field
zero-number = refl

pub one-number : byte_field.one.0 ≡ 1
unfolding byte_field
one-number = refl
