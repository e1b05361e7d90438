-- ===== src/Shamir/Factors.antt =====
-- packages/cli/src/venya_cli/shamir.py, _gf256_mul: each factor acts linearly on the other,
-- hence the product is commutative, associative and distributive.
use Prim.Native.Nat.{bit_xor}
use mathlib.Core.Path.{◌≡⟨◌⟩◌, ◌∎}
use venya.Prelude.{ℕ, zero, suc, ◌/◌, ◌<◌, ◌≡◌, refl, sym, Bool, true, false, arith}
use venya.Shamir.{doubled, mul_rounds, gf256_mul}
use venya.Shamir.Products.{
  by_table, passes, xor_interchange, doubled-xor, doubled-byte, odd, chosen, rounds_step,
  chosen-byte, rounds-byte,
}

-- The maps of bytes that respect sums and doubling.
record Linear (f : ℕ → ℕ) : Type 0 where
  at_zero : f 0 ≡ 0
  byte : (a : ℕ) → a < 256 → f a < 256
  sum : (a b : ℕ) → a < 256 → b < 256 → f (bit_xor a b) ≡ bit_xor (f a) (f b)
  twice : (a : ℕ) → a < 256 → f (doubled a) ≡ doubled (f a)

Linear-chosen : (f : ℕ → ℕ) → Linear f → (c : Bool) (a : ℕ) → f (chosen c a) ≡ chosen c (f a)
unfolding chosen
Linear-chosen f l true a = refl
Linear-chosen f l false a = l.at_zero

Linear-rounds :
    (f : ℕ → ℕ) → Linear f → (n a b : ℕ) → a < 256 → f (mul_rounds n 0 a b) ≡ mul_rounds n 0 (f a) b
unfolding mul_rounds
Linear-rounds f l zero a b lt = l.at_zero
Linear-rounds f l (suc n) a b lt =
    let d = doubled-byte a lt in
    rw
      (
        rounds_step n a b,
        rounds_step n (f a) b,
        l.sum (chosen (odd b) a) (mul_rounds n 0 (doubled a) (b / 2)) (chosen-byte (odd b) a lt)
            (rounds-byte n (doubled a) (b / 2) d),
        Linear-rounds f l n (doubled a) (b / 2) d,
        l.twice a lt,
        Linear-chosen f l (odd b) a,
      )
      refl

Linear-doubled : Linear doubled
unfolding doubled
Linear-doubled = record {
  at_zero = refl;
  byte = doubled-byte;
  sum = doubled-xor;
  twice = λ a lt. refl;
}

rounds-doubled : (n a b : ℕ) → a < 256 → mul_rounds n 0 (doubled a) b ≡ doubled (mul_rounds n 0 a b)
rounds-doubled n a b lt = sym (Linear-rounds doubled Linear-doubled n a b lt)

chosen-xor : (c : Bool) (a b : ℕ) → chosen c (bit_xor a b) ≡ bit_xor (chosen c a) (chosen c b)
unfolding chosen
chosen-xor true a b = refl
chosen-xor false a b = refl

rounds-xor :
    (n a b c : ℕ)
    → a < 256
    → b < 256
    → mul_rounds n 0 (bit_xor a b) c ≡ bit_xor (mul_rounds n 0 a c) (mul_rounds n 0 b c)
unfolding mul_rounds
rounds-xor zero a b c l m = refl
rounds-xor (suc n) a b c l m =
    rw
      (
        rounds_step n (bit_xor a b) c,
        rounds_step n a c,
        rounds_step n b c,
        doubled-xor a b l m,
        rounds-xor n (doubled a) (doubled b) (c / 2) (doubled-byte a l) (doubled-byte b m),
        chosen-xor (odd c) a b,
      )
      (xor_interchange _ _ _ _)

chosen-nil : (c : Bool) → chosen c 0 ≡ 0
unfolding chosen
chosen-nil true = refl
chosen-nil false = refl

rounds-nil : (n c : ℕ) → mul_rounds n 0 0 c ≡ 0
unfolding mul_rounds doubled
rounds-nil zero c = refl
rounds-nil (suc n) c = rw (rounds_step n 0 c, chosen-nil (odd c), rounds-nil n (c / 2)) refl

-- The product, by each of its factors.
pub mul-byte : (a b : ℕ) → a < 256 → gf256_mul a b < 256
unfolding gf256_mul
mul-byte a b lt = rounds-byte 8 a b lt

Linear-mul : (c : ℕ) → Linear (λ a. gf256_mul a c)
unfolding gf256_mul
Linear-mul c = record {
  at_zero = rounds-nil 8 c;
  byte = λ a lt. rounds-byte 8 a c lt;
  sum = λ a b l m. rounds-xor 8 a b c l m;
  twice = λ a lt. rounds-doubled 8 a c lt;
}

mul_exchange : (a b c : ℕ) → a < 256 → gf256_mul (gf256_mul a b) c ≡ gf256_mul (gf256_mul a c) b
unfolding gf256_mul
mul_exchange a b c lt = Linear-rounds (λ d. gf256_mul d c) (Linear-mul c) 8 a b lt

pub one-mul : (a : ℕ) → a < 256 → gf256_mul 1 a ≡ a
unfolding gf256_mul mul_rounds doubled passes
one-mul a lt = by_table (gf256_mul 1) (λ b. b) refl a lt

pub mul_comm : (a b : ℕ) → a < 256 → b < 256 → gf256_mul a b ≡ gf256_mul b a
mul_comm a b l m =
    gf256_mul a b
    ≡⟨ (rw (one-mul a l) refl) ⟩ gf256_mul (gf256_mul 1 a) b
    ≡⟨ mul_exchange 1 a b (omega arith) ⟩ gf256_mul (gf256_mul 1 b) a
    ≡⟨ (rw (one-mul b m) refl) ⟩ gf256_mul b a ∎

pub mul_assoc :
    (a b c : ℕ)
    → a < 256
    → b < 256
    → c < 256
    → gf256_mul (gf256_mul a b) c ≡ gf256_mul a (gf256_mul b c)
mul_assoc a b c l m n =
    gf256_mul (gf256_mul a b) c
    ≡⟨ (rw (mul_comm a b l m) refl) ⟩ gf256_mul (gf256_mul b a) c
    ≡⟨ mul_exchange b a c m ⟩ gf256_mul (gf256_mul b c) a
    ≡⟨ mul_comm (gf256_mul b c) a (mul-byte b c m) l ⟩ gf256_mul a (gf256_mul b c) ∎

pub xor-mul :
    (a b c : ℕ)
    → a < 256
    → b < 256
    → gf256_mul (bit_xor a b) c ≡ bit_xor (gf256_mul a c) (gf256_mul b c)
xor-mul a b c l m = (Linear-mul c).sum a b l m
