-- ===== src/Shamir/Products.antt =====
-- packages/cli/src/venya_cli/shamir.py, _gf256_mul: the laws of the product of bytes.
use Prim.Native.Nat.{bit_xor, bit_and}
use venya.Prelude.{
  ℕ, zero, suc, ◌*◌, ◌/◌, ◌<◌, ◌≡◌, refl, sym, ap, ◌∙◌, inl, inr, Bool, true, false, ◌&&◌, not,
  arith, ◌=?◌, if◌then◌else◌, Bool-cases,
}
use venya.Shamir.{gf256_add, doubled, mul_rounds}
use venya.Prelude.Bits.{xor_comm, xor_assoc, xor-half, xor-double, xor_bound, zero-xor}

-- A test on every byte.
unfoldable pub passes : (ℕ → Bool) → ℕ → Bool
passes p zero = true
passes p (suc n) = let rest = passes p n in p n && rest

passes-at : (p : ℕ → Bool) (n x : ℕ) → passes p n ≡ true → x < n → p x ≡ true
unfolding passes
passes-at p zero x all lt = absurd (omega arith)
passes-at p (suc n) x all lt = ground (arith, passes-at p n x)

-- What holds at each byte by evaluation.
pub by_table : (f g : ℕ → ℕ) → passes (λ x. f x =? g x) 256 ≡ true → (x : ℕ) → x < 256 → f x ≡ g x
by_table f g all x lt = ground (arith, passes-at (λ x. f x =? g x) 256 x all lt)

halves : ℕ → ℕ → ℕ
halves zero a = a
halves (suc n) a = halves n (a / 2)

halves-xor : (n a b : ℕ) → halves n (bit_xor a b) ≡ bit_xor (halves n a) (halves n b)
unfolding halves
halves-xor zero a b = refl
halves-xor (suc n) a b = rw (xor-half a b, halves-xor n (a / 2) (b / 2)) refl

-- The modulus comes in when the top bit is set.
doubled_table : (a : ℕ) → a < 256 → doubled a ≡ bit_xor (a * 2) (halves 7 a * 0x11b)
unfolding doubled passes halves
doubled_table = by_table doubled (λ a. bit_xor (a * 2) (halves 7 a * 0x11b)) refl

bits-times : (t u : ℕ) → t < 2 → u < 2 → bit_xor t u * 0x11b ≡ bit_xor (t * 0x11b) (u * 0x11b)
bits-times zero zero l m = refl
bits-times zero (suc zero) l m = refl
bits-times (suc zero) zero l m = refl
bits-times (suc zero) (suc zero) l m = refl
bits-times (suc (suc t)) u l m = absurd (omega arith)
bits-times t (suc (suc u)) l m = absurd (omega arith)

pub xor_interchange :
    (a b c d : ℕ) → bit_xor (bit_xor a b) (bit_xor c d) ≡ bit_xor (bit_xor a c) (bit_xor b d)
xor_interchange a b c d =
    simp xor_assoc (ap (bit_xor a) (sym (xor_assoc b c d) ∙ rw (xor_comm b c) (xor_assoc c b d)))

pub xor-byte : (a b : ℕ) → a < 256 → b < 256 → bit_xor a b < 256
xor-byte a b l m = xor_bound 8 a b l m

top-bit : (a : ℕ) → a < 256 → halves 7 a < 2
unfolding halves
top-bit a lt = omega arith

pub doubled-xor :
    (a b : ℕ) → a < 256 → b < 256 → doubled (bit_xor a b) ≡ bit_xor (doubled a) (doubled b)
doubled-xor a b l m =
    rw
      (
        doubled_table (bit_xor a b) (xor-byte a b l m),
        doubled_table a l,
        doubled_table b m,
        sym (xor-double a b),
        halves-xor 7 a b,
        bits-times (halves 7 a) (halves 7 b) (top-bit a l) (top-bit b m),
      )
      (xor_interchange (a * 2) (b * 2) (halves 7 a * 0x11b) (halves 7 b * 0x11b))

pub doubled-byte : (a : ℕ) → a < 256 → doubled a < 256
unfolding doubled passes
doubled-byte a lt = ground (arith, by_table (λ b. doubled b / 256) (λ b. 0) refl a lt)

-- The rounds are a sum, whatever the result so far.
pub odd : ℕ → Bool
odd b = not (bit_and b 1 =? 0)

unfoldable pub chosen : Bool → ℕ → ℕ
chosen c a = if c then a else 0

rounds-result : (n r a b : ℕ) → mul_rounds n r a b ≡ bit_xor r (mul_rounds n 0 a b)
unfolding mul_rounds gf256_add
rounds-result zero r a b = sym (xor_comm r 0 ∙ zero-xor r)
rounds-result (suc n) r a b = elim (Bool-cases (not (bit_and b 1 =? 0))) [
  | inl e ↦ rw e (
      rounds-result n (bit_xor r a) (doubled a) (b / 2)
      ∙ xor_assoc r a (mul_rounds n 0 (doubled a) (b / 2))
      ∙ ap (bit_xor r) (rw (zero-xor a) (sym (rounds-result n a (doubled a) (b / 2)))))
  | inr e ↦ rw e (rounds-result n r (doubled a) (b / 2))
]

pub rounds_step :
    (n a b : ℕ)
    → mul_rounds (suc n) 0 a b ≡ bit_xor (chosen (odd b) a) (mul_rounds n 0 (doubled a) (b / 2))
unfolding mul_rounds gf256_add chosen odd
rounds_step n a b = elim (Bool-cases (not (bit_and b 1 =? 0))) [
  | inl e ↦ rw e (rounds-result n (bit_xor 0 a) (doubled a) (b / 2) ∙ rw (zero-xor a) refl)
  | inr e ↦ rw e (sym (zero-xor (mul_rounds n 0 (doubled a) (b / 2))))
]

pub chosen-byte : (c : Bool) (a : ℕ) → a < 256 → chosen c a < 256
unfolding chosen
chosen-byte true a lt = lt
chosen-byte false a lt = omega arith

pub rounds-byte : (n a b : ℕ) → a < 256 → mul_rounds n 0 a b < 256
unfolding mul_rounds
rounds-byte zero a b lt = omega arith
rounds-byte (suc n) a b lt = rw (rounds_step n a b) (
    xor-byte _ _ (chosen-byte (odd b) a lt) (rounds-byte n (doubled a) (b / 2) (doubled-byte a lt)))
