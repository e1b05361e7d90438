-- ===== src/Shamir/Lagrange.antt =====
-- packages/cli/src/venya_cli/shamir.py, _lagrange_interpolate and the evaluation in split: what
-- they compute is the field's sum and the field's polynomial.
use mathlib.Core.List.{reverse, reverse-cons, append_assoc}
use venya.Prelude.{
  Distinct, Apart, ℕ, suc, ◌+◌, ◌≤◌, ◌<◌, ◌≡◌, refl, sym, ap, subst, ◌∙◌, ◌≢◌, inl, inr, Bool, true,
  false, List, [], ◌∷◌, ◌++◌, map, arith, ◌=?◌, Bool-cases, length, length-append, All,
}
use venya.Shamir.{
  Result, ok, ◌>>=◌, gf256_add, gf256_mul, gf256_inv, quotient_at, interpolate_from,
  lagrange_interpolate, horner, evaluate,
}
use venya.Shamir.Field.{◌⊕◌, ◌⊗◌, mul-one, add-zero}
use venya.Shamir.Weights.{lagrange, weight, skip, skip-same, skip-other, skip-nonzero}
use venya.Shamir.Interpolation.{value, lagrange-value}
use venya.Shamir.Fitting.{value-at_zero}
use venya.Shamir.Bytes.{
  Byte, byte_eq, byte_field, inverse-byte, one-number, zero-number, add_byte, mul_byte,
}

-- The numbers of bytes.
abbrev pub numbers : List Byte → List ℕ
numbers bs = map (λ b. b.0) bs

horner-append : (x y : ℕ) (cs ds : List ℕ) → horner x y (cs ++ ds) ≡ horner x (horner x y cs) ds
unfolding horner
horner-append x y [] ds = refl
horner-append x y (c ∷ cs) ds = horner-append x (gf256_add (gf256_mul y x) c) cs ds

-- Horner's loop from the highest coefficient is the value of the polynomial.
pub evaluate-value : (cs : List Byte) (x : Byte) → evaluate (numbers cs) x.0 ≡ (value cs x).0
unfolding evaluate horner value byte_field add_byte mul_byte
evaluate-value [] x = refl
evaluate-value (c ∷ cs) x =
    ap (horner x.0 0) (reverse-cons c.0 (numbers cs))
    ∙ horner-append x.0 0 (reverse (numbers cs)) (c.0 ∷ [])
    ∙ ap (λ t. gf256_add (gf256_mul t x.0) c.0) (evaluate-value cs x)

quotient_self :
    (x i a b y : ℕ) (ps : List (ℕ × ℕ)) (q : ℕ × ℕ)
    → quotient_at x i a i ((b, y) ∷ ps) q ≡ quotient_at x i a (suc i) ps q
unfolding quotient_at
quotient_self x i a b y ps q = ground arith

quotient-other :
    (x i a j b y : ℕ) (ps : List (ℕ × ℕ)) (q : ℕ × ℕ)
    → i ≢ j
    → quotient_at x i a j ((b, y) ∷ ps) q
      ≡ quotient_at x i a (suc j) ps (gf256_mul q.0 (gf256_add x b), gf256_mul q.1 (gf256_add a b))
unfolding quotient_at
quotient-other x i a j b y ps q ne = ground arith

mul-number : (a b : Byte) → (a ⊗ b).0 ≡ gf256_mul a.0 b.0
unfolding byte_field mul_byte
mul-number a b = refl

add-number : (a b : Byte) → (a ⊕ b).0 ≡ gf256_add a.0 b.0
unfolding byte_field add_byte
add-number a b = refl

All-middle :
    (P : Byte → Type 0) (before : List Byte) (a : Byte) (after : List Byte)
    → All P (before ++ a ∷ after)
    → P a
All-middle P [] a after h = h.0
All-middle P (b ∷ before) a after h = All-middle P before a after h.1

elim-false :
    (c : Bool) (u : Result ℕ) {v : Result ℕ} → c ≡ false → elim c [ true ↦ u | false ↦ v ] ≡ v
elim-false false u e = refl
elim-false true u e = absurd (ground (arith, e))

-- One round of the outer loop for a share at another point than x.
outer_step :
    (shares : List (ℕ × ℕ)) (x i r a y : ℕ) (ps : List (ℕ × ℕ)) (n d v : ℕ)
    → a ≢ x
    → quotient_at x i a 0 shares (1, 1) ≡ (n, d)
    → gf256_inv d ≡ ok v
    → interpolate_from shares x i r ((a, y) ∷ ps)
      ≡ interpolate_from shares x (suc i) (gf256_add r (gf256_mul y (gf256_mul n v))) ps
unfolding interpolate_from
outer_step shares x i r a y ps n d v ne q inv =
    let next = λ (num w : ℕ).
      interpolate_from shares x (suc i) (gf256_add r (gf256_mul y (gf256_mul num w))) ps in
    elim-false (a =? x) (ok y)
      (elim (Bool-cases (a =? x)) [ inl e ↦ absurd (ne (ground (arith, e))) | inr e ↦ e ])
    ∙ ap (λ (t : ℕ × ℕ). gf256_inv t.1 >>= next t.0) q
    ∙ ap (λ t. t >>= next n) inv

module _ (f : Byte → Byte) where
  -- The points of a function.
  abbrev pub points : List Byte → List (ℕ × ℕ)
  points xs = map (λ a. (a.0, (f a).0)) xs

  -- What the inner loop has to give, from the products so far.
  Multiplies : (x a : Byte) (i j : ℕ) → List Byte → Type 0
  Multiplies x a i j xs =
      (n d : Byte)
      → quotient_at x.0 i a.0 j (points xs) (n.0, d.0)
        ≡ ((n ⊗ skip (byte_field.add x) a xs).0, (d ⊗ skip (byte_field.add a) a xs).0)

  factor-in :
      (g : Byte → Byte) (a b n : Byte) (xs : List Byte)
      → a ≢ b
      → (n ⊗ g b) ⊗ skip g a xs ≡ n ⊗ skip g a (b ∷ xs)
  factor-in g a b n xs ne =
      byte_field.mul_assoc n (g b) (skip g a xs)
      ∙ ap (byte_field.mul n) (sym (skip-other g a b xs ne))

  product-number : (n x b : Byte) → gf256_mul n.0 (gf256_add x.0 b.0) ≡ (n ⊗ (x ⊕ b)).0
  product-number n x b = ap (gf256_mul n.0) (sym (add-number x b)) ∙ sym (mul-number n (x ⊕ b))

  Multiplies-other :
      (x a b : Byte) (i j : ℕ) (xs : List Byte)
      → i ≢ j
      → a ≢ b
      → Multiplies x a i (suc j) xs
      → Multiplies x a i j (b ∷ xs)
  unfolding Multiplies
  Multiplies-other x a b i j xs other ne ih n d =
      quotient-other x.0 i a.0 j b.0 (f b).0 (points xs) (n.0, d.0) other
      ∙ ap (quotient_at x.0 i a.0 (suc j) (points xs))
          (λ k. (product-number n x b k, product-number d a b k))
      ∙ ih (n ⊗ (x ⊕ b)) (d ⊗ (a ⊕ b))
      ∙ λ k. (
        (factor-in (byte_field.add x) a b n xs ne k).0,
        (factor-in (byte_field.add a) a b d xs ne k).0,
      )

  Multiplies-past :
      (x a : Byte) (i j : ℕ) (xs : List Byte) → i < j → Apart a xs → Multiplies x a i j xs
  unfolding Multiplies quotient_at skip
  Multiplies-past x a i j [] lt h n d = λ k. ((sym (mul-one n) k).0, (sym (mul-one d) k).0)
  Multiplies-past x a i j (b ∷ xs) lt (ne, h) n d =
      Multiplies-other x a b i j xs (λ e. absurd (omega (arith, e))) ne
        (Multiplies-past x a i (suc j) xs (omega arith) h) n d

  Multiplies-own :
      (x a : Byte) (j : ℕ) (after : List Byte) → Apart a after → Multiplies x a j j (a ∷ after)
  unfolding Multiplies
  Multiplies-own x a j after h n d =
      quotient_self x.0 j a.0 a.0 (f a).0 (points after) (n.0, d.0)
      ∙ Multiplies-past x a j (suc j) after (omega arith) h n d
      ∙ λ k. (
        (n ⊗ sym (skip-same (byte_field.add x) a after) k).0,
        (d ⊗ sym (skip-same (byte_field.add a) a after) k).0,
      )

  -- The share's own place is left out.
  Multiplies-all :
      (x a : Byte) (i j : ℕ) (before after : List Byte)
      → i ≡ j + length before
      → Distinct (before ++ a ∷ after)
      → Multiplies x a i j (before ++ a ∷ after)
  unfolding Multiplies
  Multiplies-all x a i j [] after e (h, rest) =
      subst (λ t. Multiplies x a t j (a ∷ after)) (omega (arith, e)) (Multiplies-own x a j after h)
  Multiplies-all x a i j (b ∷ before) after e (h, rest) =
      Multiplies-other x a b i j (before ++ a ∷ after) (λ e'. absurd (omega (arith, e, e')))
        (λ e'. All-middle (λ c. b ≢ c) before a after h (sym e'))
        (Multiplies-all x a i (suc j) before after (omega (arith, e)) rest)

  term-number :
      (r y n v : Byte) → gf256_add r.0 (gf256_mul y.0 (gf256_mul n.0 v.0)) ≡ (r ⊕ y ⊗ (n ⊗ v)).0
  term-number r y n v = sym (
      add-number r (y ⊗ (n ⊗ v))
      ∙ ap (gf256_add r.0) (mul-number y (n ⊗ v) ∙ ap (gf256_mul y.0) (mul-number n v)))

  first_quotient :
      (x a : Byte) (i : ℕ) (xs : List Byte)
      → Multiplies x a i 0 xs
      → quotient_at x.0 i a.0 0 (points xs) (1, 1)
        ≡ ((skip (byte_field.add x) a xs).0, (skip (byte_field.add a) a xs).0)
  unfolding Multiplies
  first_quotient x a i xs h =
      ap (quotient_at x.0 i a.0 0 (points xs)) (λ k. (sym one-number k, sym one-number k))
      ∙ h byte_field.one byte_field.one
      ∙ λ k. (
        (byte_field.one-mul (skip (byte_field.add x) a xs) k).0,
        (byte_field.one-mul (skip (byte_field.add a) a xs) k).0,
      )

  -- The outer loop, from the share after `before` on, adds the terms of Lagrange's sum.
  terms-added :
      (x r : Byte) (i : ℕ) (all before after : List Byte)
      → i ≡ length before
      → before ++ after ≡ all
      → Distinct all
      → Apart x after
      → interpolate_from (points all) x.0 i r.0 (points after) ≡ ok (r ⊕ lagrange f x after all).0
  unfolding interpolate_from lagrange weight
  terms-added x r i all before [] e split h apart = λ k. ok (sym (add-zero r) k).0
  terms-added x r i all before (a ∷ after) e split h (ne, apart) =
      let num = skip (byte_field.add x) a all in
      let den = skip (byte_field.add a) a all in
      let term = f a ⊗ (num ⊗ byte_field.inv den) in
      outer_step (points all) x.0 i r.0 a.0 (f a).0 (points after) num.0 den.0
        (byte_field.inv den).0 (λ e'. ne (byte_eq x a (sym e')))
        (first_quotient x a i all (
          subst (Multiplies x a i 0) split (
            Multiplies-all x a i 0 before after (omega (arith, e)) (subst Distinct (sym split) h))))
        (inverse-byte den (skip-nonzero a all))
      ∙ ap (λ t. interpolate_from (points all) x.0 (suc i) t (points after))
          (term-number r (f a) num (byte_field.inv den))
      ∙ terms-added x (r ⊕ term) (suc i) all (before ++ a ∷ []) after
          (omega (arith, e, length-append before (a ∷ [])))
          (append_assoc before (a ∷ []) after ∙ split) h apart
      ∙ λ k. ok (byte_field.add_assoc r term (lagrange f x after all) k).0

  -- At another point than the shares', the source's loops compute Lagrange's sum.
  pub interpolate-lagrange :
      (x : Byte) (xs : List Byte)
      → Distinct xs
      → Apart x xs
      → lagrange_interpolate (points xs) x.0 ≡ ok (lagrange f x xs xs).0
  unfolding lagrange_interpolate
  interpolate-lagrange x xs h apart =
      ap (λ t. interpolate_from (points xs) x.0 0 t (points xs)) (sym zero-number)
      ∙ terms-added x byte_field.zero 0 xs [] xs refl refl h apart
      ∙ λ k. ok (byte_field.zero-add (lagrange f x xs xs) k).0

-- Interpolation at 0 of as many points of a polynomial as it has coefficients: its constant term.
pub interpolate-constant :
    (c : Byte) (cs xs : List Byte)
    → length (c ∷ cs) ≤ length xs
    → Distinct xs
    → Apart byte_field.zero xs
    → lagrange_interpolate (points (value (c ∷ cs)) xs) 0 ≡ ok c.0
interpolate-constant c cs xs le h apart =
    ap (lagrange_interpolate (points (value (c ∷ cs)) xs)) (sym zero-number)
    ∙ interpolate-lagrange (value (c ∷ cs)) byte_field.zero xs h apart
    ∙ λ k. ok ((lagrange-value (c ∷ cs) byte_field.zero xs le h ∙ value-at_zero c cs) k).0
