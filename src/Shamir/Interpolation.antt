-- ===== src/Shamir/Interpolation.antt =====
-- Lagrange's sum is the value of the polynomial (module docstring of
-- packages/cli/src/venya_cli/shamir.py: K shares reconstruct), over any such field.
use venya.Prelude.{Distinct, ◌≤◌, ◌≡◌, refl, sym, ap, ◌∙◌, List, [], ◌∷◌, arith, length}
use venya.Shamir.Field.{
  Field, ◌⊕◌, ◌⊗◌, add-zero, add_twice, add_interchange, zero-mul, mul-one, mul_cancel, inv-one,
}
use venya.Shamir.Weights.{
  lagrange, weight, skip, skip-same, lagrange_exchange, lagrange-cong, lagrange-add, lagrange-scale,
  lagrange_remove, differ-nonzero,
}

module _ {ℓ} {F : Type ℓ} ⦃s : Field F⦄ where
  -- The value of a polynomial, its lowest coefficient first.
  unfoldable pub value : List F → F → F
  value [] x = s.zero
  value (c ∷ cs) x = value cs x ⊗ x ⊕ c

  weights-single : (x c : F) → lagrange (λ a. s.one) x (c ∷ []) (c ∷ []) ≡ s.one
  unfolding lagrange weight skip
  weights-single x c =
      rw
        (
          skip-same (s.add x) c [],
          skip-same (s.add c) c [],
          inv-one,
          s.one-mul s.one,
          s.one-mul s.one,
        )
        (add-zero s.one)

  -- What two points make of a constant.
  two_points : (a c d : F) → (c ⊕ d) ⊗ s.one ≡ (a ⊕ c) ⊗ s.one ⊕ (a ⊕ d) ⊗ s.one
  two_points a c d =
      rw (mul-one (c ⊕ d), mul-one (a ⊕ c), mul-one (a ⊕ d))
        (sym (add_interchange a c a d ∙ rw (s.add_self a) (s.zero-add (c ⊕ d))))

  -- The weights add up to one.
  weights-sum :
      (x c : F) (xs : List F)
      → Distinct (c ∷ xs)
      → lagrange (λ a. s.one) x (c ∷ xs) (c ∷ xs) ≡ s.one
  weights-sum x c [] h = weights-single x c
  weights-sum x c (d ∷ xs) (apart, rest) =
      let all = c ∷ d ∷ xs in
      mul_cancel (c ⊕ d) _ s.one (differ-nonzero c d apart.0) (
        sym (lagrange-scale (c ⊕ d) (λ a. s.one) x all all)
        ∙ lagrange-cong (λ a. (c ⊕ d) ⊗ s.one) _ x all all (λ a. two_points a c d)
        ∙ lagrange-add (λ a. (a ⊕ c) ⊗ s.one) (λ a. (a ⊕ d) ⊗ s.one) x all all
        ∙ rw
            (
              lagrange_remove (λ a. s.one) x c (d ∷ xs) apart,
              weights-sum x d xs rest,
              lagrange_exchange (λ a. (a ⊕ d) ⊗ s.one) x c d xs,
              lagrange_remove (λ a. s.one) x d (c ∷ xs) ((λ e. apart.0 (sym e)), rest.0),
              weights-sum x c xs (apart.1, rest.1),
            )
            (sym (two_points x c d)))

  lagrange-zero : (x : F) (ps xs : List F) → lagrange (λ a. s.zero) x ps xs ≡ s.zero
  unfolding lagrange
  lagrange-zero x [] xs = refl
  lagrange-zero x (p ∷ ps) xs =
      rw (zero-mul (weight x p xs), lagrange-zero x ps xs) (s.zero-add s.zero)

  -- A coefficient more, with the first point taken out of the argument.
  horner_split : (c q a p : F) → q ⊗ a ⊕ p ≡ (a ⊕ c) ⊗ q ⊕ (c ⊗ q ⊕ p ⊗ s.one)
  horner_split c q a p =
      rw (mul-one p, s.mul_comm q a, s.add-mul a c q)
        (sym (s.add_assoc (a ⊗ q) (c ⊗ q) _ ∙ ap (s.add (a ⊗ q)) (add_twice (c ⊗ q) p)))

  -- As many points as coefficients determine the polynomial.
  pub lagrange-value :
      (cs : List F) (x : F) (xs : List F)
      → length cs ≤ length xs
      → Distinct xs
      → lagrange (value cs) x xs xs ≡ value cs x
  unfolding value
  lagrange-value [] x xs le h = lagrange-zero x xs xs
  lagrange-value (p ∷ cs) x [] le h = absurd (omega arith)
  lagrange-value (p ∷ cs) x (c ∷ xs) le (apart, rest) =
      let all = c ∷ xs in
      lagrange-cong _ (λ a. (a ⊕ c) ⊗ value cs a ⊕ (c ⊗ value cs a ⊕ p ⊗ s.one)) x all all
        (λ a. horner_split c (value cs a) a p)
      ∙ lagrange-add (λ a. (a ⊕ c) ⊗ value cs a) (λ a. c ⊗ value cs a ⊕ p ⊗ s.one) x all all
      ∙ rw
          (
            lagrange_remove (value cs) x c xs apart,
            lagrange-value cs x xs (omega arith) rest,
            lagrange-add (λ a. c ⊗ value cs a) (λ a. p ⊗ s.one) x all all,
            lagrange-scale c (value cs) x all all,
            lagrange-scale p (λ a. s.one) x all all,
            lagrange-value cs x all (omega arith) (apart, rest),
            weights-sum x c xs (apart, rest),
          )
          (sym (horner_split c (value cs x) x p))
