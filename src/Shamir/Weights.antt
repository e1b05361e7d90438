-- ===== src/Shamir/Weights.antt =====
-- The weights of Lagrange's formula over any such field, and how they change with the points.
use venya.Prelude.{Apart, ◌≡◌, refl, sym, ap, ◌∙◌, ◌≢◌, List, [], ◌∷◌}
use venya.Shamir.Field.{
  Field, ◌⊕◌, ◌⊗◌, add_left_comm, mul_left_comm, add_interchange, zero-mul, mul-add, add-zero_eq,
  mul-nonzero, inv_product,
}

module _ {ℓ κ} {A : Type ℓ} {B : Type κ} where
  -- By a decision.
  either : Dec A → B → B → B
  either (yes a) u v = u
  either (no n) u v = v

  either-yes : (d : Dec A) (u v : B) → A → either d u v ≡ u
  unfolding either
  either-yes (yes a) u v h = refl
  either-yes (no n) u v h = absurd (n h)

  either-no : (d : Dec A) (u v : B) → ¬ A → either d u v ≡ v
  unfolding either
  either-no (yes a) u v h = absurd (h a)
  either-no (no n) u v h = refl

module _ {ℓ} {F : Type ℓ} ⦃s : Field F⦄ where
  -- The product over the elements other than `a`.
  unfoldable pub skip : (F → F) → F → List F → F
  unfolding either
  skip g a [] = s.one
  skip g a (b ∷ xs) = let rest = skip g a xs in either (s.decide a b) rest (g b ⊗ rest)

  unfoldable pub weight : F → F → List F → F
  unfolding skip
  weight x a xs = skip (s.add x) a xs ⊗ s.inv (skip (s.add a) a xs)

  -- Lagrange's sum for `f` at `x`: the terms of `ps`, with the weights among the points `xs`.
  unfoldable pub lagrange : (F → F) → F → List F → List F → F
  unfolding weight
  lagrange f x [] xs = s.zero
  lagrange f x (a ∷ more) xs = f a ⊗ weight x a xs ⊕ lagrange f x more xs

  pub skip-other :
      (g : F → F) (a b : F) (xs : List F) → a ≢ b → skip g a (b ∷ xs) ≡ g b ⊗ skip g a xs
  unfolding skip
  skip-other g a b xs ne = either-no (s.decide a b) _ _ ne

  pub skip-same : (g : F → F) (a : F) (xs : List F) → skip g a (a ∷ xs) ≡ skip g a xs
  unfolding skip
  skip-same g a xs = either-yes (s.decide a a) _ _ refl

  either_swap :
      (p q : Type ℓ) (d : Dec p) (e : Dec q) (u v w : F)
      → either d (either e w (v ⊗ w)) (u ⊗ either e w (v ⊗ w))
        ≡ either e (either d w (u ⊗ w)) (v ⊗ either d w (u ⊗ w))
  unfolding either
  either_swap p q (yes a) (yes b) u v w = refl
  either_swap p q (yes a) (no m) u v w = refl
  either_swap p q (no n) (yes b) u v w = refl
  either_swap p q (no n) (no m) u v w = mul_left_comm u v w

  skip_swap : (g : F → F) (a b c : F) (xs : List F) → skip g a (b ∷ c ∷ xs) ≡ skip g a (c ∷ b ∷ xs)
  unfolding skip
  skip_swap g a b c xs =
      either_swap (a ≡ b) (a ≡ c) (s.decide a b) (s.decide a c) (g b) (g c) (skip g a xs)

  weight_swap : (x a b c : F) (xs : List F) → weight x a (b ∷ c ∷ xs) ≡ weight x a (c ∷ b ∷ xs)
  unfolding weight
  weight_swap x a b c xs = rw (skip_swap (s.add x) a b c xs, skip_swap (s.add a) a b c xs) refl

  pub differ-nonzero : (a b : F) → a ≢ b → a ⊕ b ≢ s.zero
  differ-nonzero a b ne e = ne (add-zero_eq a b e)

  either-nonzero :
      (a b : F) (d : Dec (a ≡ b)) (w : F) → w ≢ s.zero → either d w ((a ⊕ b) ⊗ w) ≢ s.zero
  unfolding either
  either-nonzero a b (yes e) w ne = ne
  either-nonzero a b (no n) w ne = mul-nonzero (a ⊕ b) w (differ-nonzero a b n) ne

  -- The denominator is not zero.
  pub skip-nonzero : (a : F) (xs : List F) → skip (s.add a) a xs ≢ s.zero
  unfolding skip
  skip-nonzero a [] = s.one-zero
  skip-nonzero a (b ∷ xs) = either-nonzero a b (s.decide a b) _ (skip-nonzero a xs)

  weighed : (u v n d : F) → u ≢ s.zero → u ⊗ ((v ⊗ n) ⊗ (s.inv u ⊗ d)) ≡ v ⊗ (n ⊗ d)
  weighed u v n d ne =
      rw
        (
          mul_left_comm (v ⊗ n) (s.inv u) d,
          sym (s.mul_assoc u (s.inv u) ((v ⊗ n) ⊗ d)),
          s.mul-inv u ne,
        )
        (s.one-mul _ ∙ s.mul_assoc v n d)

  -- A point more, and its factor in the weight of another.
  weight-cons :
      (x a c : F) (xs : List F) → a ≢ c → (a ⊕ c) ⊗ weight x a (c ∷ xs) ≡ (x ⊕ c) ⊗ weight x a xs
  unfolding weight
  weight-cons x a c xs ne =
      rw
        (
          skip-other (s.add x) a c xs ne,
          skip-other (s.add a) a c xs ne,
          inv_product (a ⊕ c) (skip (s.add a) a xs) (differ-nonzero a c ne) (skip-nonzero a xs),
        )
        (weighed (a ⊕ c) (x ⊕ c) (skip (s.add x) a xs) (s.inv (skip (s.add a) a xs))
          (differ-nonzero a c ne))

  -- The sum is linear in `f`, and depends on its values only.
  pub lagrange-cong :
      (f g : F → F) (x : F) (ps xs : List F)
      → ((a : F) → f a ≡ g a)
      → lagrange f x ps xs ≡ lagrange g x ps xs
  unfolding lagrange
  lagrange-cong f g x [] xs h = refl
  lagrange-cong f g x (p ∷ ps) xs h = rw (h p, lagrange-cong f g x ps xs h) refl

  pub lagrange-add :
      (f g : F → F) (x : F) (ps xs : List F)
      → lagrange (λ a. f a ⊕ g a) x ps xs ≡ lagrange f x ps xs ⊕ lagrange g x ps xs
  unfolding lagrange
  lagrange-add f g x [] xs = sym (s.zero-add s.zero)
  lagrange-add f g x (p ∷ ps) xs =
      rw (s.add-mul (f p) (g p) (weight x p xs), lagrange-add f g x ps xs) (add_interchange _ _ _ _)

  pub lagrange-scale :
      (k : F) (f : F → F) (x : F) (ps xs : List F)
      → lagrange (λ a. k ⊗ f a) x ps xs ≡ k ⊗ lagrange f x ps xs
  unfolding lagrange
  lagrange-scale k f x [] xs = sym (s.mul_comm k s.zero ∙ zero-mul k)
  lagrange-scale k f x (p ∷ ps) xs =
      rw (s.mul_assoc k (f p) (weight x p xs), lagrange-scale k f x ps xs) (sym (mul-add k _ _))

  lagrange_swap :
      (f : F → F) (x b c : F) (ps xs : List F)
      → lagrange f x ps (b ∷ c ∷ xs) ≡ lagrange f x ps (c ∷ b ∷ xs)
  unfolding lagrange
  lagrange_swap f x b c [] xs = refl
  lagrange_swap f x b c (p ∷ ps) xs = rw (weight_swap x p b c xs, lagrange_swap f x b c ps xs) refl

  pub lagrange_exchange :
      (f : F → F) (x b c : F) (xs : List F)
      → lagrange f x (b ∷ c ∷ xs) (b ∷ c ∷ xs) ≡ lagrange f x (c ∷ b ∷ xs) (c ∷ b ∷ xs)
  unfolding lagrange
  lagrange_exchange f x b c xs =
      rw (weight_swap x b b c xs, weight_swap x c b c xs, lagrange_swap f x b c xs xs)
        (add_left_comm _ _ _)

  -- A function with a zero at the first point: that point drops out.
  lagrange-Apart :
      (g : F → F) (x c : F) (ps xs : List F)
      → Apart c ps
      → lagrange (λ a. (a ⊕ c) ⊗ g a) x ps (c ∷ xs) ≡ (x ⊕ c) ⊗ lagrange g x ps xs
  unfolding lagrange
  lagrange-Apart g x c [] xs h = sym (s.mul_comm (x ⊕ c) s.zero ∙ zero-mul (x ⊕ c))
  lagrange-Apart g x c (p ∷ ps) xs (ne, h) =
      rw
        (
          lagrange-Apart g x c ps xs h,
          mul-add (x ⊕ c) (g p ⊗ weight x p xs) (lagrange g x ps xs),
          s.mul_comm (p ⊕ c) (g p),
          s.mul_assoc (g p) (p ⊕ c) (weight x p (c ∷ xs)),
          weight-cons x p c xs (λ e. ne (sym e)),
          mul_left_comm (g p) (x ⊕ c) (weight x p xs),
        )
        refl

  pub lagrange_remove :
      (g : F → F) (x c : F) (xs : List F)
      → Apart c xs
      → lagrange (λ a. (a ⊕ c) ⊗ g a) x (c ∷ xs) (c ∷ xs) ≡ (x ⊕ c) ⊗ lagrange g x xs xs
  unfolding lagrange
  lagrange_remove g x c xs h =
      ap (s.add _) (lagrange-Apart g x c xs xs h)
      ∙ ap (λ t. t ⊕ (x ⊕ c) ⊗ lagrange g x xs xs) (term (weight x c (c ∷ xs)))
      ∙ s.zero-add _
    where
      term : (w : F) → (c ⊕ c) ⊗ g c ⊗ w ≡ s.zero
      term w = rw (s.add_self c, zero-mul (g c)) (zero-mul w)
