-- ===== src/Shamir/Fitting.antt =====
-- Which polynomials have given values at given points: the counterpart of interpolation, which
-- packages/cli/src/venya_cli/shamir.py relies on for what too few shares tell.
use venya.Prelude.{
  Distinct, Apart, suc, ◌≤◌, ◌≡◌, refl, sym, ap, subst, ◌∙◌, ◌≢◌, List, [], ◌∷◌, arith, length, All,
}
use venya.Shamir.Field.{
  Field, ◌⊕◌, ◌⊗◌, add-zero, add_twice, mul_left_comm, zero-mul, mul-add, mul-one, mul_cancel,
}
use venya.Shamir.Weights.{lagrange, differ-nonzero}
use venya.Shamir.Interpolation.{value, lagrange-value}

module _ {ℓ} {F : Type ℓ} ⦃s : Field F⦄ where
  -- (x - c) times a polynomial, plus v.
  linear : (c v : F) → List F → List F
  linear c v [] = v ∷ []
  linear c v (g ∷ gs) = (v ⊕ c ⊗ g) ∷ linear c g gs

  length-linear : (c v : F) (gs : List F) → length (linear c v gs) ≡ suc (length gs)
  unfolding linear
  length-linear c v [] = refl
  length-linear c v (g ∷ gs) = ap suc (length-linear c g gs)

  product_out : (x c v g t : F) → ((x ⊕ c) ⊗ t ⊕ g) ⊗ x ⊕ (v ⊕ c ⊗ g) ≡ (x ⊕ c) ⊗ (t ⊗ x ⊕ g) ⊕ v
  product_out x c v g t =
      rw
        (
          s.add-mul ((x ⊕ c) ⊗ t) g x,
          mul-add (x ⊕ c) (t ⊗ x) g,
          s.mul_assoc (x ⊕ c) t x,
          s.add-mul x c g,
          s.mul_comm g x,
          s.add_comm v (c ⊗ g),
          s.add_assoc ((x ⊕ c) ⊗ (t ⊗ x)) (x ⊗ g) (c ⊗ g ⊕ v),
        )
        (sym (
          s.add_assoc ((x ⊕ c) ⊗ (t ⊗ x)) (x ⊗ g ⊕ c ⊗ g) v
          ∙ ap (s.add ((x ⊕ c) ⊗ (t ⊗ x))) (s.add_assoc (x ⊗ g) (c ⊗ g) v)))

  value-linear :
      (c v : F) (gs : List F) (x : F) → value (linear c v gs) x ≡ (x ⊕ c) ⊗ value gs x ⊕ v
  unfolding linear value
  value-linear c v [] x =
      rw (zero-mul x) (ap (λ t. t ⊕ v) (sym (s.mul_comm (x ⊕ c) s.zero ∙ zero-mul (x ⊕ c))))
  value-linear c v (g ∷ gs) x = rw (value-linear c g gs x) (product_out x c v g (value gs x))

  abbrev pub Agrees : (f g : F → F) → List F → Type ℓ
  Agrees f g xs = All (λ a. f a ≡ g a) xs

  -- The slope of `f` from `x`.
  slope : (F → F) → F → F → F
  slope f x a = (f a ⊕ f x) ⊗ s.inv (a ⊕ x)

  rise : (u v d : F) → d ≢ s.zero → d ⊗ ((u ⊕ v) ⊗ s.inv d) ⊕ v ≡ u
  rise u v d ne =
      rw
        (
          mul_left_comm d (u ⊕ v) (s.inv d),
          s.mul-inv d ne,
          mul-one (u ⊕ v),
          s.add_assoc u v v,
          s.add_self v,
        )
        (add-zero u)

  fits-linear :
      (f : F → F) (x : F) (cs xs : List F)
      → Apart x xs
      → Agrees (value cs) (slope f x) xs
      → Agrees (value (linear x (f x) cs)) f xs
  unfolding slope
  fits-linear f x cs [] apart h = tt
  fits-linear f x cs (a ∷ xs) (ne, apart) (e, h) = (
    value-linear x (f x) cs a
        ∙ ap (λ t. (a ⊕ x) ⊗ t ⊕ f x) e
        ∙ rise (f a) (f x) (a ⊕ x) (differ-nonzero a x (λ e. ne (sym e))),
    fits-linear f x cs xs apart h,
  )

  fits-first : (c v : F) (gs : List F) → value (linear c v gs) c ≡ v
  fits-first c v gs =
      value-linear c v gs c ∙ rw (s.add_self c, zero-mul (value gs c)) (s.zero-add v)

  -- Values at distinct points are those of a polynomial with as many coefficients.
  pub fitting :
      (xs : List F) (f : F → F)
      → Distinct xs
      → (cs : List F) × (length cs ≡ length xs) × Agrees (value cs) f xs
  fitting [] f h = ([], refl, tt)
  fitting (x ∷ xs) f (apart, rest) =
      let w = fitting xs (slope f x) rest in
      (
        linear x (f x) w.0,
        length-linear x (f x) w.0 ∙ ap suc w.1,
        (fits-first x (f x) w.0, fits-linear f x w.0 xs apart w.2),
      )

  lagrange-Agrees :
      (f g : F → F) (x : F) (ps xs : List F)
      → Agrees f g ps
      → lagrange f x ps xs ≡ lagrange g x ps xs
  unfolding lagrange
  lagrange-Agrees f g x [] xs h = refl
  lagrange-Agrees f g x (p ∷ ps) xs (e, h) = rw (e, lagrange-Agrees f g x ps xs h) refl

  -- Polynomials that agree at as many points as they have coefficients agree everywhere.
  pub value-determined :
      (cs ds : List F) (xs : List F) (x : F)
      → length cs ≤ length xs
      → length ds ≤ length xs
      → Distinct xs
      → Agrees (value cs) (value ds) xs
      → value cs x ≡ value ds x
  value-determined cs ds xs x l m h same =
      sym (lagrange-value cs x xs l h)
      ∙ lagrange-Agrees (value cs) (value ds) x xs xs same
      ∙ lagrange-value ds x xs m h

  add_cancel : (a b v : F) → a ⊕ v ≡ b ⊕ v → a ≡ b
  add_cancel a b v e =
      sym (add_twice v a) ∙ ap (s.add v) (s.add_comm v a ∙ e ∙ s.add_comm b v) ∙ add_twice v b

  tails-agree :
      (v : F) (cs ds xs : List F)
      → Apart s.zero xs
      → Agrees (value (v ∷ cs)) (value (v ∷ ds)) xs
      → Agrees (value cs) (value ds) xs
  unfolding value
  tails-agree v cs ds [] apart h = tt
  tails-agree v cs ds (a ∷ xs) (ne, apart) (e, h) = (
    mul_cancel a (value cs a) (value ds a) (λ e. ne (sym e))
        (s.mul_comm a (value cs a)
          ∙ add_cancel (value cs a ⊗ a) (value ds a ⊗ a) v e
          ∙ s.mul_comm (value ds a) a),
    tails-agree v cs ds xs apart h,
  )

  pub value-at_zero : (c : F) (cs : List F) → value (c ∷ cs) s.zero ≡ c
  unfolding value
  value-at_zero c cs =
      ap (λ t. t ⊕ c) (s.mul_comm (value cs s.zero) s.zero ∙ zero-mul (value cs s.zero))
      ∙ s.zero-add c

  coefficients-determined :
      (cs ds xs : List F)
      → length cs ≤ length xs
      → length ds ≡ length cs
      → Distinct xs
      → Apart s.zero xs
      → Agrees (value cs) (value ds) xs
      → ds ≡ cs
  coefficients-determined [] [] xs le e h apart same = refl
  coefficients-determined [] (d ∷ ds) xs le e h apart same = absurd (omega arith)
  coefficients-determined (c ∷ cs) [] xs le e h apart same = absurd (omega arith)
  coefficients-determined (c ∷ cs) (d ∷ ds) xs le e h apart same =
      let first : c ≡ d =
        sym (value-at_zero c cs)
        ∙ value-determined (c ∷ cs) (d ∷ ds) xs s.zero le (omega arith) h same
        ∙ value-at_zero d ds in
      let rest =
        tails-agree d cs ds xs apart
          (subst (λ t. Agrees (value (t ∷ cs)) (value (d ∷ ds)) xs) first same) in
      rw first
        (ap (◌∷◌ d) (coefficients-determined cs ds xs (omega arith) (omega arith) h apart rest))

  Agrees-trans : (f g h : F → F) (xs : List F) → Agrees f g xs → Agrees h g xs → Agrees f h xs
  Agrees-trans f g h [] p q = tt
  Agrees-trans f g h (x ∷ xs) (e, p) (e', q) = (e ∙ sym e', Agrees-trans f g h xs p q)

  fits-under :
      (v : F) (f : F → F) (cs xs : List F)
      → Apart s.zero xs
      → Agrees (value cs) (λ a. (f a ⊕ v) ⊗ s.inv a) xs
      → Agrees (value (v ∷ cs)) f xs
  unfolding value
  fits-under v f cs [] apart h = tt
  fits-under v f cs (a ∷ xs) (ne, apart) (e, h) = (
    ap (λ t. t ⊕ v) (s.mul_comm (value cs a) a ∙ ap (s.mul a) e) ∙ rise (f a) v a (λ e. ne (sym e)),
    fits-under v f cs xs apart h,
  )

  -- The other coefficients, for each constant term: one choice and no other.
  pub one_choice :
      (xs : List F) (v : F) (f : F → F)
      → Distinct xs
      → Apart s.zero xs
      → (cs : List F) × (length cs ≡ length xs)
        × Agrees (value (v ∷ cs)) f xs
        × ((ds : List F) → length ds ≡ length xs → Agrees (value (v ∷ ds)) f xs → ds ≡ cs)
  one_choice xs v f h apart =
      let w = fitting xs (λ a. (f a ⊕ v) ⊗ s.inv a) h in
      let fits = fits-under v f w.0 xs apart w.2 in
      (
        w.0,
        w.1,
        fits,
        λ ds n same.
            coefficients-determined w.0 ds xs (omega (arith, w.1)) (n ∙ sym w.1) h apart
              (tails-agree v w.0 ds xs apart (Agrees-trans _ _ _ xs fits same)),
      )
