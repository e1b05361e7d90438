-- ===== src/Shamir/Field.antt =====
-- What the sharing asks of the arithmetic: a field where every element is its own opposite.
use venya.Prelude.{◌≡◌, refl, sym, ap, ◌∙◌, ◌≢◌}

pub record Field {ℓ} (F : Type ℓ) : Type ℓ where
  pub zero : F
  pub one : F
  pub add : F → F → F
  pub mul : F → F → F
  pub inv : F → F
  pub decide : Discrete F
  pub add_assoc : (a b c : F) → add (add a b) c ≡ add a (add b c)
  pub add_comm : (a b : F) → add a b ≡ add b a
  pub zero-add : (a : F) → add zero a ≡ a
  pub add_self : (a : F) → add a a ≡ zero
  pub mul_assoc : (a b c : F) → mul (mul a b) c ≡ mul a (mul b c)
  pub mul_comm : (a b : F) → mul a b ≡ mul b a
  pub one-mul : (a : F) → mul one a ≡ a
  pub add-mul : (a b c : F) → mul (add a b) c ≡ add (mul a c) (mul b c)
  pub mul-inv : (a : F) → a ≢ zero → mul a (inv a) ≡ one
  pub one-zero : one ≢ zero

module _ {ℓ} {F : Type ℓ} ⦃s : Field F⦄ where
  infixl 65 ◌⊕◌
  infixl 70 ◌⊗◌
  abbrev pub ◌⊕◌ : F → F → F
  a ⊕ b = s.add a b

  abbrev pub ◌⊗◌ : F → F → F
  a ⊗ b = s.mul a b

  pub add-zero : (a : F) → a ⊕ s.zero ≡ a
  add-zero a = s.add_comm a s.zero ∙ s.zero-add a

  -- What is added twice is gone.
  pub add_twice : (a b : F) → a ⊕ (a ⊕ b) ≡ b
  add_twice a b = sym (s.add_assoc a a b) ∙ rw (s.add_self a) (s.zero-add b)

  pub add_left_comm : (a b c : F) → a ⊕ (b ⊕ c) ≡ b ⊕ (a ⊕ c)
  add_left_comm a b c =
      sym (s.add_assoc a b c) ∙ ap (λ t. t ⊕ c) (s.add_comm a b) ∙ s.add_assoc b a c

  pub mul_left_comm : (a b c : F) → a ⊗ (b ⊗ c) ≡ b ⊗ (a ⊗ c)
  mul_left_comm a b c =
      sym (s.mul_assoc a b c) ∙ ap (λ t. t ⊗ c) (s.mul_comm a b) ∙ s.mul_assoc b a c

  pub add_interchange : (a b c d : F) → (a ⊕ b) ⊕ (c ⊕ d) ≡ (a ⊕ c) ⊕ (b ⊕ d)
  add_interchange a b c d =
      s.add_assoc a b (c ⊕ d) ∙ ap (s.add a) (add_left_comm b c d) ∙ sym (s.add_assoc a c (b ⊕ d))

  pub zero-mul : (a : F) → s.zero ⊗ a ≡ s.zero
  zero-mul a =
      ap (λ t. t ⊗ a) (sym (s.add_self s.zero))
      ∙ s.add-mul s.zero s.zero a
      ∙ s.add_self (s.zero ⊗ a)

  pub mul-add : (a b c : F) → a ⊗ (b ⊕ c) ≡ a ⊗ b ⊕ a ⊗ c
  mul-add a b c = rw (s.mul_comm a (b ⊕ c), s.add-mul b c a, s.mul_comm a b, s.mul_comm a c) refl

  pub mul-one : (a : F) → a ⊗ s.one ≡ a
  mul-one a = s.mul_comm a s.one ∙ s.one-mul a

  pub add-zero_eq : (a b : F) → a ⊕ b ≡ s.zero → a ≡ b
  add-zero_eq a b e = sym (add-zero a) ∙ ap (s.add a) (sym e) ∙ add_twice a b

  pub inv-mul : (a b : F) → a ≢ s.zero → s.inv a ⊗ (a ⊗ b) ≡ b
  inv-mul a b ne =
      sym (s.mul_assoc (s.inv a) a b)
      ∙ ap (λ t. t ⊗ b) (s.mul_comm (s.inv a) a ∙ s.mul-inv a ne)
      ∙ s.one-mul b

  pub mul_cancel : (a b c : F) → a ≢ s.zero → a ⊗ b ≡ a ⊗ c → b ≡ c
  mul_cancel a b c ne e = sym (inv-mul a b ne) ∙ ap (s.mul (s.inv a)) e ∙ inv-mul a c ne

  pub mul-nonzero : (a b : F) → a ≢ s.zero → b ≢ s.zero → a ⊗ b ≢ s.zero
  mul-nonzero a b n m e = m (mul_cancel a b s.zero n (e ∙ sym (s.mul_comm a s.zero ∙ zero-mul a)))

  pub inv_product : (a b : F) → a ≢ s.zero → b ≢ s.zero → s.inv (a ⊗ b) ≡ s.inv a ⊗ s.inv b
  inv_product a b n m = mul_cancel (a ⊗ b) _ _ (mul-nonzero a b n m) (
      s.mul-inv (a ⊗ b) (mul-nonzero a b n m)
      ∙ sym (
          s.mul_assoc a b _
          ∙ ap (s.mul a)
              (mul_left_comm b (s.inv a) (s.inv b) ∙ ap (s.mul (s.inv a)) (s.mul-inv b m))
          ∙ ap (s.mul a) (mul-one (s.inv a))
          ∙ s.mul-inv a n))

  pub inv-one : s.inv s.one ≡ s.one
  inv-one = sym (s.one-mul (s.inv s.one)) ∙ s.mul-inv s.one s.one-zero
