-- ===== src/Shamir/Picked.antt =====
-- packages/cli/src/venya_cli/shamir.py: shares of one split, as they are handed to combine.
use mathlib.Core.List.{Memᴰ}
use mathlib.Core.List.Memᴰ
use venya.Prelude.{
  Distinct, Apart, ℕ, zero, suc, ◌+◌, ◌≤◌, ◌<◌, ◌≡◌, refl, sym, ap, ◌∙◌, Bool, true, false, List,
  [], ◌∷◌, map, arith, All,
}
use venya.Shamir.{Result, ok, collect, range_from, set_of, contains, every}
use venya.Shamir.Bytes.{Byte, byte_eq, byte_field, zero-number}
use venya.Shamir.Lagrange.{numbers}

-- Each share that was dealt has a number from `i` on.
dealt-number :
    (f : ℕ → List ℕ) (i n : ℕ) (s : List ℕ)
    → Memᴰ s (map f (range_from i n))
    → (x : ℕ) × (s ≡ f x) × (i ≤ x) × (x < i + n)
unfolding range_from
dealt-number f i zero s m = absurd (Memᴰ.not-nil m)
dealt-number f i (suc n) s (Memᴰ.head e) = (i, e, omega arith, omega arith)
dealt-number f i (suc n) s (Memᴰ.tail m) =
    let w = dealt-number f (suc i) n s m in (w.0, w.1, omega (arith, w.2), omega (arith, w.3))

-- Shares that were dealt are those of nonzero bytes.
pub dealt-numbers :
    (f : ℕ → List ℕ) (n : ℕ) (picked : List (List ℕ))
    → n ≤ 255
    → All (λ s. Memᴰ s (map f (range_from 1 n))) picked
    → (xs : List Byte) × (picked ≡ map f (numbers xs)) × Apart byte_field.zero xs
dealt-numbers f n [] le h = ([], refl, tt)
dealt-numbers f n (s ∷ picked) le (m, h) =
    let w = dealt-number f 1 n s m in
    let rest = dealt-numbers f n picked le h in
    (
      (w.0, omega (arith, w.2, w.3)) ∷ rest.0,
      ap (λ t. t ∷ picked) w.1 ∙ ap (◌∷◌ (f w.0)) rest.1,
      ((λ e. absurd (omega (arith, w.2, sym zero-number ∙ ap (λ (b : Byte). b.0) e))), rest.2),
    )

-- Distinct shares have distinct numbers.
Apart-image :
    (f : ℕ → List ℕ) (a : Byte) (xs : List Byte) → Apart (f a.0) (map f (numbers xs)) → Apart a xs
Apart-image f a [] h = tt
Apart-image f a (x ∷ xs) (ne, h) = ((λ e. ne (ap (λ (b : Byte). f b.0) e)), Apart-image f a xs h)

pub Distinct-image : (f : ℕ → List ℕ) (xs : List Byte) → Distinct (map f (numbers xs)) → Distinct xs
Distinct-image f [] h = tt
Distinct-image f (x ∷ xs) (apart, h) = (Apart-image f x xs apart, Distinct-image f xs h)

contains-Apart : (a : Byte) (xs : List Byte) → Apart a xs → contains a.0 (numbers xs) ≡ false
contains-Apart a [] h = refl
contains-Apart a (x ∷ xs) (ne, h) =
    ground (arith, contains-Apart a xs h, (λ (e : a.0 ≡ x.0). ne (byte_eq a x e)))

-- The set of distinct numbers keeps them all.
pub set_of-Distinct : (xs : List Byte) → Distinct xs → set_of (numbers xs) ≡ numbers xs
unfolding set_of
set_of-Distinct [] h = refl
set_of-Distinct (x ∷ xs) (apart, h) = rw (set_of-Distinct xs h, contains-Apart x xs apart) refl

-- The loops over the shares, on shares of given numbers.
pub collect-map :
    {A B : Type 0} (g : B → Result A) (f : ℕ → B) (h : ℕ → A) (xs : List ℕ)
    → ((x : ℕ) → g (f x) ≡ ok (h x))
    → collect g (map f xs) ≡ ok (map h xs)
unfolding collect
collect-map g f h [] eq = refl
collect-map g f h (x ∷ xs) eq = rw (eq x, collect-map g f h xs eq) refl

pub every-map :
    {B : Type 0} (p : B → Bool) (f : ℕ → B) (xs : List ℕ)
    → ((x : ℕ) → p (f x) ≡ true)
    → every p (map f xs) ≡ true
every-map p f [] eq = refl
every-map p f (x ∷ xs) eq = rw (eq x, every-map p f xs eq) refl
