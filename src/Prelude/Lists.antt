-- ===== src/Prelude/Lists.antt =====
-- Lists measured by native numbers, filtered by Boolean tests, and predicates over lists.
use Prim.Native.Nat.{ℕ, zero, suc, ◌+◌, ◌-◌, ◌≤◌}
use mathlib.Core.Path.{◌≡◌, refl, ap}
use mathlib.Core.Logic.{◌≢◌}
use mathlib.Core.Bool.{Bool, true, false, ◌&&◌}
use mathlib.Core.List.{List, [], ◌∷◌, ◌++◌}
use native.Mathlib.Omega.{arith}
use venya.Prelude.Tests.{if◌then◌else◌, ◌=?◌}

module _ {ℓ} {A : Type ℓ} where
  abbrev pub length : List A → ℕ
  length [] = 0
  length (x ∷ xs) = suc (length xs)

  -- [x for x in xs if p(x)]
  abbrev pub select : (A → Bool) → List A → List A
  select p [] = []
  select p (x ∷ xs) = let rest = select p xs in if p x then x ∷ rest else rest

  abbrev pub take : ℕ → List A → List A
  take zero xs = []
  take (suc n) [] = []
  take (suc n) (x ∷ xs) = x ∷ take n xs

  abbrev pub drop : ℕ → List A → List A
  drop zero xs = xs
  drop (suc n) [] = []
  drop (suc n) (x ∷ xs) = drop n xs

  pub length-append : (xs ys : List A) → length (xs ++ ys) ≡ length xs + length ys
  length-append [] ys = omega arith
  length-append (x ∷ xs) ys = omega (arith, length-append xs ys)

  pub length-select-le : (p : A → Bool) (xs : List A) → length (select p xs) ≤ length xs
  length-select-le p [] = omega arith
  length-select-le p (x ∷ xs) = ground (arith, length-select-le p xs)

  pub select-append :
      (p : A → Bool) (xs ys : List A) → select p (xs ++ ys) ≡ select p xs ++ select p ys
  select-append p [] ys = refl
  select-append p (x ∷ xs) ys = ground (arith, select-append p xs ys)

module _ {ℓ κ} {A : Type ℓ} where
  abbrev pub All : (A → Type κ) → List A → Type κ
  All P [] = Unit
  All P (x ∷ xs) = P x × All P xs

module _ {ℓ} {A : Type ℓ} where
  abbrev pub replicate : ℕ → A → List A
  replicate zero a = []
  replicate (suc n) a = a ∷ replicate n a

  pub length-replicate : (n : ℕ) (a : A) → length (replicate n a) ≡ n
  length-replicate zero a = refl
  length-replicate (suc n) a = ap suc (length-replicate n a)

module _ {ℓ} {A : Type ℓ} where
  abbrev pub Apart : A → List A → Type ℓ
  Apart a xs = All (λ b. a ≢ b) xs

  -- No two places hold the same.
  abbrev pub Distinct : List A → Type ℓ
  Distinct [] = Unit
  Distinct (x ∷ xs) = Apart x xs × Distinct xs

-- a == b, of bytes.
abbrev pub same_bytes : List ℕ → List ℕ → Bool
same_bytes [] [] = true
same_bytes [] (b ∷ bs) = false
same_bytes (a ∷ more) [] = false
same_bytes (a ∷ more) (b ∷ bs) = a =? b && same_bytes more bs

pub same_bytes_refl : (ns : List ℕ) → same_bytes ns ns ≡ true
same_bytes_refl [] = refl
same_bytes_refl (n ∷ ns) = ground (arith, same_bytes_refl ns)

pub same_bytes-eq : (ms ns : List ℕ) → same_bytes ms ns ≡ true → ms ≡ ns
same_bytes-eq [] [] h = refl
same_bytes-eq [] (n ∷ ns) h = absurd (ground (arith, h))
same_bytes-eq (m ∷ ms) [] h = absurd (ground (arith, h))
same_bytes-eq (m ∷ ms) (n ∷ ns) h = ground (arith, same_bytes-eq ms ns, h)

module _ {ℓ} {A : Type ℓ} where
  pub take-append : (ms ns : List A) → take (length ms) (ms ++ ns) ≡ ms
  take-append [] ns = refl
  take-append (m ∷ ms) ns = ap (◌∷◌ m) (take-append ms ns)

  pub drop-append : (ms ns : List A) → drop (length ms) (ms ++ ns) ≡ ns
  drop-append [] ns = refl
  drop-append (m ∷ ms) ns = drop-append ms ns

  pub length-take : (ns : List A) (n : ℕ) → n ≤ length ns → length (take n ns) ≡ n
  length-take ns zero le = refl
  length-take [] (suc n) le = absurd (omega arith)
  length-take (m ∷ ns) (suc n) le = ap suc (length-take ns n (omega arith))

  pub take-drop : (n : ℕ) (ns : List A) → take n ns ++ drop n ns ≡ ns
  take-drop zero ns = refl
  take-drop (suc n) [] = refl
  take-drop (suc n) (m ∷ ns) = ap (◌∷◌ m) (take-drop n ns)

  pub length-drop : (n : ℕ) (ns : List A) → length (drop n ns) ≡ length ns - n
  length-drop zero ns = omega arith
  length-drop (suc n) [] = omega arith
  length-drop (suc n) (m ∷ ns) = omega (arith, length-drop n ns)

  -- A list that is not empty ends in an element.
  pub unsnoc :
      (ns : List A) (n : ℕ)
      → length ns ≡ suc n
      → (ms : List A) × (m : A) × (ns ≡ ms ++ m ∷ []) × (length ms ≡ n)
  unsnoc [] n e = absurd (omega (arith, e))
  unsnoc (m ∷ []) n e = ([], m, refl, omega (arith, e))
  unsnoc (m ∷ l ∷ ns) zero e = absurd (omega (arith, e))
  unsnoc (m ∷ l ∷ ns) (suc n) e =
      let w = unsnoc (l ∷ ns) n (omega (arith, e)) in
      (m ∷ w.0, w.1, ap (◌∷◌ m) w.2, omega (arith, w.3))

module _ {ℓ κ} {A : Type ℓ} where
  pub All-append : (P : A → Type κ) (ms ns : List A) → All P ms → All P ns → All P (ms ++ ns)
  All-append P [] ns h j = j
  All-append P (m ∷ ms) ns (p, h) j = (p, All-append P ms ns h j)

  pub All-append_parts : (P : A → Type κ) (ms ns : List A) → All P (ms ++ ns) → All P ms × All P ns
  All-append_parts P [] ns h = (tt, h)
  All-append_parts P (m ∷ ms) ns (p, h) = let w = All-append_parts P ms ns h in ((p, w.0), w.1)

  pub All-take : (P : A → Type κ) (n : ℕ) (ns : List A) → All P ns → All P (take n ns)
  All-take P zero ns h = tt
  All-take P (suc n) [] h = tt
  All-take P (suc n) (m ∷ ns) (p, h) = (p, All-take P n ns h)

  pub All-drop : (P : A → Type κ) (n : ℕ) (ns : List A) → All P ns → All P (drop n ns)
  All-drop P zero ns h = h
  All-drop P (suc n) [] h = tt
  All-drop P (suc n) (m ∷ ns) (p, h) = All-drop P n ns h
