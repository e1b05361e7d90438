-- ===== src/Shamir/Secrecy.antt =====
-- packages/cli/src/venya_cli/shamir.py, split: what fewer shares than the threshold tell of a byte.
use Prim.Native.Nat.{◌<◌}
use mathlib.Core.Equiv.{IsContr}
use native.Mathlib.Nat.{ℕ_set}
use native.Mathlib.Bridge.{le_prop}
use cubical.Cubical.Data.Sigma.Properties.{Σ≡Prop}
use venya.Prelude.{
  ℕ, ◌<◌, ◌≡◌, refl, sym, ap, subst, ◌∙◌, List, [], ◌∷◌, arith, length, All, Apart, Distinct,
}
use venya.Shamir.{evaluate}
use venya.Shamir.Bytes.{Byte, byte_eq, byte_field, zero-number}
use venya.Shamir.Interpolation.{value}
use venya.Shamir.Lagrange.{numbers, evaluate-value}
use venya.Shamir.Fitting.{one_choice, Agrees}
use venya.Shamir.Dealing.{as_bytes, length-numbers}

-- The polynomial with these coefficients has the values that were seen.
abbrev pub Explains : (seen : ℕ → ℕ) (ids coeffs : List ℕ) → Type 0
Explains seen ids coeffs = All (λ x. evaluate coeffs x ≡ seen x) ids

-- As many random bytes as numbers, with which a split of the byte `secret` gives what was seen.
abbrev pub IsChoice : (seen : ℕ → ℕ) (ids : List ℕ) (secret : ℕ) (draws : List ℕ) → Type 0
IsChoice seen ids secret draws =
    All (λ b. b < 256) draws × (length draws ≡ length ids) × Explains seen ids (secret ∷ draws)

pub All-prop : (P : ℕ → Type 0) (ns : List ℕ) → ((n : ℕ) → IsProp (P n)) → IsProp (All P ns)
All-prop P [] h = λ p q. refl
All-prop P (n ∷ ns) h = λ p q i. (h n p.0 q.0 i, All-prop P ns h p.1 q.1 i)

IsChoice-prop :
    (seen : ℕ → ℕ) (ids : List ℕ) (secret : ℕ) (draws : List ℕ)
    → IsProp (IsChoice seen ids secret draws)
IsChoice-prop seen ids secret draws = λ p q i. (
  All-prop (λ b. b < 256) draws (λ n. le_prop) p.0 q.0 i,
  ℕ_set (length draws) (length ids) p.1 q.1 i,
  All-prop (λ x. evaluate (secret ∷ draws) x ≡ seen x) ids (λ n. ℕ_set _ _) p.2 q.2 i,
)

module _ (seen : ℕ → ℕ) (bytes : (n : ℕ) → seen n < 256) where
  seen_byte : Byte → Byte
  seen_byte a = (seen a.0, bytes a.0)

  explained :
      (cs xs : List Byte) → Agrees (value cs) seen_byte xs → Explains seen (numbers xs) (numbers cs)
  unfolding seen_byte
  explained cs [] h = tt
  explained cs (x ∷ xs) (e, h) = (evaluate-value cs x ∙ ap (λ (b : Byte). b.0) e, explained cs xs h)

  agreeing :
      (cs xs : List Byte) → Explains seen (numbers xs) (numbers cs) → Agrees (value cs) seen_byte xs
  unfolding seen_byte
  agreeing cs [] h = tt
  agreeing cs (x ∷ xs) (e, h) = (byte_eq _ _ (sym (evaluate-value cs x) ∙ e), agreeing cs xs h)

  Apart-bytes : (xs : List Byte) → All (λ i. 0 < i) (numbers xs) → Apart byte_field.zero xs
  Apart-bytes [] h = tt
  Apart-bytes (x ∷ xs) (p, h) = (
    (λ e. absurd (omega (arith, p, sym zero-number ∙ ap (λ (b : Byte). b.0) e))),
    Apart-bytes xs h,
  )

  numbers-bytes : (bs : List Byte) → All (λ b. b < 256) (numbers bs)
  numbers-bytes [] = tt
  numbers-bytes (b ∷ bs) = (b.1, numbers-bytes bs)

  draws-bytes :
      (xs : List Byte) (v : Byte)
      → Distinct xs
      → Apart byte_field.zero xs
      → IsContr ((draws : List ℕ) × (IsChoice seen (numbers xs) v.0 draws))
  draws-bytes xs v h apart =
      let w = one_choice xs v seen_byte h apart in
      let as_many = length-numbers w.0 ∙ w.1 ∙ sym (length-numbers xs) in
      (
        (numbers w.0, (numbers-bytes w.0, as_many, explained (v ∷ w.0) xs w.2)),
        λ c.
            let ds = as_bytes c.0 c.1.0 in
            let same = subst (λ t. Explains seen (numbers xs) (v.0 ∷ t)) (sym ds.1) c.1.2 in
            let n = sym (length-numbers ds.0) ∙ ap length ds.1 ∙ c.1.1 ∙ length-numbers xs in
            Σ≡Prop (IsChoice-prop seen (numbers xs) v.0) {u = c}
              {v = (numbers w.0, (numbers-bytes w.0, as_many, explained (v ∷ w.0) xs w.2))}
              (sym ds.1 ∙ ap numbers (w.3 ds.0 n (agreeing (v ∷ ds.0) xs same))),
      )

  Distinct-bytes : (xs : List Byte) → Distinct (numbers xs) → Distinct xs
  Distinct-bytes [] h = tt
  Distinct-bytes (x ∷ xs) (apart, h) = (differing xs apart, Distinct-bytes xs h)
    where
      differing : (ys : List Byte) → Apart x.0 (numbers ys) → Apart x ys
      differing [] h = tt
      differing (y ∷ ys) (ne, h) = ((λ e. ne (ap (λ (b : Byte). b.0) e)), differing ys h)

  -- For what shares at different nonzero numbers hold of a byte of the payload, and any value of the
  -- byte, exactly one choice of as many random bytes gives both.
  pub draws-IsContr :
      (ids : List ℕ) (secret : ℕ)
      → All (λ i. i < 256) ids
      → All (λ i. 0 < i) ids
      → Distinct ids
      → secret < 256
      → IsContr ((draws : List ℕ) × (IsChoice seen ids secret draws))
  draws-IsContr ids secret ids_bytes nonzero h lt =
      let xs = as_bytes ids ids_bytes in
      subst (λ t. IsContr ((draws : List ℕ) × (IsChoice seen t secret draws))) xs.1
        (draws-bytes xs.0 (secret, lt) (Distinct-bytes xs.0 (subst Distinct (sym xs.1) h))
          (Apart-bytes xs.0 (subst (All (λ i. 0 < i)) (sym xs.1) nonzero)))
