-- ===== src/Shamir/Dealing.antt =====
-- packages/cli/src/venya_cli/shamir.py, split: the shares as a function of their numbers.
use mathlib.Core.List.{append_assoc, append-nil}
use venya.Prelude.{
  ℕ, zero, suc, ◌+◌, ◌-◌, ◌<◌, ◌≡◌, refl, sym, ap, ◌∙◌, List, [], ◌∷◌, ◌++◌, map, length, All,
  replicate,
}
use venya.Shamir.{
  evaluate, draw, polynomials, range_from, append_each, transpose_into, labelled, v2_magic, deal,
}
use venya.Shamir.Bytes.{Byte}
use venya.Shamir.Lagrange.{numbers}

-- The bytes of share `x` after the header, and the share.
abbrev pub shard_of : List (List ℕ) → ℕ → List ℕ
shard_of polys x = map (λ p. evaluate p x) polys

abbrev pub body_of : ℕ → List (List ℕ) → ℕ → List ℕ
body_of k polys x = v2_magic ++ k ∷ shard_of polys x

abbrev pub share_of : ℕ → List (List ℕ) → ℕ → List ℕ
share_of k polys x = x ∷ body_of k polys x

append_each-map :
    (g : ℕ → List ℕ) (h : ℕ → ℕ) (xs : List ℕ)
    → append_each (map g xs) (map h xs) ≡ map (λ x. g x ++ h x ∷ []) xs
unfolding append_each
append_each-map g h [] = refl
append_each-map g h (x ∷ xs) = ap (◌∷◌ (g x ++ h x ∷ [])) (append_each-map g h xs)

map-cong : {A B : Type 0} (f g : A → B) (xs : List A) → ((a : A) → f a ≡ g a) → map f xs ≡ map g xs
map-cong f g [] h = refl
map-cong f g (x ∷ xs) h = rw (h x, map-cong f g xs h) refl

transpose-map :
    (g : ℕ → List ℕ) (xs : List ℕ) (polys : List (List ℕ))
    → transpose_into (map g xs) (map (λ p. map (evaluate p) xs) polys)
      ≡ map (λ x. g x ++ shard_of polys x) xs
unfolding transpose_into
transpose-map g xs [] = map-cong g _ xs (λ x. sym (append-nil (g x)))
transpose-map g xs (p ∷ polys) =
    ap (λ t. transpose_into t (map (λ p. map (evaluate p) xs) polys))
      (append_each-map g (evaluate p) xs)
    ∙ transpose-map (λ x. g x ++ evaluate p x ∷ []) xs polys
    ∙ map-cong _ _ xs (λ x. append_assoc (g x) (evaluate p x ∷ []) (shard_of polys x))

labelled-map :
    (k i n : ℕ) (g : ℕ → List ℕ)
    → labelled k i (map g (range_from (suc i) n))
      ≡ map (λ x. x ∷ v2_magic ++ k ∷ g x) (range_from (suc i) n)
unfolding labelled range_from
labelled-map k i zero g = refl
labelled-map k i (suc n) g =
    ap (◌∷◌ (suc i ∷ v2_magic ++ k ∷ g (suc i))) (labelled-map k (suc i) n g)

no_bytes : ℕ → List ℕ
no_bytes x = []

replicate-map : (i n : ℕ) → replicate n [] ≡ map no_bytes (range_from i n)
unfolding range_from no_bytes
replicate-map i zero = refl
replicate-map i (suc n) = ap (◌∷◌ []) (replicate-map (suc i) n)

-- Every share is its number, the magic, the threshold and the polynomials at the number.
pub deal-map :
    (urandom : ℕ → ℕ) (payload : List ℕ) (k n : ℕ)
    → deal urandom payload k n
      ≡ map (share_of k (polynomials urandom 0 (k - 1) payload)) (range_from 1 n)
unfolding deal no_bytes
deal-map urandom payload k n =
    let polys = polynomials urandom 0 (k - 1) payload in
    ap (λ t. labelled k 0 (transpose_into t (map (λ p. map (evaluate p) (range_from 1 n)) polys)))
      (replicate-map 1 n)
    ∙ ap (labelled k 0) (transpose-map no_bytes (range_from 1 n) polys)
    ∙ labelled-map k 0 n (shard_of polys)

-- A list of numbers that are bytes.
pub as_bytes : (ns : List ℕ) → All (λ n. n < 256) ns → (bs : List Byte) × (numbers bs ≡ ns)
as_bytes [] h = ([], refl)
as_bytes (n ∷ ns) (lt, h) = let w = as_bytes ns h in ((n, lt) ∷ w.0, ap (◌∷◌ n) w.1)

pub length-numbers : (bs : List Byte) → length (numbers bs) ≡ length bs
length-numbers [] = refl
length-numbers (b ∷ bs) = ap suc (length-numbers bs)

-- A polynomial over the field, its constant term apart, as the source's list.
abbrev pub coefficients : Byte × List Byte → List ℕ
coefficients q = numbers (q.0 ∷ q.1)

module _ (urandom : ℕ → ℕ) (bytes : (n : ℕ) → urandom n < 256) where
  pub draw-bytes :
      (i n : ℕ) → All (λ b. b < 256) (draw urandom i n) × (length (draw urandom i n) ≡ n)
  unfolding draw
  draw-bytes i zero = (tt, refl)
  draw-bytes i (suc n) = let w = draw-bytes (suc i) n in ((bytes i, w.0), ap suc w.1)

  -- The polynomials of a payload, as polynomials over the field.
  pub polynomials-bytes :
      (i d : ℕ) (payload : List Byte)
      → (qs : List (Byte × List Byte)) × (polynomials urandom i d (numbers payload)
          ≡ map coefficients qs)
        × (map (λ q. q.0) qs ≡ payload)
        × All (λ q. length q.1 ≡ d) qs
  unfolding polynomials
  polynomials-bytes i d [] = ([], refl, refl, tt)
  polynomials-bytes i d (b ∷ payload) =
      let w = polynomials-bytes (i + d) d payload in
      let drawn = draw-bytes i d in
      let r = as_bytes (draw urandom i d) drawn.0 in
      (
        (b, r.0) ∷ w.0,
        ap (λ t. (b.0 ∷ draw urandom i d) ∷ t) w.1
            ∙ ap (λ t. (b.0 ∷ t) ∷ map coefficients w.0) (sym r.1),
        ap (◌∷◌ b) w.2,
        (sym (length-numbers r.0) ∙ ap length r.1 ∙ drawn.1, w.3),
      )
