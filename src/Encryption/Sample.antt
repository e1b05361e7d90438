-- ===== src/Encryption/Sample.antt =====
-- A permutation and a box that stand for the ciphers of packages/core/src/core/engine/encryption.py in
-- the runs.
use venya.Prelude.{
  ℕ, ◌<◌, ◌≡◌, Option, none, some, List, [], ◌∷◌, ◌++◌, arith, ◌=?◌, if◌then◌else◌, length,
  length-append, take, drop, length-take, take-drop, length-drop, All-append, All-take, All-drop,
}
use venya.Encryption.Wrapping.{IsCipher, IsPair, take-first, drop-first}

-- The halves change places.
abbrev pub swapped : List ℕ → List ℕ → List ℕ
swapped key b = drop 8 b ++ take 8 b

swapped-IsPair : (key b : List ℕ) → IsPair b → IsPair (swapped key b)
swapped-IsPair key b (e, h) = (
  omega (
    arith,
    length-append (drop 8 b) (take 8 b),
    length-drop 8 b,
    length-take b 8 (omega (arith, e)),
    e,
  ),
  All-append (λ n. n < 256) (drop 8 b) (take 8 b) (All-drop (λ n. n < 256) 8 b h)
      (All-take (λ n. n < 256) 8 b h),
)

swapped_twice : (key b : List ℕ) → IsPair b → swapped key (swapped key b) ≡ b
swapped_twice key b (e, h) =
    let half : length (drop 8 b) ≡ 8 = omega (arith, length-drop 8 b, e) in
    rw (drop-first 8 (drop 8 b) (take 8 b) half, take-first 8 (drop 8 b) (take 8 b) half)
      (take-drop 8 b)

pub swapping : IsCipher swapped swapped
swapping = record {
  encrypt_pair = swapped-IsPair;
  decrypt_pair = swapped-IsPair;
  decrypt-encrypt = swapped_twice;
  encrypt-decrypt = swapped_twice;
}

-- A box that marks what it holds.
abbrev pub seal : List ℕ → List ℕ → List ℕ → List ℕ
seal key nonce value = 7 ∷ value

abbrev pub open_box : List ℕ → List ℕ → List ℕ → Option (List ℕ)
open_box key nonce [] = none
open_box key nonce (b ∷ bs) = if b =? 7 then some bs else none
