-- ===== src/Shamir/Tests.antt =====
-- Runs of packages/cli/src/venya_cli/shamir.py on a secret of two bytes.
use Prim.Native.Nat.{◌%◌}
use mathlib.Core.Equiv.{IsContr}
use mathlib.Core.List.{Memᴰ}
use venya.Prelude.{
  ℕ, zero, suc, ◌+◌, ◌*◌, ◌<◌, ◌≡◌, refl, ap, List, [], ◌∷◌, arith, length, All, replicate,
}
use venya.Shamir.{
  ok, err, below_threshold, threshold_above_shares, mixed_formats, duplicate_ids,
  integrity_check_failed, split, combine, gf256_mul,
}
use venya.Shamir.Roundtrip.{combine-split}
use venya.Shamir.TooFew.{combine-few}
use venya.Shamir.Hiding.{tapes-IsContr, IsTape}

-- A digest of 32 bytes, and bytes in place of the random ones.
abbrev digest : List ℕ → List ℕ
digest [] = replicate 32 0
digest (b ∷ bs) = replicate 32 (b % 256)

replicate-bytes : (n b : ℕ) → b < 256 → All (λ c. c < 256) (replicate n b)
replicate-bytes zero b lt = tt
replicate-bytes (suc n) b lt = (lt, replicate-bytes n b lt)

digest-bytes : (s : List ℕ) → (length (digest s) ≡ 32) × All (λ b. b < 256) (digest s)
digest-bytes [] = (refl, replicate-bytes 32 0 (omega arith))
digest-bytes (b ∷ bs) = (refl, replicate-bytes 32 (b % 256) (omega arith))

abbrev noise : ℕ → ℕ
noise n = (n * 37 + 11) % 256

noise-byte : (n : ℕ) → noise n < 256
noise-byte n = omega arith

abbrev secret : List ℕ
secret = 83 ∷ 51 ∷ []

abbrev first : List ℕ
first = 1 ∷ 86 ∷ 50 ∷ 2 ∷ 88 ∷ 99 ∷ 6 ∷ 41 ∷ 204 ∷ 247 ∷ []

abbrev second_share : List ℕ
second_share = 2 ∷ 86 ∷ 50 ∷ 2 ∷ 69 ∷ 51 ∷ 249 ∷ 167 ∷ 118 ∷ 160 ∷ []

abbrev third : List ℕ
third = 3 ∷ 86 ∷ 50 ∷ 2 ∷ 78 ∷ 3 ∷ 172 ∷ 221 ∷ 233 ∷ 100 ∷ []

dealt : split digest noise secret 2 3 ≡ ok (first ∷ second_share ∷ third ∷ [])
unfolding split
dealt = refl

refused_test : split digest noise secret 4 3 ≡ err threshold_above_shares
unfolding split
refused_test = refl

mixed_test : combine digest (first ∷ (2 ∷ 1 ∷ []) ∷ []) ≡ err mixed_formats
unfolding combine
mixed_test = refl

corrupt_test :
    combine digest (first ∷ (2 ∷ 86 ∷ 50 ∷ 2 ∷ 0 ∷ 0 ∷ 0 ∷ 0 ∷ 0 ∷ 0 ∷ []) ∷ [])
    ≡ err integrity_check_failed
unfolding combine
corrupt_test = refl

same_test : combine digest (first ∷ first ∷ []) ≡ err duplicate_ids
unfolding combine
same_test = refl

product_test : gf256_mul 0x53 0xca ≡ 1
unfolding gf256_mul
product_test = refl

abbrev number : List ℕ → ℕ
number [] = 0
number (b ∷ bs) = b

combine-split_example : combine digest (third ∷ first ∷ []) ≡ ok secret
combine-split_example =
    combine-split digest digest-bytes noise noise-byte secret (omega arith, (omega arith, tt)) 2 3
      (first ∷ second_share ∷ third ∷ []) (third ∷ first ∷ []) dealt
      (Memᴰ.tail (Memᴰ.tail (Memᴰ.head refl)), (Memᴰ.head refl, tt))
      (((λ e. absurd (omega (arith, ap number e))), tt), (tt, tt)) (omega arith)

-- A split that wants all three of its shares.
abbrev one_of_three : List ℕ
one_of_three = 1 ∷ 86 ∷ 50 ∷ 3 ∷ 104 ∷ 124 ∷ 8 ∷ 180 ∷ 56 ∷ 236 ∷ []

abbrev two_of_three : List ℕ
two_of_three = 2 ∷ 86 ∷ 50 ∷ 3 ∷ 133 ∷ 10 ∷ 75 ∷ 162 ∷ 78 ∷ 119 ∷ []

abbrev three_of_three : List ℕ
three_of_three = 3 ∷ 86 ∷ 50 ∷ 3 ∷ 190 ∷ 37 ∷ 16 ∷ 69 ∷ 37 ∷ 168 ∷ []

dealt_to_all :
    split digest noise secret 3 3 ≡ ok (one_of_three ∷ two_of_three ∷ three_of_three ∷ [])
unfolding split
dealt_to_all = refl

combine-few_example : combine digest (two_of_three ∷ one_of_three ∷ []) ≡ err (below_threshold 3 2)
combine-few_example =
    combine-few digest noise secret 3 3 (one_of_three ∷ two_of_three ∷ three_of_three ∷ [])
      (two_of_three ∷ one_of_three ∷ []) dealt_to_all
      (Memᴰ.tail (Memᴰ.head refl), (Memᴰ.head refl, tt))
      (((λ e. absurd (omega (arith, ap number e))), tt), (tt, tt)) (omega arith) (omega arith)

abbrev seen_bytes : ℕ → List ℕ
seen_bytes x = 9 ∷ 8 ∷ 7 ∷ 6 ∷ 5 ∷ 4 ∷ []

tapes-IsContr_example :
    IsContr ((w : List ℕ) × (IsTape digest secret 3 5 (2 ∷ 5 ∷ []) seen_bytes w))
tapes-IsContr_example =
    tapes-IsContr digest digest-bytes secret 3 5 (omega arith) (omega arith) (omega arith)
      (2 ∷ 5 ∷ []) (((omega arith), (omega arith)), ((omega arith, omega arith), tt)) refl
      seen_bytes (((λ e. absurd (omega (arith, e))), tt), (tt, tt)) (omega arith, (omega arith, tt))
      (λ x. omega arith) (λ x. refl)
