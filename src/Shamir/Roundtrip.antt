-- ===== src/Shamir/Roundtrip.antt =====
-- packages/cli/src/venya_cli/shamir.py, split and combine together.
use mathlib.Core.List.{Memᴰ}
use venya.Prelude.{
  ℕ, suc, ◌-◌, ◌≤◌, ◌<◌, ◌≡◌, refl, sym, ap, subst, ◌∙◌, Bool, true, false, List, [], ◌∷◌, ◌++◌,
  map, arith, ltb, if◌then◌else◌, length, All, Apart, Distinct, All-append, All-take,
}
use venya.Shamir.{
  ok, err, Failure, threshold_too_small, threshold_above_shares, too_many_shares, polynomials,
  range_from, deal, split, checksum, combine, verified,
}
use venya.Shamir.Bytes.{Byte, byte_field}
use venya.Shamir.Lagrange.{numbers}
use venya.Shamir.Dealing.{
  share_of, deal-map, coefficients, polynomials-bytes, as_bytes, length-numbers,
}
use venya.Shamir.Picked.{dealt-numbers, Distinct-image}
use venya.Shamir.Recovery.{combine-dealt, verified-payload, length-map}

passed_checks :
    {A : Type 0} (a b c : Bool) (e f g : Failure) (v w : A)
    → (if a then err e else if b then err f else if c then err g else ok v) ≡ ok w
    → (a ≡ false) × (b ≡ false) × (c ≡ false) × (v ≡ w)
passed_checks true b c e f g v w h = cc
passed_checks false true c e f g v w h = cc
passed_checks false false true e f g v w h = cc
passed_checks false false false e f g v w h = (refl, refl, refl, cc)

-- What split has checked when it returns.
pub split-accepts :
    (sha256 : List ℕ → List ℕ) (urandom : ℕ → ℕ) (secret : List ℕ) (k n : ℕ)
    (shares : List (List ℕ))
    → split sha256 urandom secret k n ≡ ok shares
    → (2 ≤ k) × (n ≤ 255) × (deal urandom (checksum sha256 secret ++ secret) k n ≡ shares)
unfolding split
split-accepts sha256 urandom secret k n shares h =
    let w =
      passed_checks (ltb k 2) (ltb n k) (ltb 255 n) threshold_too_small threshold_above_shares
        too_many_shares (deal urandom (checksum sha256 secret ++ secret) k n) shares h in
    (ground (arith, w.0), ground (arith, w.2), w.3)

-- Shares with distinct nonzero numbers, at least two of them.
combine-numbered :
    (sha256 : List ℕ → List ℕ) (k : ℕ) (qs : List (Byte × List Byte)) (xs : List Byte)
    → 2 ≤ k
    → All (λ q. suc (length q.1) ≤ k) qs
    → Distinct xs
    → Apart byte_field.zero xs
    → k ≤ length xs
    → combine sha256 (map (share_of k (map coefficients qs)) (numbers xs))
      ≡ verified sha256 true (numbers (map (λ q. q.0) qs))
combine-numbered sha256 k qs [] two le h apart enough = absurd (omega arith)
combine-numbered sha256 k qs (x ∷ []) two le h apart enough = absurd (omega arith)
combine-numbered sha256 k qs (x ∷ y ∷ xs) two le h apart enough =
    combine-dealt k qs le sha256 x y xs h apart enough

degrees :
    (k : ℕ) (qs : List (Byte × List Byte))
    → 2 ≤ k
    → All (λ q. length q.1 ≡ k - 1) qs
    → All (λ q. suc (length q.1) ≤ k) qs
degrees k [] two h = tt
degrees k (q ∷ qs) two (e, h) = (omega (arith, e), degrees k qs two h)

module _ (sha256 : List ℕ → List ℕ)
    (digest : (s : List ℕ) → (length (sha256 s) ≡ 32) × All (λ b. b < 256) (sha256 s))
    (urandom : ℕ → ℕ) (bytes : (n : ℕ) → urandom n < 256) (secret : List ℕ)
    (secret_bytes : All (λ b. b < 256) secret) where
  payload-bytes : All (λ b. b < 256) (checksum sha256 secret ++ secret)
  unfolding checksum
  payload-bytes =
      All-append (λ b. b < 256) (checksum sha256 secret) secret
        (All-take (λ b. b < 256) 4 (sha256 secret) (digest secret).1) secret_bytes

  -- At least threshold many different shares of one split, in any order, give the secret back: for
  -- bytes as the secret, whatever bytes os.urandom returns, and a digest of 32 bytes.
  pub combine-split :
      (threshold n : ℕ) (shares picked : List (List ℕ))
      → split sha256 urandom secret threshold n ≡ ok shares
      → All (λ s. Memᴰ s shares) picked
      → Distinct picked
      → threshold ≤ length picked
      → combine sha256 picked ≡ ok secret
  combine-split k n shares picked h from distinct enough =
      let w = split-accepts sha256 urandom secret k n shares h in
      let payload = checksum sha256 secret ++ secret in
      let p = as_bytes payload payload-bytes in
      let q = polynomials-bytes urandom bytes 0 (k - 1) p.0 in
      let share = share_of k (map coefficients q.0) in
      let form : shares ≡ map share (range_from 1 n) =
        sym w.2
        ∙ deal-map urandom payload k n
        ∙ ap (λ t. map (share_of k t) (range_from 1 n))
            (ap (polynomials urandom 0 (k - 1)) (sym p.1) ∙ q.1) in
      let xs =
        dealt-numbers share n picked w.1 (subst (λ t. All (λ s. Memᴰ s t) picked) form from) in
      ap (combine sha256) xs.1
      ∙ combine-numbered sha256 k q.0 xs.0 w.0 (degrees k q.0 w.0 q.3)
          (Distinct-image share xs.0 (subst Distinct xs.1 distinct)) xs.2
          (subst (λ t. k ≤ t)
            (ap length xs.1 ∙ length-map share (numbers xs.0) ∙ length-numbers xs.0) enough)
      ∙ ap (verified sha256 true) (ap numbers q.2 ∙ p.1)
      ∙ verified-payload sha256 (λ s. (digest s).0) secret
