-- ===== src/Shamir/TooFew.antt =====
-- packages/cli/src/venya_cli/shamir.py, combine on fewer shares of a split than its threshold.
use mathlib.Core.List.{Memᴰ}
use venya.Prelude.{
  ℕ, ◌-◌, ◌≤◌, ◌<◌, ◌≡◌, refl, sym, ap, subst, ◌∙◌, inl, inr, true, List, [], ◌∷◌, ◌++◌, map, arith,
  ltb, Bool-cases, length, All, drop, Distinct,
}
use venya.Shamir.{
  ok, err, Failure, below_threshold, byte_at, starts_with, v2_magic, agreed, shards, same_lengths,
  every, some_of, polynomials, split, checksum, combine, combine_bodies,
}
use venya.Shamir.Bytes.{Byte, byte_field}
use venya.Shamir.Lagrange.{numbers}
use venya.Shamir.Dealing.{share_of, body_of, deal-map, length-numbers}
use venya.Shamir.Picked.{dealt-numbers, Distinct-image, set_of-Distinct, collect-map, every-map}
use venya.Shamir.Recovery.{accepted, length-map, map-map, map-id, set_of-same, same_lengths-dealt}
use venya.Shamir.Roundtrip.{split-accepts}

shards-few :
    (k : ℕ) (polys : List (List ℕ)) (n : ℕ) (ns : List ℕ)
    → length (n ∷ ns) < k
    → shards (map (body_of k polys) (n ∷ ns)) ≡ err (below_threshold k (length (n ∷ ns)))
unfolding shards agreed starts_with byte_at
shards-few k polys n ns few =
    let below : ltb (length (map (body_of k polys) (n ∷ ns))) k ≡ true =
      ground (arith, few, length-map (body_of k polys) (n ∷ ns)) in
    rw
      (
        every-map (starts_with v2_magic) (body_of k polys) ns (λ x. refl),
        collect-map (byte_at 2) (body_of k polys) (λ x. k) (n ∷ ns) (λ x. refl),
        set_of-same k n ns,
        below,
        length-map (body_of k polys) ns,
      )
      refl

module _ (sha256 : List ℕ → List ℕ) where
  refused_bodies :
      (ids : List ℕ) (bodies : List (List ℕ)) (e : Failure)
      → every (starts_with v2_magic) bodies ≡ true
      → same_lengths bodies ≡ true
      → shards bodies ≡ err e
      → combine_bodies sha256 ids bodies ≡ err e
  unfolding combine_bodies
  refused_bodies ids bodies e v2 same found =
      rw (v2, same, found)
        (elim (Bool-cases (some_of (starts_with v2_magic) bodies)) [
          | inl e ↦ rw e refl
          | inr e ↦ rw e refl
        ])

  few-numbered :
      (k : ℕ) (polys : List (List ℕ)) (xs : List Byte)
      → 2 ≤ length xs
      → Distinct xs
      → length xs < k
      → combine sha256 (map (share_of k polys) (numbers xs)) ≡ err (below_threshold k (length xs))
  unfolding byte_at starts_with
  few-numbered k polys [] two h few = absurd (omega arith)
  few-numbered k polys (x ∷ xs) two h few =
      let ns = numbers (x ∷ xs) in
      accepted sha256 (map (share_of k polys) ns) ns
        (omega (arith, two, length-map (share_of k polys) (numbers xs), length-numbers xs))
        (collect-map (byte_at 0) (share_of k polys) (λ n. n) ns (λ n. refl) ∙ ap ok (map-id ns))
        (ap length (set_of-Distinct (x ∷ xs) h) ∙ sym (length-map (share_of k polys) ns))
      ∙ ap (combine_bodies sha256 ns) (map-map (drop 1) (share_of k polys) ns)
      ∙ refused_bodies ns (map (body_of k polys) ns) _
          (every-map (starts_with v2_magic) (body_of k polys) ns (λ n. refl))
          (same_lengths-dealt k polys ns)
          (shards-few k polys x.0 (numbers xs) (omega (arith, few, length-numbers xs)))
      ∙ ap (λ t. err (below_threshold k t)) (length-numbers (x ∷ xs))

  -- Fewer different shares of one split than its threshold, but at least two, are refused with the
  -- threshold and their number, whatever the secret and the random bytes.
  pub combine-few :
      (urandom : ℕ → ℕ) (secret : List ℕ) (threshold n : ℕ) (shares picked : List (List ℕ))
      → split sha256 urandom secret threshold n ≡ ok shares
      → All (λ s. Memᴰ s shares) picked
      → Distinct picked
      → 2 ≤ length picked
      → length picked < threshold
      → combine sha256 picked ≡ err (below_threshold threshold (length picked))
  combine-few urandom secret k n shares picked h from distinct two few =
      let w = split-accepts sha256 urandom secret k n shares h in
      let polys = polynomials urandom 0 (k - 1) (checksum sha256 secret ++ secret) in
      let form = sym w.2 ∙ deal-map urandom (checksum sha256 secret ++ secret) k n in
      let xs =
        dealt-numbers (share_of k polys) n picked w.1
          (subst (λ t. All (λ s. Memᴰ s t) picked) form from) in
      let many : length picked ≡ length xs.0 =
        ap length xs.1 ∙ length-map (share_of k polys) (numbers xs.0) ∙ length-numbers xs.0 in
      ap (combine sha256) xs.1
      ∙ few-numbered k polys xs.0 (subst (λ t. 2 ≤ t) many two)
          (Distinct-image (share_of k polys) xs.0 (subst Distinct xs.1 distinct))
          (subst (λ t. t < k) many few)
      ∙ ap (λ t. err (below_threshold k t)) (sym many)
