-- ===== src/Shamir/Recovery.antt =====
-- packages/cli/src/venya_cli/shamir.py, combine on shares of one split.
use mathlib.Core.List.{append_assoc}
use venya.Prelude.{
  ℕ, suc, ◌≤◌, ◌≡◌, refl, sym, ap, subst, ◌∙◌, inl, inr, true, false, List, [], ◌∷◌, ◌++◌, map,
  arith, ltb, ◌=?◌, Bool-cases, length, length-append, All, take, drop, Apart, Distinct,
  same_bytes_refl, take-append, drop-append, length-take,
}
use venya.Prelude.{same_bytes_refl, take-append, drop-append, length-take}
use venya.Shamir.{
  Result, ok, ◌>>=◌, collect, byte_at, evaluate, range_from, checksum, set_of, starts_with,
  v2_magic, agreed, shards, points_at, reconstruct, same_lengths, verified, combine, combine_bodies,
  every, some_of, lagrange_interpolate,
}
use venya.Shamir.Interpolation.{value}
use venya.Shamir.Bytes.{Byte, byte_field}
use venya.Shamir.Lagrange.{numbers, evaluate-value, points, interpolate-constant}
use venya.Shamir.Dealing.{shard_of, body_of, share_of, length-numbers, coefficients}
use venya.Shamir.Picked.{set_of-Distinct, collect-map, every-map}

byte_at-middle :
    (before after : List (List ℕ)) (p : List ℕ) (x : ℕ)
    → byte_at (length before) (shard_of (before ++ p ∷ after) x) ≡ ok (evaluate p x)
unfolding byte_at
byte_at-middle [] after p x = refl
byte_at-middle (b ∷ before) after p x = byte_at-middle before after p x

points_at-dealt :
    (pos : ℕ) (g : ℕ → List ℕ) (h : ℕ → ℕ) (ns : List ℕ)
    → ((x : ℕ) → byte_at pos (g x) ≡ ok (h x))
    → points_at pos ns (map g ns) ≡ ok (map (λ x. (x, h x)) ns)
unfolding points_at
points_at-dealt pos g h [] eq = refl
points_at-dealt pos g h (n ∷ ns) eq = rw (eq n, points_at-dealt pos g h ns eq) refl

points-value :
    (q : Byte × List Byte) (xs : List Byte)
    → map (λ x. (x, evaluate (coefficients q) x)) (numbers xs) ≡ points (value (q.0 ∷ q.1)) xs
points-value q [] = refl
points-value q (x ∷ xs) =
    ap (λ t. (x.0, t) ∷ map (λ x. (x, evaluate (coefficients q) x)) (numbers xs))
      (evaluate-value (q.0 ∷ q.1) x)
    ∙ ap (◌∷◌ (x.0, (value (q.0 ∷ q.1) x).0)) (points-value q xs)

module _ (k : ℕ) (xs : List Byte) (distinct : Distinct xs) (apart : Apart byte_field.zero xs)
    (enough : k ≤ length xs) where
  interpolated : List (List ℕ) → ℕ → Result ℕ
  interpolated bodies pos = points_at pos (numbers xs) bodies >>= λ ps. lagrange_interpolate ps 0

  -- At one position, interpolation gives the constant term.
  interpolated-position :
      (before after : List (List ℕ)) (q : Byte × List Byte)
      → suc (length q.1) ≤ k
      → interpolated
          (map (shard_of (before ++ coefficients q ∷ after)) (numbers xs))
          (length before)
        ≡ ok q.0.0
  unfolding interpolated
  interpolated-position before after q le =
      ap (λ t. t >>= λ ps. lagrange_interpolate ps 0)
        (points_at-dealt (length before) (shard_of (before ++ coefficients q ∷ after))
          (evaluate (coefficients q)) (numbers xs) (byte_at-middle before after (coefficients q)))
      ∙ ap (λ ps. lagrange_interpolate ps 0) (points-value q xs)
      ∙ interpolate-constant q.0 q.1 xs (omega (arith, enough, le)) distinct apart

  -- So do all positions from one on.
  collected :
      (before : List (List ℕ)) (qs : List (Byte × List Byte)) (polys : List (List ℕ))
      → before ++ map coefficients qs ≡ polys
      → All (λ q. suc (length q.1) ≤ k) qs
      → collect
          (interpolated (map (shard_of polys) (numbers xs)))
          (range_from (length before) (length qs))
        ≡ ok (numbers (map (λ q. q.0) qs))
  unfolding collect range_from
  collected before [] polys e le = refl
  collected before (q ∷ qs) polys e (le, les) =
      let p = coefficients q in
      let f = interpolated (map (shard_of polys) (numbers xs)) in
      let here =
        subst (λ t. interpolated (map (shard_of t) (numbers xs)) (length before) ≡ ok q.0.0) e
          (interpolated-position before (map coefficients qs) q le) in
      let later =
        subst (λ t. collect f (range_from t (length qs)) ≡ ok (numbers (map (λ q. q.0) qs)))
          (length-append before (p ∷ []) ∙ omega arith)
          (collected (before ++ p ∷ []) qs polys
            (append_assoc before (p ∷ []) (map coefficients qs) ∙ e) les) in
      ap
        (λ t.
          t >>= λ b. collect f (range_from (suc (length before)) (length qs)) >>= λ bs. ok (b ∷ bs))
        here
      ∙ ap (λ t. t >>= λ bs. ok (q.0.0 ∷ bs)) later

pub map-id : (ns : List ℕ) → map (λ n. n) ns ≡ ns
map-id [] = refl
map-id (n ∷ ns) = ap (◌∷◌ n) (map-id ns)

pub length-map : {A B : Type 0} (f : A → B) (l : List A) → length (map f l) ≡ length l
length-map f [] = refl
length-map f (a ∷ l) = ap suc (length-map f l)

pub map-map :
    {A B C : Type 0} (g : B → C) (f : A → B) (l : List A) → map g (map f l) ≡ map (λ a. g (f a)) l
map-map g f [] = refl
map-map g f (a ∷ l) = ap (◌∷◌ (g (f a))) (map-map g f l)

-- The markers agree.
pub set_of-same : (k n : ℕ) (ns : List ℕ) → set_of (map (λ x. k) (n ∷ ns)) ≡ k ∷ []
unfolding set_of
set_of-same k n [] = refl
set_of-same k n (m ∷ ns) = rw (set_of-same k m ns) (ground arith)

pub same_lengths-dealt :
    (k : ℕ) (polys : List (List ℕ)) (ns : List ℕ) → same_lengths (map (body_of k polys) ns) ≡ true
unfolding same_lengths
same_lengths-dealt k polys [] = refl
same_lengths-dealt k polys (n ∷ ns) =
    every-map (λ c. length c =? length (body_of k polys n)) (body_of k polys) (n ∷ ns)
      (λ x.
        ground (arith, length-map (λ p. evaluate p x) polys, length-map (λ p. evaluate p n) polys))

shards-dealt :
    (k : ℕ) (polys : List (List ℕ)) (n : ℕ) (ns : List ℕ)
    → k ≤ length (n ∷ ns)
    → shards (map (body_of k polys) (n ∷ ns)) ≡ ok (map (shard_of polys) (n ∷ ns))
unfolding shards agreed starts_with byte_at
shards-dealt k polys n ns le =
    let below : ltb (length (map (body_of k polys) (n ∷ ns))) k ≡ false =
      ground (arith, le, length-map (body_of k polys) (n ∷ ns)) in
    rw
      (
        every-map (starts_with v2_magic) (body_of k polys) ns (λ x. refl),
        collect-map (byte_at 2) (body_of k polys) (λ x. k) (n ∷ ns) (λ x. refl),
        set_of-same k n ns,
        below,
      )
      (ap ok (map-map (drop 3) (body_of k polys) (n ∷ ns)))

module _ (sha256 : List ℕ → List ℕ) (digest : (s : List ℕ) → length (sha256 s) ≡ 32) where
  checksum-length : (s : List ℕ) → length (checksum sha256 s) ≡ 4
  unfolding checksum
  checksum-length s = length-take (sha256 s) 4 (omega (arith, digest s))

  pub verified-payload : (s : List ℕ) → verified sha256 true (checksum sha256 s ++ s) ≡ ok s
  unfolding verified
  verified-payload s =
      let c = checksum sha256 s in
      let secret = subst (λ t. drop t (c ++ s) ≡ s) (checksum-length s) (drop-append c s) in
      let sum = subst (λ t. take t (c ++ s) ≡ c) (checksum-length s) (take-append c s) in
      rw (secret, sum, same_bytes_refl c) refl

module _ (sha256 : List ℕ → List ℕ) where
  -- What combine does when its checks pass.
  pub accepted :
      (shares : List (List ℕ)) (ids : List ℕ)
      → 2 ≤ length shares
      → collect (byte_at 0) shares ≡ ok ids
      → length (set_of ids) ≡ length shares
      → combine sha256 shares ≡ combine_bodies sha256 ids (map (drop 1) shares)
  unfolding combine
  accepted shares ids two known distinct =
      let many : ltb (length shares) 2 ≡ false = ground (arith, two) in
      let same : (length (set_of ids) =? length shares) ≡ true = ground (arith, distinct) in
      rw (many, known, same) refl

  accepted_bodies :
      (ids : List ℕ) (bodies shard_body : List (List ℕ)) (r : List ℕ)
      → every (starts_with v2_magic) bodies ≡ true
      → same_lengths bodies ≡ true
      → shards bodies ≡ ok shard_body
      → reconstruct ids shard_body ≡ ok r
      → combine_bodies sha256 ids bodies ≡ verified sha256 true r
  unfolding combine_bodies
  accepted_bodies ids bodies shard_body r v2 same found known =
      rw (v2, same, found, known)
        (elim (Bool-cases (some_of (starts_with v2_magic) bodies)) [
          | inl e ↦ rw e refl
          | inr e ↦ rw e refl
        ])

module _ (k : ℕ) (qs : List (Byte × List Byte)) (le : All (λ q. suc (length q.1) ≤ k) qs) where
  abbrev pub polys : List (List ℕ)
  polys = map coefficients qs

  reconstruct-dealt :
      (x : Byte) (xs : List Byte)
      → Distinct (x ∷ xs)
      → Apart byte_field.zero (x ∷ xs)
      → k ≤ length (x ∷ xs)
      → reconstruct (numbers (x ∷ xs)) (map (shard_of polys) (numbers (x ∷ xs)))
        ≡ ok (numbers (map (λ q. q.0) qs))
  unfolding reconstruct interpolated range_from
  reconstruct-dealt x xs h apart enough =
      subst
        (λ t.
          collect (interpolated k (x ∷ xs) h apart enough (map (shard_of polys) (numbers (x ∷ xs))))
            (range_from 0 t)
          ≡ ok (numbers (map (λ q. q.0) qs)))
        (sym (length-map (λ p. evaluate p x.0) polys ∙ length-map coefficients qs))
        (collected k (x ∷ xs) h apart enough [] qs polys refl le)

  module _ (sha256 : List ℕ → List ℕ) where
    pub combine-dealt :
        (x y : Byte) (xs : List Byte)
        → Distinct (x ∷ y ∷ xs)
        → Apart byte_field.zero (x ∷ y ∷ xs)
        → k ≤ length (x ∷ y ∷ xs)
        → combine sha256 (map (share_of k polys) (numbers (x ∷ y ∷ xs)))
          ≡ verified sha256 true (numbers (map (λ q. q.0) qs))
    unfolding byte_at starts_with
    combine-dealt x y xs h apart enough =
        let all = x ∷ y ∷ xs in
        let ns = numbers all in
        accepted sha256 (map (share_of k polys) ns) ns (omega arith)
          (collect-map (byte_at 0) (share_of k polys) (λ n. n) ns (λ n. refl) ∙ ap ok (map-id ns))
          (ap length (set_of-Distinct all h) ∙ sym (length-map (share_of k polys) ns))
        ∙ ap (combine_bodies sha256 ns) (map-map (drop 1) (share_of k polys) ns)
        ∙ accepted_bodies sha256 ns (map (body_of k polys) ns) (map (shard_of polys) ns) _
            (every-map (starts_with v2_magic) (body_of k polys) ns (λ n. refl))
            (same_lengths-dealt k polys ns)
            (shards-dealt k polys x.0 (numbers (y ∷ xs)) (omega (arith, enough, length-numbers xs)))
            (reconstruct-dealt x (y ∷ xs) h apart enough)
