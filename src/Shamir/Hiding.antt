-- ===== src/Shamir/Hiding.antt =====
-- packages/cli/src/venya_cli/shamir.py, split: what one share less than the threshold tells of the
-- secret.
use mathlib.Core.Equiv.{IsContr}
use mathlib.Core.Option.{is_set as option_set}
use mathlib.Core.List.{is_set as list_set}
use native.Mathlib.Nat.{ℕ_set}
use native.Mathlib.Bridge.{le_prop}
use cubical.Cubical.Data.Sigma.Properties.{Σ≡Prop}
use venya.Prelude.{
  ℕ, zero, suc, ◌+◌, ◌-◌, ◌*◌, ◌≤◌, ◌<◌, ◌≡◌, sym, ap, subst, ◌∙◌, false, Option, none, some, List,
  [], ◌∷◌, ◌++◌, map, arith, ltb, length, length-append, All, take, drop, Distinct, length-take,
  All-append, All-take,
}
use venya.Shamir.{polynomials, Result, ok, err, range_from, split, checksum, v2_magic}
use venya.Shamir.Tape.{tape}
use venya.Shamir.Dealing.{shard_of, share_of, deal-map}
use venya.Shamir.Secrecy.{All-prop}
use venya.Shamir.OnlyTape.{IsByte, total, Shows, All-map, All-zip, only_tape}

total-mul : (d : ℕ) (payload : List ℕ) → total d payload ≡ d * length payload
total-mul d [] = grind arith
total-mul d (b ∷ payload) = grind (arith, total-mul d payload)

nth : ℕ → List (List ℕ) → Option (List ℕ)
nth i [] = none
nth zero (s ∷ ss) = some s
nth (suc i) (s ∷ ss) = nth i ss

-- The share with this number.
pub numbered : ℕ → Result (List (List ℕ)) → Option (List ℕ)
unfolding nth
numbered x (err e) = none
numbered x (ok shares) = nth (x - 1) shares

nth-map : (f : ℕ → List ℕ) (a i n : ℕ) → i < n → nth i (map f (range_from a n)) ≡ some (f (a + i))
unfolding nth range_from
nth-map f a i zero h = absurd (omega (arith, h))
nth-map f a zero (suc n) h = let same : a ≡ a + 0 = omega arith in ap (λ x. some (f x)) same
nth-map f a (suc i) (suc n) h =
    let same : suc a + i ≡ a + suc i = omega arith in
    nth-map f (suc a) i n (omega (arith, h)) ∙ ap (λ x. some (f x)) same

numbered-split :
    (sha256 : List ℕ → List ℕ) (urandom : ℕ → ℕ) (secret : List ℕ) (k n x : ℕ)
    → 2 ≤ k
    → k ≤ n
    → n ≤ 255
    → 1 ≤ x
    → x ≤ n
    → numbered x (split sha256 urandom secret k n)
      ≡ some (share_of k (polynomials urandom 0 (k - 1) (checksum sha256 secret ++ secret)) x)
unfolding split numbered
numbered-split sha256 urandom secret k n x two le many pos below =
    let payload = checksum sha256 secret ++ secret in
    let a : ltb k 2 ≡ false = ground (arith, two) in
    let b : ltb n k ≡ false = ground (arith, le) in
    let c : ltb 255 n ≡ false = ground (arith, many) in
    let same : 1 + (x - 1) ≡ x = omega (arith, pos) in
    let polys = polynomials urandom 0 (k - 1) payload in
    rw (a, b, c)
      (ap (nth (x - 1)) (deal-map urandom payload k n)
        ∙ nth-map (share_of k polys) 1 (x - 1) n (omega (arith, pos, below))
        ∙ ap (λ y. some (share_of k polys y)) same)

-- As many random bytes as a split draws, with which its shares of these numbers are those with the
-- bytes that were seen.
abbrev pub IsTape :
    (sha256 : List ℕ → List ℕ) (secret : List ℕ) (threshold n : ℕ) (ids : List ℕ)
    (seen : ℕ → List ℕ)
    → List ℕ
    → Type 0
IsTape sha256 secret k n ids seen w =
    All IsByte w
    × (length w ≡ (k - 1) * (4 + length secret))
    × All (λ x. numbered x (split sha256 (tape w) secret k n) ≡ some (x ∷ v2_magic ++ k ∷ seen x))
        ids

share_bytes : Option (List ℕ) → List ℕ
share_bytes none = []
share_bytes (some s) = drop 4 s

module _ (sha256 : List ℕ → List ℕ)
    (digest : (s : List ℕ) → (length (sha256 s) ≡ 32) × All IsByte (sha256 s)) (secret : List ℕ)
    (k n : ℕ) (two : 2 ≤ k) (le : k ≤ n) (many : n ≤ 255) (ids : List ℕ)
    (among : All (λ x. (1 ≤ x) × (x ≤ n)) ids) (short : suc (length ids) ≡ k)
    (seen : ℕ → List ℕ) where
  payload : List ℕ
  payload = checksum sha256 secret ++ secret

  length-payload : length payload ≡ 4 + length secret
  unfolding payload checksum
  length-payload =
      length-append (take 4 (sha256 secret)) secret
      ∙ omega (arith, length-take (sha256 secret) 4 (omega (arith, (digest secret).0)))

  -- What the shares are, and what the random bytes of a split are, by the polynomials.
  shown :
      (w : List ℕ)
      → All
          (λ x. numbered x (split sha256 (tape w) secret k n) ≡ some (x ∷ v2_magic ++ k ∷ seen x))
          ids
      → Shows (length ids) ids payload seen w
  unfolding share_bytes payload
  shown w h =
      All-zip ids
        (λ x b e.
          let same : k - 1 ≡ length ids = omega (arith, short) in
          subst (λ d. shard_of (polynomials (tape w) 0 d payload) x ≡ seen x) same
            (ap share_bytes
              (sym (numbered-split sha256 (tape w) secret k n x two le many b.0 b.1) ∙ e)))
        among h

  showing :
      (w : List ℕ)
      → Shows (length ids) ids payload seen w
      → All
          (λ x. numbered x (split sha256 (tape w) secret k n) ≡ some (x ∷ v2_magic ++ k ∷ seen x))
          ids
  unfolding payload
  showing w h =
      All-zip ids
        (λ x b e.
          let same : length ids ≡ k - 1 = omega (arith, short) in
          numbered-split sha256 (tape w) secret k n x two le many b.0 b.1
          ∙ ap (λ t. some (x ∷ v2_magic ++ k ∷ t))
              (subst (λ d. shard_of (polynomials (tape w) 0 d payload) x ≡ seen x) same e))
        among h

  drawn : total (length ids) payload ≡ (k - 1) * (4 + length secret)
  drawn =
      let same : length ids ≡ k - 1 = omega (arith, short) in
      total-mul (length ids) payload
      ∙ ap (λ d. d * length payload) same
      ∙ ap (λ m. (k - 1) * m) length-payload

  IsTape-prop : (w : List ℕ) → IsProp (IsTape sha256 secret k n ids seen w)
  IsTape-prop w = λ p q i. (
    All-prop IsByte w (λ b. le_prop) p.0 q.0 i,
    ℕ_set _ _ p.1 q.1 i,
    All-prop
        (λ x. numbered x (split sha256 (tape w) secret k n) ≡ some (x ∷ v2_magic ++ k ∷ seen x)) ids
        (λ x. option_set (list_set ℕ_set) _ _) p.2 q.2 i,
  )

  -- One share less than the threshold says nothing of the secret: for any shares at so many different
  -- numbers, and any secret of their length, there is exactly one list of random bytes with which
  -- split deals those shares of that secret. The threshold and the count are ones that split takes,
  -- the secret and the shares consist of bytes, and the digest has 32 bytes.
  pub tapes-IsContr :
      Distinct ids
      → All IsByte secret
      → ((x : ℕ) → All IsByte (seen x))
      → ((x : ℕ) → length (seen x) ≡ 4 + length secret)
      → IsContr ((w : List ℕ) × IsTape sha256 secret k n ids seen w)
  unfolding payload checksum
  tapes-IsContr distinct secret_bytes seen_bytes seen_long =
      let o =
        only_tape ids (All-map ids (λ x b. omega (arith, many, b.1)) among)
          (All-map ids (λ x b. b.0) among) distinct payload seen
          (All-append IsByte (checksum sha256 secret) secret
            (All-take IsByte 4 (sha256 secret) (digest secret).1) secret_bytes)
          seen_bytes (λ x. seen_long x ∙ sym length-payload) in
      (
        (o.w, (o.bytes, o.long ∙ drawn, showing o.w o.shows)),
        λ c.
            Σ≡Prop IsTape-prop {u = c} {v = (o.w, (o.bytes, o.long ∙ drawn, showing o.w o.shows))}
              (o.only c.0 c.1.0 (c.1.1 ∙ sym drawn) (shown c.0 c.1.2)),
      )
