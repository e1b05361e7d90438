-- ===== src/Shamir.antt =====
-- packages/cli/src/venya_cli/shamir.py: Shamir's secret sharing over the field of 256 elements.
-- A byte is a number, `bytes` a list of them. SHA-256 (hashlib) and the bytes that os.urandom
-- returns, numbered in the order of the calls, are arguments.
mod Products
mod Factors
mod Field
mod Weights
mod Interpolation
mod Fitting
mod Bytes
mod Lagrange
mod Dealing
mod Picked
mod Recovery
mod Roundtrip
mod TooFew
mod Tape
mod OnlyTape
mod Hiding
mod Secrecy
mod Tests
use Prim.Native.Nat.{bit_and, bit_xor}
use mathlib.Core.List.{reverse}
use venya.Prelude.{
  ℕ, zero, suc, ◌+◌, ◌-◌, ◌*◌, ◌/◌, ◌≤◌, ◌<◌, min, max, String, ◌≡◌, refl, sym, ap, subst, ◌∙◌, ◌≢◌,
  ◌↔◌, ◌⊎◌, inl, inr, Bool, true, false, ◌&&◌, ◌||◌, not, Option, none, some, List, [], ◌∷◌, ◌++◌,
  map, arith, ◌==◌, eq_iff, second, ltb, leb, ◌=?◌, if◌then◌else◌, Bool-cases, Option-cases, length,
  select, length-append, length-select-le, select-append, All, replicate, length-replicate, take,
  drop, Apart, Distinct, same_bytes, same_bytes_refl, take-append, drop-append, length-take,
}

-- The ValueErrors by their messages, and the IndexError of a byte that is not there.
pub data Failure : Type 0 where
  cannot_invert_zero : Failure
  threshold_too_small : Failure
  threshold_above_shares : Failure
  too_many_shares : Failure
  too_few_shares : Failure
  duplicate_ids : Failure
  mixed_formats : Failure
  inconsistent_lengths : Failure
  inconsistent_thresholds : Failure
  below_threshold : ℕ → ℕ → Failure
  integrity_check_failed : Failure
  index_error : Failure

pub data Result {ℓ} (A : Type ℓ) : Type ℓ where
  ok : A → Result A
  err : Failure → Result A

infixl 5 ◌>>=◌
abbrev pub ◌>>=◌ {ℓ κ} : {A : Type ℓ} {B : Type κ} → Result A → (A → Result B) → Result B
ok a >>= f = f a
err e >>= f = err e

-- [f(x) for x in xs], which stops at the first exception.
unfoldable pub collect {ℓ κ} : {A : Type ℓ} {B : Type κ} → (A → Result B) → List A → Result (List B)
collect f [] = ok []
collect f (x ∷ xs) = f x >>= λ b. collect f xs >>= λ bs. ok (b ∷ bs)

-- xs[n]
unfoldable pub byte_at : ℕ → List ℕ → Result ℕ
byte_at n [] = err index_error
byte_at zero (b ∷ bs) = ok b
byte_at (suc n) (b ∷ bs) = byte_at n bs

-- The field of 256 elements.
unfoldable pub gf256_add : ℕ → ℕ → ℕ
gf256_add a b = bit_xor a b

-- a <<= 1, then the modulus when that overflows a byte.
unfoldable pub doubled : ℕ → ℕ
doubled a = let d = a * 2 in if not (bit_and d 0x100 =? 0) then bit_xor d 0x11b else d

-- The rounds of the Russian peasant, with the result so far.
unfoldable pub mul_rounds : ℕ → ℕ → ℕ → ℕ → ℕ
unfolding gf256_add doubled
mul_rounds zero result a b = result
mul_rounds (suc n) result a b =
    mul_rounds n (if not (bit_and b 1 =? 0) then gf256_add result a else result) (doubled a) (b / 2)

unfoldable pub gf256_mul : ℕ → ℕ → ℕ
unfolding mul_rounds
gf256_mul a b = mul_rounds 8 0 a b

unfoldable pub inv_rounds : ℕ → ℕ → ℕ → ℕ
unfolding gf256_mul
inv_rounds zero result base = result
inv_rounds (suc n) result base =
    let base = gf256_mul base base in inv_rounds n (gf256_mul result base) base

unfoldable pub gf256_inv : ℕ → Result ℕ
unfolding inv_rounds
gf256_inv a = if a =? 0 then err cannot_invert_zero else ok (inv_rounds 7 1 a)

-- The inner loop for share `i` at `x_i`: the numerator and the denominator, from share `j` on.
unfoldable pub quotient_at : (x i x_i j : ℕ) → List (ℕ × ℕ) → ℕ × ℕ → ℕ × ℕ
unfolding gf256_mul gf256_add
quotient_at x i x_i j [] q = q
quotient_at x i x_i j ((x_j, y_j) ∷ ps) q =
    let next =
      if i =? j then q else (gf256_mul q.0 (gf256_add x x_j), gf256_mul q.1 (gf256_add x_i x_j)) in
    quotient_at x i x_i (suc j) ps next

-- The outer loop from share `i` on.
unfoldable pub interpolate_from : List (ℕ × ℕ) → (x i result : ℕ) → List (ℕ × ℕ) → Result ℕ
unfolding quotient_at gf256_inv gf256_mul gf256_add
interpolate_from shares x i result [] = ok result
interpolate_from shares x i result ((x_i, y_i) ∷ ps) =
    let q = quotient_at x i x_i 0 shares (1, 1) in
    elim (x_i =? x) [
      | true ↦ ok y_i
      | false ↦
          (gf256_inv q.1 >>= λ v.
          interpolate_from shares x (suc i) (gf256_add result (gf256_mul y_i (gf256_mul q.0 v))) ps)
    ]

unfoldable pub lagrange_interpolate : List (ℕ × ℕ) → ℕ → Result ℕ
unfolding interpolate_from
lagrange_interpolate shares x = interpolate_from shares x 0 0 shares

module _ (sha256 : List ℕ → List ℕ) where
  -- _checksum, with _CHECKSUM_LEN.
  unfoldable pub checksum : List ℕ → List ℕ
  checksum secret = take 4 (sha256 secret)

-- The bytes of `count` calls of os.urandom(1).
unfoldable pub draw : (ℕ → ℕ) → (first count : ℕ) → List ℕ
draw urandom first zero = []
draw urandom first (suc n) = urandom first ∷ draw urandom (suc first) n

-- The polynomial of each byte: the byte is the constant term, `degree` draws are the others.
unfoldable pub polynomials : (ℕ → ℕ) → (drawn degree : ℕ) → List ℕ → List (List ℕ)
unfolding draw
polynomials urandom drawn degree [] = []
polynomials urandom drawn degree (b ∷ bs) =
    (b ∷ draw urandom drawn degree) ∷ polynomials urandom (drawn + degree) degree bs

unfoldable pub horner : (x y : ℕ) → List ℕ → ℕ
unfolding gf256_add gf256_mul
horner x y [] = y
horner x y (coeff ∷ cs) = horner x (gf256_add (gf256_mul y x) coeff) cs

unfoldable pub evaluate : List ℕ → ℕ → ℕ
unfolding horner
evaluate coeffs x = horner x 0 (reverse coeffs)

-- range(first, first + count)
unfoldable pub range_from : (first count : ℕ) → List ℕ
range_from first zero = []
range_from first (suc n) = first ∷ range_from (suc first) n

-- One byte of `row` is appended to each buffer.
unfoldable pub append_each : (buffers : List (List ℕ)) (row : List ℕ) → List (List ℕ)
append_each [] row = []
append_each (t ∷ ts) [] = t ∷ ts
append_each (t ∷ ts) (b ∷ bs) = (t ++ b ∷ []) ∷ append_each ts bs

unfoldable pub transpose_into : List (List ℕ) → List (List ℕ) → List (List ℕ)
unfolding append_each
transpose_into buffers [] = buffers
transpose_into buffers (row ∷ rows) = transpose_into (append_each buffers row) rows

abbrev pub v2_magic : List ℕ
v2_magic = b'V' ∷ b'2' ∷ []

-- The wire format, from index `i` on.
unfoldable pub labelled : (threshold i : ℕ) → List (List ℕ) → List (List ℕ)
labelled k i [] = []
labelled k i (share ∷ shares) = (suc i ∷ v2_magic ++ k ∷ share) ∷ labelled k (suc i) shares

-- What split does once its arguments are accepted.
unfoldable pub deal : (ℕ → ℕ) → (payload : List ℕ) → (threshold shares : ℕ) → List (List ℕ)
unfolding polynomials evaluate range_from transpose_into labelled
deal urandom payload k n =
    let result =
      map (λ p. map (evaluate p) (range_from 1 n)) (polynomials urandom 0 (k - 1) payload) in
    labelled k 0 (transpose_into (replicate n []) result)

module _ (sha256 : List ℕ → List ℕ) (urandom : ℕ → ℕ) where
  unfoldable pub split : (secret : List ℕ) → (threshold shares : ℕ) → Result (List (List ℕ))
  unfolding checksum deal
  split secret k n =
      if ltb k 2
      then err threshold_too_small
      else if ltb n k
      then err threshold_above_shares
      else if ltb 255 n
      then err too_many_shares
      else ok (deal urandom (checksum sha256 secret ++ secret) k n)

abbrev pub contains : ℕ → List ℕ → Bool
contains n [] = false
contains n (m ∷ ms) = n =? m || contains n ms

-- The elements of a set comprehension.
unfoldable pub set_of : List ℕ → List ℕ
set_of [] = []
set_of (n ∷ ns) = let rest = set_of ns in if contains n rest then rest else n ∷ rest

-- body.startswith(_V2_MAGIC)
unfoldable pub starts_with : (magic body : List ℕ) → Bool
starts_with [] body = true
starts_with (m ∷ ms) [] = false
starts_with (m ∷ ms) (b ∷ bs) = m =? b && starts_with ms bs

abbrev pub every {ℓ} : {A : Type ℓ} → (A → Bool) → List A → Bool
every p [] = true
every p (x ∷ xs) = p x && every p xs

abbrev pub some_of {ℓ} : {A : Type ℓ} → (A → Bool) → List A → Bool
some_of p [] = false
some_of p (x ∷ xs) = p x || some_of p xs

-- Lines 201 to 210: the shards, and whether they are of the second format.
-- The threshold that the markers agree on.
unfoldable pub agreed : (markers : List ℕ) → Result ℕ
agreed [] = err inconsistent_thresholds
agreed (t ∷ []) = ok t
agreed (t ∷ u ∷ ts) = err inconsistent_thresholds

unfoldable pub shards : (bodies : List (List ℕ)) → Result (List (List ℕ))
unfolding collect byte_at set_of starts_with agreed
shards bodies = elim (every (starts_with v2_magic) bodies) [
  | false ↦ ok bodies
  | true ↦
      (collect (byte_at 2) bodies >>= λ markers. agreed (set_of markers) >>= λ threshold.
      if ltb (length bodies) threshold
      then err (below_threshold threshold (length bodies))
      else ok (map (drop 3) bodies))
]

-- (s[0], shard_body[i][pos]) for each share.
unfoldable pub points_at : (pos : ℕ) → (ids : List ℕ) → List (List ℕ) → Result (List (ℕ × ℕ))
unfolding byte_at
points_at pos [] bodies = ok []
points_at pos (x ∷ xs) [] = err index_error
points_at pos (x ∷ xs) (b ∷ bs) =
    byte_at pos b >>= λ y. points_at pos xs bs >>= λ ps. ok ((x, y) ∷ ps)

-- Lines 212 to 217.
unfoldable pub reconstruct : (ids : List ℕ) → (shard_body : List (List ℕ)) → Result (List ℕ)
unfolding collect points_at lagrange_interpolate range_from
reconstruct ids [] = err index_error
reconstruct ids (b ∷ bs) =
    collect (λ pos. points_at pos ids (b ∷ bs) >>= λ points. lagrange_interpolate points 0)
      (range_from 0 (length b))

-- len(body) == data_len for every body, where data_len is the length of the first.
unfoldable pub same_lengths : (bodies : List (List ℕ)) → Bool
same_lengths [] = true
same_lengths (b ∷ bs) = every (λ c. length c =? length b) (b ∷ bs)

module _ (sha256 : List ℕ → List ℕ) where
  -- Lines 219 to 228.
  unfoldable pub verified : (v2 : Bool) → (reconstructed : List ℕ) → Result (List ℕ)
  unfolding checksum
  verified false r = ok r
  verified true r =
      if same_bytes (take 4 r) (checksum sha256 (drop 4 r))
      then ok (drop 4 r)
      else err integrity_check_failed

  -- Lines 190 to 228.
  unfoldable pub combine_bodies : (ids : List ℕ) → (bodies : List (List ℕ)) → Result (List ℕ)
  unfolding starts_with same_lengths shards reconstruct verified
  combine_bodies ids bodies =
      let v2 = every (starts_with v2_magic) bodies in
      if some_of (starts_with v2_magic) bodies && not v2
      then err mixed_formats
      else if not (same_lengths bodies)
      then err inconsistent_lengths
      else shards bodies >>= λ shard_body. reconstruct ids shard_body >>= verified v2

  unfoldable pub combine : (shares : List (List ℕ)) → Result (List ℕ)
  unfolding collect byte_at set_of combine_bodies
  combine shares =
      if ltb (length shares) 2
      then err too_few_shares
      else collect (byte_at 0) shares >>= λ ids.
          if not (length (set_of ids) =? length shares)
          then err duplicate_ids
          else combine_bodies ids (map (drop 1) shares)
