-- ===== src/Encryption/Counter.antt =====
-- packages/core/src/core/engine/encryption.py: the eight bytes that a round of the key wrap mixes
-- with its counter, and back.
use Prim.Native.Nat.{bit_xor, ◌%◌, ◌^◌}
use native.Mathlib.Nat.{pow-suc}
use venya.Prelude.{
  ℕ, zero, suc, ◌+◌, ◌*◌, ◌/◌, ◌<◌, ◌≡◌, refl, sym, ap, subst, ◌∙◌, List, [], ◌∷◌, ◌++◌, arith,
  length, length-append, All, replicate, unsnoc, All-append, All-append_parts,
}
use venya.Prelude.Bits.{xor_comm, xor_assoc, xor_self, zero-xor, xor_bound}
use venya.Encryption.{ok, from_bytes, low_bytes, to_bytes, counted}

from_bytes-snoc :
    (n : ℕ) (ms : List ℕ) (m : ℕ) → from_bytes n (ms ++ m ∷ []) ≡ from_bytes n ms * 256 + m
unfolding from_bytes
from_bytes-snoc n [] m = refl
from_bytes-snoc n (b ∷ ms) m = from_bytes-snoc (n * 256 + b) ms m

from_bytes-low_bytes : (c n : ℕ) → n < 256 ^ c → from_bytes 0 (low_bytes c n) ≡ n
unfolding from_bytes low_bytes
from_bytes-low_bytes zero n lt = omega arith
from_bytes-low_bytes (suc c) n lt = omega (
  arith,
  from_bytes-snoc 0 (low_bytes c (n / 256)) (n % 256),
  from_bytes-low_bytes c (n / 256) (omega (arith, pow-suc 256 c)),
)

abbrev pub IsBytes : List ℕ → Type 0
IsBytes ns = All (λ n. n < 256) ns

from_bytes-bound : (c : ℕ) (ns : List ℕ) → length ns ≡ c → IsBytes ns → from_bytes 0 ns < 256 ^ c
unfolding from_bytes
from_bytes-bound zero [] e h = omega arith
from_bytes-bound zero (n ∷ ns) e h = absurd (omega (arith, e))
from_bytes-bound (suc c) ns e h =
    let w = unsnoc ns c e in
    let parts = All-append_parts (λ n. n < 256) w.0 (w.1 ∷ []) (subst IsBytes w.2 h) in
    omega (
      arith,
      pow-suc 256 c,
      ap (from_bytes 0) w.2,
      from_bytes-snoc 0 w.0 w.1,
      from_bytes-bound c w.0 w.3 parts.0,
      parts.1.0,
    )

last_byte : (c n b : ℕ) → b < 256 → low_bytes (suc c) (n * 256 + b) ≡ low_bytes c n ++ b ∷ []
unfolding low_bytes
last_byte c n b lt = rw (quotient n b lt, remainder n b lt) refl
  where
    quotient : (n b : ℕ) → b < 256 → (n * 256 + b) / 256 ≡ n
    quotient n b lt = omega arith

    remainder : (n b : ℕ) → b < 256 → (n * 256 + b) % 256 ≡ b
    remainder n b lt = omega arith

low_bytes-from_bytes :
    (c : ℕ) (ns : List ℕ) → length ns ≡ c → IsBytes ns → low_bytes c (from_bytes 0 ns) ≡ ns
unfolding low_bytes
low_bytes-from_bytes zero [] e h = refl
low_bytes-from_bytes zero (n ∷ ns) e h = absurd (omega (arith, e))
low_bytes-from_bytes (suc c) ns e h =
    let w = unsnoc ns c e in
    let parts = All-append_parts (λ n. n < 256) w.0 (w.1 ∷ []) (subst IsBytes w.2 h) in
    ap (λ t. low_bytes (suc c) (from_bytes 0 t)) w.2
    ∙ ap (low_bytes (suc c)) (from_bytes-snoc 0 w.0 w.1)
    ∙ last_byte c (from_bytes 0 w.0) w.1 parts.1.0
    ∙ ap (λ t. t ++ w.1 ∷ []) (low_bytes-from_bytes c w.0 w.3 parts.0)
    ∙ sym w.2

length-low_bytes : (c n : ℕ) → length (low_bytes c n) ≡ c
unfolding low_bytes
length-low_bytes zero n = refl
length-low_bytes (suc c) n =
    omega
      (arith, length-append (low_bytes c (n / 256)) (n % 256 ∷ []), length-low_bytes c (n / 256))

low_bytes-IsBytes : (c n : ℕ) → IsBytes (low_bytes c n)
unfolding low_bytes
low_bytes-IsBytes zero n = tt
low_bytes-IsBytes (suc c) n =
    All-append (λ n. n < 256) (low_bytes c (n / 256)) (n % 256 ∷ []) (low_bytes-IsBytes c (n / 256))
      (omega arith, tt)

xor_twice : (a t : ℕ) → bit_xor (bit_xor a t) t ≡ a
xor_twice a t = xor_assoc a t t ∙ rw (xor_self t) (xor_comm a 0 ∙ zero-xor a)

-- Eight bytes.
abbrev pub IsBlock : List ℕ → Type 0
IsBlock a = (length a ≡ 8) × IsBytes a

to_bytes-fits : (n : ℕ) → n < 256 ^ 8 → to_bytes n ≡ ok (low_bytes 8 n)
unfolding to_bytes
to_bytes-fits n lt = ground (arith, lt)

-- A counter below 2 ^ 64 is mixed into eight bytes, and the same counter takes it out again.
pub counted_twice :
    (n i : ℕ) (a : List ℕ)
    → n * 64 + i < 256 ^ 8
    → IsBlock a
    → (b : List ℕ) × (counted n i a ≡ ok b) × IsBlock b × (counted n i b ≡ ok a)
unfolding counted
counted_twice n i a lt (e, h) =
    let t = n * 64 + i in
    let m = bit_xor (from_bytes 0 a) t in
    let fits = xor_bound 64 (from_bytes 0 a) t (from_bytes-bound 8 a e h) lt in
    (
      low_bytes 8 m,
      to_bytes-fits m fits,
      (length-low_bytes 8 m, low_bytes-IsBytes 8 m),
      ap to_bytes
            (ap (λ k. bit_xor k t) (from_bytes-low_bytes 8 m fits) ∙ xor_twice (from_bytes 0 a) t)
          ∙ to_bytes-fits (from_bytes 0 a) (from_bytes-bound 8 a e h)
          ∙ ap ok (low_bytes-from_bytes 8 a e h),
    )

pub replicate-IsBytes : (n b : ℕ) → b < 256 → IsBytes (replicate n b)
replicate-IsBytes zero b lt = tt
replicate-IsBytes (suc n) b lt = (lt, replicate-IsBytes n b lt)
