-- ===== src/Encryption/Wrapping.antt =====
-- packages/core/src/core/engine/encryption.py: each round of _aes_kw_unwrap undoes the round of
-- _aes_kw_wrap with the same number, and the other way round.
use mathlib.Core.List.{append_assoc}
use venya.Prelude.{
  ℕ, ◌+◌, ◌-◌, ◌*◌, ◌≤◌, ◌<◌, ◌≡◌, refl, ap, subst, ◌∙◌, List, ◌++◌, arith, length, length-append,
  take, drop, take-append, drop-append, length-take, take-drop, length-drop, All-append, All-take,
  All-drop,
}
use venya.Encryption.{◌^◌, ok, slice, put_block, wrap_round, unwrap_round}
use venya.Encryption.Counter.{IsBytes, IsBlock, counted_twice}

pub take-first : (k : ℕ) (u v : List ℕ) → length u ≡ k → take k (u ++ v) ≡ u
take-first k u v e = subst (λ t. take t (u ++ v) ≡ u) e (take-append u v)

pub drop-first : (k : ℕ) (u v : List ℕ) → length u ≡ k → drop k (u ++ v) ≡ v
drop-first k u v e = subst (λ t. drop t (u ++ v) ≡ v) e (drop-append u v)

-- Block `i` of a text that is cut around it.
slice-middle :
    (i : ℕ) (u b v : List ℕ)
    → length u ≡ (i - 1) * 8
    → length b ≡ 8
    → 1 ≤ i
    → slice ((i - 1) * 8) (i * 8) (u ++ b ++ v) ≡ b
slice-middle i u b v e e' one =
    ap (take (i * 8 - (i - 1) * 8))
      (ap (drop ((i - 1) * 8)) (append_assoc u b v) ∙ drop-first ((i - 1) * 8) u (b ++ v) e)
    ∙ take-first (i * 8 - (i - 1) * 8) b v (omega (arith, e', one))

put_block-middle :
    (i : ℕ) (u b v c : List ℕ)
    → length u ≡ (i - 1) * 8
    → length b ≡ 8
    → 1 ≤ i
    → put_block i c (u ++ b ++ v) ≡ u ++ c ++ v
unfolding put_block
put_block-middle i u b v c e e' one =
    ap (λ t. t ++ c ++ drop (i * 8) (u ++ b ++ v))
      (ap (take ((i - 1) * 8)) (append_assoc u b v) ∙ take-first ((i - 1) * 8) u (b ++ v) e)
    ∙ ap (λ t. u ++ c ++ t)
        (drop-first (i * 8) (u ++ b) v (omega (arith, length-append u b, e, e', one)))

-- The two halves of sixteen bytes.
abbrev pub IsPair : List ℕ → Type 0
IsPair b = (length b ≡ 16) × IsBytes b

halves-IsBlock : (b : List ℕ) → IsPair b → IsBlock (take 8 b) × IsBlock (drop 8 b)
halves-IsBlock b (e, h) = (
  (length-take b 8 (omega (arith, e)), All-take (λ n. n < 256) 8 b h),
  (omega (arith, length-drop 8 b, e), All-drop (λ n. n < 256) 8 b h),
)

IsPair-append : (a b : List ℕ) → IsBlock a → IsBlock b → IsPair (a ++ b)
IsPair-append a b (e, h) (e', h') =
    (omega (arith, length-append a b, e, e'), All-append (λ n. n < 256) a b h h')

-- A text around a block, with the bytes A before it: what a round works on.
pub record IsCut (i : ℕ) (a u b v : List ℕ) : Type 0 where
  pub first : IsBlock a
  pub middle : IsBlock b
  pub before : length u ≡ (i - 1) * 8
  pub number : 1 ≤ i

-- A permutation of the blocks of sixteen bytes for each key, and its inverse.
pub record IsCipher (encrypt decrypt : List ℕ → List ℕ → List ℕ) : Type 0 where
  pub encrypt_pair : (kek b : List ℕ) → IsPair b → IsPair (encrypt kek b)
  pub decrypt_pair : (kek b : List ℕ) → IsPair b → IsPair (decrypt kek b)
  pub decrypt-encrypt : (kek b : List ℕ) → IsPair b → decrypt kek (encrypt kek b) ≡ b
  pub encrypt-decrypt : (kek b : List ℕ) → IsPair b → encrypt kek (decrypt kek b) ≡ b

module _ (encrypt decrypt : List ℕ → List ℕ → List ℕ) (cipher : IsCipher encrypt decrypt)
    (kek : List ℕ) (n : ℕ) where
  pub wrap_round-cut :
      (i : ℕ) (a u b v : List ℕ)
      → IsCut i a u b v
      → n * 64 + i < 256 ^ 8
      → (a' : List ℕ) × (b' : List ℕ) × IsBlock a'
        × IsBlock b'
        × (wrap_round encrypt kek n i (a, u ++ b ++ v) ≡ ok (a', u ++ b' ++ v))
        × (unwrap_round decrypt kek n i (a', u ++ b' ++ v) ≡ ok (a, u ++ b ++ v))
  unfolding wrap_round unwrap_round
  wrap_round-cut i a u b v cut lt =
      let pair = IsPair-append a b cut.first cut.middle in
      let c = encrypt kek (a ++ b) in
      let parts = halves-IsBlock c (cipher.encrypt_pair kek (a ++ b) pair) in
      let w = counted_twice n i (take 8 c) lt parts.0 in
      (
        w.0,
        drop 8 c,
        w.2,
        parts.1,
        rw
            (
              slice-middle i u b v cut.before cut.middle.0 cut.number,
              w.1,
              put_block-middle i u b v (drop 8 c) cut.before cut.middle.0 cut.number,
            )
            refl,
        rw
            (
              w.3,
              slice-middle i u (drop 8 c) v cut.before parts.1.0 cut.number,
              take-drop 8 c,
              cipher.decrypt-encrypt kek (a ++ b) pair,
              take-first 8 a b cut.first.0,
              drop-first 8 a b cut.first.0,
              put_block-middle i u (drop 8 c) v b cut.before parts.1.0 cut.number,
            )
            refl,
      )

  pub unwrap_round-cut :
      (i : ℕ) (a u b v : List ℕ)
      → IsCut i a u b v
      → n * 64 + i < 256 ^ 8
      → (a' : List ℕ) × (b' : List ℕ) × IsBlock a'
        × IsBlock b'
        × (unwrap_round decrypt kek n i (a, u ++ b ++ v) ≡ ok (a', u ++ b' ++ v))
        × (wrap_round encrypt kek n i (a', u ++ b' ++ v) ≡ ok (a, u ++ b ++ v))
  unfolding wrap_round unwrap_round
  unwrap_round-cut i a u b v cut lt =
      let w = counted_twice n i a lt cut.first in
      let pair = IsPair-append w.0 b w.2 cut.middle in
      let c = decrypt kek (w.0 ++ b) in
      let parts = halves-IsBlock c (cipher.decrypt_pair kek (w.0 ++ b) pair) in
      (
        take 8 c,
        drop 8 c,
        parts.0,
        parts.1,
        rw
            (
              w.1,
              slice-middle i u b v cut.before cut.middle.0 cut.number,
              put_block-middle i u b v (drop 8 c) cut.before cut.middle.0 cut.number,
            )
            refl,
        rw
            (
              slice-middle i u (drop 8 c) v cut.before parts.1.0 cut.number,
              take-drop 8 c,
              cipher.encrypt-decrypt kek (w.0 ++ b) pair,
              take-first 8 w.0 b w.2.0,
              drop-first 8 w.0 b w.2.0,
              w.3,
              put_block-middle i u (drop 8 c) v b cut.before parts.1.0 cut.number,
            )
            refl,
      )
