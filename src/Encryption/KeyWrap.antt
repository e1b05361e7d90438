-- ===== src/Encryption/KeyWrap.antt =====
-- packages/core/src/core/engine/encryption.py, _aes_kw_wrap and _aes_kw_unwrap: unwrapping and
-- wrapping are each other's inverse.
use Prim.Native.Nat.{◌^◌}
use venya.Prelude.{
  ℕ, ◌+◌, ◌-◌, ◌*◌, ◌/◌, ◌≤◌, ◌<◌, ◌≡◌, refl, sym, ap, ◌∙◌, Bool, true, false, ◌||◌, not, List,
  ◌++◌, arith, ltb, ◌=?◌, if◌then◌else◌, length, length-append, take, drop, same_bytes,
  same_bytes_refl, length-take, take-drop, length-drop, All-append, All-take, All-drop, if-true,
  if-false, same_bytes-eq,
}
use venya.Encryption.{
  Failure, Result, ok, err, ◌>>=◌, initial, aes_kw_wrap, aes_kw_unwrap, wrap_rounds, unwrap_rounds,
  plaintext_size, ciphertext_size, unwrap_failed,
}
use venya.Encryption.Counter.{IsBytes, IsBlock, replicate-IsBytes}
use venya.Encryption.Wrapping.{IsCipher, take-first, drop-first}
use venya.Encryption.Rounds.{IsState, wrap_rounds-back, unwrap_rounds-back}

initial-IsBlock : IsBlock initial
initial-IsBlock = (refl, replicate-IsBytes 8 0xa6 (omega arith))

passed_check :
    (b : Bool) (u p : List ℕ) (e : Failure)
    → (if b then ok u else err e) ≡ ok p
    → (b ≡ true) × (u ≡ p)
passed_check true u p e h = (refl, cc)
passed_check false u p e h = cc

module _ (encrypt decrypt : List ℕ → List ℕ → List ℕ) (kek : List ℕ) where
  wrap-accepts :
      (n : ℕ) (p : List ℕ)
      → length p ≡ n * 8
      → 1 ≤ n
      → aes_kw_wrap encrypt kek p
        ≡ (wrap_rounds encrypt kek n 1 n (initial, p) >>= λ s. ok (s.0 ++ s.1))
  unfolding aes_kw_wrap
  wrap-accepts n p e one =
      let m : length p / 8 ≡ n = omega (arith, e) in
      rw m (
        if-false (not (n * 8 =? length p) || ltb n 1) (err plaintext_size) _
          (ground (arith, e, one)))

  checked : List ℕ × List ℕ → Result (List ℕ)
  checked s = if same_bytes s.0 initial then ok s.1 else err unwrap_failed

  unwrap-accepts :
      (n : ℕ) (c : List ℕ)
      → length c ≡ n * 8 + 8
      → 1 ≤ n
      → aes_kw_unwrap decrypt kek c
        ≡ (unwrap_rounds decrypt kek n n (take 8 c, drop 8 c) >>= checked)
  unfolding aes_kw_unwrap checked
  unwrap-accepts n c e one =
      let m : length c / 8 - 1 ≡ n = omega (arith, e) in
      rw m (
        if-false (not (n * 8 + 8 =? length c) || ltb n 1) (err ciphertext_size) _
          (ground (arith, e, one)))

module _ (encrypt decrypt : List ℕ → List ℕ → List ℕ) (cipher : IsCipher encrypt decrypt)
    (kek : List ℕ) where
  -- A text of whole blocks is wrapped, and unwrapped to itself.
  pub unwrap-wrap :
      (n : ℕ) (p : List ℕ)
      → length p ≡ n * 8
      → 1 ≤ n
      → n * 65 < 256 ^ 8
      → IsBytes p
      → (c : List ℕ) × (aes_kw_wrap encrypt kek p ≡ ok c)
        × (length c ≡ n * 8 + 8)
        × IsBytes c
        × (aes_kw_unwrap decrypt kek c ≡ ok p)
  unfolding checked
  unwrap-wrap n p e one small h =
      let start : IsState n (initial, p) = record {
        first = initial-IsBlock;
        size = e;
        bytes = h;
      } in
      let w =
        wrap_rounds-back encrypt decrypt cipher kek n small n (initial, p) (omega arith) start in
      let c = w.0.0 ++ w.0.1 in
      let size : length c ≡ n * 8 + 8 =
        omega (arith, length-append w.0.0 w.0.1, w.2.first.0, w.2.size) in
      let halves : (take 8 c, drop 8 c) ≡ w.0 =
        λ k. (take-first 8 w.0.0 w.0.1 w.2.first.0 k, drop-first 8 w.0.0 w.0.1 w.2.first.0 k) in
      (
        c,
        wrap-accepts encrypt decrypt kek n p e one ∙ ap (λ t. t >>= λ s. ok (s.0 ++ s.1)) w.1,
        size,
        All-append (λ b. b < 256) w.0.0 w.0.1 w.2.first.1 w.2.bytes,
        unwrap-accepts encrypt decrypt kek n c size one
            ∙ ap (λ t. unwrap_rounds decrypt kek n n t >>= checked encrypt decrypt kek) halves
            ∙ ap (λ t. t >>= checked encrypt decrypt kek) w.3
            ∙ if-true (same_bytes initial initial) (ok p) (err unwrap_failed)
                (same_bytes_refl initial),
      )

  passed :
      (s : List ℕ × List ℕ) (p : List ℕ)
      → checked encrypt decrypt kek s ≡ ok p
      → (s.0 ≡ initial) × (s.1 ≡ p)
  unfolding checked
  passed (a, q) p h =
      let w = passed_check (same_bytes a initial) q p unwrap_failed h in
      (same_bytes-eq a initial w.0, w.1)

  -- Only what wrapping gives is unwrapped: a text of n + 1 blocks of bytes that unwraps is the
  -- wrapping of the result, if n is at least 1 and n * 65 is below 2 ^ 64.
  pub wrap-unwrap :
      (n : ℕ) (c p : List ℕ)
      → length c ≡ n * 8 + 8
      → 1 ≤ n
      → n * 65 < 256 ^ 8
      → IsBytes c
      → aes_kw_unwrap decrypt kek c ≡ ok p
      → aes_kw_wrap encrypt kek p ≡ ok c
  wrap-unwrap n c p e one small h ok_p =
      let start : IsState n (take 8 c, drop 8 c) = record {
        first = (length-take c 8 (omega (arith, e)), All-take (λ b. b < 256) 8 c h);
        size = omega (arith, length-drop 8 c, e);
        bytes = All-drop (λ b. b < 256) 8 c h;
      } in
      let w =
        unwrap_rounds-back encrypt decrypt cipher kek n small n (take 8 c, drop 8 c) (omega arith)
          start in
      let t = passed w.0 p (
        sym (
          unwrap-accepts encrypt decrypt kek n c e one
          ∙ ap (λ t. t >>= checked encrypt decrypt kek) w.1)
        ∙ ok_p) in
      wrap-accepts encrypt decrypt kek n p (ap length (sym t.1) ∙ w.2.size) one
      ∙ ap (λ s. wrap_rounds encrypt kek n 1 n s >>= λ s. ok (s.0 ++ s.1))
          (λ k. (sym t.0 k, sym t.1 k))
      ∙ ap (λ t. t >>= λ s. ok (s.0 ++ s.1)) w.3
      ∙ ap ok (take-drop 8 c)
