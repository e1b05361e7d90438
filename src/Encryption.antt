-- ===== src/Encryption.antt =====
-- packages/core/src/core/engine/encryption.py: a secret is encrypted under a key of its own, which
-- is wrapped with the key encryption key. The block cipher (AES of pycryptodome), the sealed box
-- (ChaCha20Poly1305 of cryptography), Argon2 and the random bytes are arguments.
pub mod Counter
pub mod Wrapping
mod Rounds
mod KeyWrap
pub mod Envelopes
pub mod Sample
mod Tests
use Prim.Native.Nat.{bit_xor, ◌%◌, ◌^◌}
use venya.Prelude.{
  ℕ, zero, suc, ◌+◌, ◌-◌, ◌*◌, ◌/◌, ◌≤◌, ◌<◌, min, max, String, ◌≡◌, refl, sym, ap, subst, ◌∙◌, ◌≢◌,
  ◌↔◌, ◌⊎◌, inl, inr, Bool, true, false, ◌&&◌, ◌||◌, not, Option, none, some, List, [], ◌∷◌, ◌++◌,
  map, arith, ◌==◌, eq_iff, second, ltb, leb, ◌=?◌, if◌then◌else◌, Bool-cases, Option-cases, length,
  select, length-append, length-select-le, select-append, All, replicate, length-replicate, take,
  drop, Apart, Distinct, same_bytes, same_bytes_refl, take-append, drop-append, length-take,
  take-drop, length-drop, unsnoc, All-append, All-append_parts, All-take, All-drop, if-true,
  if-false, same_bytes-eq,
}

-- KeyDerivationError, DecryptionError and the OverflowError of int.to_bytes.
pub data Failure : Type 0 where
  kek_size : ℕ → Failure
  dek_size : ℕ → Failure
  wrapped_size : ℕ → Failure
  plaintext_size : Failure
  ciphertext_size : Failure
  unwrap_failed : Failure
  invalid_tag : Failure
  overflow_error : Failure

pub data Result {ℓ} (A : Type ℓ) : Type ℓ where
  ok : A → Result A
  err : Failure → Result A

infixl 5 ◌>>=◌
abbrev pub ◌>>=◌ {ℓ κ} : {A : Type ℓ} {B : Type κ} → Result A → (A → Result B) → Result B
ok a >>= f = f a
err e >>= f = err e

-- int.from_bytes(b, "big"), with the number so far.
unfoldable pub from_bytes : ℕ → List ℕ → ℕ
from_bytes n [] = n
from_bytes n (b ∷ bs) = from_bytes (n * 256 + b) bs

-- The last `count` bytes of a number.
unfoldable pub low_bytes : (count n : ℕ) → List ℕ
low_bytes zero n = []
low_bytes (suc c) n = low_bytes c (n / 256) ++ n % 256 ∷ []

-- n.to_bytes(8, "big")
unfoldable pub to_bytes : ℕ → Result (List ℕ)
unfolding low_bytes
to_bytes n = if ltb n (256 ^ 8) then ok (low_bytes 8 n) else err overflow_error

-- xs[first:last]
abbrev pub slice : (first last : ℕ) → List ℕ → List ℕ
slice first last xs = take (last - first) (drop first xs)

abbrev pub initial : List ℕ
initial = replicate 8 0xa6

-- XOR A with the counter.
unfoldable pub counted : (n i : ℕ) → List ℕ → Result (List ℕ)
unfolding from_bytes to_bytes
counted n i a = to_bytes (bit_xor (from_bytes 0 a) (n * 64 + i))

unfoldable pub put_block : (i : ℕ) (block : List ℕ) → List ℕ → List ℕ
put_block i block xs = take ((i - 1) * 8) xs ++ block ++ drop (i * 8) xs

module _ (encrypt : List ℕ → List ℕ → List ℕ) where
  -- One round of the loop of _aes_kw_wrap.
  unfoldable pub wrap_round : (kek : List ℕ) (n i : ℕ) → List ℕ × List ℕ → Result (List ℕ × List ℕ)
  unfolding counted put_block
  wrap_round kek n i (a, plaintext) =
      let encrypted = encrypt kek (a ++ slice ((i - 1) * 8) (i * 8) plaintext) in
      counted n i (take 8 encrypted) >>= λ a'. ok (a', put_block i (drop 8 encrypted) plaintext)

  -- for i in range(i, i + count)
  unfoldable pub wrap_rounds :
      (kek : List ℕ) (n i count : ℕ) → List ℕ × List ℕ → Result (List ℕ × List ℕ)
  unfolding wrap_round
  wrap_rounds kek n i zero s = ok s
  wrap_rounds kek n i (suc c) s = wrap_round kek n i s >>= wrap_rounds kek n (suc i) c

  unfoldable pub aes_kw_wrap : (kek plaintext : List ℕ) → Result (List ℕ)
  unfolding wrap_rounds
  aes_kw_wrap kek plaintext =
      let n = length plaintext / 8 in
      if not (n * 8 =? length plaintext) || ltb n 1
      then err plaintext_size
      else wrap_rounds kek n 1 n (initial, plaintext) >>= λ s. ok (s.0 ++ s.1)

  unfoldable pub wrap_key : (kek plaintext_key : List ℕ) → Result (List ℕ)
  unfolding aes_kw_wrap
  wrap_key kek key =
      if not (length kek =? 32)
      then err (kek_size (length kek))
      else if not (length key =? 32)
      then err (dek_size (length key))
      else aes_kw_wrap kek key

module _ (decrypt : List ℕ → List ℕ → List ℕ) where
  -- One round of the loop of _aes_kw_unwrap.
  unfoldable pub unwrap_round :
      (kek : List ℕ) (n i : ℕ) → List ℕ × List ℕ → Result (List ℕ × List ℕ)
  unfolding counted put_block
  unwrap_round kek n i (a, plaintext) = counted n i a >>= λ a'.
      let decrypted = decrypt kek (a' ++ slice ((i - 1) * 8) (i * 8) plaintext) in
      ok (take 8 decrypted, put_block i (drop 8 decrypted) plaintext)

  -- for i in range(i, 0, -1)
  unfoldable pub unwrap_rounds :
      (kek : List ℕ) (n i : ℕ) → List ℕ × List ℕ → Result (List ℕ × List ℕ)
  unfolding unwrap_round
  unwrap_rounds kek n zero s = ok s
  unwrap_rounds kek n (suc i) s = unwrap_round kek n (suc i) s >>= unwrap_rounds kek n i

  unfoldable pub aes_kw_unwrap : (kek ciphertext : List ℕ) → Result (List ℕ)
  unfolding unwrap_rounds
  aes_kw_unwrap kek ciphertext =
      let n = length ciphertext / 8 - 1 in
      if not (n * 8 + 8 =? length ciphertext) || ltb n 1
      then err ciphertext_size
      else unwrap_rounds kek n n (take 8 ciphertext, drop 8 ciphertext) >>= λ s.
          if same_bytes s.0 initial then ok s.1 else err unwrap_failed

  unfoldable pub unwrap_key : (kek wrapped_key : List ℕ) → Result (List ℕ)
  unfolding aes_kw_unwrap
  unwrap_key kek key =
      if not (length kek =? 32)
      then err (kek_size (length kek))
      else if not (length key =? 40)
      then err (wrapped_size (length key))
      else aes_kw_unwrap kek key

-- What a secret is stored as.
pub record Envelope : Type 0 where
  pub wrapped_dek : List ℕ
  pub nonce : List ℕ
  pub ciphertext : List ℕ

-- `encrypt` is the block cipher, `seal` is ChaCha20Poly1305(dek).encrypt(nonce, value, None); dek
-- and nonce are the random bytes.
module _ (encrypt : List ℕ → List ℕ → List ℕ) (seal : List ℕ → List ℕ → List ℕ → List ℕ) where
  unfoldable pub encrypt_secret : (kek dek nonce secret_value : List ℕ) → Result Envelope
  unfolding wrap_key
  encrypt_secret kek dek nonce value = wrap_key encrypt kek dek >>= λ wrapped.
      ok (record { wrapped_dek = wrapped; nonce = nonce; ciphertext = seal dek nonce value })

-- `open_box` is decrypt(nonce, ciphertext, None), `none` for InvalidTag.
module _ (decrypt : List ℕ → List ℕ → List ℕ)
    (open_box : List ℕ → List ℕ → List ℕ → Option (List ℕ)) where
  pub opened : Option (List ℕ) → Result (List ℕ)
  opened none = err invalid_tag
  opened (some plaintext) = ok plaintext

  unfoldable pub decrypt_secret : (kek : List ℕ) → Envelope → Result (List ℕ)
  unfolding unwrap_key opened
  decrypt_secret kek e =
      unwrap_key decrypt kek e.wrapped_dek >>= λ dek. opened (open_box dek e.nonce e.ciphertext)

-- `argon2` is hash_secret_raw with the parameters of the module, `random` the random salt.
unfoldable pub derive_kek :
    (argon2 : List ℕ → List ℕ → List ℕ) (random passphrase : List ℕ)
    → Option (List ℕ)
    → List ℕ × List ℕ
derive_kek argon2 random passphrase none = (argon2 passphrase random, random)
derive_kek argon2 random passphrase (some salt) = (argon2 passphrase salt, salt)
