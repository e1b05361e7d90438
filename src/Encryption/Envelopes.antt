-- ===== src/Encryption/Envelopes.antt =====
-- packages/core/src/core/engine/encryption.py, encrypt_secret and decrypt_secret together.
use venya.Prelude.{ℕ, ◌≡◌, refl, ap, ◌∙◌, false, not, Option, some, List, arith, ◌=?◌, length}
use venya.Encryption.{
  ok, ◌>>=◌, Envelope, encrypt_secret, decrypt_secret, wrap_key, unwrap_key, aes_kw_wrap,
  aes_kw_unwrap, opened,
}
use venya.Encryption.Counter.{IsBytes}
use venya.Encryption.Wrapping.{IsCipher}
use venya.Encryption.KeyWrap.{unwrap-wrap}

module _ (encrypt decrypt : List ℕ → List ℕ → List ℕ) (kek : List ℕ) (size : length kek ≡ 32) where
  wrap_key-sized :
      (dek : List ℕ) → length dek ≡ 32 → wrap_key encrypt kek dek ≡ aes_kw_wrap encrypt kek dek
  unfolding wrap_key
  wrap_key-sized dek e =
      let k : not (length kek =? 32) ≡ false = ground (arith, size) in
      let d : not (length dek =? 32) ≡ false = ground (arith, e) in rw (k, d) refl

  unwrap_key-sized :
      (key : List ℕ) → length key ≡ 40 → unwrap_key decrypt kek key ≡ aes_kw_unwrap decrypt kek key
  unfolding unwrap_key
  unwrap_key-sized key e =
      let k : not (length kek =? 32) ≡ false = ground (arith, size) in
      let d : not (length key =? 40) ≡ false = ground (arith, e) in rw (k, d) refl

-- Under a key of 32 bytes, with 32 random bytes for the DEK, whatever the nonce: a value is
-- encrypted into an envelope with a wrapped DEK of 40 bytes, and the envelope decrypts to the value.
-- The block cipher is a permutation of sixteen bytes with its inverse, and the box opens what it
-- seals under the same key and nonce.
pub decrypt_secret-encrypt_secret :
    (encrypt decrypt : List ℕ → List ℕ → List ℕ)
    → IsCipher encrypt decrypt
    → (seal : List ℕ → List ℕ → List ℕ → List ℕ)
      (open_box : List ℕ → List ℕ → List ℕ → Option (List ℕ))
    → ((key nonce value : List ℕ) → open_box key nonce (seal key nonce value) ≡ some value)
    → (kek dek nonce value : List ℕ) → length kek ≡ 32
    → length dek ≡ 32
    → IsBytes dek
    → (e : Envelope) × (encrypt_secret encrypt seal kek dek nonce value ≡ ok e)
      × (length e.wrapped_dek ≡ 40)
      × (decrypt_secret decrypt open_box kek e ≡ ok value)
unfolding encrypt_secret decrypt_secret opened
decrypt_secret-encrypt_secret encrypt decrypt cipher seal open_box opens kek dek nonce value k d
      bytes =
    let w = unwrap-wrap encrypt decrypt cipher kek 4 dek d (omega arith) (omega arith) bytes in
    let e : Envelope = record {
      wrapped_dek = w.0;
      nonce = nonce;
      ciphertext = seal dek nonce value;
    } in
    (
      e,
      ap
          (λ t. t >>= λ wrapped.
            ok (record { wrapped_dek = wrapped; nonce = nonce; ciphertext = seal dek nonce value }))
          (wrap_key-sized encrypt decrypt kek k dek d ∙ w.1),
      w.2,
      ap (λ t. t >>= λ key. opened decrypt open_box (open_box key nonce (seal dek nonce value)))
            (unwrap_key-sized encrypt decrypt kek k w.0 w.2 ∙ w.4)
          ∙ ap (opened decrypt open_box) (opens dek nonce value),
    )
