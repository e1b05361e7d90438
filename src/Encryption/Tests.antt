-- ===== src/Encryption/Tests.antt =====
-- Runs of packages/core/src/core/engine/encryption.py with a simple permutation as the cipher.
use venya.Prelude.{ℕ, ◌<◌, ◌≡◌, refl, List, [], ◌∷◌, ◌++◌, arith, length, replicate, All-append}
use venya.Encryption.{
  Result, ok, err, Envelope, encrypt_secret, decrypt_secret, aes_kw_wrap, aes_kw_unwrap, wrap_key,
  kek_size, unwrap_failed,
}
use venya.Encryption.KeyWrap.{wrap-unwrap}
use venya.Encryption.Counter.{replicate-IsBytes}
use venya.Encryption.Sample.{swapped, swapping, seal, open_box}
use venya.Encryption.Envelopes.{decrypt_secret-encrypt_secret}

abbrev kek : List ℕ
kek = replicate 32 1

abbrev dek : List ℕ
dek = replicate 32 200

short_test : wrap_key swapped (1 ∷ []) dek ≡ err (kek_size 1)
unfolding wrap_key
short_test = refl

garbage_test : aes_kw_unwrap swapped kek (replicate 40 3) ≡ err unwrap_failed
unfolding aes_kw_unwrap
garbage_test = refl

decrypt_secret-encrypt_secret_example :
    (e : Envelope) × (encrypt_secret swapped seal kek dek (9 ∷ []) (115 ∷ 51 ∷ []) ≡ ok e)
    × (length e.wrapped_dek ≡ 40)
    × (decrypt_secret swapped open_box kek e ≡ ok (115 ∷ 51 ∷ []))
decrypt_secret-encrypt_secret_example =
    decrypt_secret-encrypt_secret swapped swapped swapping seal open_box (λ key nonce value. refl)
      kek dek (9 ∷ []) (115 ∷ 51 ∷ []) refl refl (replicate-IsBytes 32 200 (omega arith))

abbrev wrapped : Result (List ℕ)
unfolding aes_kw_wrap
wrapped = aes_kw_wrap swapped kek (replicate 8 200)

abbrev wrapped_block : List ℕ
wrapped_block = replicate 7 200 ++ 137 ∷ replicate 8 166

unwrapped : aes_kw_unwrap swapped kek wrapped_block ≡ ok (replicate 8 200)
unfolding aes_kw_unwrap
unwrapped = refl

wrap-unwrap_example : aes_kw_wrap swapped kek (replicate 8 200) ≡ ok wrapped_block
wrap-unwrap_example =
    wrap-unwrap swapped swapped swapping kek 1 wrapped_block (replicate 8 200) refl (omega arith)
      (omega arith)
      (All-append (λ n. n < 256) (replicate 7 200) (137 ∷ replicate 8 166)
        (replicate-IsBytes 7 200 (omega arith))
        (omega arith, replicate-IsBytes 8 166 (omega arith)))
      unwrapped
