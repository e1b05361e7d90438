-- ===== src/Secrets/Retrieval.antt =====
-- packages/core/src/core/engine/core.py, Core.put and Core.get together.
use venya.Prelude.{
  ℕ, String, ◌≡◌, refl, sym, ap, subst, ◌∙◌, Bool, true, false, Option, none, some, List, [], ◌∷◌,
  length,
}
use venya.Prelude.Dict.{Dict}
use venya.Lockout
use venya.Roles.{elem}
use venya.Encryption.{Envelope, decrypt_secret}
use venya.Encryption.Counter.{IsBytes}
use venya.Encryption.Wrapping.{IsCipher}
use venya.Encryption.Envelopes.{decrypt_secret-encrypt_secret}
use venya.Secrets.{
  Secret, Core, SecretRecord, Result, ok, err, ◌>>=◌, executor, unscoped, is_nil, resolve_secret_in,
  visible, settle, gated, found, reveal, plaintext, decoded, retrieve, get,
}
use venya.Secrets.Writing.{authorized, sealed, prepared, put, write, or_none}
use venya.Secrets.Linking.{first_held}
use venya.Secrets.Resolving.{IsSound}
use venya.Secrets.Storing.{write-Stores, ok_eq, err-ok}

gated-open :
    {A : Type 0} (c : Core) (now : ℕ) (user : String) (rest : Core → Core × Result A)
    → (Lockout.check c.rate_limiter now user).1 ≡ none
    → gated c now user rest
      ≡ rest (record c { rate_limiter = (Lockout.check c.rate_limiter now user).0 })
unfolding gated
gated-open c now user rest e = rw (e, gated) refl

settle-ok :
    {A : Type 0} (c : Core) (now : ℕ) (user : String) (m : Result A) (a : A)
    → m ≡ ok a
    → (settle c now user m).1 ≡ ok a
unfolding settle
settle-ok c now user m a e = ap (λ t. (settle c now user t).1) e

-- What put has found when it goes on to write.
Result-step :
    {A : Type 0} (m : Result A) (c d : Core) (r : SecretRecord) (f : A → Core × Result SecretRecord)
    → elim m [ err e ↦ (c, err e) | ok a ↦ f a ] ≡ (d, ok r)
    → (a : A) × (m ≡ ok a) × (f a ≡ (d, ok r))
Result-step (ok a) c d r f h = (a, refl, h)
Result-step (err e) c d r f h =
    absurd (err-ok e r (err e) refl (ap (λ (o : Core × Result SecretRecord). o.1) h))

bind-step :
    {A B : Type 0} (m : Result A) (f : A → Result B) (b : B)
    → (m >>= f) ≡ ok b
    → (a : A) × (m ≡ ok a) × (f a ≡ ok b)
bind-step (ok a) f b h = (a, refl, h)
bind-step (err e) f b h = cc

holds :
    (callers : Option (List String)) (name : String) (more : List String) (b : Bool)
    → authorized callers (name ∷ more) ≡ ok b
    → is_nil (or_none callers) ≡ false
    → elem name (or_none callers) ≡ true
holds none name more b h some_roles = cc
holds (some held) name more b h some_roles = first_held held name more b h

module _ (encrypt decrypt : List ℕ → List ℕ → List ℕ) (cipher : IsCipher encrypt decrypt)
    (seal : List ℕ → List ℕ → List ℕ → List ℕ)
    (open_box : List ℕ → List ℕ → List ℕ → Option (List ℕ))
    (opens : (k nonce value : List ℕ) → open_box k nonce (seal k nonce value) ≡ some value)
    (utf8 : List ℕ → Option String) where
  -- What was sealed is revealed.
  reveal-sealed :
      (kek dek nonce value : List ℕ) (e : Envelope) (s : Secret) (text : String)
      → length kek ≡ 32
      → length dek ≡ 32
      → IsBytes dek
      → sealed encrypt seal (some kek) dek nonce value ≡ ok e
      → s.envelope ≡ e
      → utf8 value ≡ some text
      → reveal decrypt open_box utf8 (some kek) s ≡ ok text
  unfolding reveal plaintext decoded sealed found
  reveal-sealed kek dek nonce value e s text k d bytes h same decodes =
      let w =
        decrypt_secret-encrypt_secret encrypt decrypt cipher seal open_box opens kek dek nonce value
          k d bytes in
      let made : sealed encrypt seal (some kek) dek nonce value ≡ ok w.0 = rw (w.1, sealed) refl in
      let envelope : s.envelope ≡ w.0 = same ∙ ok_eq e w.0 (sym h ∙ made) in
      ap (plaintext decrypt open_box utf8) (ap (decrypt_secret decrypt open_box kek) envelope ∙ w.3)
      ∙ ap (decoded decrypt open_box utf8) decodes

  get-resolved :
      (c : Core) (now later : ℕ) (key user : String) (unmask : Bool) (roles : List String)
      (s : Secret) (text : String)
      → (Lockout.check c.rate_limiter now user).1 ≡ none
      → resolve_secret_in c key (some user) roles ≡ some s
      → reveal decrypt open_box utf8 c.kek s ≡ ok text
      → (get decrypt open_box utf8 c now later key executor unmask (some user) roles).1 ≡ ok text
  unfolding get retrieve resolve_secret_in visible found
  get-resolved c now later key user unmask roles s text unlocked at shown =
      ap (λ (o : Core × Result String). o.1)
        (gated-open c now user (retrieve decrypt open_box utf8 later key executor unmask user roles)
          unlocked)
      ∙ settle-ok (record c { rate_limiter = (Lockout.check c.rate_limiter now user).0 }) later user
          (found decrypt open_box utf8 key (resolve_secret_in c key (some user) roles)
            >>= reveal decrypt open_box utf8 c.kek)
          text
          (ap (λ o. found decrypt open_box utf8 key o >>= reveal decrypt open_box utf8 c.kek) at
            ∙ shown)

  -- With the key in place: a stored secret is what the caller retrieves next through an executor,
  -- whether the write replaced a row or made one. The key and the DEK have 32 bytes, the ciphers
  -- undo what they do, the value decodes to the text, the tables have unique ids below the next one,
  -- and the lockout lets the caller in.
  pub get-put :
      (c d : Core) (now t later : ℕ) (dek nonce kek value : List ℕ) (key user version text : String)
      (names : List String) (meta : Option (Dict String)) (callers : Option (List String))
      (r : SecretRecord) (unmask : Bool)
      → IsSound c
      → c.kek ≡ some kek
      → length kek ≡ 32
      → length dek ≡ 32
      → IsBytes dek
      → put encrypt seal c now dek nonce key value user names version meta callers ≡ (d, ok r)
      → utf8 value ≡ some text
      → (Lockout.check d.rate_limiter t user).1 ≡ none
      → (get decrypt open_box utf8 d t later key executor unmask (some user) (or_none callers)).1
        ≡ ok text
  unfolding put prepared
  get-put c d now t later dek nonce kek value key user version text [] meta callers r unmask sound
        known k n bytes h decodes unlocked =
      absurd
        (err-ok unscoped r (err unscoped) refl (ap (λ (o : Core × Result SecretRecord). o.1) h))
  get-put c d now t later dek nonce kek value key user version text (name ∷ more) meta callers r
        unmask sound known k n bytes h decodes unlocked =
      let step =
        Result-step (prepared encrypt seal c dek nonce value (name ∷ more) callers) c d r
          (λ e. write c now key e user (name ∷ more) version meta callers) h in
      let e = step.0 in
      let checks =
        bind-step (authorized callers (name ∷ more))
          (λ t. sealed encrypt seal c.kek dek nonce value) e step.1 in
      let stores =
        write-Stores c sound key user name more (or_none callers)
          (holds callers name more checks.0 checks.1) now e version meta callers d r refl step.2 in
      let kept : d.kek ≡ some kek = stores.2 ∙ known in
      get-resolved d t later key user unmask (or_none callers) r.stored text unlocked stores.0 (
        ap (λ o. reveal decrypt open_box utf8 o r.stored) kept
        ∙ reveal-sealed kek dek nonce value e r.stored text k n bytes
            (subst (λ o. sealed encrypt seal o dek nonce value ≡ ok e) known checks.2) stores.1
            decodes)
