-- ===== src/Secrets.antt =====
-- packages/core/src/core/engine/core.py: Core, the facade over the table of secrets. It decides who
-- sees a secret, counts failed retrievals in the lockout and keeps values encrypted. The ciphers,
-- the random bytes, the clocks and `bytes.decode` are arguments; `kek` is the key that the holder has.
-- A transaction is one step: a call that raises in it leaves the tables as they were.
pub mod Writing
pub mod Listing
mod Reading
mod Linking
mod Resolving
mod Storing
mod Retrieval
mod Tests
use venya.Prelude.{
  ℕ, zero, suc, ◌+◌, ◌-◌, ◌*◌, ◌/◌, ◌≤◌, ◌<◌, min, max, String, ◌≡◌, refl, sym, ap, subst, ◌∙◌, ◌≢◌,
  ◌↔◌, ◌⊎◌, inl, inr, Bool, true, false, ◌&&◌, ◌||◌, not, Option, none, some, List, [], ◌∷◌, ◌++◌,
  map, arith, ◌==◌, eq_iff, second, ltb, leb, ◌=?◌, if◌then◌else◌, Bool-cases, Option-cases, length,
  select, length-append, length-select-le, select-append, All, replicate, length-replicate, take,
  drop, Apart, Distinct, same_bytes, same_bytes_refl, take-append, drop-append, length-take,
  take-drop, length-drop, unsnoc, All-append, All-append_parts, All-take, All-drop, if-true,
  if-false, same_bytes-eq,
}
use venya.Prelude.Dict
use venya.Prelude.Dict.{Dict}
use venya.Lockout
use venya.Lockout.{RateLimiter}
use venya.Roles.{Role, SecretRole, elem}
use venya.Encryption
use venya.Encryption.{Envelope, encrypt_secret, decrypt_secret}

-- core.iam.models.Secret, its three encrypted columns as an envelope.
pub record Secret : Type 0 where
  pub id : ℕ
  pub key : String
  pub envelope : Envelope
  pub key_version_id : String
  pub created_by : String
  pub created_at : ℕ
  pub meta : Dict String

-- core.iam.models.SessionSecret, by its two keys.
pub record SessionSecret : Type 0 where
  pub session_id : String
  pub secret_id : ℕ

-- The tables and the lockout.
pub record Core : Type 0 where
  pub secrets : List Secret
  pub scopes : List SecretRole
  pub links : List SessionSecret
  pub roles : List Role
  pub next_id : ℕ
  pub rate_limiter : RateLimiter
  pub kek : Option (List ℕ)

-- The columns of the record are those of the row, but for the metadata, which a new one leaves out.
pub record SecretRecord : Type 0 where
  pub stored : Secret
  pub role_names : List String
  pub meta : Option (Dict String)
  pub replaced : Bool

-- What is raised: CoreAccessError with its reasons, CoreError, RateLimitExceededError, the errors
-- of encryption, the UnicodeDecodeError and the IntegrityError of a link that is there already.
pub data Failure : Type 0 where
  user_id_required : Failure
  secret_not_found : String → Failure
  unscoped : Failure
  roles_not_held : List String → Failure
  role_not_found : String → Failure
  not_owner : Failure
  kek_not_configured : Failure
  rate_limited : ℕ → Failure
  encryption_error : Encryption.Failure → Failure
  decode_error : Failure
  integrity_error : Failure

pub data Result {ℓ} (A : Type ℓ) : Type ℓ where
  ok : A → Result A
  err : Failure → Result A

infixl 5 ◌>>=◌
abbrev pub ◌>>=◌ {ℓ κ} : {A : Type ℓ} {B : Type κ} → Result A → (A → Result B) → Result B
ok a >>= f = f a
err e >>= f = err e

abbrev pub any {ℓ} : {A : Type ℓ} → (A → Bool) → List A → Bool
any p [] = false
any p (x ∷ xs) = p x || any p xs

abbrev pub is_nil {ℓ} : {A : Type ℓ} → List A → Bool
is_nil [] = true
is_nil (x ∷ xs) = false

-- Secret.created_by == user_id
abbrev pub owned : Option String → Secret → Bool
owned none s = false
owned (some user) s = s.created_by == user

-- SecretRole.role_id.in_(role_ids), for the ids of the roles with these names.
unfoldable pub role_named : List Role → List String → ℕ → Bool
role_named roles names i = any (λ r. r.id =? i && elem r.name names) roles

-- Secret.id.in_(scoped_ids)
unfoldable pub scoped : List Role → List SecretRole → List String → ℕ → Bool
unfolding role_named
scoped roles scopes names i = any (λ l. l.secret_id =? i && role_named roles names l.scope) scopes

unfoldable pub visible : Core → Option String → List String → Secret → Bool
unfolding scoped
visible c user names s =
    if is_nil names then owned user s else scoped c.roles c.scopes names s.id || owned user s

unfoldable pub lower : Secret → Option Secret → Option Secret
lower s none = some s
lower s (some t) = if ltb t.id s.id then some t else some s

-- order_by(Secret.id).first()
unfoldable pub lowest : List Secret → Option Secret
unfolding lower
lowest [] = none
lowest (s ∷ ss) = lower s (lowest ss)

unfoldable pub resolve_secret_in : Core → String → Option String → List String → Option Secret
unfolding visible lowest
resolve_secret_in c key user names =
    lowest (select (λ s. s.key == key && visible c user names s) c.secrets)

-- The DecryptionErrors among the errors of encryption.
abbrev pub is_decryption_error : Encryption.Failure → Bool
is_decryption_error Encryption.ciphertext_size = true
is_decryption_error Encryption.unwrap_failed = true
is_decryption_error Encryption.invalid_tag = true
is_decryption_error e = false

-- except (CoreAccessError, DecryptionError)
abbrev pub counts : Failure → Bool
counts (secret_not_found key) = true
counts (encryption_error e) = is_decryption_error e
counts e = false

-- What a call that is let in ends in: the failures that count are recorded, and the one that
-- reaches the limit is answered by the lockout; a success clears the record.
unfoldable pub settle {ℓ} : {A : Type ℓ} → Core → (now : ℕ) → String → Result A → Core × Result A
settle c now user (ok a) =
    (record c { rate_limiter = Lockout.record_success c.rate_limiter user }, ok a)
settle c now user (err e) = elim (counts e) [
  | false ↦ (c, err e)
  | true ↦
      (let o = Lockout.record_failure c.rate_limiter now user in
        (
          record c { rate_limiter = o.0 },
          elim o.1 [ none ↦ err e | some s ↦ err (rate_limited s) ],
        ))
]

-- self.rate_limiter.check(user_id), and the rest of the call when it does not raise.
unfoldable pub gated {ℓ} :
    {A : Type ℓ} → Core → (now : ℕ) → String → (Core → Core × Result A) → Core × Result A
gated c now user rest =
    let o = Lockout.check c.rate_limiter now user in
    elim o.1 [
      | none ↦ rest (record c { rate_limiter = o.0 })
      | some s ↦ (record c { rate_limiter = o.0 }, err (rate_limited s))
    ]

pub data Caller : Type 0 where
  human executor : Caller

abbrev pub masked : String
masked = "••••••••"

-- `aes`, `open_box` and `utf8` are the parts of the libraries that decryption calls.
module _ (aes : List ℕ → List ℕ → List ℕ) (open_box : List ℕ → List ℕ → List ℕ → Option (List ℕ))
    (utf8 : List ℕ → Option String) where
  unfoldable pub decoded : Option String → Result String
  decoded none = err decode_error
  decoded (some text) = ok text

  unfoldable pub plaintext : Encryption.Result (List ℕ) → Result String
  unfolding decoded
  plaintext (Encryption.ok v) = decoded (utf8 v)
  plaintext (Encryption.err e) = err (encryption_error e)

  -- Core.decrypt_secret
  unfoldable pub reveal : Option (List ℕ) → Secret → Result String
  unfolding plaintext
  reveal none s = err kek_not_configured
  reveal (some kek) s = plaintext (decrypt_secret aes open_box kek s.envelope)

  unfoldable pub found : String → Option Secret → Result Secret
  found key none = err (secret_not_found key)
  found key (some s) = ok s

  unfoldable pub inject :
      (now : ℕ) → String → String → List String → Core → Core × Result (ℕ × String × Dict String)
  unfolding found reveal
  inject now key user names c = settle c now user (
      found key (resolve_secret_in c key (some user) names) >>= λ s.
      reveal c.kek s >>= λ text. ok (s.id, text, s.meta))

  -- The clock is read for the check and for the failure.
  unfoldable pub get_for_injection :
      Core
      → (now later : ℕ) → String
      → Option String
      → List String
      → Core × Result (ℕ × String × Dict String)
  unfolding inject
  get_for_injection c now later key none names = (c, err user_id_required)
  get_for_injection c now later key (some user) names =
      gated c now user (inject later key user names)

  unfoldable pub retrieve :
      (now : ℕ)
      → String
      → (caller : Caller) (unmask : Bool) → String
      → List String
      → Core
      → Core × Result String
  unfolding found reveal
  retrieve now key caller unmask user names c =
      let secret = found key (resolve_secret_in c key (some user) names) in
      elim caller [
        | executor ↦ settle c now user (secret >>= reveal c.kek)
        | human ↦
            (if unmask
              then settle c now user (secret >>= reveal c.kek)
              else elim secret [ ok s ↦ (c, ok masked) | err e ↦ settle c now user (err e) ])
      ]

  unfoldable pub get :
      Core
      → (now later : ℕ) → String
      → (caller : Caller) (unmask : Bool) → Option String
      → List String
      → Core × Result String
  unfolding retrieve
  get c now later key caller unmask none names = (c, err user_id_required)
  get c now later key caller unmask (some user) names =
      gated c now user (retrieve later key caller unmask user names)
