-- ===== src/Secrets/Tests.antt =====
-- Runs of packages/core/src/core/engine/core.py on a table of one or two secrets.
use mathlib.Core.List.{Memᴰ}
use mathlib.Core.List.Memᴰ
use venya.Prelude.{
  ℕ, ◌<◌, String, ◌≡◌, refl, sym, subst, ◌∙◌, true, false, Option, none, some, List, [], ◌∷◌, arith,
  ◌=?◌, if◌then◌else◌, replicate,
}
use venya.Prelude.Dict
use venya.Prelude.Dict.{Dict}
use venya.Lockout
use venya.Lockout.{RateLimiter}
use venya.Roles.{Role}
use venya.Encryption.{encrypt_secret}
use venya.Encryption.Counter.{replicate-IsBytes}
use venya.Encryption.Sample.{swapped, swapping, seal, open_box}
use venya.Secrets.{
  Secret, Core, SecretRecord, resolve_secret_in, gated, Result, ok, err, human, executor, get,
  get_for_injection, masked, roles_not_held,
}
use venya.Secrets.Writing.{put, delete}
use venya.Secrets.Reading.{SameTables, without_hidden, reads-without_hidden}
use venya.Secrets.Resolving.{IsSound}
use venya.Secrets.Retrieval.{get-put}

abbrev utf8 : List ℕ → Option String
utf8 [] = none
utf8 (b ∷ bs) = if b =? 115 then some "s3" else none

abbrev limiter : RateLimiter
limiter = record {
  max_attempts = 3;
  window_seconds = 300;
  lockout_reinstate_minutes = 15;
  failures = Dict.empty;
}

abbrev ops : Role
ops = record { id = 4; name = "ops"; permissions = "read-write"; description = none }

abbrev dev : Role
dev = record { id = 7; name = "dev"; permissions = "read-write"; description = none }

-- A secret of bob's, in the scope of ops.
abbrev of_bob : Secret
of_bob = record {
  id = 0;
  key = "db";
  envelope = record { wrapped_dek = []; nonce = []; ciphertext = [] };
  key_version_id = "v1";
  created_by = "bob";
  created_at = 5;
  meta = Dict.empty;
}

abbrev core : Core
core = record {
  secrets = of_bob ∷ [];
  scopes = record { secret_id = 0; scope = 4 } ∷ [];
  links = [];
  roles = ops ∷ dev ∷ [];
  next_id = 1;
  rate_limiter = limiter;
  kek = some (replicate 32 1);
}

only : (s : Secret) → Memᴰ s core.secrets → s ≡ of_bob
only s (Memᴰ.head e) = e
only s (Memᴰ.tail m) = absurd (Memᴰ.not-nil m)

core-IsSound : IsSound core
core-IsSound = record {
  unique = λ s t m n e. only s m ∙ sym (only t n);
  below = λ s m. subst (λ (t : Secret). t.id < 1) (sym (only s m)) (omega arith);
}

-- Ana does not see it, and makes a row of her own under the same key.
abbrev stored : Core × Result SecretRecord
unfolding put
stored =
    put swapped seal core 10 (replicate 32 200) (9 ∷ []) "db" (115 ∷ 51 ∷ []) "ana" ("dev" ∷ [])
      "v2" none (some ("dev" ∷ []))

abbrev record_of : Result SecretRecord → SecretRecord
record_of (ok r) = r
record_of (err e) = record { stored = of_bob; role_names = []; meta = none; replaced = false }

put_test :
    put swapped seal core 10
      (replicate 32 200)
      (9 ∷ [])
      "db"
      (115 ∷ 51 ∷ [])
      "ana"
      ("dev" ∷ [])
      "v2"
      none
      (some ("dev" ∷ []))
    ≡ (stored.0, ok (record_of stored.1))
unfolding put stored encrypt_secret resolve_secret_in
put_test = refl

let_in : (Lockout.check stored.0.rate_limiter 20 "ana").1 ≡ none
unfolding put stored encrypt_secret resolve_secret_in Lockout.check Dict.get Dict.empty
let_in = refl

get-put_example :
    (get swapped open_box utf8 stored.0 20 21 "db" executor false (some "ana") ("dev" ∷ [])).1
    ≡ ok "s3"
get-put_example =
    get-put swapped swapped swapping seal open_box (λ key nonce value. refl) utf8 core stored.0 10
      20 21 (replicate 32 200) (9 ∷ []) (replicate 32 1) (115 ∷ 51 ∷ []) "db" "ana" "v2" "s3"
      ("dev" ∷ []) none (some ("dev" ∷ [])) (record_of stored.1) false core-IsSound refl refl refl
      (replicate-IsBytes 32 200 (omega arith)) put_test refl let_in

-- A scope that the caller does not hold.
refused_test :
    (put swapped seal core 10 [] [] "db" [] "ana"
      ("dev" ∷ "ops" ∷ [])
      "v2"
      none
      (some ("dev" ∷ []))).1
    ≡ err (roles_not_held ("ops" ∷ []))
unfolding put
refused_test = refl

masked_test : (get swapped open_box utf8 core 20 21 "db" human false (some "bob") []).1 ≡ ok masked
unfolding get Lockout.check gated Dict.get Dict.empty resolve_secret_in
masked_test = refl

deleted_test : (delete core "db" "ana").1 ≡ ok false
unfolding delete
deleted_test = refl

reads-without_hidden_example :
    (get swapped open_box utf8
        (without_hidden "ana" ("dev" ∷ []) core)
        20
        21
        "db"
        human
        true
        (some "ana")
        ("dev" ∷ [])
      ≡ (let o = get swapped open_box utf8 core 20 21 "db" human true (some "ana") ("dev" ∷ []) in
          (without_hidden "ana" ("dev" ∷ []) o.0, o.1)))
    × (get_for_injection swapped open_box utf8
          (without_hidden "ana" ("dev" ∷ []) core)
          20
          21
          "db"
          (some "ana")
          ("dev" ∷ [])
        ≡ (let o =
              get_for_injection swapped open_box utf8 core 20 21 "db" (some "ana") ("dev" ∷ []) in
            (without_hidden "ana" ("dev" ∷ []) o.0, o.1)))
    × SameTables core
        (get swapped open_box utf8 core 20 21 "db" human true (some "ana") ("dev" ∷ [])).0
    × SameTables core
        (get_for_injection swapped open_box utf8 core 20 21 "db" (some "ana") ("dev" ∷ [])).0
reads-without_hidden_example =
    reads-without_hidden "ana" ("dev" ∷ []) swapped open_box utf8 core 20 21 "db" human true
