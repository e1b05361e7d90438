-- ===== src/Secrets/Reading.antt =====
-- packages/core/src/core/engine/core.py, Core.get and get_for_injection: what they tell of the
-- secrets that the caller does not see.
use venya.Prelude.{
  ℕ, String, ◌≡◌, refl, ap, ◌∙◌, inl, inr, Bool, true, false, ◌&&◌, Option, some, List, [], ◌∷◌,
  arith, ◌==◌, Bool-cases, Option-cases, select,
}
use venya.Lockout
use venya.Secrets.{
  Secret, Core, Result, ok, err, ◌>>=◌, masked, counts, Caller, human, executor, visible, lowest,
  resolve_secret_in, settle, gated, found, reveal, inject, retrieve, get_for_injection, get,
}

-- The tables without the secrets that the caller does not see.
unfoldable pub without_hidden : String → List String → Core → Core
without_hidden user names c = record c { secrets = select (visible c (some user) names) c.secrets }

select-both :
    {A : Type 0} (p q : A → Bool) (xs : List A)
    → select (λ a. p a && q a) (select q xs) ≡ select (λ a. p a && q a) xs
select-both p q [] = refl
select-both p q (x ∷ xs) = ground (arith, select-both p q xs)

resolve-hidden :
    (c : Core) (key user : String) (names : List String)
    → resolve_secret_in (without_hidden user names c) key (some user) names
      ≡ resolve_secret_in c key (some user) names
unfolding resolve_secret_in without_hidden visible
resolve-hidden c key user names =
    ap lowest (select-both (λ s. s.key == key) (visible c (some user) names) c.secrets)

-- Nothing but the lockout has changed.
abbrev pub SameTables : Core → Core → Type 0
SameTables c d = d ≡ record c { rate_limiter = d.rate_limiter }

settle-SameTables :
    {A : Type 0} (c : Core) (now : ℕ) (user : String) (r : Result A)
    → SameTables c (settle c now user r).0
unfolding settle
settle-SameTables c now user (ok a) = refl
settle-SameTables c now user (err e) = elim (Bool-cases (counts e)) [
  | inl h ↦ rw (h, settle) refl
  | inr h ↦ rw (h, settle) refl
]

gated-SameTables :
    {A : Type 0} (c : Core) (now : ℕ) (user : String) (rest : Core → Core × Result A)
    → ((d : Core) → SameTables d (rest d).0)
    → SameTables c (gated c now user rest).0
unfolding gated
gated-SameTables c now user rest h = elim (Option-cases (Lockout.check c.rate_limiter now user).1) [
  | inl e ↦
      rw (e, gated) (h (record c { rate_limiter = (Lockout.check c.rate_limiter now user).0 }))
  | inr (s, e) ↦ rw (e, gated) refl
]

module _ (user : String) (names : List String) where
  carried : {A : Type 0} → Core × Result A → Core × Result A
  carried o = (without_hidden user names o.0, o.1)

  settle-hidden :
      {A : Type 0} (c : Core) (now : ℕ) (r : Result A)
      → settle (without_hidden user names c) now user r ≡ carried (settle c now user r)
  unfolding settle without_hidden visible carried
  settle-hidden c now (ok a) = refl
  settle-hidden c now (err e) = elim (Bool-cases (counts e)) [
    | inl h ↦ rw (h, settle) refl
    | inr h ↦ rw (h, settle) refl
  ]

  gated-hidden :
      {A : Type 0} (c : Core) (now : ℕ) (rest : Core → Core × Result A)
      → ((d : Core) → rest (without_hidden user names d) ≡ carried (rest d))
      → gated (without_hidden user names c) now user rest ≡ carried (gated c now user rest)
  unfolding gated without_hidden visible carried
  gated-hidden c now rest h = elim (Option-cases (Lockout.check c.rate_limiter now user).1) [
    | inl e ↦
        rw (e, gated) (h (record c { rate_limiter = (Lockout.check c.rate_limiter now user).0 }))
    | inr (s, e) ↦ rw (e, gated) refl
  ]

  module _ (aes : List ℕ → List ℕ → List ℕ) (open_box : List ℕ → List ℕ → List ℕ → Option (List ℕ))
      (utf8 : List ℕ → Option String) where
    abbrev looked_up : Core → String → Result Secret
    looked_up c key = found aes open_box utf8 key (resolve_secret_in c key (some user) names)

    looked_up-hidden :
        (c : Core) (key : String) → looked_up (without_hidden user names c) key ≡ looked_up c key
    looked_up-hidden c key = ap (found aes open_box utf8 key) (resolve-hidden c key user names)

    masked_or_failed : (now : ℕ) → Result Secret → Core → Core × Result String
    masked_or_failed now r c = elim r [ ok s ↦ (c, ok masked) | err e ↦ settle c now user (err e) ]

    masked-hidden :
        (now : ℕ) (r : Result Secret) (c : Core)
        → masked_or_failed now r (without_hidden user names c) ≡ carried (masked_or_failed now r c)
    unfolding masked_or_failed carried
    masked-hidden now (ok s) c = refl
    masked-hidden now (err e) c = settle-hidden c now (err e)

    retrieve-hidden :
        (now : ℕ) (key : String) (caller : Caller) (unmask : Bool) (c : Core)
        → retrieve aes open_box utf8 now key caller unmask user names (without_hidden user names c)
          ≡ carried (retrieve aes open_box utf8 now key caller unmask user names c)
    unfolding retrieve masked_or_failed without_hidden
    retrieve-hidden now key executor unmask c =
        ap
          (λ r.
            settle (without_hidden user names c) now user (r >>= reveal aes open_box utf8 c.kek))
          (looked_up-hidden c key)
        ∙ settle-hidden c now (looked_up c key >>= reveal aes open_box utf8 c.kek)
    retrieve-hidden now key human true c =
        ap
          (λ r.
            settle (without_hidden user names c) now user (r >>= reveal aes open_box utf8 c.kek))
          (looked_up-hidden c key)
        ∙ settle-hidden c now (looked_up c key >>= reveal aes open_box utf8 c.kek)
    retrieve-hidden now key human false c =
        ap (λ r. masked_or_failed now r (without_hidden user names c)) (looked_up-hidden c key)
        ∙ masked-hidden now (looked_up c key) c

    inject-hidden :
        (now : ℕ) (key : String) (c : Core)
        → inject aes open_box utf8 now key user names (without_hidden user names c)
          ≡ carried (inject aes open_box utf8 now key user names c)
    unfolding inject settle carried resolve_secret_in without_hidden
    inject-hidden now key c =
        ap
          (λ r.
            settle (without_hidden user names c) now user
              (r >>= λ s. reveal aes open_box utf8 c.kek s >>= λ text. ok (s.id, text, s.meta)))
          (looked_up-hidden c key)
        ∙ settle-hidden c now (
            looked_up c key >>= λ s.
            reveal aes open_box utf8 c.kek s >>= λ text. ok (s.id, text, s.meta))

    retrieve-SameTables :
        (now : ℕ) (key : String) (caller : Caller) (unmask : Bool) (c : Core)
        → SameTables c (retrieve aes open_box utf8 now key caller unmask user names c).0
    unfolding retrieve masked_or_failed
    retrieve-SameTables now key executor unmask c = settle-SameTables c now user _
    retrieve-SameTables now key human true c = settle-SameTables c now user _
    retrieve-SameTables now key human false c = masked-SameTables (looked_up c key)
      where
        masked-SameTables : (r : Result Secret) → SameTables c (masked_or_failed now r c).0
        masked-SameTables (ok s) = refl
        masked-SameTables (err e) = settle-SameTables c now user (err e)

    inject-SameTables :
        (now : ℕ) (key : String) (c : Core)
        → SameTables c (inject aes open_box utf8 now key user names c).0
    unfolding inject
    inject-SameTables now key c = settle-SameTables c now user _

    -- A secret that the caller does not see leaves no trace: get and get_for_injection answer, and
    -- count in the lockout, as if every such secret were not there. Neither changes anything but the
    -- lockout.
    pub reads-without_hidden :
        (c : Core) (now later : ℕ) (key : String) (caller : Caller) (unmask : Bool)
        → (get aes open_box utf8
              (without_hidden user names c)
              now
              later
              key
              caller
              unmask
              (some user)
              names
            ≡ (let o = get aes open_box utf8 c now later key caller unmask (some user) names in
                (without_hidden user names o.0, o.1)))
          × (get_for_injection aes open_box utf8
                (without_hidden user names c)
                now
                later
                key
                (some user)
                names
              ≡ (let o = get_for_injection aes open_box utf8 c now later key (some user) names in
                  (without_hidden user names o.0, o.1)))
          × SameTables c (get aes open_box utf8 c now later key caller unmask (some user) names).0
          × SameTables c (get_for_injection aes open_box utf8 c now later key (some user) names).0
    unfolding get get_for_injection carried
    reads-without_hidden c now later key caller unmask = (
      gated-hidden c now (retrieve aes open_box utf8 later key caller unmask user names)
          (retrieve-hidden later key caller unmask),
      gated-hidden c now (inject aes open_box utf8 later key user names) (inject-hidden later key),
      gated-SameTables c now user (retrieve aes open_box utf8 later key caller unmask user names)
          (retrieve-SameTables later key caller unmask),
      gated-SameTables c now user (inject aes open_box utf8 later key user names)
          (inject-SameTables later key),
    )
