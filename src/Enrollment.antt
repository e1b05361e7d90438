-- ===== src/Enrollment.antt =====
-- packages/core/src/core/iam/enrollment_manager.py over the rows of packages/core/src/core/iam/models.py:
-- the life of enrollment tokens. Times are microseconds. The clock readings, the random plaintexts
-- and `sha256` are arguments; the table is a list, the newest row first. The advisory lock and the
-- row locks of the database make each call one step.
mod Rows
mod Steps
mod Lawful
mod SingleUse
mod Machine
mod Counting
mod Quota
mod Revoking
mod Tests
use venya.Prelude.{
  ℕ, zero, suc, ◌+◌, ◌-◌, ◌*◌, ◌/◌, ◌≤◌, ◌<◌, min, max, String, ◌≡◌, refl, sym, ap, subst, ◌∙◌, ◌≢◌,
  ◌↔◌, ◌⊎◌, inl, inr, Bool, true, false, ◌&&◌, ◌||◌, not, Option, none, some, List, [], ◌∷◌, ◌++◌,
  map, arith, ◌==◌, eq_iff, second, ltb, leb, ◌=?◌, if◌then◌else◌, Bool-cases, Option-cases, length,
  select, length-append, length-select-le, select-append, All, replicate, length-replicate,
}
use venya.Prelude.Dict
use venya.Prelude.Dict.{Dict}

-- The values that the column `state` takes.
pub data TokenState : Type 0 where
  created in_progress completed revoked : TokenState

pub record EnrollmentConfig : Type 0 where
  pub token_expiry : ℕ
  pub clock_skew_tolerance : ℕ

-- core.iam.models.EnrollmentToken
pub record EnrollmentToken : Type 0 where
  pub id : ℕ
  pub user_id : String
  pub token_hash : String
  pub state : TokenState
  pub expires_at : ℕ
  pub used_at : Option ℕ

-- The tables that the manager reads and writes; a user is known by their status.
pub record Database : Type 0 where
  pub statuses : Dict String
  pub tokens : List EnrollmentToken
  pub next_id : ℕ

-- The messages of EnrollmentError.
pub data Refusal : Type 0 where
  too_many_active invalid_token wrong_state token_expired user_not_pending : Refusal

pub data Result {ℓ} (A : Type ℓ) : Type ℓ where
  ok : A → Result A
  err : Refusal → Result A

-- state in ("created", "in_progress")
abbrev pub is_open : TokenState → Bool
is_open created = true
is_open in_progress = true
is_open completed = false
is_open revoked = false

abbrev pub is_created : TokenState → Bool
is_created created = true
is_created _ = false

abbrev pub is_in_progress : TokenState → Bool
is_in_progress in_progress = true
is_in_progress _ = false

abbrev pub is_revoked : TokenState → Bool
is_revoked revoked = true
is_revoked _ = false

-- The filter of the active tokens of a user.
abbrev pub is_active : EnrollmentConfig → ℕ → String → EnrollmentToken → Bool
is_active c now user t =
    (t.user_id == user) && (is_open t.state && ltb now (t.expires_at + c.clock_skew_tolerance))

-- filter(EnrollmentToken.id == token_id).first()
pub by_id : ℕ → List EnrollmentToken → Option EnrollmentToken
by_id i [] = none
by_id i (t ∷ ts) = if t.id =? i then some t else by_id i ts

-- filter(EnrollmentToken.token_hash == token_hash).first()
pub by_hash : String → List EnrollmentToken → Option EnrollmentToken
by_hash h [] = none
by_hash h (t ∷ ts) = if t.token_hash == h then some t else by_hash h ts

abbrev pub with_state : TokenState → EnrollmentToken → EnrollmentToken
with_state s t = record t { state = s }

-- The row with this id is written.
pub write : ℕ → (EnrollmentToken → EnrollmentToken) → List EnrollmentToken → List EnrollmentToken
write i f [] = []
write i f (t ∷ ts) = let rest = write i f ts in if t.id =? i then f t ∷ rest else t ∷ rest

abbrev pub set_row : Database → ℕ → (EnrollmentToken → EnrollmentToken) → Database
set_row db i f = record db { tokens = write i f db.tokens }

is_pending : Option String → Bool
is_pending none = false
is_pending (some status) = status == "pending_enrollment"

pub start_row : EnrollmentConfig → Database → ℕ → EnrollmentToken → Result EnrollmentToken
unfolding is_pending
start_row c db now t =
    if not (is_open t.state)
    then err wrong_state
    else if leb (t.expires_at + c.clock_skew_tolerance) now
    then err token_expired
    else if not (is_pending (Dict.get db.statuses t.user_id))
    then err user_not_pending
    else ok t

pub progress_row : Database → EnrollmentToken → Database × Result EnrollmentToken
progress_row db t =
    if is_in_progress t.state
    then (db, ok t)
    else if not (is_created t.state)
    then (db, err wrong_state)
    else (set_row db t.id (with_state in_progress), ok (with_state in_progress t))

abbrev pub finished : ℕ → EnrollmentToken → EnrollmentToken
finished now t = record t { state = completed; used_at = some now }

pub complete_row : Database → ℕ → EnrollmentToken → Database × Result (Unit {0})
complete_row db now t =
    if not (is_in_progress t.state)
    then (db, err wrong_state)
    else (set_row db t.id (finished now), ok tt)

abbrev pub new_token : EnrollmentConfig → ℕ → ℕ → String → String → EnrollmentToken
new_token c i now user hashed = record {
  id = i;
  user_id = user;
  token_hash = hashed;
  state = created;
  expires_at = now + c.token_expiry;
  used_at = none;
}

-- `now` and `then_now` are the two readings of the clock.
pub create_row :
    EnrollmentConfig
    → Database
    → ℕ
    → ℕ
    → String
    → String
    → String
    → Database × Result (EnrollmentToken × String)
create_row c db now then_now user plaintext hashed =
    let token = new_token c db.next_id then_now user hashed in
    if leb 3 (length (select (is_active c now user) db.tokens))
    then (db, err too_many_active)
    else (record db { tokens = token ∷ db.tokens; next_id = suc db.next_id }, ok (token, plaintext))

module _ (sha256 : String → String) where
  pub create_enrollment_token :
      EnrollmentConfig
      → Database
      → ℕ
      → ℕ
      → String
      → String
      → Database × Result (EnrollmentToken × String)
  unfolding create_row
  create_enrollment_token c db now then_now user plaintext =
      create_row c db now then_now user plaintext (sha256 plaintext)

  pub get_token_by_plaintext : Database → String → Option EnrollmentToken
  get_token_by_plaintext db value = by_hash (sha256 value) db.tokens

  pub validate_token_for_start : EnrollmentConfig → Database → ℕ → String → Result EnrollmentToken
  unfolding get_token_by_plaintext start_row
  validate_token_for_start c db now value = elim (get_token_by_plaintext db value) [
    | none ↦ err invalid_token
    | some t ↦ start_row c db now t
  ]

  pub mark_token_in_progress : Database → String → Database × Result EnrollmentToken
  unfolding get_token_by_plaintext progress_row
  mark_token_in_progress db value = elim (get_token_by_plaintext db value) [
    | none ↦ (db, err invalid_token)
    | some t ↦ progress_row db t
  ]

  -- The code has one message for an unknown token and for a wrong state.
  pub complete_enrollment : Database → ℕ → String → Database × Result (Unit {0})
  unfolding get_token_by_plaintext complete_row
  complete_enrollment db now value = elim (get_token_by_plaintext db value) [
    | none ↦ (db, err wrong_state)
    | some t ↦ complete_row db now t
  ]

pub revoke_row : Database → EnrollmentToken → Database × Bool
revoke_row db t =
    if is_open t.state then (set_row db t.id (with_state revoked), true) else (db, false)

pub revoke_token : Database → ℕ → Database × Bool
unfolding revoke_row
revoke_token db token_id = elim (by_id token_id db.tokens) [
  | none ↦ (db, false)
  | some t ↦ revoke_row db t
]

abbrev pub is_open_of : String → EnrollmentToken → Bool
is_open_of user t = (t.user_id == user) && is_open t.state

-- One UPDATE over every open token of the user.
pub revoke_open : String → List EnrollmentToken → List EnrollmentToken
revoke_open user [] = []
revoke_open user (t ∷ ts) =
    (if is_open_of user t then with_state revoked t else t) ∷ revoke_open user ts

pub revoke_all_active_tokens : Database → String → Database × ℕ
unfolding revoke_open
revoke_all_active_tokens db user =
    (record db { tokens = revoke_open user db.tokens }, length (select (is_open_of user) db.tokens))

abbrev pub is_stale : EnrollmentConfig → ℕ → EnrollmentToken → Bool
is_stale c now t = ltb (t.expires_at + c.clock_skew_tolerance) now || is_revoked t.state

pub cleanup_expired : EnrollmentConfig → Database → ℕ → Database × ℕ
cleanup_expired c db now = (
  record db { tokens = select (λ t. not (is_stale c now t)) db.tokens },
  length (select (is_stale c now) db.tokens),
)
