-- ===== src/Sessions.antt =====
-- packages/core/src/core/iam/session_manager.py over the rows of packages/core/src/core/iam/models.py:
-- the session lifecycle. Times and durations are microseconds. Every reading of the clock, and every
-- random token and token id, is an argument; the table is a list, the newest row first.
mod Rows
mod Calls
mod History
mod Refresh
mod Revocation
mod Tests
use venya.Prelude.{
  ℕ, zero, suc, ◌+◌, ◌-◌, ◌*◌, ◌/◌, ◌≤◌, ◌<◌, min, max, String, ◌≡◌, refl, sym, ap, subst, ◌∙◌, ◌≢◌,
  ◌↔◌, ◌⊎◌, inl, inr, Bool, true, false, ◌&&◌, ◌||◌, not, Option, none, some, List, [], ◌∷◌, ◌++◌,
  map, arith, ◌==◌, eq_iff, second, ltb, leb, ◌=?◌, if◌then◌else◌, Bool-cases, Option-cases, length,
  select, length-append, length-select-le, select-append, All, replicate, length-replicate,
}
use venya.Prelude.Dict
use venya.Prelude.Dict.{Dict}

pub record SessionConfig : Type 0 where
  pub session_timeout : ℕ
  pub access_token_ttl : ℕ
  pub max_session_duration : ℕ
  pub clock_skew_tolerance : ℕ

-- core.iam.models.Session
pub record Session : Type 0 where
  pub id : ℕ
  pub user_id : String
  pub created_at : ℕ
  pub expires_at : ℕ
  pub access_token : String
  pub access_token_jti : String
  pub access_token_expires_at : Option ℕ

-- core.iam.models.ElevationToken
pub record ElevationToken : Type 0 where
  pub token_hash : String
  pub owner : String
  pub session_id : Option ℕ
  pub valid_until : ℕ
  pub used : Bool

-- session_manager.AccessToken
pub record AccessToken : Type 0 where
  pub token : String
  pub holder : String
  pub roles : List String
  pub good_until : ℕ
  pub jti : String

-- The tables that the manager reads and writes; a user is known by their status.
pub record Database : Type 0 where
  pub statuses : Dict String
  pub sessions : List Session
  pub elevations : List ElevationToken
  pub next_id : ℕ

-- What `refresh_token` and `create_session` come to: a value, or UserNotActiveError with the status.
pub data Answer {ℓ} (A : Type ℓ) : Type ℓ where
  answer : A → Answer A
  user_not_active : String → Option String → Answer A

-- user is not None and user.status == "active"
unfoldable pub is_user_active : Option String → Bool
is_user_active none = false
is_user_active (some status) = status == "active"

-- filter(SessionModel.id == session_id).first()
pub by_id : ℕ → List Session → Option Session
by_id i [] = none
by_id i (s ∷ ss) = if s.id =? i then some s else by_id i ss

-- filter(SessionModel.access_token == access_token).first()
pub by_token : String → List Session → Option Session
by_token token [] = none
by_token token (s ∷ ss) = if s.access_token == token then some s else by_token token ss

-- The row with this id is written.
pub write : ℕ → (Session → Session) → List Session → List Session
write i f [] = []
write i f (s ∷ ss) = let rest = write i f ss in if s.id =? i then f s ∷ rest else s ∷ rest

-- `now` is the reading of `create_session`, `flushed` that of the column default of `created_at`.
pub new_session : SessionConfig → ℕ → ℕ → ℕ → String → String → String → Session
new_session c i now flushed user_id token jti = record {
  id = i;
  user_id = user_id;
  created_at = flushed;
  expires_at = now + c.session_timeout;
  access_token = token;
  access_token_jti = jti;
  access_token_expires_at = some (now + c.access_token_ttl);
}

pub new_access_token : SessionConfig → ℕ → String → List String → String → String → AccessToken
new_access_token c now user_id roles token jti = record {
  token = token;
  holder = user_id;
  roles = roles;
  good_until = now + c.access_token_ttl;
  jti = jti;
}

pub create_session :
    SessionConfig
    → Database
    → ℕ
    → ℕ
    → String
    → List String
    → String
    → String
    → Database × Answer (Session × AccessToken)
unfolding new_session new_access_token
create_session c db now flushed user_id roles token jti =
    let status = Dict.get db.statuses user_id in
    let session = new_session c db.next_id now flushed user_id token jti in
    let access_token = new_access_token c now user_id roles token jti in
    if not (is_user_active status) then (db, user_not_active user_id status) else (
      record db { sessions = session ∷ db.sessions; next_id = suc db.next_id },
      answer (session, access_token),
    )

-- Not past the hard cap, and not idle for longer than the timeout and the tolerance.
pub check_expiry : SessionConfig → ℕ → Session → Bool
check_expiry c now s =
    if ltb (s.created_at + c.max_session_duration) now
    then false
    else leb now (s.expires_at + c.clock_skew_tolerance)

pub validate_session : SessionConfig → Database → ℕ → ℕ → Bool
unfolding check_expiry
validate_session c db now session_id = elim (by_id session_id db.sessions) [
  | none ↦ false
  | some s ↦
      if ltb (s.created_at + c.max_session_duration) now
      then false
      else leb now (s.expires_at + c.clock_skew_tolerance)
]

pub extended : SessionConfig → ℕ → Session → Session
extended c now s = record s { expires_at = now + c.session_timeout }

pub extend_session : SessionConfig → Database → ℕ → ℕ → Database × Bool
unfolding extended
extend_session c db now session_id = elim (by_id session_id db.sessions) [
  | none ↦ (db, false)
  | some s ↦
      if ltb (s.created_at + c.max_session_duration) now
      then (db, false)
      else (record db { sessions = write session_id (extended c now) db.sessions }, true)
]

pub check_refresh_window : SessionConfig → ℕ → Session → Bool
check_refresh_window c now s = leb now (s.created_at + c.max_session_duration)

pub rotated : AccessToken → Session → Session
rotated t s = record s {
  access_token = t.token;
  access_token_jti = t.jti;
  access_token_expires_at = some t.good_until;
}

-- The readings of the clock in `check_refresh_window`, in `extend_session` and for the new token.
pub refresh_row :
    SessionConfig
    → Database
    → ℕ
    → ℕ
    → ℕ
    → Session
    → String
    → String
    → Database × Answer (Option AccessToken)
unfolding rotated new_access_token
refresh_row c db checked extending minted s token jti =
    let status = Dict.get db.statuses s.user_id in
    let db' = (extend_session c db extending s.id).0 in
    let new_token = new_access_token c minted s.user_id [] token jti in
    if not (check_refresh_window c checked s)
    then (db, answer none)
    else if not (is_user_active status)
    then (db, user_not_active s.user_id status)
    else (
      record db' { sessions = write s.id (rotated new_token) db'.sessions },
      answer (some new_token),
    )

pub refresh_token :
    SessionConfig
    → Database
    → ℕ
    → ℕ
    → ℕ
    → String
    → String
    → String
    → Database × Answer (Option AccessToken)
unfolding refresh_row
refresh_token c db checked extending minted access_token token jti =
    elim (by_token access_token db.sessions) [
      | none ↦ (db, answer none)
      | some s ↦ refresh_row c db checked extending minted s token jti
    ]

abbrev pub bound_to : ℕ → ElevationToken → Bool
bound_to i e = elim e.session_id [ none ↦ false | some j ↦ j =? i ]

pub revoke_session : Database → ℕ → Database × Bool
revoke_session db session_id = elim (by_id session_id db.sessions) [
  | none ↦ (db, false)
  | some s ↦ (
    record db {
      sessions = select (λ r. not (r.id =? session_id)) db.sessions;
      elevations = select (λ e. not (bound_to session_id e)) db.elevations;
    },
    true,
  )
]

-- expires_at < now - cap + timeout - tolerance, or created_at < now - cap - tolerance
pub is_dead : SessionConfig → ℕ → Session → Bool
is_dead c now s =
    ltb (s.expires_at + c.max_session_duration + c.clock_skew_tolerance) (now + c.session_timeout)
    || ltb (s.created_at + c.max_session_duration + c.clock_skew_tolerance) now

pub cleanup_expired : SessionConfig → Database → ℕ → Database × ℕ
unfolding is_dead
cleanup_expired c db now = (
  record db { sessions = select (λ s. not (is_dead c now s)) db.sessions },
  length (select (is_dead c now) db.sessions),
)
