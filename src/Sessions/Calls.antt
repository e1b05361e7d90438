-- ===== src/Sessions/Calls.antt =====
-- Histories of calls to packages/core/src/core/iam/session_manager.py, each with its readings of the clock.
use venya.Prelude.{ℕ, ◌+◌, ◌≤◌, String, List, [], ◌∷◌}
use venya.Prelude.Dict
use venya.Prelude.Dict.{Dict}
use venya.Sessions.{
  SessionConfig, Database, create_session, extend_session, refresh_token, revoke_session,
  cleanup_expired,
}

-- What a caller does. A creation carries the two readings of the clock and a refresh its three.
pub data Call : Type 0 where
  creates : ℕ → ℕ → String → List String → String → String → Call
  extends : ℕ → ℕ → Call
  refreshes : ℕ → ℕ → ℕ → String → String → String → Call
  revokes : ℕ → ℕ → Call
  cleans : ℕ → Call
  sets_status : ℕ → String → String → Call

unfoldable pub step : SessionConfig → Database → Call → Database
step c db (creates now flushed user roles token jti) =
    (create_session c db now flushed user roles token jti).0
step c db (extends now i) = (extend_session c db now i).0
step c db (refreshes checked extending minted old token jti) =
    (refresh_token c db checked extending minted old token jti).0
step c db (revokes now i) = (revoke_session db i).0
step c db (cleans now) = (cleanup_expired c db now).0
step c db (sets_status now user status) = record db { statuses = Dict.put db.statuses user status }

unfoldable pub run : SessionConfig → Database → List Call → Database
unfolding step
run c db [] = db
run c db (k ∷ ks) = run c (step c db k) ks

-- The first and the last reading of a call.
abbrev pub first_reading : Call → ℕ
first_reading (creates now flushed user roles token jti) = now
first_reading (extends now i) = now
first_reading (refreshes checked extending minted old token jti) = checked
first_reading (revokes now i) = now
first_reading (cleans now) = now
first_reading (sets_status now user status) = now

abbrev pub last_reading : Call → ℕ
last_reading (creates now flushed user roles token jti) = flushed
last_reading (extends now i) = now
last_reading (refreshes checked extending minted old token jti) = minted
last_reading (revokes now i) = now
last_reading (cleans now) = now
last_reading (sets_status now user status) = now

abbrev pub InOrder : Call → Type 0
InOrder (refreshes checked extending minted old token jti) =
    (checked ≤ extending) × (extending ≤ minted)
InOrder _ = Unit {0}

-- The clock does not run back, and no call takes longer than the tolerance.
abbrev pub Clocked : SessionConfig → ℕ → List Call → Type 0
Clocked c last [] = Unit {0}
Clocked c last (k ∷ ks) =
    (last ≤ first_reading k)
    × (first_reading k ≤ last_reading k)
    × (last_reading k ≤ first_reading k + c.clock_skew_tolerance)
    × InOrder k
    × Clocked c (last_reading k) ks

abbrev pub final : ℕ → List Call → ℕ
final last [] = last
final last (k ∷ ks) = final (last_reading k) ks
