-- ===== src/Enrollment/Tests.antt =====
-- The default configuration of packages/core/src/core/iam/enrollment_manager.py and one pending user.
use venya.Prelude.{
  ℕ, ◌*◌, ◌≤◌, String, ◌≡◌, refl, ◌⊎◌, false, none, some, List, [], ◌∷◌, arith, second, length,
  select,
}
use venya.Prelude.Dict
use venya.Prelude.Dict.{Dict}
use venya.Enrollment.Revoking.{revoke_all_exact}
use venya.Enrollment.{
  is_open_of, revoke_all_active_tokens, EnrollmentConfig, EnrollmentToken, Database, ok, err,
  wrong_state, in_progress, revoked, by_id, by_hash, get_token_by_plaintext, mark_token_in_progress,
  complete_row, complete_enrollment, validate_token_for_start,
}
use venya.Enrollment.Lawful.{IsSound, Fate}
use venya.Enrollment.Machine.{
  Call, creates, starts, completes, revokes, step, run, step_fates, closed_for_good,
}
use venya.Enrollment.SingleUse.{single_use}
use venya.Enrollment.Counting.{active_count}
use venya.Enrollment.Quota.{quota}

abbrev minute : ℕ
minute = 60 * second

abbrev config : EnrollmentConfig
config = record { token_expiry = 15 * minute; clock_skew_tolerance = minute }

abbrev sha : String → String
sha plaintext = plaintext

abbrev token : EnrollmentToken
token = record {
  id = 1;
  user_id = "ana";
  token_hash = "p1";
  state = in_progress;
  expires_at = 15 * minute;
  used_at = none;
}

abbrev spent : EnrollmentToken
spent = record {
  id = 0;
  user_id = "bob";
  token_hash = "p0";
  state = revoked;
  expires_at = 15 * minute;
  used_at = none;
}

abbrev db : Database
db = record {
  statuses = Dict.put Dict.empty "ana" "pending_enrollment";
  tokens = token ∷ spent ∷ [];
  next_id = 2;
}

db-IsSound : IsSound db
db-IsSound = (omega arith, (omega arith, tt))

token_found : by_id 1 db.tokens ≡ some token
unfolding by_id
token_found = refl

spent_found : by_id 0 db.tokens ≡ some spent
unfolding by_id
spent_found = refl

abbrev calls : List Call
calls =
    creates (2 * minute) (2 * minute) "bob" "p2"
    ∷ starts "p2"
    ∷ completes (3 * minute) "p1"
    ∷ revokes 0
    ∷ []

step_fates_example : Fate token (by_id 1 (step config sha db (completes (3 * minute) "p1")).tokens)
step_fates_example =
    step_fates config sha db (completes (3 * minute) "p1") 1 token db-IsSound token_found

closed_for_good_example :
    (by_id 0 (run config sha db calls).tokens ≡ none)
    ⊎ (by_id 0 (run config sha db calls).tokens ≡ some spent)
closed_for_good_example = closed_for_good config sha db calls 0 spent db-IsSound spent_found refl

p1_completes : (complete_enrollment sha db (3 * minute) "p1").1 ≡ ok tt
unfolding complete_enrollment get_token_by_plaintext by_hash complete_row
p1_completes = refl

single_use_example :
    let db' = (complete_enrollment sha db (3 * minute) "p1").0 in
    (complete_enrollment sha db' (4 * minute) "p1" ≡ (db', err wrong_state))
    × (validate_token_for_start sha config db' (4 * minute) "p1" ≡ err wrong_state)
    × (mark_token_in_progress sha db' "p1" ≡ (db', err wrong_state))
single_use_example = single_use config sha db (3 * minute) (4 * minute) "p1" db-IsSound p1_completes

quota_example : active_count config (5 * minute) "bob" (run config sha db calls) ≤ 3
quota_example =
    quota config sha db calls minute (5 * minute) "bob" db-IsSound (omega arith)
      (omega arith, omega arith, (omega arith, omega arith))

p1_found : get_token_by_plaintext sha db "p1" ≡ some token
unfolding get_token_by_plaintext by_hash
p1_found = refl

revoke_all_exact_example :
    let db' = (revoke_all_active_tokens db "ana").0 in
    (complete_enrollment sha db' (4 * minute) "p1" ≡ (db', err wrong_state))
    × (validate_token_for_start sha config db' (4 * minute) "p1" ≡ err wrong_state)
    × (length (select (is_open_of "ana") db'.tokens) ≡ 0)
    × ((i : ℕ) (r : EnrollmentToken)
        → by_id i db.tokens ≡ some r
        → is_open_of "ana" r ≡ false
        → by_id i db'.tokens ≡ some r)
revoke_all_exact_example =
    revoke_all_exact config sha db "ana" (4 * minute) "p1" token p1_found refl
