-- ===== src/Enrollment/Revoking.antt =====
-- `revoke_all_active_tokens` of packages/core/src/core/iam/enrollment_manager.py, which re-enrollment calls.
use venya.Prelude.{
  ℕ, String, ◌≡◌, refl, ◌∙◌, false, some, List, [], ◌∷◌, arith, eq_iff, if◌then◌else◌, length,
  select,
}
use mathlib.Core.Option
use venya.Enrollment.{
  EnrollmentConfig, EnrollmentToken, Database, err, wrong_state, revoked, by_id, by_hash,
  with_state, is_in_progress, TokenState, created, in_progress, completed, is_open, is_open_of,
  revoke_open, revoke_all_active_tokens, complete_enrollment, complete_row,
  validate_token_for_start, start_row, get_token_by_plaintext,
}
use venya.Enrollment.Rows.{by_id-revoke_open}
use venya.Enrollment.Steps.{complete_known, start_known}

none_open :
    (user : String) (ts : List EnrollmentToken)
    → length (select (is_open_of user) (revoke_open user ts)) ≡ 0
unfolding revoke_open
none_open user [] = refl
none_open user (t ∷ ts) = ground (arith, none_open user ts)

closed_row :
    (user : String) (i : ℕ) (ts : List EnrollmentToken) (t : EnrollmentToken)
    → by_id i ts ≡ some t
    → is_open_of user t ≡ false
    → by_id i (revoke_open user ts) ≡ some t
closed_row user i ts t e h = rw (by_id-revoke_open, e) (rw h refl)

by_hash-revoke_open :
    (h user : String) (ts : List EnrollmentToken)
    → by_hash h (revoke_open user ts)
      ≡ Option.map
          (λ (t : EnrollmentToken). if is_open_of user t then with_state revoked t else t)
          (by_hash h ts)
unfolding by_hash revoke_open
by_hash-revoke_open h user [] = refl
by_hash-revoke_open h user (t ∷ ts) = ground (arith, by_hash-revoke_open h user ts)

closed_not_started : (s : TokenState) → is_open s ≡ false → is_in_progress s ≡ false
closed_not_started created h = absurd (cc h)
closed_not_started in_progress h = absurd (cc h)
closed_not_started completed h = refl
closed_not_started revoked h = refl

useless :
    (c : EnrollmentConfig) (sha256 : String → String) (db : Database) (later : ℕ) (value : String)
    (t : EnrollmentToken)
    → is_open t.state ≡ false
    → get_token_by_plaintext sha256 db value ≡ some t
    → (complete_enrollment sha256 db later value ≡ (db, err wrong_state))
      × (validate_token_for_start sha256 c db later value ≡ err wrong_state)
unfolding complete_row start_row
useless c sha256 db later value t h e = (
  complete_known sha256 db value later t e ∙ rw (closed_not_started t.state h) refl,
  start_known sha256 db value c later t e ∙ rw h refl,
)

closed_after :
    (user : String) (t : EnrollmentToken)
    → t.user_id ≡ user
    → is_open (if is_open_of user t then with_state revoked t else t).state ≡ false
closed_after user t own = ground (arith, own, eq_iff t.user_id user)

-- Once all active tokens of a user are revoked, the plaintext of none of them starts or completes an
-- enrollment, no token of the user is open, and every token that was not open or is another user's stays.
pub revoke_all_exact :
    (c : EnrollmentConfig) (sha256 : String → String) (db : Database) (user : String) (later : ℕ)
    (value : String) (t : EnrollmentToken)
    → get_token_by_plaintext sha256 db value ≡ some t
    → t.user_id ≡ user
    → let db' = (revoke_all_active_tokens db user).0 in
      (complete_enrollment sha256 db' later value ≡ (db', err wrong_state))
      × (validate_token_for_start sha256 c db' later value ≡ err wrong_state)
      × (length (select (is_open_of user) db'.tokens) ≡ 0)
      × ((i : ℕ) (r : EnrollmentToken)
          → by_id i db.tokens ≡ some r
          → is_open_of user r ≡ false
          → by_id i db'.tokens ≡ some r)
unfolding revoke_all_active_tokens get_token_by_plaintext
revoke_all_exact c sha256 db user later value t e own =
    let db' = (revoke_all_active_tokens db user).0 in
    let found : get_token_by_plaintext sha256 db' value
        ≡ some (if is_open_of user t then with_state revoked t else t) =
      by_hash-revoke_open (sha256 value) user db.tokens ∙ rw e refl in
    let (completes, starts) = useless c sha256 db' later value _ (closed_after user t own) found in
    (completes, starts, none_open user db.tokens, λ i r. closed_row user i db.tokens r)
