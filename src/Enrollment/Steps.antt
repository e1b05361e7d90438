-- ===== src/Enrollment/Steps.antt =====
-- The calls of packages/core/src/core/iam/enrollment_manager.py that look a token up by its plaintext: the
-- rows that they go on with.
use venya.Prelude.{ℕ, String, ◌≡◌, none, some}
use venya.Enrollment.{
  EnrollmentConfig, EnrollmentToken, Database, err, wrong_state, invalid_token,
  get_token_by_plaintext, validate_token_for_start, start_row, mark_token_in_progress, progress_row,
  complete_enrollment, complete_row,
}

module _ (sha256 : String → String) (db : Database) (value : String) where
  pub mark_unknown :
      get_token_by_plaintext sha256 db value ≡ none
      → mark_token_in_progress sha256 db value ≡ (db, err invalid_token)
  unfolding mark_token_in_progress
  mark_unknown e = rw (e, mark_token_in_progress)

  pub mark_known :
      (t : EnrollmentToken)
      → get_token_by_plaintext sha256 db value ≡ some t
      → mark_token_in_progress sha256 db value ≡ progress_row db t
  unfolding mark_token_in_progress
  mark_known t e = rw (e, mark_token_in_progress)

  pub complete_unknown :
      (now : ℕ)
      → get_token_by_plaintext sha256 db value ≡ none
      → complete_enrollment sha256 db now value ≡ (db, err wrong_state)
  unfolding complete_enrollment
  complete_unknown now e = rw (e, complete_enrollment)

  pub complete_known :
      (now : ℕ) (t : EnrollmentToken)
      → get_token_by_plaintext sha256 db value ≡ some t
      → complete_enrollment sha256 db now value ≡ complete_row db now t
  unfolding complete_enrollment
  complete_known now t e = rw (e, complete_enrollment)

  pub start_known :
      (c : EnrollmentConfig) (now : ℕ) (t : EnrollmentToken)
      → get_token_by_plaintext sha256 db value ≡ some t
      → validate_token_for_start sha256 c db now value ≡ start_row c db now t
  unfolding validate_token_for_start
  start_known c now t e = rw (e, validate_token_for_start)

  pub start_unknown :
      (c : EnrollmentConfig) (now : ℕ)
      → get_token_by_plaintext sha256 db value ≡ none
      → validate_token_for_start sha256 c db now value ≡ err invalid_token
  unfolding validate_token_for_start
  start_unknown c now e = rw (e, validate_token_for_start)
