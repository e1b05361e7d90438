-- ===== src/Enrollment/SingleUse.antt =====
-- An enrollment token of packages/core/src/core/iam/enrollment_manager.py serves for one enrollment.
use venya.Prelude.{
  ℕ, String, ◌≡◌, refl, ◌∙◌, inl, inr, true, false, some, arith, Bool-cases, Option-cases,
}
use venya.Enrollment.{
  EnrollmentConfig, EnrollmentToken, Database, ok, err, wrong_state, completed, finished,
  is_in_progress, set_row, get_token_by_plaintext, validate_token_for_start, start_row,
  mark_token_in_progress, progress_row, complete_enrollment, complete_row,
}
use venya.Enrollment.Steps.{mark_known, complete_unknown, complete_known, start_known}
use venya.Enrollment.Rows.{by_hash-write}
use venya.Enrollment.Lawful.{IsSound}

row_refused :
    (db : Database) (now : ℕ) (t : EnrollmentToken)
    → is_in_progress t.state ≡ false
    → complete_row db now t ≡ (db, err wrong_state)
unfolding complete_row
row_refused db now t e = rw e

row_done :
    (db : Database) (now : ℕ) (t : EnrollmentToken)
    → is_in_progress t.state ≡ true
    → complete_row db now t ≡ (set_row db t.id (finished now), ok tt)
unfolding complete_row
row_done db now t e = rw e

still_found :
    (sha256 : String → String) (db : Database) (value : String)
    (f : EnrollmentToken → EnrollmentToken) (t : EnrollmentToken)
    → IsSound db
    → ((r : EnrollmentToken) → (f r).token_hash ≡ r.token_hash)
    → get_token_by_plaintext sha256 db value ≡ some t
    → get_token_by_plaintext sha256 (set_row db t.id f) value ≡ some (f t)
unfolding get_token_by_plaintext
still_found sha256 db value f t b k e = by_hash-write db.next_id (sha256 value) f db.tokens t k b e

closed_everywhere :
    (c : EnrollmentConfig) (sha256 : String → String) (db : Database) (later : ℕ) (value : String)
    (t : EnrollmentToken)
    → t.state ≡ completed
    → get_token_by_plaintext sha256 db value ≡ some t
    → (complete_enrollment sha256 db later value ≡ (db, err wrong_state))
      × (validate_token_for_start sha256 c db later value ≡ err wrong_state)
      × (mark_token_in_progress sha256 db value ≡ (db, err wrong_state))
unfolding complete_row start_row progress_row
closed_everywhere c sha256 db later value t s e = (
  complete_known sha256 db value later t e ∙ ground (arith, s),
  start_known sha256 db value c later t e ∙ ground (arith, s),
  mark_known sha256 db value t e ∙ ground (arith, s),
)

-- Once an enrollment has been completed with a token of a sound table, the same plaintext
-- completes no other, starts none and is marked no more: each of these calls is refused and
-- changes nothing.
pub single_use :
    (c : EnrollmentConfig) (sha256 : String → String) (db : Database) (now later : ℕ)
    (value : String)
    → IsSound db
    → (complete_enrollment sha256 db now value).1 ≡ ok tt
    → let db' = (complete_enrollment sha256 db now value).0 in
      (complete_enrollment sha256 db' later value ≡ (db', err wrong_state))
      × (validate_token_for_start sha256 c db' later value ≡ err wrong_state)
      × (mark_token_in_progress sha256 db' value ≡ (db', err wrong_state))
single_use c sha256 db now later value b done =
    elim (Option-cases (get_token_by_plaintext sha256 db value)) [
      | inl e ↦ absurd (cc (done, complete_unknown sha256 db value now e))
      | inr (t, e) ↦ elim (Bool-cases (is_in_progress t.state)) [
        | inr q ↦ absurd (cc (done, complete_known sha256 db value now t e, row_refused db now t q))
        | inl q ↦ rw (complete_known sha256 db value now t e ∙ row_done db now t q) (
            closed_everywhere c sha256 (set_row db t.id (finished now)) later value (finished now t)
              refl (still_found sha256 db value (finished now) t b (λ r. refl) e))
      ]
    ]
