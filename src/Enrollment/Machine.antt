-- ===== src/Enrollment/Machine.antt =====
-- Histories of calls to packages/core/src/core/iam/enrollment_manager.py: what is finished stays
-- finished.
use venya.Prelude.{
  ℕ, ◌<◌, String, ◌≡◌, ap, subst, ◌∙◌, ◌⊎◌, inl, inr, false, none, some, List, [], ◌∷◌, arith,
  Option-cases,
}
use venya.Enrollment.{
  EnrollmentConfig, EnrollmentToken, Database, TokenState, by_id, is_open, create_enrollment_token,
  mark_token_in_progress, complete_enrollment, revoke_token, revoke_all_active_tokens,
  cleanup_expired,
}
use venya.Enrollment.Rows.{Move, start, finish, withdraw, abort, Evolves, stays, moves, by_id-Below}
use venya.Enrollment.Lawful.{
  IsSound, Fate, Lawful, create-Lawful, mark-Lawful, completing-Lawful, revoking-Lawful,
  revoke_all-Lawful, cleanup-Lawful,
}

pub data Call : Type 0 where
  creates : ℕ → ℕ → String → String → Call
  starts : String → Call
  completes : ℕ → String → Call
  revokes : ℕ → Call
  revokes_all : String → Call
  cleans : ℕ → Call

unfoldable pub step : EnrollmentConfig → (String → String) → Database → Call → Database
step c sha256 db (creates now then_now user plaintext) =
    (create_enrollment_token sha256 c db now then_now user plaintext).0
step c sha256 db (starts value) = (mark_token_in_progress sha256 db value).0
step c sha256 db (completes now value) = (complete_enrollment sha256 db now value).0
step c sha256 db (revokes i) = (revoke_token db i).0
step c sha256 db (revokes_all user) = (revoke_all_active_tokens db user).0
step c sha256 db (cleans now) = (cleanup_expired c db now).0

unfoldable pub run : EnrollmentConfig → (String → String) → Database → List Call → Database
unfolding step
run c sha256 db [] = db
run c sha256 db (k ∷ ks) = run c sha256 (step c sha256 db k) ks

pub step-Lawful :
    (c : EnrollmentConfig) (sha256 : String → String) (db : Database) (k : Call)
    → IsSound db
    → Lawful db (step c sha256 db k)
unfolding step create_enrollment_token
step-Lawful c sha256 db (creates now then_now user plaintext) b =
    create-Lawful c db now then_now user plaintext (sha256 plaintext) b
step-Lawful c sha256 db (starts value) b = mark-Lawful sha256 db value b
step-Lawful c sha256 db (completes now value) b = completing-Lawful sha256 db value now b
step-Lawful c sha256 db (revokes i) b = revoking-Lawful db i b
step-Lawful c sha256 db (revokes_all user) b = revoke_all-Lawful db user b
step-Lawful c sha256 db (cleans now) b = cleanup-Lawful c db now b

-- Every call on a sound table leaves a row as it is, deletes it, or moves its state once along the
-- state machine; it never changes whom the row is for, its hash or its end.
pub step_fates :
    (c : EnrollmentConfig) (sha256 : String → String) (db : Database) (k : Call) (i : ℕ)
    (t : EnrollmentToken)
    → IsSound db
    → by_id i db.tokens ≡ some t
    → Fate t (by_id i (step c sha256 db k).tokens)
step_fates c sha256 db k i t b e = (step-Lawful c sha256 db k b).fates i t e

no-Move : {s s' : TokenState} → is_open s ≡ false → Move s s' → ⊥
no-Move h start = cc h
no-Move h finish = cc h
no-Move h withdraw = cc h
no-Move h abort = cc h

-- No move leads out of a closed state.
closed_stays : (t u : EnrollmentToken) → is_open t.state ≡ false → Evolves t u → u ≡ t
closed_stays t u h (stays e) = e
closed_stays t u h (moves m a b c d) = absurd (no-Move h m)

absent_for_good :
    (c : EnrollmentConfig) (sha256 : String → String) (db : Database) (ks : List Call) (i : ℕ)
    → IsSound db
    → i < db.next_id
    → by_id i db.tokens ≡ none
    → by_id i (run c sha256 db ks).tokens ≡ none
unfolding run
absent_for_good c sha256 db [] i b h e = e
absent_for_good c sha256 db (k ∷ ks) i b h e =
    let l = step-Lawful c sha256 db k b in
    absent_for_good c sha256 (step c sha256 db k) ks i l.rows (omega (arith, l.grows))
      (l.absent i h e)

-- In a sound table a token that was completed or revoked is never opened again, whatever is
-- called: its row stays exactly as it is until it is deleted, and no other row ever has its id.
pub closed_for_good :
    (c : EnrollmentConfig) (sha256 : String → String) (db : Database) (ks : List Call) (i : ℕ)
    (t : EnrollmentToken)
    → IsSound db
    → by_id i db.tokens ≡ some t
    → is_open t.state ≡ false
    → (by_id i (run c sha256 db ks).tokens ≡ none) ⊎ (by_id i (run c sha256 db ks).tokens ≡ some t)
unfolding run
closed_for_good c sha256 db [] i t b e h = inr e
closed_for_good c sha256 db (k ∷ ks) i t b e h =
    let db' = step c sha256 db k in
    let l = step-Lawful c sha256 db k b in
    elim (Option-cases (by_id i db'.tokens)) [
      | inl gone ↦ inl (
          absent_for_good c sha256 db' ks i l.rows
            (omega (arith, l.grows, by_id-Below db.next_id i db.tokens t b e)) gone)
      | inr (u, there) ↦
          let same = closed_stays t u h (subst (Fate t) there (l.fates i t e)) in
          closed_for_good c sha256 db' ks i t l.rows
            (there ∙ ap (λ (x : EnrollmentToken). some x) same) h
    ]
