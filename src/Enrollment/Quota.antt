-- ===== src/Enrollment/Quota.antt =====
-- The limit of packages/core/src/core/iam/enrollment_manager.py on the active tokens of one user.
use venya.Prelude.{
  ℕ, ◌≤◌, max, String, ◌≡◌, sym, subst, inl, inr, not, some, List, [], ◌∷◌, arith, eq_iff, leb,
  Bool-cases, Option-cases, length, select,
}
use venya.Enrollment.{
  EnrollmentConfig, EnrollmentToken, Database, in_progress, revoked, by_id, with_state, finished,
  is_created, is_in_progress, is_active, is_stale, create_row, create_enrollment_token,
  get_token_by_plaintext, mark_token_in_progress, progress_row, complete_enrollment, complete_row,
  revoke_token, revoke_row, revoke_all_active_tokens, cleanup_expired,
}
use venya.Enrollment.Steps.{mark_unknown, mark_known, complete_unknown, complete_known}
use venya.Enrollment.Rows.{by_id-Below}
use venya.Enrollment.Lawful.{IsSound, plaintext_found}
use venya.Enrollment.Machine.{
  Call, creates, starts, completes, revokes, revokes_all, cleans, step, run, step-Lawful,
}
use venya.Enrollment.Counting.{
  active_count, fewer-write, fewer-select, fewer-revoke_open, is_created-is_open, active_later,
}

module _ (c : EnrollmentConfig) (now : ℕ) (user : String) where
  progress-fewer :
      (db : Database) (t : EnrollmentToken)
      → IsSound db
      → by_id t.id db.tokens ≡ some t
      → active_count c now user (progress_row db t).0 ≤ active_count c now user db
  unfolding progress_row
  progress-fewer db t b found = elim (Bool-cases (is_in_progress t.state)) [
    | inl p ↦ rw p (omega arith)
    | inr p ↦ elim (Bool-cases (is_created t.state)) [
      | inl q ↦
          rw (p, q)
            (fewer-write (is_active c now user) db.next_id (with_state in_progress) db.tokens t b
              found (λ e. ground (arith, is_created-is_open t.state q)))
      | inr q ↦ rw (p, q) (omega arith)
    ]
  ]

  complete-fewer :
      (db : Database) (then_now : ℕ) (t : EnrollmentToken)
      → IsSound db
      → by_id t.id db.tokens ≡ some t
      → active_count c now user (complete_row db then_now t).0 ≤ active_count c now user db
  unfolding complete_row
  complete-fewer db then_now t b found = ground (
    arith,
    fewer-write (is_active c now user) db.next_id (finished then_now) db.tokens t b found
        (λ e. ground arith),
  )

  revoke-fewer :
      (db : Database) (t : EnrollmentToken)
      → IsSound db
      → by_id t.id db.tokens ≡ some t
      → active_count c now user (revoke_row db t).0 ≤ active_count c now user db
  unfolding revoke_row
  revoke-fewer db t b found = ground (
    arith,
    fewer-write (is_active c now user) db.next_id (with_state revoked) db.tokens t b found
        (λ e. ground arith),
  )

  mark-fewer :
      (sha256 : String → String) (db : Database) (value : String)
      → IsSound db
      → active_count c now user (mark_token_in_progress sha256 db value).0
        ≤ active_count c now user db
  mark-fewer sha256 db value b = elim (Option-cases (get_token_by_plaintext sha256 db value)) [
    | inl e ↦ rw (mark_unknown sha256 db value e) (omega arith)
    | inr (t, e) ↦
        rw (mark_known sha256 db value t e)
          (progress-fewer db t b (plaintext_found sha256 db value t b e))
  ]

  completing-fewer :
      (sha256 : String → String) (db : Database) (then_now : ℕ) (value : String)
      → IsSound db
      → active_count c now user (complete_enrollment sha256 db then_now value).0
        ≤ active_count c now user db
  completing-fewer sha256 db then_now value b =
      elim (Option-cases (get_token_by_plaintext sha256 db value)) [
        | inl e ↦ rw (complete_unknown sha256 db value then_now e) (omega arith)
        | inr (t, e) ↦
            rw (complete_known sha256 db value then_now t e)
              (complete-fewer db then_now t b (plaintext_found sha256 db value t b e))
      ]

  revoking-fewer :
      (db : Database) (i : ℕ)
      → IsSound db
      → active_count c now user (revoke_token db i).0 ≤ active_count c now user db
  unfolding revoke_token
  revoking-fewer db i b = elim (Option-cases (by_id i db.tokens)) [
    | inl e ↦ rw (e, revoke_token) (omega arith)
    | inr (t, e) ↦
        rw (e, revoke_token)
          (revoke-fewer db t b (
            subst (λ j. by_id j db.tokens ≡ some t)
              (sym (by_id-Below db.next_id i db.tokens t b e).1) e))
  ]

  create-fewer :
      (db : Database) (read then_now : ℕ) (who plaintext hashed : String)
      → read ≤ then_now
      → then_now ≤ now
      → active_count c now user (create_row c db read then_now who plaintext hashed).0
        ≤ max 3 (active_count c now user db)
  unfolding create_row
  create-fewer db read then_now who plaintext hashed h h' =
      elim (Bool-cases (leb 3 (length (select (is_active c read who) db.tokens)))) [
        | inl full ↦ rw full (ground arith)
        | inr room ↦
            rw room
              (ground (arith, active_later c read now who db (omega arith), room, eq_iff who user))
      ]

-- The readings of the clock by the calls, in their order, from `t` to `end`.
abbrev pub Clocked : ℕ → List Call → ℕ → Type 0
Clocked t [] end = t ≤ end
Clocked t (creates now then_now user plaintext ∷ ks) end =
    (t ≤ now) × (now ≤ then_now) × Clocked then_now ks end
Clocked t (starts value ∷ ks) end = Clocked t ks end
Clocked t (completes now value ∷ ks) end = (t ≤ now) × Clocked now ks end
Clocked t (revokes i ∷ ks) end = Clocked t ks end
Clocked t (revokes_all user ∷ ks) end = Clocked t ks end
Clocked t (cleans now ∷ ks) end = (t ≤ now) × Clocked now ks end

-- After any history of calls on a sound table whose clock never runs back, no user has more than
-- three active tokens, when no more were active at its start.
pub quota :
    (c : EnrollmentConfig) (sha256 : String → String) (db : Database) (ks : List Call) (t end : ℕ)
    (user : String)
    → IsSound db
    → active_count c t user db ≤ 3
    → Clocked t ks end
    → active_count c end user (run c sha256 db ks) ≤ 3
unfolding run step create_enrollment_token
quota c sha256 db [] t end user b h w = omega (arith, active_later c t end user db w, h)
quota c sha256 db (creates now then_now who plaintext ∷ ks) t end user b h w =
    quota c sha256 (step c sha256 db (creates now then_now who plaintext)) ks then_now end user
      (step-Lawful c sha256 db (creates now then_now who plaintext) b).rows
      (omega (
        arith,
        create-fewer c then_now user db now then_now who plaintext (sha256 plaintext) w.1
            (omega arith),
        active_later c t then_now user db (omega (arith, w.0, w.1)),
        h,
      ))
      w.2
quota c sha256 db (starts value ∷ ks) t end user b h w =
    quota c sha256 (step c sha256 db (starts value)) ks t end user
      (step-Lawful c sha256 db (starts value) b).rows
      (omega (arith, mark-fewer c t user sha256 db value b, h)) w
quota c sha256 db (completes now value ∷ ks) t end user b h w =
    quota c sha256 (step c sha256 db (completes now value)) ks now end user
      (step-Lawful c sha256 db (completes now value) b).rows
      (omega (
        arith,
        completing-fewer c now user sha256 db now value b,
        active_later c t now user db w.0,
        h,
      ))
      w.1
quota c sha256 db (revokes i ∷ ks) t end user b h w =
    quota c sha256 (step c sha256 db (revokes i)) ks t end user
      (step-Lawful c sha256 db (revokes i) b).rows
      (omega (arith, revoking-fewer c t user db i b, h)) w
quota c sha256 db (revokes_all who ∷ ks) t end user b h w =
    quota c sha256 (step c sha256 db (revokes_all who)) ks t end user
      (step-Lawful c sha256 db (revokes_all who) b).rows
      (unfold revoke_all_active_tokens in
        omega (arith, fewer-revoke_open c t user who db.tokens, h))
      w
quota c sha256 db (cleans now ∷ ks) t end user b h w =
    quota c sha256 (step c sha256 db (cleans now)) ks now end user
      (step-Lawful c sha256 db (cleans now) b).rows
      (unfold cleanup_expired in
        omega (
          arith,
          fewer-select (is_active c now user) (λ r. not (is_stale c now r)) db.tokens,
          active_later c t now user db w.0,
          h,
        ))
      w.1
