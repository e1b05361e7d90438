-- ===== src/Enrollment/Lawful.antt =====
-- What each call of packages/core/src/core/iam/enrollment_manager.py may do to the rows.
use venya.Prelude.{
  ℕ, ◌≤◌, ◌<◌, String, ◌≡◌, refl, sym, subst, inl, inr, true, not, Option, none, some, arith, leb,
  ◌=?◌, Bool-cases, Option-cases, length, select,
}
use venya.Enrollment.{
  EnrollmentConfig, EnrollmentToken, Database, TokenState, created, in_progress, completed, revoked,
  by_id, with_state, finished, is_open, is_open_of, is_created, is_in_progress, is_active, is_stale,
  set_row, create_row, new_token, get_token_by_plaintext, mark_token_in_progress, progress_row,
  complete_enrollment, complete_row, revoke_token, revoke_row, revoke_all_active_tokens,
  cleanup_expired,
}
use venya.Enrollment.Steps.{mark_unknown, mark_known, complete_unknown, complete_known}
use venya.Enrollment.Rows.{
  Move, start, finish, withdraw, abort, Evolves, stays, moves, Below, Below-write, Below-select,
  Below-revoke_open, by_hash-by_id, by_id-write, by_id-select, by_id-revoke_open, by_id-cons,
  by_id-Below,
}

abbrev pub IsSound : Database → Type 0
IsSound db = Below db.next_id db.tokens

-- What has become of a row: gone, or evolved.
abbrev pub Fate : EnrollmentToken → Option EnrollmentToken → Type 0
Fate t none = Unit {0}
Fate t (some u) = Evolves t u

-- What a call leaves of every row, with no id handed out twice.
pub record Lawful (db db' : Database) : Type 0 where
  pub rows : Below db'.next_id db'.tokens
  pub grows : db.next_id ≤ db'.next_id
  pub fates :
      (i : ℕ) (t : EnrollmentToken) → by_id i db.tokens ≡ some t → Fate t (by_id i db'.tokens)
  pub absent : (i : ℕ) → i < db.next_id → by_id i db.tokens ≡ none → by_id i db'.tokens ≡ none

unchanged : (db : Database) → IsSound db → Lawful db db
unchanged db b = record {
  rows = b;
  grows = omega arith;
  fates = λ i t e. rw e (stays refl);
  absent = λ i h e. e;
}

-- A write of the row `t` by a function that makes it evolve.
written :
    (db : Database) (t : EnrollmentToken) (f : EnrollmentToken → EnrollmentToken)
    → IsSound db
    → by_id t.id db.tokens ≡ some t
    → ((r : EnrollmentToken) → (f r).id ≡ r.id)
    → Evolves t (f t)
    → Lawful db (set_row db t.id f)
written db t f b found e v = record {
  rows = Below-write db.next_id t.id f db.tokens e b;
  grows = omega arith;
  fates = λ i r at. rw by_id-write (elim (Bool-cases (t.id =? i)) [
    | inl q ↦
        let same : t ≡ r = ground (arith, q, found, at) in
        rw (q, at) (subst (λ x. Evolves x (f x)) same v)
    | inr q ↦ rw (q, at) (stays refl)
  ]);
  absent = λ i h e'. rw by_id-write (ground (arith, e'));
}

pub create-Lawful :
    (c : EnrollmentConfig) (db : Database) (now then_now : ℕ) (user plaintext hashed : String)
    → IsSound db
    → Lawful db (create_row c db now then_now user plaintext hashed).0
unfolding create_row
create-Lawful c db now then_now user plaintext hashed b =
    elim (Bool-cases (leb 3 (length (select (is_active c now user) db.tokens)))) [
      | inl full ↦ rw full (unchanged db b)
      | inr room ↦ rw room (record {
        rows = (omega arith, b);
        grows = omega arith;
        fates = λ i t e.
            rw
              (
                by_id-cons (new_token c db.next_id then_now user hashed) i db.tokens
                    (by_id-Below db.next_id i db.tokens t b e).0,
                e,
              )
              (stays refl);
        absent =
            λ i h e. rw (by_id-cons (new_token c db.next_id then_now user hashed) i db.tokens h) e;
      })
    ]

progress-Lawful :
    (db : Database) (t : EnrollmentToken)
    → IsSound db
    → by_id t.id db.tokens ≡ some t
    → Lawful db (progress_row db t).0
unfolding progress_row
progress-Lawful db t b found = elim (Bool-cases (is_in_progress t.state)) [
  | inl p ↦ rw p (unchanged db b)
  | inr p ↦ elim (Bool-cases (is_created t.state)) [
    | inl q ↦
        rw (p, q)
          (written db t (with_state in_progress) b found (λ r. refl)
            (moves (started t.state q) refl refl refl refl))
    | inr q ↦ rw (p, q) (unchanged db b)
  ]
]
  where
    started : (s : TokenState) → is_created s ≡ true → Move s in_progress
    started created e = start
    started in_progress e = absurd (cc e)
    started completed e = absurd (cc e)
    started revoked e = absurd (cc e)

complete-Lawful :
    (db : Database) (now : ℕ) (t : EnrollmentToken)
    → IsSound db
    → by_id t.id db.tokens ≡ some t
    → Lawful db (complete_row db now t).0
unfolding complete_row
complete-Lawful db now t b found = elim (Bool-cases (is_in_progress t.state)) [
  | inl q ↦ rw q (
      written db t (finished now) b found (λ r. refl) (moves (ended t.state q) refl refl refl refl))
  | inr q ↦ rw q (unchanged db b)
]
  where
    ended : (s : TokenState) → is_in_progress s ≡ true → Move s completed
    ended in_progress e = finish
    ended created e = absurd (cc e)
    ended completed e = absurd (cc e)
    ended revoked e = absurd (cc e)

revoking : (s : TokenState) → is_open s ≡ true → Move s revoked
revoking created e = withdraw
revoking in_progress e = abort
revoking completed e = absurd (cc e)
revoking revoked e = absurd (cc e)

revoke-Lawful :
    (db : Database) (t : EnrollmentToken)
    → IsSound db
    → by_id t.id db.tokens ≡ some t
    → Lawful db (revoke_row db t).0
unfolding revoke_row
revoke-Lawful db t b found = elim (Bool-cases (is_open t.state)) [
  | inl q ↦ rw q (
      written db t (with_state revoked) b found (λ r. refl)
        (moves (revoking t.state q) refl refl refl refl))
  | inr q ↦ rw q (unchanged db b)
]

pub revoke_all-Lawful :
    (db : Database) (user : String) → IsSound db → Lawful db (revoke_all_active_tokens db user).0
unfolding revoke_all_active_tokens
revoke_all-Lawful db user b = record {
  rows = Below-revoke_open db.next_id user db.tokens b;
  grows = omega arith;
  fates = λ i t e.
      rw (by_id-revoke_open, e)
        (elim (Bool-cases (is_open_of user t)) [
          | inl q ↦ rw q (moves (revoking t.state (ground arith)) refl refl refl refl)
          | inr q ↦ rw q (stays refl)
        ]);
  absent = λ i h e. rw (by_id-revoke_open, e);
}

pub cleanup-Lawful :
    (c : EnrollmentConfig) (db : Database) (now : ℕ)
    → IsSound db
    → Lawful db (cleanup_expired c db now).0
unfolding cleanup_expired
cleanup-Lawful c db now b = record {
  rows = Below-select db.next_id _ db.tokens b;
  grows = omega arith;
  fates = λ i t e. elim (by_id-select db.next_id i (λ r. not (is_stale c now r)) db.tokens b) [
    | inl gone ↦ rw gone tt
    | inr same ↦ rw (same, e) (stays refl)
  ];
  absent =
      λ i h e. ground (arith, by_id-select db.next_id i (λ r. not (is_stale c now r)) db.tokens b);
}

module _ (sha256 : String → String) (db : Database) (value : String) where
  pub plaintext_found :
      (t : EnrollmentToken)
      → IsSound db
      → get_token_by_plaintext sha256 db value ≡ some t
      → by_id t.id db.tokens ≡ some t
  unfolding get_token_by_plaintext
  plaintext_found t b e = (by_hash-by_id db.next_id (sha256 value) db.tokens t b e).0

  pub mark-Lawful : IsSound db → Lawful db (mark_token_in_progress sha256 db value).0
  mark-Lawful b = elim (Option-cases (get_token_by_plaintext sha256 db value)) [
    | inl e ↦ rw (mark_unknown sha256 db value e) (unchanged db b)
    | inr (t, e) ↦
        rw (mark_known sha256 db value t e) (progress-Lawful db t b (plaintext_found t b e))
  ]

  pub completing-Lawful :
      (now : ℕ) → IsSound db → Lawful db (complete_enrollment sha256 db now value).0
  completing-Lawful now b = elim (Option-cases (get_token_by_plaintext sha256 db value)) [
    | inl e ↦ rw (complete_unknown sha256 db value now e) (unchanged db b)
    | inr (t, e) ↦
        rw (complete_known sha256 db value now t e)
          (complete-Lawful db now t b (plaintext_found t b e))
  ]

pub revoking-Lawful : (db : Database) (i : ℕ) → IsSound db → Lawful db (revoke_token db i).0
unfolding revoke_token
revoking-Lawful db i b = elim (Option-cases (by_id i db.tokens)) [
  | inl e ↦ rw (e, revoke_token) (unchanged db b)
  | inr (t, e) ↦
      rw (e, revoke_token)
        (revoke-Lawful db t b (
          subst (λ j. by_id j db.tokens ≡ some t) (sym (by_id-Below db.next_id i db.tokens t b e).1)
            e))
]
