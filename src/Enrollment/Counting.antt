-- ===== src/Enrollment/Counting.antt =====
-- How the calls of packages/core/src/core/iam/enrollment_manager.py change the number of rows that pass a test.
use venya.Prelude.{
  ℕ, ◌≤◌, String, ◌≡◌, refl, inl, inr, Bool, true, none, some, List, [], ◌∷◌, arith, ◌=?◌,
  Bool-cases, length, select,
}
use venya.Enrollment.{
  EnrollmentConfig, EnrollmentToken, Database, TokenState, created, in_progress, completed, revoked,
  by_id, write, is_open, is_created, is_active, revoke_open,
}
use venya.Enrollment.Rows.{Below, by_id_above}

-- How many tokens of a user are active at a time.
abbrev pub active_count : EnrollmentConfig → ℕ → String → Database → ℕ
active_count c now user db = length (select (is_active c now user) db.tokens)

fewer :
    (p q : EnrollmentToken → Bool) (ts : List EnrollmentToken)
    → ((t : EnrollmentToken) → p t ≡ true → q t ≡ true)
    → length (select p ts) ≤ length (select q ts)
fewer p q [] h = omega arith
fewer p q (t ∷ ts) h = ground (arith, fewer p q ts h, h t)

write_absent :
    (i : ℕ) (f : EnrollmentToken → EnrollmentToken) (ts : List EnrollmentToken)
    → by_id i ts ≡ none
    → write i f ts ≡ ts
unfolding by_id write
write_absent i f [] e = refl
write_absent i f (t ∷ ts) e = ground (arith, write_absent i f ts)

pub fewer-write :
    (p : EnrollmentToken → Bool) (n : ℕ) (f : EnrollmentToken → EnrollmentToken)
    (ts : List EnrollmentToken) (t : EnrollmentToken)
    → Below n ts
    → by_id t.id ts ≡ some t
    → (p (f t) ≡ true → p t ≡ true)
    → length (select p (write t.id f ts)) ≤ length (select p ts)
unfolding by_id write
fewer-write p n f [] t b e h = omega arith
fewer-write p n f (r ∷ ts) t b e h = elim (Bool-cases (r.id =? t.id)) [
  | inl q ↦
      let same : r ≡ t = ground (arith, q) in
      ground (
        arith,
        q,
        same,
        h,
        write_absent t.id f ts (by_id_above r.id t.id ts b.1 (ground (arith, q))),
      )
  | inr q ↦ ground (arith, q, fewer-write p r.id f ts t b.1)
]

pub fewer-select :
    (p q : EnrollmentToken → Bool) (ts : List EnrollmentToken)
    → length (select p (select q ts)) ≤ length (select p ts)
fewer-select p q [] = omega arith
fewer-select p q (t ∷ ts) = ground (arith, fewer-select p q ts)

pub fewer-revoke_open :
    (c : EnrollmentConfig) (now : ℕ) (user who : String) (ts : List EnrollmentToken)
    → length (select (is_active c now user) (revoke_open who ts))
      ≤ length (select (is_active c now user) ts)
unfolding revoke_open
fewer-revoke_open c now user who [] = omega arith
fewer-revoke_open c now user who (t ∷ ts) = ground (arith, fewer-revoke_open c now user who ts)

pub is_created-is_open : (s : TokenState) → is_created s ≡ true → is_open s ≡ true
is_created-is_open created e = refl
is_created-is_open in_progress e = refl
is_created-is_open completed e = absurd (cc e)
is_created-is_open revoked e = absurd (cc e)

-- Time only ends tokens.
pub active_later :
    (c : EnrollmentConfig) (now later : ℕ) (user : String) (db : Database)
    → now ≤ later
    → active_count c later user db ≤ active_count c now user db
active_later c now later user db h =
    fewer (is_active c later user) (is_active c now user) db.tokens (λ t e. ground arith)
