-- ===== src/Enrollment/Rows.antt =====
-- The token table of packages/core/src/core/iam/enrollment_manager.py, and the moves of the state
-- machine of a token.
use venya.Prelude.{
  ℕ, ◌≤◌, ◌<◌, String, ◌≡◌, refl, ◌⊎◌, inl, inr, Bool, none, some, List, [], ◌∷◌, arith, ◌==◌,
  eq_iff, ◌=?◌, if◌then◌else◌, Bool-cases, select,
}
use mathlib.Core.Option
use venya.Enrollment.{
  EnrollmentToken, TokenState, created, in_progress, completed, revoked, by_id, by_hash, write,
  with_state, is_open_of, revoke_open,
}

-- The moves of a state that the program makes.
pub data Move : TokenState → TokenState → Type 0 where
  start : Move created in_progress
  finish : Move in_progress completed
  withdraw : Move created revoked
  abort : Move in_progress revoked

-- A row stays as it is, or its state makes one move; who it is for, its hash and its end never change.
pub data Evolves (t u : EnrollmentToken) : Type 0 where
  stays : u ≡ t → Evolves t u
  moves :
      Move t.state u.state
      → u.id ≡ t.id
      → u.user_id ≡ t.user_id
      → u.token_hash ≡ t.token_hash
      → u.expires_at ≡ t.expires_at
      → Evolves t u

abbrev pub Below : ℕ → List EnrollmentToken → Type 0
Below n [] = Unit {0}
Below n (t ∷ ts) = (t.id < n) × Below t.id ts

pub Below-mono : (m n : ℕ) (ts : List EnrollmentToken) → m ≤ n → Below m ts → Below n ts
Below-mono m n [] h b = tt
Below-mono m n (t ∷ ts) h b = (omega arith, b.1)

pub by_id_above : (n i : ℕ) (ts : List EnrollmentToken) → Below n ts → n ≤ i → by_id i ts ≡ none
unfolding by_id
by_id_above n i [] b h = refl
by_id_above n i (t ∷ ts) b h = ground (arith, by_id_above t.id i ts b.1)

pub Below-write :
    (n i : ℕ) (f : EnrollmentToken → EnrollmentToken) (ts : List EnrollmentToken)
    → ((t : EnrollmentToken) → (f t).id ≡ t.id)
    → Below n ts
    → Below n (write i f ts)
unfolding write
Below-write n i f [] e b = tt
Below-write n i f (t ∷ ts) e b = elim (Bool-cases (t.id =? i)) [
  | inl h ↦ rw h (omega (arith, e t, b.0), rw e (Below-write t.id i f ts e b.1))
  | inr h ↦ rw h (b.0, Below-write t.id i f ts e b.1)
]

pub Below-select :
    (n : ℕ) (p : EnrollmentToken → Bool) (ts : List EnrollmentToken)
    → Below n ts
    → Below n (select p ts)
Below-select n p [] b = tt
Below-select n p (t ∷ ts) b = elim (Bool-cases (p t)) [
  | inl h ↦ rw h (b.0, Below-select t.id p ts b.1)
  | inr h ↦ rw h (Below-mono t.id n (select p ts) (omega (arith, b.0)) (Below-select t.id p ts b.1))
]

revoke-id :
    (user : String) (t : EnrollmentToken)
    → (if is_open_of user t then with_state revoked t else t).id ≡ t.id
revoke-id user t = ground arith

pub Below-revoke_open :
    (n : ℕ) (user : String) (ts : List EnrollmentToken) → Below n ts → Below n (revoke_open user ts)
unfolding revoke_open
Below-revoke_open n user [] b = tt
Below-revoke_open n user (t ∷ ts) b =
    (rw revoke-id b.0, rw revoke-id (Below-revoke_open t.id user ts b.1))

pub by_hash-by_id :
    (n : ℕ) (h : String) (ts : List EnrollmentToken) (t : EnrollmentToken)
    → Below n ts
    → by_hash h ts ≡ some t
    → (by_id t.id ts ≡ some t) × (t.id < n) × (t.token_hash ≡ h)
unfolding by_hash by_id
by_hash-by_id n h [] t b e = absurd (cc e)
by_hash-by_id n h (r ∷ ts) t b e = elim (Bool-cases (r.token_hash == h)) [
  | inl q ↦ ground (arith, q, eq_iff r.token_hash h)
  | inr q ↦ ground (arith, q, by_hash-by_id r.id h ts t b.1)
]

pub by_id-write :
    (i j : ℕ) (f : EnrollmentToken → EnrollmentToken) (ts : List EnrollmentToken)
    → ((t : EnrollmentToken) → (f t).id ≡ t.id)
    → by_id j (write i f ts) ≡ (if i =? j then Option.map f (by_id j ts) else by_id j ts)
unfolding by_id write
by_id-write i j f [] e = ground arith
by_id-write i j f (t ∷ ts) e = ground (arith, by_id-write i j f ts e, e t)

-- A write that keeps ids and hashes is seen through the hash of the row that it writes.
pub by_hash-write :
    (n : ℕ) (h : String) (f : EnrollmentToken → EnrollmentToken) (ts : List EnrollmentToken)
    (t : EnrollmentToken)
    → ((r : EnrollmentToken) → (f r).token_hash ≡ r.token_hash)
    → Below n ts
    → by_hash h ts ≡ some t
    → by_hash h (write t.id f ts) ≡ some (f t)
unfolding by_hash write
by_hash-write n h f [] t k b e = cc
by_hash-write n h f (r ∷ ts) t k b e = elim (Bool-cases (r.token_hash == h)) [
  | inl q ↦ let same : r ≡ t = ground (arith, q) in ground (arith, q, same, k r)
  | inr q ↦
      let found : by_hash h ts ≡ some t = ground (arith, q) in
      ground (
        arith,
        q,
        found,
        by_hash-by_id r.id h ts t b.1 found,
        by_hash-write r.id h f ts t k b.1 found,
      )
]

pub by_id-select :
    (n i : ℕ) (p : EnrollmentToken → Bool) (ts : List EnrollmentToken)
    → Below n ts
    → (by_id i (select p ts) ≡ none) ⊎ (by_id i (select p ts) ≡ by_id i ts)
unfolding by_id
by_id-select n i p [] b = inr refl
by_id-select n i p (t ∷ ts) b =
    ground (arith, by_id-select t.id i p ts b.1, by_id_above t.id i ts b.1)

pub by_id-revoke_open :
    (i : ℕ) (user : String) (ts : List EnrollmentToken)
    → by_id i (revoke_open user ts)
      ≡ Option.map
          (λ (t : EnrollmentToken). if is_open_of user t then with_state revoked t else t)
          (by_id i ts)
unfolding by_id revoke_open
by_id-revoke_open i user [] = refl
by_id-revoke_open i user (t ∷ ts) = ground (arith, by_id-revoke_open i user ts)

pub by_id-cons :
    (t : EnrollmentToken) (i : ℕ) (ts : List EnrollmentToken)
    → i < t.id
    → by_id i (t ∷ ts) ≡ by_id i ts
unfolding by_id
by_id-cons t i ts h = ground arith

pub by_id-Below :
    (n i : ℕ) (ts : List EnrollmentToken) (t : EnrollmentToken)
    → Below n ts
    → by_id i ts ≡ some t
    → (i < n) × (t.id ≡ i)
unfolding by_id
by_id-Below n i [] t b e = absurd (cc e)
by_id-Below n i (r ∷ ts) t b e = ground (arith, by_id-Below r.id i ts t b.1)
