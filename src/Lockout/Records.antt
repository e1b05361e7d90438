-- ===== src/Lockout/Records.antt =====
-- The records of packages/core/src/core/engine/rate_limiter.py: what each method does to them.
use venya.Prelude.{
  ℕ, ◌≤◌, ◌<◌, String, ◌≡◌, refl, subst, ◌≢◌, inl, inr, Option, none, some, List, [], ◌∷◌, arith,
  ◌==◌, eq_iff, leb, if◌then◌else◌, Option-cases, All,
}
use venya.Prelude.Dict
use venya.Prelude.Dict.{get-empty, get-put, get-remove, get-sweep, dict_laws}
use venya.Lockout.{
  FailureRecord, RateLimiter, after_failure, init, built, record_failure, check, record_success,
  reset, get_remaining_attempts, cleanup_expired, store, forget, lockout_seconds, reinstated,
  check_record, remaining_of,
}

-- A record under its own user; one that has reached the limit was armed at a positive moment.
pub record IsGood (limit : ℕ) (u : String) (r : FailureRecord) : Type 0 where
  pub own : r.user_id ≡ u
  pub armed : limit ≤ r.failed_attempts → 0 < r.locked_at

pub record IsSound (l : RateLimiter) : Type 0 where
  pub at :
      (u : String) (r : FailureRecord) → Dict.get l.failures u ≡ some r → IsGood l.max_attempts u r

store-IsSound :
    (l : RateLimiter) (user : String) (r : FailureRecord)
    → IsSound l
    → IsGood l.max_attempts user r
    → IsSound (store l user r)
store-IsSound l user r s g = record {
  at = λ u q e. ground (arith, s.at u q, rw get-put at e, eq_iff user u);
}

forget-IsSound : (l : RateLimiter) (user : String) → IsSound l → IsSound (forget l user)
forget-IsSound l user s = record { at = λ u q e. ground (arith, s.at u q, rw get-remove at e) }

pub record_failure-store :
    (l : RateLimiter) (now : ℕ) (user : String)
    → record_failure l now user ≡ (
      store l user (after_failure l now user),
      (if leb l.max_attempts (after_failure l now user).failed_attempts
          then some (lockout_seconds l)
          else none),
    )
unfolding record_failure
record_failure-store l now user = ground arith

after_failure-IsGood :
    (l : RateLimiter) (now : ℕ) (user : String)
    → 0 < now
    → IsSound l
    → 1 ≤ l.max_attempts
    → IsGood l.max_attempts user (after_failure l now user)
unfolding after_failure
after_failure-IsGood l now user h s m = elim (Option-cases (Dict.get l.failures user)) [
  | inl e ↦ rw e (ground arith)
  | inr (r, e) ↦ rw e (ground (arith, s.at user r e))
]

-- A method that reads leaves the limiter as it was, without the record, or with it reinstated.
module _ {ℓ} (P : RateLimiter → Type ℓ) (l : RateLimiter) (now : ℕ) (user : String)
    (same : P l) where
  module _ (gone : P (forget l user)) where
    check_record_cases :
        (r : FailureRecord) → P (store l user (reinstated now r)) → P (check_record l now user r).0
    unfolding check_record
    check_record_cases r back = ground arith

    pub check_cases :
        ((r : FailureRecord)
          → Dict.get l.failures user ≡ some r
          → P (store l user (reinstated now r)))
        → P (check l now user).0
    unfolding check
    check_cases back = elim (Option-cases (Dict.get l.failures user)) [
      | inl e ↦ rw (e, check) same
      | inr (r, e) ↦ rw (e, check) (check_record_cases r (back r e))
    ]

  remaining_of_cases :
      (r : FailureRecord) → P (store l user (reinstated now r)) → P (remaining_of l now user r).0
  unfolding remaining_of
  remaining_of_cases r back = ground arith

  pub remaining_cases :
      ((r : FailureRecord)
        → Dict.get l.failures user ≡ some r
        → P (store l user (reinstated now r)))
      → P (get_remaining_attempts l now user).0
  unfolding get_remaining_attempts
  remaining_cases back = elim (Option-cases (Dict.get l.failures user)) [
    | inl e ↦ rw (e, get_remaining_attempts) same
    | inr (r, e) ↦ rw (e, get_remaining_attempts) (remaining_of_cases r (back r e))
  ]

-- The calls that a server makes, each with its clock reading.
pub data Call : Type 0 where
  fails checks asks : String → Call
  succeeds resets : String → Call
  sweeps : Call

unfoldable pub step : RateLimiter → ℕ × Call → RateLimiter
step l (now, fails user) = (record_failure l now user).0
step l (now, checks user) = (check l now user).0
step l (now, asks user) = (get_remaining_attempts l now user).0
step l (now, succeeds user) = record_success l user
step l (now, resets user) = reset l user
step l (now, sweeps) = (cleanup_expired l now).0

unfoldable pub run : RateLimiter → List (ℕ × Call) → RateLimiter
unfolding step
run l [] = l
run l (c ∷ cs) = run (step l c) cs

reinstated-IsGood :
    (l : RateLimiter) (now : ℕ) (user : String) (r : FailureRecord)
    → 1 ≤ l.max_attempts
    → IsSound l
    → Dict.get l.failures user ≡ some r
    → IsGood l.max_attempts user (reinstated now r)
unfolding reinstated
reinstated-IsGood l now user r m s e = record {
  own = (s.at user r e).own;
  armed = λ h. absurd (omega arith);
}

-- What the invariant says of a limiter: its records are sound, and its limit is a real one.
pub record IsValid (l : RateLimiter) : Type 0 where
  pub limit : 1 ≤ l.max_attempts
  pub sound : IsSound l

record_failure-IsValid :
    (l : RateLimiter) (now : ℕ) (user : String)
    → 0 < now
    → IsValid l
    → IsValid (record_failure l now user).0
record_failure-IsValid l now user h v = rw record_failure-store (record {
  limit = v.limit;
  sound = store-IsSound l user _ v.sound (after_failure-IsGood l now user h v.sound v.limit);
})

pub step-IsValid :
    (l : RateLimiter) (now : ℕ) (c : Call) → 0 < now → IsValid l → IsValid (step l (now, c))
unfolding step
step-IsValid l now (fails user) h v = record_failure-IsValid l now user h v
step-IsValid l now (checks user) h v =
    check_cases IsValid l now user v
      (record { limit = v.limit; sound = forget-IsSound l user v.sound })
      (λ r e. record {
        limit = v.limit;
        sound = store-IsSound l user _ v.sound (reinstated-IsGood l now user r v.limit v.sound e);
      })
step-IsValid l now (asks user) h v = remaining_cases IsValid l now user v (λ r e. record {
  limit = v.limit;
  sound = store-IsSound l user _ v.sound (reinstated-IsGood l now user r v.limit v.sound e);
})
step-IsValid l now (succeeds user) h v =
    unfold record_success in record { limit = v.limit; sound = forget-IsSound l user v.sound }
step-IsValid l now (resets user) h v =
    unfold reset in record { limit = v.limit; sound = forget-IsSound l user v.sound }
step-IsValid l now sweeps h v =
    unfold cleanup_expired in
    record {
      limit = v.limit;
      sound = record { at = λ u q e. ground (arith, v.sound.at u q, rw get-sweep at e) };
    }

-- For each user the moment of the last failure, after one call and after a history of them.
unfoldable pub noted : (String → ℕ) → ℕ → Call → String → ℕ
noted last now (fails v) u = if v == u then now else last u
noted last now c u = last u

unfoldable pub last_failures : (String → ℕ) → List (ℕ × Call) → String → ℕ
unfolding noted
last_failures last [] = last
last_failures last ((now, c) ∷ cs) = last_failures (noted last now c) cs

-- A record that has reached the limit was armed at the moment of its user's last failure.
pub record ArmedAt (l : RateLimiter) (last : String → ℕ) : Type 0 where
  pub moment :
      (u : String) (r : FailureRecord)
      → Dict.get l.failures u ≡ some r
      → l.max_attempts ≤ r.failed_attempts
      → r.locked_at ≡ last u

module _ (l : RateLimiter) (last : String → ℕ) (now : ℕ) (user : String) (a : ArmedAt l last) where
  failure-ArmedAt : ArmedAt (record_failure l now user).0 (noted last now (fails user))
  unfolding noted after_failure
  failure-ArmedAt = rw record_failure-store (record {
    moment = λ u r e h. ground (arith, a.moment u r, rw get-put at e, eq_iff user u, h);
  })

  forget-ArmedAt : ArmedAt (forget l user) last
  forget-ArmedAt = record {
    moment = λ u r e h. ground (arith, a.moment u r, rw get-remove at e, h);
  }

  reinstated-ArmedAt :
      (r : FailureRecord) → 1 ≤ l.max_attempts → ArmedAt (store l user (reinstated now r)) last
  unfolding reinstated
  reinstated-ArmedAt r m = record {
    moment = λ u q e h. ground (arith, a.moment u q, rw get-put at e, h, m);
  }

step-ArmedAt :
    (l : RateLimiter) (last : String → ℕ) (now : ℕ) (c : Call)
    → 1 ≤ l.max_attempts
    → ArmedAt l last
    → ArmedAt (step l (now, c)) (noted last now c)
unfolding step noted record_success reset cleanup_expired
step-ArmedAt l last now (fails user) m a = failure-ArmedAt l last now user a
step-ArmedAt l last now (checks user) m a =
    check_cases (λ l. ArmedAt l last) l now user a (forget-ArmedAt l last now user a)
      (λ r e. reinstated-ArmedAt l last now user a r m)
step-ArmedAt l last now (asks user) m a =
    remaining_cases (λ l. ArmedAt l last) l now user a
      (λ r e. reinstated-ArmedAt l last now user a r m)
step-ArmedAt l last now (succeeds user) m a = forget-ArmedAt l last now user a
step-ArmedAt l last now (resets user) m a = forget-ArmedAt l last now user a
step-ArmedAt l last now sweeps m a = record {
  moment = λ u r e h. ground (arith, a.moment u r, rw get-sweep at e, h);
}

-- Every history of calls with positive clock readings keeps the invariant of a limiter: the limit
-- is at least one, each record stands under its own user, and the moment at which one that has
-- reached the limit was armed is positive. It is that of the last failure of the user: of the last
-- in the history, or of the one noted before it.
pub run-IsValid :
    (l : RateLimiter) (last : String → ℕ) (cs : List (ℕ × Call))
    → All (λ c. 0 < c.0) cs
    → IsValid l
    → ArmedAt l last
    → IsValid (run l cs) × ArmedAt (run l cs) (last_failures last cs)
unfolding run last_failures
run-IsValid l last [] h v a = (v, a)
run-IsValid l last ((now, c) ∷ cs) h v a =
    run-IsValid (step l (now, c)) (noted last now c) cs h.1 (step-IsValid l now c h.0 v)
      (step-ArmedAt l last now c v.limit a)

init_fields :
    (m w k : ℕ) (l : RateLimiter)
    → init m w k ≡ built l
    → (1 ≤ l.max_attempts) × (l.failures ≡ Dict.empty)
unfolding init
init_fields m w k l e = ground arith

pub init-IsValid : (m w k : ℕ) (l : RateLimiter) → init m w k ≡ built l → IsValid l
init-IsValid m w k l e =
    let f = init_fields m w k l e in
    record {
      limit = f.0;
      sound = record { at = λ u q i. absurd (cc (f.1, get-empty {V = FailureRecord} u, i)) };
    }

abbrev pub user_of : Call → Option String
user_of (fails user) = some user
user_of (checks user) = some user
user_of (asks user) = some user
user_of (succeeds user) = some user
user_of (resets user) = some user
user_of sweeps = none

module _ (l : RateLimiter) (user other : String) (apart : user ≢ other) where
  abbrev Spares : RateLimiter → Type 0
  Spares l' = Dict.get l'.failures other ≡ Dict.get l.failures other

  store-Spares : (r : FailureRecord) → Spares (store l user r)
  store-Spares r = rw get-put (ground (arith, eq_iff user other, apart))

  forget-Spares : Spares (forget l user)
  forget-Spares = rw get-remove (ground (arith, eq_iff user other, apart))

  failure-Spares : (now : ℕ) → Spares (record_failure l now user).0
  failure-Spares now = rw record_failure-store (store-Spares _)

  named_step-Spares : (now : ℕ) (c : Call) → user_of c ≡ some user → Spares (step l (now, c))
  unfolding step record_success reset
  named_step-Spares now (fails u) e =
      subst (λ v. Spares (record_failure l now v).0) (cc e) (failure-Spares now)
  named_step-Spares now (checks u) e =
      subst (λ v. Spares (check l now v).0) (cc e)
        (check_cases Spares l now user refl forget-Spares (λ r _. store-Spares _))
  named_step-Spares now (asks u) e =
      subst (λ v. Spares (get_remaining_attempts l now v).0) (cc e)
        (remaining_cases Spares l now user refl (λ r _. store-Spares _))
  named_step-Spares now (succeeds u) e = subst (λ v. Spares (forget l v)) (cc e) forget-Spares
  named_step-Spares now (resets u) e = subst (λ v. Spares (forget l v)) (cc e) forget-Spares
  named_step-Spares now sweeps e = cc

-- A call for one user leaves the record of every other user alone.
pub step_isolates :
    (l : RateLimiter) (user other : String) (now : ℕ) (c : Call)
    → user ≢ other
    → user_of c ≡ some user
    → Dict.get (step l (now, c)).failures other ≡ Dict.get l.failures other
step_isolates l user other now c apart e = named_step-Spares l user other apart now c e
