-- ===== src/Throttle/Backoff.antt =====
-- The waits that packages/server/src/server/middleware/rate_limit.py announces.
use Prim.Native.Nat.{◌^◌}
use native.Mathlib.Nat.{pow-le-pow_right}
use venya.Prelude.{
  ℕ, ◌+◌, ◌-◌, ◌*◌, ◌≤◌, ◌<◌, String, ◌≡◌, refl, subst, ◌⊎◌, inl, inr, true, List, [], ◌∷◌, arith,
  second, Bool-cases, length, select, All,
}
use venya.Throttle.{
  Tier, break_glass, cert_issuance, auth, generic, Middleware, truncated, window_seconds,
  retry_after, recent, backoff_seconds, last, backoff_of, failures_of, check_break_glass_backoff,
}

-- The wait that a counted refusal announces is at least a second and at most the window, and whoever
-- waits it finds the next window open.
pub retry_opens_window :
    (t : Tier) (now later : ℕ)
    → now + retry_after t now * second ≤ later
    → (1 ≤ retry_after t now)
      × (retry_after t now ≤ window_seconds t)
      × (truncated t now + window_seconds t * second ≤ truncated t later)
unfolding retry_after
retry_opens_window break_glass now later h = (omega arith, omega arith, omega (arith, h))
retry_opens_window cert_issuance now later h = (omega arith, omega arith, omega (arith, h))
retry_opens_window auth now later h = (omega arith, omega arith, omega (arith, h))
retry_opens_window generic now later h = (omega arith, omega arith, omega (arith, h))

-- The stamps rise, and none is in the future.
abbrev pub IsLog : ℕ → List ℕ → Type 0
IsLog now [] = Unit {0}
IsLog now (t ∷ ts) = (t ≤ now) × All (λ u. t ≤ u) ts × IsLog now ts

List-cases : (ts : List ℕ) → (ts ≡ []) ⊎ ((t : ℕ) × (us : List ℕ) × (ts ≡ t ∷ us))
List-cases [] = inl refl
List-cases (t ∷ us) = inr (t, us, refl)

all_recent :
    (now t : ℕ) (ts : List ℕ)
    → recent now t ≡ true
    → All (λ u. t ≤ u) ts
    → select (recent now) ts ≡ ts
all_recent now t [] e h = refl
all_recent now t (u ∷ ts) e h = ground (arith, e, h.0, all_recent now t ts e h.1)

last-recent :
    (then_now now : ℕ) (ts : List ℕ)
    → IsLog then_now ts
    → 1 ≤ length (select (recent now) ts)
    → last (select (recent now) ts) ≡ last ts
unfolding last
last-recent then_now now [] l h = refl
last-recent then_now now (t ∷ []) l h = ground (arith, h)
last-recent then_now now (t ∷ u ∷ ts) l h = elim (Bool-cases (recent now t)) [
  | inl e ↦ rw (e, all_recent now t (u ∷ ts) e l.1) refl
  | inr e ↦ rw e (last-recent then_now now (u ∷ ts) l.2 (ground (arith, e, h)))
]

last_past : (now : ℕ) (ts : List ℕ) → IsLog now ts → last ts ≤ now
unfolding last
last_past now [] l = omega arith
last_past now (t ∷ []) l = l.0
last_past now (t ∷ u ∷ ts) l = last_past now (u ∷ ts) l.2

fewer_recent :
    (now later : ℕ) (ts : List ℕ)
    → now ≤ later
    → length (select (recent later) ts) ≤ length (select (recent now) ts)
fewer_recent now later [] h = omega arith
fewer_recent now later (t ∷ ts) h = ground (arith, fewer_recent now later ts h)

power_grows : (m n : ℕ) → m ≤ n → 2 ^ m ≤ 2 ^ n
power_grows m n h = pow-le-pow_right (omega arith) h

-- The back-off of a log is over once the whole of it has passed since its last entry.
backoff_of-over :
    (now t : ℕ) (ts : List ℕ)
    → last (t ∷ ts) + backoff_seconds (length (t ∷ ts)) * second ≤ now
    → backoff_of now (t ∷ ts) ≡ 0
unfolding backoff_of
backoff_of-over now t ts h = ground (arith, h)

backoff_of-waits :
    (now s : ℕ) (ts : List ℕ)
    → last ts ≤ now
    → backoff_of now ts ≡ s
    → 0 < s
    → (last ts + backoff_seconds (length ts) * second ≤ now + s * second) × (s ≤ 16)
unfolding backoff_of
backoff_of-waits now s [] h e p = absurd (omega (arith, e, p))
backoff_of-waits now s (t ∷ ts) h e p = ground (arith, h, e, p)

backoff_of_small : (now : ℕ) (ts : List ℕ) → backoff_of now ts ≤ 16
unfolding backoff_of
backoff_of_small now [] = omega arith
backoff_of_small now (t ∷ ts) = ground arith

backoff_of-later :
    (now later s : ℕ) (ts : List ℕ)
    → IsLog now ts
    → backoff_of now (select (recent now) ts) ≡ s
    → 0 < s
    → now + s * second ≤ later
    → backoff_of later (select (recent later) ts) ≡ 0
backoff_of-later now later s ts l e p h = elim (List-cases (select (recent later) ts)) [
  | inl none_left ↦ rw none_left (unfold backoff_of in refl)
  | inr (t, us, left) ↦
      let fewer = fewer_recent now later ts (omega (arith, h)) in
      let one : 1 ≤ length (select (recent later) ts) = rw left (omega arith) in
      let end_later = last-recent now later ts l one in
      let end_now = last-recent now now ts l (omega (arith, one, fewer)) in
      let past = last_past now ts l in
      let (waits, small) =
        backoff_of-waits now s (select (recent now) ts) (omega (arith, end_now, past)) e p in
      let grows =
        power_grows (length (select (recent later) ts) - 1) (length (select (recent now) ts) - 1)
          (omega (arith, fewer)) in
      let over : last (select (recent later) ts)
            + backoff_seconds (length (select (recent later) ts)) * second
          ≤ later =
        omega (arith, waits, grows, end_later, end_now, h) in
      rw left (
        backoff_of-over later t us
          (subst (λ ws. last ws + backoff_seconds (length ws) * second ≤ later) left over))
]

-- A back-off that is announced is at most 16 seconds, and the check lets the address pass once it has been
-- waited for, if no failure is recorded in between and the log of the address is in order.
pub backoff_ends :
    (m : Middleware) (ip : String) (now later : ℕ)
    → IsLog now (failures_of m ip)
    → 0 < check_break_glass_backoff m now ip
    → now + check_break_glass_backoff m now ip * second ≤ later
    → (check_break_glass_backoff m now ip ≤ 16) × (check_break_glass_backoff m later ip ≡ 0)
unfolding check_break_glass_backoff
backoff_ends m ip now later l p h = (
  backoff_of_small now (select (recent now) (failures_of m ip)),
  backoff_of-later now later _ (failures_of m ip) l refl p h,
)
