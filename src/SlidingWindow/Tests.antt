-- ===== src/SlidingWindow/Tests.antt =====
-- A limiter of packages/server/src/server/utils/rate_limiter.py: two requests in a minute.
use venya.Prelude.{
  ℕ, ◌*◌, ◌≤◌, String, ◌≡◌, refl, ap, inl, inr, Bool, true, false, List, [], ◌∷◌, ◌++◌, arith, ◌==◌,
  second, ltb, Bool-cases, length,
}
use venya.Prelude.Dict
use venya.SlidingWindow.{
  SlidingWindow, live, check_and_consume, is_allowed, get_remaining, cleanup_expired, init, built,
  clean_and_check, commit, oldest,
}
use venya.SlidingWindow.Views.{view, added, check_and_consume-view}
use venya.SlidingWindow.Decision.{Stamped, all_free, decision_exact}
use venya.SlidingWindow.History.{admitted, window_bound, check_and_consume-Stamped}
use venya.SlidingWindow.Advice.{remaining-allowed, retry_later, cleanup_expired-view}

abbrev fresh : SlidingWindow
fresh = record { max_requests = 2; window = 60 * second; requests = Dict.empty }

init-fresh : init 2 (60 * second) ≡ built fresh
unfolding init
init-fresh = refl

fresh-Stamped : Stamped fresh
fresh-Stamped key = rw Dict.get-empty tt

abbrev requests : List (ℕ × List String)
requests =
    (5 * second, "ip:1" ∷ "exec:a" ∷ [])
    ∷ (6 * second, "ip:1" ∷ [])
    ∷ (7 * second, "ip:1" ∷ "exec:b" ∷ [])
    ∷ (65 * second, "ip:1" ∷ [])
    ∷ []

admitted_times : admitted fresh "ip:1" requests ≡ 5 * second ∷ 6 * second ∷ 65 * second ∷ []
unfolding admitted check_and_consume clean_and_check commit oldest Dict.get Dict.put Dict.empty
admitted_times = refl

window_bound_example :
    length (live (60 * second) (65 * second) (admitted fresh "ip:1" requests)) ≤ 2
window_bound_example =
    window_bound fresh "ip:1" requests (65 * second) (omega arith) refl (omega arith) (omega arith)

abbrev pair : List String
pair = "ip:1" ∷ "exec:a" ∷ []

once : SlidingWindow
once = (check_and_consume fresh (5 * second) pair).0

once-Stamped : Stamped once
unfolding once
once-Stamped = check_and_consume-Stamped fresh (5 * second) pair (omega arith) fresh-Stamped

abbrev full : SlidingWindow
full = record {
  max_requests = 2;
  window = 60 * second;
  requests = Dict.put Dict.empty "ip:1" (5 * second ∷ 6 * second ∷ []);
}

full-Stamped : Stamped full
full-Stamped key = rw Dict.get-put (elim (Bool-cases ("ip:1" == key)) [
  | inl e ↦ rw e (omega arith)
  | inr e ↦ rw (e, Dict.get-empty) tt
])

check_and_consume-view_example :
    view (check_and_consume full (7 * second) pair).0 (8 * second) "exec:a"
    ≡ view full (8 * second) "exec:a"
      ++ live
          (60 * second)
          (8 * second)
          (added (check_and_consume full (7 * second) pair).1.0 1 (7 * second))
check_and_consume-view_example =
    check_and_consume-view full (7 * second) (8 * second) pair "exec:a" (omega arith)

decision_exact_example :
    (check_and_consume full (7 * second) pair).1.0 ≡ all_free full (7 * second) pair
decision_exact_example = decision_exact full (7 * second) pair (omega arith) full-Stamped

remaining-allowed_example :
    (is_allowed full (7 * second) "ip:1").1.0 ≡ ltb 0 (get_remaining full (7 * second) "ip:1")
remaining-allowed_example = remaining-allowed full (7 * second) "ip:1" (omega arith) full-Stamped

full-view : view full (7 * second) "ip:1" ≡ 5 * second ∷ 6 * second ∷ []
full-view = rw Dict.get-put_self

full_refuses : (is_allowed full (7 * second) "ip:1").1 ≡ (false, 59)
unfolding is_allowed check_and_consume clean_and_check oldest Dict.get Dict.put Dict.empty
full_refuses = refl

retry_later_example :
    (is_allowed (is_allowed full (7 * second) "ip:1").0 (66 * second) "ip:1").1.0 ≡ true
retry_later_example =
    retry_later full (7 * second) "ip:1" (omega arith) full-Stamped (66 * second)
      (omega (arith, ap length full-view)) (ap (λ (d : Bool × ℕ). d.0) full_refuses)
      (omega (arith, ap (λ (d : Bool × ℕ). d.1) full_refuses)) (omega arith)

cleanup_expired-view_example :
    view (cleanup_expired full (66 * second)).0 (66 * second) "ip:1"
    ≡ view full (66 * second) "ip:1"
cleanup_expired-view_example =
    cleanup_expired-view full (66 * second) (66 * second) "ip:1" (omega arith)
