-- ===== src/SlidingWindow/Decision.antt =====
-- When `check_and_consume` of packages/server/src/server/utils/rate_limiter.py allows a request.
use venya.Prelude.{
  ℕ, ◌≤◌, ◌<◌, max, String, ◌≡◌, refl, ap, ◌∙◌, Bool, true, false, ◌&&◌, ◌||◌, not, List, [], ◌∷◌,
  arith, ltb, leb, if◌then◌else◌, length, select, All,
}
use venya.SlidingWindow.{
  SlidingWindow, in_window, bucket, with_bucket, oldest, clean_and_check, check_and_consume,
}
use venya.SlidingWindow.Views.{view, clean-SameView, SameView}

abbrev pub is_full : SlidingWindow → ℕ → String → Bool
is_full s now key = leb s.max_requests (length (view s now key))

-- No key of the request is full.
abbrev pub all_free : SlidingWindow → ℕ → List String → Bool
all_free s now [] = true
all_free s now (key ∷ keys) = not (is_full s now key) && all_free s now keys

-- Every stamp is positive: the clock was not at zero when it was taken.
abbrev pub Stamped : SlidingWindow → Type 0
Stamped s = (key : String) → All (λ t. 0 < t) (bucket s key)

pub All-select : (p : ℕ → Bool) (ts : List ℕ) → All (λ t. 0 < t) ts → All (λ t. 0 < t) (select p ts)
All-select p [] h = tt
All-select p (t ∷ ts) h = ground (arith, All-select p ts h.1)

pub oldest_pos : (ts : List ℕ) → All (λ t. 0 < t) ts → 1 ≤ length ts → 0 < oldest ts
unfolding oldest
oldest_pos [] h n = absurd (omega arith)
oldest_pos (t ∷ []) h n = h.0
oldest_pos (t ∷ u ∷ ts) h n = omega (arith, h.0, oldest_pos (u ∷ ts) h.1 (omega arith))

-- What the first loop computes, from the views alone.
unfoldable pub worst : SlidingWindow → ℕ → List String → ℕ → ℕ
worst s now [] e = e
worst s now (key ∷ keys) e =
    worst s now keys (if is_full s now key then max e (oldest (view s now key)) else e)

worst-SameView :
    (s s' : SlidingWindow) (now : ℕ) (keys : List String) (e : ℕ)
    → SameView now s s'
    → worst s' now keys e ≡ worst s now keys e
unfolding worst
worst-SameView s s' now [] e v = refl
worst-SameView s s' now (key ∷ keys) e v =
    worst-SameView s s' now keys _ v
    ∙ ap
        (λ (x : ℕ × List ℕ).
          worst s now keys (if leb x.0 (length x.1) then max e (oldest x.1) else e))
        (λ i. (v.limit i, v.views key now (omega arith) i))

pub clean_and_check-worst :
    (s : SlidingWindow) (now : ℕ) (keys : List String) (e : ℕ)
    → (clean_and_check s now keys e).1 ≡ worst s now keys e
unfolding clean_and_check worst
clean_and_check-worst s now [] e = refl
clean_and_check-worst s now (key ∷ keys) e =
    clean_and_check-worst (with_bucket s key (view s now key)) now keys _
    ∙ worst-SameView s (with_bucket s key (view s now key)) now keys _ (clean-SameView now s key)

one_key :
    (limit n e o : ℕ) (rest : Bool)
    → (limit ≤ n → 0 < o)
    → (ltb 0 (if leb limit n then max e o else e) || not rest)
      ≡ (ltb 0 e || not (not (leb limit n) && rest))
one_key limit n e o true h = ground arith
one_key limit n e o false h = ground arith

worst_pos :
    (s : SlidingWindow) (now : ℕ) (keys : List String) (e : ℕ)
    → 1 ≤ s.max_requests
    → Stamped s
    → ltb 0 (worst s now keys e) ≡ (ltb 0 e || not (all_free s now keys))
unfolding worst
worst_pos s now [] e m p = ground arith
worst_pos s now (key ∷ keys) e m p =
    let stamps = view s now key in
    let pos = oldest_pos stamps (All-select (in_window s.window now) (bucket s key) (p key)) in
    worst_pos s now keys _ m p
    ∙ one_key s.max_requests (length stamps) e (oldest stamps) (all_free s now keys)
        (λ full. pos (omega arith))

-- When the limit is at least one and every stamp that is held is positive, a request is allowed
-- exactly when each of its keys has fewer stamps in the window than the limit.
pub decision_exact :
    (s : SlidingWindow) (now : ℕ) (keys : List String)
    → 1 ≤ s.max_requests
    → Stamped s
    → (check_and_consume s now keys).1.0 ≡ all_free s now keys
unfolding check_and_consume
decision_exact s now keys m p =
    rw clean_and_check-worst (ground (arith, worst_pos s now keys 0 m p))
