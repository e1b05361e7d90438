-- ===== src/SlidingWindow/Advice.antt =====
-- What packages/server/src/server/utils/rate_limiter.py tells a client, and what its sweep leaves.
use venya.Prelude.{
  ℕ, ◌+◌, ◌-◌, ◌*◌, ◌/◌, ◌≤◌, ◌<◌, max, String, ◌≡◌, refl, sym, ap, ◌∙◌, inl, inr, true, false,
  Option, none, some, List, [], ◌∷◌, arith, second, ltb, Bool-cases, length, length-select-le,
}
use mathlib.Core.List.{append-nil}
use venya.Prelude.Dict
use venya.Prelude.Dict.{kept, map_option, get-sweep, get-map_values}
use venya.SlidingWindow.{
  SlidingWindow, live, in_window, bucket, or_empty, is_nil, oldest, check_and_consume, is_allowed,
  get_remaining, cleanup_expired,
}
use venya.SlidingWindow.Views.{view, live-live, check_and_consume-view, check_and_consume_limits}
use venya.SlidingWindow.Decision.{
  Stamped, All-select, oldest_pos, worst, clean_and_check-worst, decision_exact,
}
use venya.SlidingWindow.History.{check_and_consume-Stamped}

-- Once the oldest stamp has left the window, fewer are in it.
oldest_leaves :
    (w t : ℕ) (ts : List ℕ) → 1 ≤ length ts → oldest ts + w ≤ t → length (live w t ts) < length ts
unfolding oldest
oldest_leaves w t [] n h = absurd (omega arith)
oldest_leaves w t (u ∷ []) n h = ground arith
oldest_leaves w t (u ∷ v ∷ ts) n h =
    ground
      (arith, oldest_leaves w t (v ∷ ts) (omega arith), length-select-le (in_window w t) (v ∷ ts))

module _ (s : SlidingWindow) (now : ℕ) (key : String) (room : 1 ≤ s.max_requests)
    (p : Stamped s) where
  -- When the limit is at least one and every stamp that is held is positive, a key has requests
  -- left exactly when the next one would be allowed.
  pub remaining-allowed : (is_allowed s now key).1.0 ≡ ltb 0 (get_remaining s now key)
  unfolding is_allowed get_remaining
  remaining-allowed = decision_exact s now (key ∷ []) room p ∙ ground arith

  refused-full : (is_allowed s now key).1.0 ≡ false → s.max_requests ≤ length (view s now key)
  unfolding is_allowed
  refused-full e = ground (arith, decision_exact s now (key ∷ []) room p)

  advice :
      s.max_requests ≤ length (view s now key)
      → (is_allowed s now key).1.1 ≡ max 1 ((oldest (view s now key) + s.window - now) / second + 1)
  unfolding is_allowed check_and_consume worst
  advice full =
      let pos = oldest_pos (view s now key) (All-select _ (bucket s key) (p key)) (omega arith) in
      rw clean_and_check-worst (ground (arith, pos))

  -- When the key holds no more stamps than the limit, which is at least one, and every stamp is
  -- positive, a client that is refused and waits as long as it is told is allowed, if the key is
  -- not used in between.
  pub retry_later :
      (later : ℕ)
      → length (view s now key) ≤ s.max_requests
      → (is_allowed s now key).1.0 ≡ false
      → now + (is_allowed s now key).1.1 * second ≤ later
      → 0 < now
      → (is_allowed (is_allowed s now key).0 later key).1.0 ≡ true
  unfolding is_allowed
  retry_later later most e wait pos =
      let s' = (check_and_consume s now (key ∷ [])).0 in
      let limits = check_and_consume_limits s now (key ∷ []) in
      let full = refused-full e in
      let told = advice full in
      let w = s.window in
      let gone : length (live w later (view s now key)) < length (view s now key) =
        oldest_leaves w later (view s now key) (omega arith) (omega (arith, told)) in
      let same : view s' later key ≡ view s later key =
        check_and_consume-view s now later (key ∷ []) key (omega (arith, told))
        ∙ rw e (append-nil _) in
      decision_exact s' later (key ∷ []) (rw limits.1 room)
        (check_and_consume-Stamped s now (key ∷ []) pos p)
      ∙ ground (arith, same, gone, limits.1, live-live w now later (bucket s key), full)

is_nil-eq : (ts : List ℕ) → is_nil ts ≡ true → ts ≡ []
is_nil-eq [] e = refl
is_nil-eq (u ∷ ts) e = cc

swept_bucket :
    (w now t : ℕ) (o : Option (List ℕ))
    → now ≤ t
    → live w t (or_empty (kept is_nil (map_option (live w now) o))) ≡ live w t (or_empty o)
swept_bucket w now t none h = refl
swept_bucket w now t (some ts) h = elim (Bool-cases (is_nil (live w now ts))) [
  | inl e ↦ rw e (ap (live w t) (sym (is_nil-eq (live w now ts) e)) ∙ live-live w now t ts h)
  | inr e ↦ rw e (live-live w now t ts h)
]

-- The sweep changes what counts for no key, now or later.
pub cleanup_expired-view :
    (s : SlidingWindow) (now t : ℕ) (key : String)
    → now ≤ t
    → view (cleanup_expired s now).0 t key ≡ view s t key
unfolding cleanup_expired
cleanup_expired-view s now t key h =
    rw (get-sweep, get-map_values) (swept_bucket s.window now t (Dict.get s.requests key) h)
