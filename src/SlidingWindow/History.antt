-- ===== src/SlidingWindow/History.antt =====
-- Histories of requests to one limiter of packages/server/src/server/utils/rate_limiter.py: no
-- window ever holds more admitted requests for a key than the limit.
use venya.Prelude.{
  ℕ, zero, suc, ◌≤◌, ◌<◌, max, String, ◌≡◌, refl, sym, ap, ◌∙◌, inl, inr, Bool, true, false, List,
  [], ◌∷◌, ◌++◌, arith, ◌==◌, eq_iff, ltb, leb, if◌then◌else◌, Bool-cases, length, length-append,
  length-select-le, select-append, All, replicate, length-replicate,
}
use mathlib.Core.Path.{ap₂}
use venya.Prelude.Dict
use venya.Prelude.Dict.{Dict, get-empty}
use mathlib.Core.List.{append_assoc, append-nil}
use venya.SlidingWindow.{
  SlidingWindow, live, in_window, bucket, with_bucket, oldest, clean_and_check, commit,
  check_and_consume,
}
use venya.SlidingWindow.Views.{
  view, occurrences, added, bucket-with_bucket, commit-bucket, check_and_consume-view,
  check_and_consume_limits,
}
use venya.SlidingWindow.Decision.{Stamped, all_free, All-select, decision_exact}

abbrev Pos : List ℕ → Type 0
Pos = All (λ t. 0 < t)

Pos-append : (xs ys : List ℕ) → Pos xs → Pos ys → Pos (xs ++ ys)
Pos-append [] ys h k = k
Pos-append (x ∷ xs) ys h k = (h.0, Pos-append xs ys h.1 k)

Pos-replicate : (n t : ℕ) → 0 < t → Pos (replicate n t)
Pos-replicate zero t h = tt
Pos-replicate (suc n) t h = (h, Pos-replicate n t h)

with_bucket-Stamped :
    (s : SlidingWindow) (key : String) (ts : List ℕ)
    → Stamped s
    → Pos ts
    → Stamped (with_bucket s key ts)
with_bucket-Stamped s key ts p h k =
    rw bucket-with_bucket (elim (Bool-cases (key == k)) [ inl e ↦ rw e h | inr e ↦ rw e (p k) ])

clean_and_check-Stamped :
    (s : SlidingWindow) (now : ℕ) (keys : List String) (e : ℕ)
    → Stamped s
    → Stamped (clean_and_check s now keys e).0
unfolding clean_and_check
clean_and_check-Stamped s now [] e p = p
clean_and_check-Stamped s now (key ∷ keys) e p =
    let stamps = view s now key in
    clean_and_check-Stamped (with_bucket s key stamps) now keys
      (if leb s.max_requests (length stamps) then max e (oldest stamps) else e)
      (with_bucket-Stamped s key stamps p
        (All-select (in_window s.window now) (bucket s key) (p key)))

commit-Stamped :
    (s : SlidingWindow) (now : ℕ) (keys : List String)
    → 0 < now
    → Stamped s
    → Stamped (commit s now keys)
commit-Stamped s now keys h p k =
    rw commit-bucket (Pos-append (bucket s k) _ (p k) (Pos-replicate (occurrences k keys) now h))

pub check_and_consume-Stamped :
    (s : SlidingWindow) (now : ℕ) (keys : List String)
    → 0 < now
    → Stamped s
    → Stamped (check_and_consume s now keys).0
unfolding check_and_consume
check_and_consume-Stamped s now keys h p =
    let c = clean_and_check s now keys 0 in
    let q = clean_and_check-Stamped s now keys 0 p in
    elim (Bool-cases (ltb 0 c.1)) [
      | inl full ↦ rw full q
      | inr free ↦ rw free (commit-Stamped c.0 now keys h q)
    ]

-- The stamps of `k` that a history of requests has admitted, in order.
unfoldable pub admitted : SlidingWindow → String → List (ℕ × List String) → List ℕ
admitted s k [] = []
admitted s k ((now, keys) ∷ calls) =
    added (check_and_consume s now keys).1.0 (occurrences k keys) now
    ++ admitted (check_and_consume s now keys).0 k calls

-- The readings of the clock are positive and never fall, and no request names a key twice.
abbrev pub IsHistory : String → ℕ → List (ℕ × List String) → Type 0
IsHistory k last [] = Unit
IsHistory k last ((now, keys) ∷ calls) =
    (last ≤ now) × (0 < now) × (occurrences k keys ≤ 1) × IsHistory k now calls

abbrev pub last_time : ℕ → List (ℕ × List String) → ℕ
last_time last [] = last
last_time last ((now, keys) ∷ calls) = last_time now calls

live_mono : (w now t : ℕ) (ts : List ℕ) → now ≤ t → length (live w t ts) ≤ length (live w now ts)
live_mono w now t [] h = omega arith
live_mono w now t (u ∷ ts) h = ground (arith, live_mono w now t ts h)

free-key :
    (s : SlidingWindow) (now : ℕ) (keys : List String) (k : String)
    → all_free s now keys ≡ true
    → 1 ≤ occurrences k keys
    → length (view s now k) < s.max_requests
free-key s now [] k f o = absurd (omega arith)
free-key s now (key ∷ keys) k f o = elim (Bool-cases (key == k)) [
  | inl e ↦ rw (← (eq_iff key k).0 e) (ground arith)
  | inr e ↦ free-key s now keys k (ground arith) (ground arith)
]

-- What holds between requests: the buckets remember what the log says of every window to come.
record Agrees (limit w : ℕ) (k : String) (s : SlidingWindow) (log : List ℕ) (now : ℕ) : Type 0 where
  capped : s.max_requests ≡ limit
  width : s.window ≡ w
  positive : Stamped s
  remembers : (t : ℕ) → now ≤ t → live w t (bucket s k) ≡ live w t log
  bounded : length (live w now log) ≤ limit

-- The count in the window, with what this request adds.
fits :
    (limit n now w : ℕ) (b : Bool) (old : List ℕ)
    → n ≤ 1
    → length old ≤ limit
    → (b ≡ true → 1 ≤ n → length old < limit)
    → length (old ++ live w now (added b n now)) ≤ limit
fits limit n now w false old o h f = omega (arith, length-append old [])
fits limit zero now w true old o h f = omega (arith, length-append old [])
fits limit (suc n) now w true old o h f = omega (
  arith,
  length-append old (live w now (replicate (suc n) now)),
  length-select-le (in_window w now) (replicate (suc n) now),
  length-replicate (suc n) now,
  f refl,
)

module _ (limit w : ℕ) (k : String) (s : SlidingWindow) (log : List ℕ) (last : ℕ)
    (a : Agrees limit w k s log last) where
  -- The view of the key is what the log says.
  view-log : (t : ℕ) → last ≤ t → view s t k ≡ live w t log
  view-log t h = rw (← a.remembers t h) (ap (λ v. live v t (bucket s k)) a.width)

  module _ (now : ℕ) (keys : List String) (h : last ≤ now) (pos : 0 < now) where
    abbrev next : SlidingWindow
    next = (check_and_consume s now keys).0

    abbrev gained : List ℕ
    gained = added (check_and_consume s now keys).1.0 (occurrences k keys) now

    remembers-step : (t : ℕ) → now ≤ t → live w t (bucket next k) ≡ live w t (log ++ gained)
    remembers-step t g =
        let limits = check_and_consume_limits s now keys in
        ap (λ v. live v t (bucket next k)) (sym (limits.0 ∙ a.width))
        ∙ check_and_consume-view s now t keys k g
        ∙ ap₂ (λ (old : List ℕ) (v : ℕ). old ++ live v t gained) (view-log t (omega arith)) a.width
        ∙ sym (select-append (in_window w t) log gained)

    bounded-step : 1 ≤ limit → occurrences k keys ≤ 1 → length (live w now (log ++ gained)) ≤ limit
    bounded-step room once = rw select-append (
        fits limit (occurrences k keys) now w (check_and_consume s now keys).1.0 (live w now log)
          once (omega (arith, live_mono w last now log h, a.bounded))
          (λ allowed one.
            let free =
              free-key s now keys k
                (sym (decision_exact s now keys (rw a.capped room) a.positive) ∙ allowed) one in
            omega (arith, free, a.capped, ap length (view-log now h))))

    Agrees-step : 1 ≤ limit → occurrences k keys ≤ 1 → Agrees limit w k next (log ++ gained) now
    Agrees-step room once =
        let limits = check_and_consume_limits s now keys in
        record {
          capped = limits.1 ∙ a.capped;
          width = limits.0 ∙ a.width;
          positive = check_and_consume-Stamped s now keys pos a.positive;
          remembers = remembers-step;
          bounded = bounded-step room once;
        }

Agrees-bound :
    (limit w : ℕ) (k : String) (s : SlidingWindow) (log : List ℕ) (last t : ℕ)
    (calls : List (ℕ × List String))
    → 1 ≤ limit
    → Agrees limit w k s log last
    → IsHistory k last calls
    → last_time last calls ≤ t
    → length (live w t (log ++ admitted s k calls)) ≤ limit
unfolding admitted
Agrees-bound limit w k s log last t [] room a h g =
    rw append-nil (omega (arith, live_mono w last t log g, a.bounded))
Agrees-bound limit w k s log last t ((now, keys) ∷ calls) room a h g =
    rw (← append_assoc log (added (check_and_consume s now keys).1.0 (occurrences k keys) now) _) (
      Agrees-bound limit w k (check_and_consume s now keys).0 _ now t calls room
        (Agrees-step limit w k s log last a now keys h.0 h.1 room h.2) h.3 g)

-- From a limiter that holds nothing and allows at least one request, over requests on any keys
-- with a clock that starts above zero and never runs back, none of them naming this key twice: no
-- window that ends at or after the last of them holds more admitted stamps of the key than the
-- limit.
pub window_bound :
    (s : SlidingWindow) (k : String) (calls : List (ℕ × List String)) (t : ℕ)
    → 1 ≤ s.max_requests
    → s.requests ≡ Dict.empty
    → IsHistory k 0 calls
    → last_time 0 calls ≤ t
    → length (live s.window t (admitted s k calls)) ≤ s.max_requests
window_bound s k calls t room fresh h g =
    Agrees-bound s.max_requests s.window k s [] 0 t calls room
      (record {
        capped = refl;
        width = refl;
        positive = λ key. rw (fresh, get-empty) tt;
        remembers = λ u l. rw (fresh, get-empty) refl;
        bounded = omega arith;
      })
      h g
