-- ===== src/SlidingWindow/Views.antt =====
-- The requests of a key that count at a moment, and what each method of
-- packages/server/src/server/utils/rate_limiter.py does to them.
use mathlib.Core.List.{◌∷◌, List, append_assoc, append-nil}
use venya.Prelude.{
  ℕ, zero, suc, ◌+◌, ◌≤◌, max, String, ◌≡◌, refl, sym, ap, ◌∙◌, inl, inr, Bool, true, false, List,
  [], ◌∷◌, ◌++◌, arith, ◌==◌, eq_iff, ltb, leb, if◌then◌else◌, Bool-cases, length, select-append,
  replicate,
}
use mathlib.Core.Path.{ap₂}
use venya.Prelude.Dict.{get-put}
use venya.SlidingWindow.{
  SlidingWindow, live, bucket, with_bucket, oldest, clean_and_check, commit, check_and_consume,
}

-- The stamps of a key inside the window that ends now.
abbrev pub view : SlidingWindow → ℕ → String → List ℕ
view s now key = live s.window now (bucket s key)

-- What is out of the window now is out of it later.
pub live-live : (w now t : ℕ) (ts : List ℕ) → now ≤ t → live w t (live w now ts) ≡ live w t ts
live-live w now t [] h = refl
live-live w now t (u ∷ ts) h = ground (arith, live-live w now t ts h)

pub bucket-with_bucket :
    (s : SlidingWindow) (key k : String) (ts : List ℕ)
    → bucket (with_bucket s key ts) k ≡ (if key == k then ts else bucket s k)
bucket-with_bucket s key k ts = rw get-put (ground arith)

module _ (now : ℕ) where
  view-clean :
      (s : SlidingWindow) (key k : String) (t : ℕ)
      → now ≤ t
      → view (with_bucket s key (view s now key)) t k ≡ view s t k
  view-clean s key k t h =
      rw bucket-with_bucket
        (ground (arith, eq_iff key k, live-live s.window now t (bucket s key) h))

  -- Cleaning changes no configuration, and no view from now on.
  pub record SameView (s s' : SlidingWindow) : Type 0 where
    pub limit : s'.max_requests ≡ s.max_requests
    pub width : s'.window ≡ s.window
    pub views : (k : String) (t : ℕ) → now ≤ t → view s' t k ≡ view s t k

  pub clean-SameView :
      (s : SlidingWindow) (key : String) → SameView s (with_bucket s key (view s now key))
  clean-SameView s key = record { limit = refl; width = refl; views = view-clean s key }

  pub clean_and_check-SameView :
      (s : SlidingWindow) (keys : List String) (e : ℕ) → SameView s (clean_and_check s now keys e).0
  unfolding clean_and_check
  clean_and_check-SameView s [] e = record { limit = refl; width = refl; views = λ k t h. refl }
  clean_and_check-SameView s (key ∷ keys) e =
      let stamps = view s now key in
      let e' = if leb s.max_requests (length stamps) then max e (oldest stamps) else e in
      let rest = clean_and_check-SameView (with_bucket s key stamps) keys e' in
      record {
        limit = rest.limit;
        width = rest.width;
        views = λ k t h. rest.views k t h ∙ view-clean s key k t h;
      }

-- How often a key stands in a request.
abbrev pub occurrences : String → List String → ℕ
occurrences k [] = 0
occurrences k (key ∷ keys) = (if key == k then 1 else 0) + occurrences k keys

snoc-replicate : (n t : ℕ) → t ∷ replicate n t ≡ replicate n t ++ t ∷ []
snoc-replicate zero t = refl
snoc-replicate (suc n) t = ap (λ ts. t ∷ ts) (snoc-replicate n t)

pub commit-bucket :
    (s : SlidingWindow) (now : ℕ) (keys : List String) (k : String)
    → bucket (commit s now keys) k ≡ bucket s k ++ replicate (occurrences k keys) now
unfolding commit
commit-bucket s now [] k = sym (append-nil (bucket s k))
commit-bucket s now (key ∷ keys) k =
    rw (commit-bucket (with_bucket s key (bucket s key ++ now ∷ [])) now keys k, bucket-with_bucket)
      (elim (Bool-cases (key == k)) [
        | inl hit ↦
            let one : 1 + occurrences k keys ≡ suc (occurrences k keys) = omega arith in
            rw (hit, one, (eq_iff key k).0 hit) (append_assoc (bucket s k) (now ∷ []) _)
        | inr miss ↦
            let none_more : 0 + occurrences k keys ≡ occurrences k keys = omega arith in
            rw (miss, none_more)
      ])

commit-limits :
    (s : SlidingWindow) (now : ℕ) (keys : List String)
    → ((commit s now keys).window ≡ s.window) × ((commit s now keys).max_requests ≡ s.max_requests)
unfolding commit
commit-limits s now [] = (refl, refl)
commit-limits s now (key ∷ keys) =
    commit-limits (with_bucket s key (bucket s key ++ now ∷ [])) now keys

commit-view :
    (s : SlidingWindow) (now t : ℕ) (keys : List String) (k : String)
    → view (commit s now keys) t k
      ≡ view s t k ++ live s.window t (replicate (occurrences k keys) now)
commit-view s now t keys k = rw ((commit-limits s now keys).0, commit-bucket, select-append)

-- What a request adds to a key: one stamp each time that it names the key, if it was allowed.
abbrev pub added : Bool → ℕ → ℕ → List ℕ
added true n now = replicate n now
added false n now = []

-- A request that is refused changes what counts for no key, now or later; one that is allowed adds
-- its moment to each key that it names, as often as it names it, and changes nothing else.
pub check_and_consume-view :
    (s : SlidingWindow) (now t : ℕ) (keys : List String) (k : String)
    → now ≤ t
    → view (check_and_consume s now keys).0 t k
      ≡ view s t k
        ++ live s.window t (added (check_and_consume s now keys).1.0 (occurrences k keys) now)
unfolding check_and_consume
check_and_consume-view s now t keys k h =
    let c = clean_and_check s now keys 0 in
    let same = clean_and_check-SameView now s keys 0 in
    elim (Bool-cases (ltb 0 c.1)) [
      | inl full ↦ rw full (same.views k t h ∙ sym (append-nil _))
      | inr free ↦ rw free (
          commit-view c.0 now t keys k
          ∙ ap₂ (λ (ts : List ℕ) (w : ℕ). ts ++ live w t (replicate (occurrences k keys) now))
              (same.views k t h) same.width)
    ]

-- No request changes the configuration.
pub check_and_consume_limits :
    (s : SlidingWindow) (now : ℕ) (keys : List String)
    → ((check_and_consume s now keys).0.window ≡ s.window)
      × ((check_and_consume s now keys).0.max_requests ≡ s.max_requests)
unfolding check_and_consume
check_and_consume_limits s now keys =
    let c = clean_and_check s now keys 0 in
    let same = clean_and_check-SameView now s keys 0 in
    let done = commit-limits c.0 now keys in
    elim (Bool-cases (ltb 0 c.1)) [
      | inl full ↦ rw full (same.width, same.limit)
      | inr free ↦ rw free (done.0 ∙ same.width, done.1 ∙ same.limit)
    ]
