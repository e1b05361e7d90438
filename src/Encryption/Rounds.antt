-- ===== src/Encryption/Rounds.antt =====
-- packages/core/src/core/engine/encryption.py: the loops of _aes_kw_wrap and _aes_kw_unwrap, the
-- one backwards from where the other ends.
use mathlib.Core.List.{append_assoc}
use Prim.Native.Nat.{◌^◌}
use venya.Prelude.{
  ℕ, zero, suc, ◌+◌, ◌-◌, ◌*◌, ◌≤◌, ◌<◌, ◌≡◌, refl, ap, subst, ◌∙◌, List, ◌++◌, arith, length,
  length-append, take, drop, length-take, take-drop, length-drop, All-append, All-take, All-drop,
}
use venya.Encryption.{Result, ok, err, ◌>>=◌, wrap_round, wrap_rounds, unwrap_round, unwrap_rounds}
use venya.Encryption.Counter.{IsBytes, IsBlock}
use venya.Encryption.Wrapping.{IsCipher, IsCut, wrap_round-cut, unwrap_round-cut}

-- The eight bytes A and `n` blocks.
pub record IsState (n : ℕ) (s : List ℕ × List ℕ) : Type 0 where
  pub first : IsBlock s.0
  pub size : length s.1 ≡ n * 8
  pub bytes : IsBytes s.1

-- A text around its block `i`.
module _ (i : ℕ) (p : List ℕ) where
  left : List ℕ
  left = take ((i - 1) * 8) p

  middle : List ℕ
  middle = take 8 (drop ((i - 1) * 8) p)

  right : List ℕ
  right = drop 8 (drop ((i - 1) * 8) p)

  parts-whole : left ++ middle ++ right ≡ p
  unfolding left middle right
  parts-whole =
      append_assoc (take ((i - 1) * 8) p) middle right
      ∙ ap (λ t. take ((i - 1) * 8) p ++ t) (take-drop 8 (drop ((i - 1) * 8) p))
      ∙ take-drop ((i - 1) * 8) p

abbrev State : Type 0
State = List ℕ × List ℕ

bind-ok : (m : Result State) → (m >>= λ x. ok x) ≡ m
bind-ok (ok a) = refl
bind-ok (err e) = refl

bind-split :
    (m : Result State) (f g h : State → Result State)
    → ((x : State) → f x ≡ (g x >>= h))
    → (m >>= f) ≡ (m >>= g >>= h)
bind-split (ok a) f g h eq = eq a
bind-split (err e) f g h eq = refl

-- A round, and one that undoes it on every text that is cut around the block.
module _ (n i : ℕ) (one : 1 ≤ i) (le : i ≤ n) (f g : State → Result State)
    (cuts : (a u b v : List ℕ)
      → IsCut i a u b v
      → (a' : List ℕ) × (b' : List ℕ) × IsBlock a'
        × IsBlock b'
        × (f (a, u ++ b ++ v) ≡ ok (a', u ++ b' ++ v))
        × (g (a', u ++ b' ++ v) ≡ ok (a, u ++ b ++ v))) where
  length-left : (p : List ℕ) → length p ≡ n * 8 → length (left i p) ≡ (i - 1) * 8
  unfolding left
  length-left p size = length-take p ((i - 1) * 8) (omega (arith, size, one, le))

  length-middle : (p : List ℕ) → length p ≡ n * 8 → length (middle i p) ≡ 8
  unfolding middle
  length-middle p size =
      length-take (drop ((i - 1) * 8) p) 8
        (omega (arith, length-drop ((i - 1) * 8) p, size, one, le))

  state-IsCut : (a p : List ℕ) → IsState n (a, p) → IsCut i a (left i p) (middle i p) (right i p)
  unfolding middle
  state-IsCut a p h = record {
    first = h.first;
    middle = (
      length-middle p h.size,
      All-take (λ n. n < 256) 8 (drop ((i - 1) * 8) p)
          (All-drop (λ n. n < 256) ((i - 1) * 8) p h.bytes),
    );
    before = length-left p h.size;
    number = one;
  }

  -- Another block in the middle.
  put-IsState :
      (a p a' b : List ℕ)
      → IsState n (a, p)
      → IsBlock a'
      → IsBlock b
      → IsState n (a', left i p ++ b ++ right i p)
  unfolding left right
  put-IsState a p a' b h h' k = record {
    first = h';
    size = omega (
      arith,
      length-append (left i p ++ b) (right i p),
      length-append (left i p) b,
      length-left p h.size,
      k.0,
      length-drop 8 (drop ((i - 1) * 8) p),
      length-drop ((i - 1) * 8) p,
      h.size,
      one,
      le,
    );
    bytes =
        All-append (λ n. n < 256) (left i p ++ b) (right i p)
          (All-append (λ n. n < 256) (left i p) b (All-take (λ n. n < 256) ((i - 1) * 8) p h.bytes)
            k.1)
          (All-drop (λ n. n < 256) 8 (drop ((i - 1) * 8) p)
            (All-drop (λ n. n < 256) ((i - 1) * 8) p h.bytes));
  }

  round-back : (s : State) → IsState n s → (t : State) × (f s ≡ ok t) × IsState n t × (g t ≡ ok s)
  round-back (a, p) h =
      let w = cuts a (left i p) (middle i p) (right i p) (state-IsCut a p h) in
      (
        (w.0, left i p ++ w.1 ++ right i p),
        subst (λ t. f (a, t) ≡ ok (w.0, left i p ++ w.1 ++ right i p)) (parts-whole i p) w.4,
        put-IsState a p w.0 w.1 h w.2 w.3,
        subst (λ t. g (w.0, left i p ++ w.1 ++ right i p) ≡ ok (a, t)) (parts-whole i p) w.5,
      )

module _ (encrypt decrypt : List ℕ → List ℕ → List ℕ) (cipher : IsCipher encrypt decrypt)
    (kek : List ℕ) (n : ℕ) (small : n * 65 < 256 ^ 8) where
  wrap_round-back :
      (i : ℕ) (s : State)
      → 1 ≤ i
      → i ≤ n
      → IsState n s
      → (t : State) × (wrap_round encrypt kek n i s ≡ ok t)
        × IsState n t
        × (unwrap_round decrypt kek n i t ≡ ok s)
  wrap_round-back i s one le =
      round-back n i one le (wrap_round encrypt kek n i) (unwrap_round decrypt kek n i)
        (λ a u b v cut.
          wrap_round-cut encrypt decrypt cipher kek n i a u b v cut (omega (arith, small, le)))
        s

  unwrap_round-back :
      (i : ℕ) (s : State)
      → 1 ≤ i
      → i ≤ n
      → IsState n s
      → (t : State) × (unwrap_round decrypt kek n i s ≡ ok t)
        × IsState n t
        × (wrap_round encrypt kek n i t ≡ ok s)
  unwrap_round-back i s one le =
      round-back n i one le (unwrap_round decrypt kek n i) (wrap_round encrypt kek n i)
        (λ a u b v cut.
          unwrap_round-cut encrypt decrypt cipher kek n i a u b v cut (omega (arith, small, le)))
        s

  wrap_rounds-last :
      (i c k : ℕ) (s : State)
      → k ≡ i + c
      → wrap_rounds encrypt kek n i (suc c) s
        ≡ (wrap_rounds encrypt kek n i c s >>= wrap_round encrypt kek n k)
  unfolding wrap_rounds
  wrap_rounds-last i zero k s e =
      let same : i ≡ k = omega (arith, e) in
      bind-ok (wrap_round encrypt kek n i s) ∙ ap (λ t. wrap_round encrypt kek n t s) same
  wrap_rounds-last i (suc c) k s e =
      bind-split (wrap_round encrypt kek n i s) (wrap_rounds encrypt kek n (suc i) (suc c))
        (wrap_rounds encrypt kek n (suc i) c) (wrap_round encrypt kek n k)
        (λ t. wrap_rounds-last (suc i) c k t (omega (arith, e)))

  -- The loop of the unwrapping brings back where the loop of the wrapping began.
  pub wrap_rounds-back :
      (c : ℕ) (s : State)
      → c ≤ n
      → IsState n s
      → (t : State) × (wrap_rounds encrypt kek n 1 c s ≡ ok t)
        × IsState n t
        × (unwrap_rounds decrypt kek n c t ≡ ok s)
  unfolding wrap_rounds unwrap_rounds
  wrap_rounds-back zero s le h = (s, refl, h, refl)
  wrap_rounds-back (suc c) s le h =
      let w = wrap_rounds-back c s (omega (arith, le)) h in
      let l = wrap_round-back (suc c) w.0 (omega arith) le w.2 in
      (
        l.0,
        wrap_rounds-last 1 c (suc c) s (omega arith)
            ∙ ap (λ t. t >>= wrap_round encrypt kek n (suc c)) w.1
            ∙ l.1,
        l.2,
        ap (λ t. t >>= unwrap_rounds decrypt kek n c) l.3 ∙ w.3,
      )

  pub unwrap_rounds-back :
      (c : ℕ) (s : State)
      → c ≤ n
      → IsState n s
      → (t : State) × (unwrap_rounds decrypt kek n c s ≡ ok t)
        × IsState n t
        × (wrap_rounds encrypt kek n 1 c t ≡ ok s)
  unfolding wrap_rounds unwrap_rounds
  unwrap_rounds-back zero s le h = (s, refl, h, refl)
  unwrap_rounds-back (suc c) s le h =
      let l = unwrap_round-back (suc c) s (omega arith) le h in
      let w = unwrap_rounds-back c l.0 (omega (arith, le)) l.2 in
      (
        w.0,
        ap (λ t. t >>= unwrap_rounds decrypt kek n c) l.1 ∙ w.1,
        w.2,
        wrap_rounds-last 1 c (suc c) w.0 (omega arith)
            ∙ ap (λ t. t >>= wrap_round encrypt kek n (suc c)) w.3
            ∙ l.3,
      )
