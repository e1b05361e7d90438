-- ===== src/Shamir/Tape.antt =====
-- packages/cli/src/venya_cli/shamir.py, split: the random bytes of a run as one list.
use venya.Prelude.{ℕ, zero, suc, ◌+◌, ◌≡◌, refl, sym, ap, ◌∙◌, List, [], ◌∷◌, ◌++◌, arith, length}
use venya.Shamir.{draw, polynomials}

-- os.urandom that returns the bytes of the list one after the other, then zeros.
unfoldable pub tape : List ℕ → ℕ → ℕ
tape [] i = 0
tape (b ∷ bs) zero = b
tape (b ∷ bs) (suc i) = tape bs i

-- From `i` on the first gives what the second gives from `j` on.
abbrev SameFrom : (u v : ℕ → ℕ) (i j : ℕ) → Type 0
SameFrom u v i j = (m : ℕ) → u (i + m) ≡ v (j + m)

SameFrom-later : (u v : ℕ → ℕ) (i j d : ℕ) → SameFrom u v i j → SameFrom u v (i + d) (j + d)
SameFrom-later u v i j d h m =
    let left : i + d + m ≡ i + (d + m) = omega arith in
    let right : j + (d + m) ≡ j + d + m = omega arith in ap u left ∙ h (d + m) ∙ ap v right

SameFrom-next : (u v : ℕ → ℕ) (i j : ℕ) → SameFrom u v i j → SameFrom u v (suc i) (suc j)
SameFrom-next u v i j h m =
    let left : suc i + m ≡ i + suc m = omega arith in
    let right : j + suc m ≡ suc j + m = omega arith in ap u left ∙ h (suc m) ∙ ap v right

SameFrom-now : (u v : ℕ → ℕ) (i j : ℕ) → SameFrom u v i j → u i ≡ v j
SameFrom-now u v i j h =
    let left : i ≡ i + 0 = omega arith in
    let right : j + 0 ≡ j = omega arith in ap u left ∙ h 0 ∙ ap v right

draw-same : (u v : ℕ → ℕ) (i j n : ℕ) → SameFrom u v i j → draw u i n ≡ draw v j n
unfolding draw
draw-same u v i j zero h = refl
draw-same u v i j (suc n) h =
    ap (λ b. b ∷ draw u (suc i) n) (SameFrom-now u v i j h)
    ∙ ap (◌∷◌ (v j)) (draw-same u v (suc i) (suc j) n (SameFrom-next u v i j h))

polynomials-same :
    (u v : ℕ → ℕ) (i j d : ℕ) (payload : List ℕ)
    → SameFrom u v i j
    → polynomials u i d payload ≡ polynomials v j d payload
unfolding polynomials
polynomials-same u v i j d [] h = refl
polynomials-same u v i j d (b ∷ bs) h =
    ap (λ t. (b ∷ t) ∷ polynomials u (i + d) d bs) (draw-same u v i j d h)
    ∙ ap (◌∷◌ (b ∷ draw v j d))
        (polynomials-same u v (i + d) (j + d) d bs (SameFrom-later u v i j d h))

SameFrom-cons : (b : ℕ) (bs : List ℕ) → SameFrom (tape (b ∷ bs)) (tape bs) 1 0
unfolding tape
SameFrom-cons b bs m =
    let left : 1 + m ≡ suc m = omega arith in
    let right : m ≡ 0 + m = omega arith in ap (tape (b ∷ bs)) left ∙ ap (tape bs) right

SameFrom-append : (h r : List ℕ) → SameFrom (tape (h ++ r)) (tape r) (length h) 0
unfolding tape
SameFrom-append [] r m = refl
SameFrom-append (b ∷ h) r m =
    let left : suc (length h) + m ≡ suc (length h + m) = omega arith in
    ap (tape (b ∷ h ++ r)) left ∙ SameFrom-append h r m

draw-tape : (h r : List ℕ) → draw (tape (h ++ r)) 0 (length h) ≡ h
unfolding draw tape
draw-tape [] r = refl
draw-tape (b ∷ h) r = ap (◌∷◌ b) (
    draw-same (tape (b ∷ h ++ r)) (tape (h ++ r)) 1 0 (length h) (SameFrom-cons b (h ++ r))
    ∙ draw-tape h r)

-- The first bytes of the list are the coefficients of the first polynomial.
pub polynomials-tape :
    (d b : ℕ) (bs h r : List ℕ)
    → length h ≡ d
    → polynomials (tape (h ++ r)) 0 d (b ∷ bs) ≡ (b ∷ h) ∷ polynomials (tape r) 0 d bs
unfolding polynomials
polynomials-tape d b bs h r e =
    let start : 0 + d ≡ length h = omega (arith, e) in
    ap (λ n. (b ∷ draw (tape (h ++ r)) 0 d) ∷ polynomials (tape (h ++ r)) n d bs) start
    ∙ ap (λ t. (b ∷ t) ∷ polynomials (tape (h ++ r)) (length h) d bs)
        (ap (draw (tape (h ++ r)) 0) (sym e) ∙ draw-tape h r)
    ∙ ap (◌∷◌ (b ∷ h))
        (polynomials-same (tape (h ++ r)) (tape r) (length h) 0 d bs (SameFrom-append h r))
