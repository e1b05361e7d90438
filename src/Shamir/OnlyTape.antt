-- ===== src/Shamir/OnlyTape.antt =====
-- packages/cli/src/venya_cli/shamir.py, split: the random bytes that explain what was seen of the
-- payload, one more polynomial at a time.
use venya.Prelude.{
  ℕ, suc, ◌+◌, ◌<◌, ◌≡◌, refl, sym, ap, ◌∙◌, List, [], ◌∷◌, ◌++◌, arith, length, length-append, All,
  take, drop, Distinct, length-take, take-drop, length-drop, All-append, All-take, All-drop,
}
use venya.Shamir.{polynomials}
use venya.Shamir.Tape.{tape, polynomials-tape}
use venya.Shamir.Dealing.{shard_of}
use venya.Shamir.Secrecy.{IsChoice, draws-IsContr}

abbrev pub IsByte : ℕ → Type 0
IsByte b = b < 256

first : List ℕ → ℕ
first [] = 0
first (b ∷ bs) = b

first-byte : (bs : List ℕ) → All IsByte bs → first bs < 256
unfolding first
first-byte [] h = omega arith
first-byte (b ∷ bs) h = h.0

first-rest : (bs : List ℕ) (n : ℕ) → length bs ≡ suc n → first bs ∷ drop 1 bs ≡ bs
unfolding first
first-rest [] n e = absurd (omega (arith, e))
first-rest (b ∷ bs) n e = refl

-- A number of random bytes for each byte of the payload.
abbrev pub total : ℕ → List ℕ → ℕ
total d [] = 0
total d (b ∷ bs) = d + total d bs

-- The shares with these numbers, as far as they depend on the random bytes.
abbrev pub Shows : (d : ℕ) (ids payload : List ℕ) → (ℕ → List ℕ) → List ℕ → Type 0
Shows d ids payload body w = All (λ x. shard_of (polynomials (tape w) 0 d payload) x ≡ body x) ids

pub All-map : {P Q : ℕ → Type 0} (ns : List ℕ) → ((n : ℕ) → P n → Q n) → All P ns → All Q ns
All-map [] f h = tt
All-map (n ∷ ns) f h = (f n h.0, All-map ns f h.1)

pub All-zip :
    {P Q R : ℕ → Type 0} (ns : List ℕ)
    → ((n : ℕ) → P n → Q n → R n)
    → All P ns
    → All Q ns
    → All R ns
All-zip [] f h k = tt
All-zip (n ∷ ns) f h k = (f n h.0 k.0, All-zip ns f h.1 k.1)

-- The one list of random bytes that shows what was seen.
pub record OnlyTape (d : ℕ) (ids payload : List ℕ) (body : ℕ → List ℕ) : Type 0 where
  pub w : List ℕ
  pub bytes : All IsByte w
  pub long : length w ≡ total d payload
  pub shows : Shows d ids payload body w
  pub only :
      (v : List ℕ) → All IsByte v → length v ≡ total d payload → Shows d ids payload body v → v ≡ w

empty-nil : (v : List ℕ) → length v ≡ 0 → v ≡ []
empty-nil [] e = refl
empty-nil (b ∷ v) e = absurd (omega (arith, e))

All-true : {P : ℕ → Type 0} (ns : List ℕ) → ((n : ℕ) → P n) → All P ns
All-true [] f = tt
All-true (n ∷ ns) f = (f n, All-true ns f)

module _ (ids : List ℕ) (ids_bytes : All IsByte ids) (nonzero : All (λ i. 0 < i) ids)
    (distinct : Distinct ids) where
  pub only_tape :
      (payload : List ℕ) (body : ℕ → List ℕ)
      → All IsByte payload
      → ((x : ℕ) → All IsByte (body x))
      → ((x : ℕ) → length (body x) ≡ length payload)
      → OnlyTape (length ids) ids payload body
  unfolding polynomials first
  only_tape [] body p b l = record {
    w = [];
    bytes = tt;
    long = refl;
    shows = All-true ids (λ x. sym (empty-nil (body x) (l x)));
    only = λ v _ e _. empty-nil v e;
  }
  only_tape (s ∷ payload) body p b l =
      let seen : ℕ → ℕ = (λ x. first (body x)) in
      let c =
        draws-IsContr seen (λ x. first-byte (body x) (b x)) ids s ids_bytes nonzero distinct p.0 in
      let r =
        only_tape payload (λ x. drop 1 (body x)) p.1 (λ x. All-drop IsByte 1 (body x) (b x))
          (λ x. omega (arith, l x, length-drop 1 (body x))) in
      record {
        w = c.0.0 ++ r.w;
        bytes = All-append IsByte c.0.0 r.w c.0.1.0 r.bytes;
        long = length-append c.0.0 r.w ∙ omega (arith, c.0.1.1, r.long);
        shows =
            All-zip ids
              (λ x e f.
                ap (λ t. shard_of t x) (polynomials-tape (length ids) s payload c.0.0 r.w c.0.1.1)
                ∙ ap (λ y. y ∷ shard_of (polynomials (tape r.w) 0 (length ids) payload) x) e
                ∙ ap (◌∷◌ (seen x)) f
                ∙ first-rest (body x) (length payload) (l x))
              c.0.1.2 r.shows;
        only = λ v v_bytes e shown.
            let d = length ids in
            let h = take d v in
            let t = drop d v in
            let as_many : length h ≡ d = length-take v d (omega (arith, e)) in
            let parts =
              λ (x : ℕ) (q : shard_of (polynomials (tape v) 0 d (s ∷ payload)) x ≡ body x).
                sym (ap (λ u. shard_of u x) (polynomials-tape d s payload h t as_many))
                ∙ ap (λ u. shard_of (polynomials (tape u) 0 d (s ∷ payload)) x) (take-drop d v)
                ∙ q in
            let choice : IsChoice seen ids s h = (
              All-take IsByte d v v_bytes,
              as_many,
              All-map ids (λ x q. ap first (parts x q)) shown,
            ) in
            let rest =
              r.only t (All-drop IsByte d v v_bytes) (length-drop d v ∙ omega (arith, e))
                (All-map ids (λ x q. ap (drop 1) (parts x q)) shown) in
            sym (take-drop d v)
            ∙ ap (λ u. u ++ t) (ap (λ u. u.0) (c.1 (h, choice)))
            ∙ ap (λ u. c.0.0 ++ u) rest;
      }
