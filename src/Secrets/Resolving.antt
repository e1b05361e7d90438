-- ===== src/Secrets/Resolving.antt =====
-- packages/core/src/core/engine/core.py, Core.put and _resolve_secret_in: what resolves after a write.
use mathlib.Core.List.{Memᴰ}
use mathlib.Core.List.Memᴰ
use venya.Prelude.{
  ◌<◌, ◌≡◌, refl, ap, subst, ◌∙◌, ◌≢◌, ◌⊎◌, inl, inr, Bool, true, false, Option, none, some, List,
  [], ◌∷◌, map, ltb, if◌then◌else◌, Bool-cases, select,
}
use venya.Secrets.{Secret, Core, lower, lowest}

-- Ids are unique and below the next one, also in the links.
pub record IsSound (c : Core) : Type 0 where
  pub unique : (s t : Secret) → Memᴰ s c.secrets → Memᴰ t c.secrets → s.id ≡ t.id → s ≡ t
  pub below : (s : Secret) → Memᴰ s c.secrets → s.id < c.next_id

unfoldable pub mapped_option : (Secret → Secret) → Option Secret → Option Secret
mapped_option f none = none
mapped_option f (some s) = some (f s)

lower-map :
    (f : Secret → Secret) (s : Secret) (o : Option Secret)
    → ((s : Secret) → (f s).id ≡ s.id)
    → lower (f s) (mapped_option f o) ≡ mapped_option f (lower s o)
unfolding lower mapped_option
lower-map f s none same = refl
lower-map f s (some t) same = elim (Bool-cases (ltb t.id s.id)) [
  | inl e ↦ (let e' : ltb (f t).id (f s).id ≡ true = rw (same s, same t) e in rw (e', e) refl)
  | inr e ↦ (let e' : ltb (f t).id (f s).id ≡ false = rw (same s, same t) e in rw (e', e) refl)
]

pub lowest-map :
    (f : Secret → Secret) (ss : List Secret)
    → ((s : Secret) → (f s).id ≡ s.id)
    → lowest (map f ss) ≡ mapped_option f (lowest ss)
unfolding lowest mapped_option
lowest-map f [] same = refl
lowest-map f (s ∷ ss) same =
    ap (lower (f s)) (lowest-map f ss same) ∙ lower-map f s (lowest ss) same

pub select-map :
    (f : Secret → Secret) (p q : Secret → Bool) (ss : List Secret)
    → ((s : Secret) → Memᴰ s ss → q (f s) ≡ p s)
    → select q (map f ss) ≡ map f (select p ss)
select-map f p q [] same = refl
select-map f p q (s ∷ ss) same = elim (Bool-cases (p s)) [
  | inl e ↦ rw (same s (Memᴰ.head refl), e, select-map f p q ss (λ t m. same t (Memᴰ.tail m))) refl
  | inr e ↦ rw (same s (Memᴰ.head refl), e, select-map f p q ss (λ t m. same t (Memᴰ.tail m))) refl
]

lower-cases : (s x : Secret) (o : Option Secret) → lower s o ≡ some x → (x ≡ s) ⊎ (o ≡ some x)
unfolding lower
lower-cases s x none e = inl cc
lower-cases s x (some t) e = elim (Bool-cases (ltb t.id s.id)) [
  | inl h ↦ inr (rw h at e)
  | inr h ↦ (let same : some s ≡ some x = rw h at e in inl cc)
]

pub lowest-Mem : (ss : List Secret) (x : Secret) → lowest ss ≡ some x → Memᴰ x ss
unfolding lowest
lowest-Mem [] x e = cc
lowest-Mem (s ∷ ss) x e = elim (lower-cases s x (lowest ss) e) [
  | inl same ↦ Memᴰ.head same
  | inr rest ↦ Memᴰ.tail (lowest-Mem ss x rest)
]

taken :
    (p : Secret → Bool) (s : Secret) (ss : List Secret) (x : Secret)
    → p s ≡ true
    → (Memᴰ x (select p ss) → Memᴰ x ss × (p x ≡ true))
    → Memᴰ x (s ∷ select p ss)
    → Memᴰ x (s ∷ ss) × (p x ≡ true)
taken p s ss x e rest (Memᴰ.head same) = (Memᴰ.head same, ap p same ∙ e)
taken p s ss x e rest (Memᴰ.tail m) = let w = rest m in (Memᴰ.tail w.0, w.1)

pub select-Mem :
    (p : Secret → Bool) (ss : List Secret) (x : Secret)
    → Memᴰ x (select p ss)
    → Memᴰ x ss × (p x ≡ true)
select-Mem p [] x m = absurd (Memᴰ.not-nil m)
select-Mem p (s ∷ ss) x m = elim (Bool-cases (p s)) [
  | inl e ↦
      taken p s ss x e (select-Mem p ss x)
        (subst (λ b. Memᴰ x (if b then s ∷ select p ss else select p ss)) e m)
  | inr e ↦
      (let w =
          select-Mem p ss x
            (subst (λ b. Memᴰ x (if b then s ∷ select p ss else select p ss)) e m) in
        (Memᴰ.tail w.0, w.1))
]

lower-some : (s : Secret) (o : Option Secret) → lower s o ≢ none
unfolding lower
lower-some s none e = cc
lower-some s (some t) e = elim (Bool-cases (ltb t.id s.id)) [
  | inl h ↦ (let bad : some t ≡ none = rw h at e in cc)
  | inr h ↦ (let bad : some s ≡ none = rw h at e in cc)
]

pub lowest-none : (ss : List Secret) → lowest ss ≡ none → ss ≡ []
unfolding lowest
lowest-none [] e = refl
lowest-none (s ∷ ss) e = absurd (lower-some s (lowest ss) e)

pub select_same :
    (p q : Secret → Bool) (ss : List Secret)
    → ((s : Secret) → Memᴰ s ss → q s ≡ p s)
    → select q ss ≡ select p ss
select_same p q [] same = refl
select_same p q (s ∷ ss) same =
    rw (same s (Memᴰ.head refl), select_same p q ss (λ t m. same t (Memᴰ.tail m))) refl
