-- ===== src/Sessions/Rows.antt =====
-- The session table of packages/core/src/core/iam/session_manager.py: lookups after a write or a delete.
use venya.Prelude.{
  ℕ, ◌+◌, ◌≤◌, ◌<◌, String, ◌≡◌, refl, subst, ◌≢◌, inl, inr, Bool, true, false, none, some, List,
  [], ◌∷◌, arith, ◌==◌, eq_iff, ltb, ◌=?◌, if◌then◌else◌, Bool-cases, select, All,
}
use mathlib.Core.Option
use venya.Sessions.{
  SessionConfig, answer, extended, extend_session, refresh_token, refresh_row, Session, Database,
  by_id, by_token, write,
}

-- Ids fall along the table, below the next one.
abbrev pub Below : ℕ → List Session → Type 0
Below n [] = Unit {0}
Below n (s ∷ ss) = (s.id < n) × Below s.id ss

-- No two rows carry one access token.
abbrev pub IsFresh : String → List Session → Type 0
IsFresh token = All (λ s. s.access_token ≢ token)

abbrev pub Distinct : List Session → Type 0
Distinct [] = Unit {0}
Distinct (s ∷ ss) = IsFresh s.access_token ss × Distinct ss

pub record IsSound (db : Database) : Type 0 where
  pub ids : Below db.next_id db.sessions
  pub tokens : Distinct db.sessions

pub Below-mono : (m n : ℕ) (ss : List Session) → m ≤ n → Below m ss → Below n ss
Below-mono m n [] h b = tt
Below-mono m n (s ∷ ss) h b = (omega arith, b.1)

pub by_id_above : (n i : ℕ) (ss : List Session) → Below n ss → n ≤ i → by_id i ss ≡ none
unfolding by_id
by_id_above n i [] b h = refl
by_id_above n i (s ∷ ss) b h = ground (arith, by_id_above s.id i ss b.1)

-- A write that keeps ids keeps them falling.
pub Below-write :
    (n i : ℕ) (f : Session → Session) (ss : List Session)
    → ((s : Session) → (f s).id ≡ s.id)
    → Below n ss
    → Below n (write i f ss)
unfolding write
Below-write n i f [] e b = tt
Below-write n i f (s ∷ ss) e b = elim (Bool-cases (s.id =? i)) [
  | inl h ↦ rw h (omega (arith, e s, b.0), rw e (Below-write s.id i f ss e b.1))
  | inr h ↦ rw h (b.0, Below-write s.id i f ss e b.1)
]

pub Below-select :
    (n : ℕ) (p : Session → Bool) (ss : List Session) → Below n ss → Below n (select p ss)
Below-select n p [] b = tt
Below-select n p (s ∷ ss) b = elim (Bool-cases (p s)) [
  | inl h ↦ rw h (b.0, Below-select s.id p ss b.1)
  | inr h ↦ rw h (Below-mono s.id n (select p ss) (omega (arith, b.0)) (Below-select s.id p ss b.1))
]

pub IsFresh-select :
    (t : String) (p : Session → Bool) (ss : List Session) → IsFresh t ss → IsFresh t (select p ss)
IsFresh-select t p [] b = tt
IsFresh-select t p (s ∷ ss) b = elim (Bool-cases (p s)) [
  | inl h ↦ rw h (b.0, IsFresh-select t p ss b.1)
  | inr h ↦ rw h (IsFresh-select t p ss b.1)
]

pub Distinct-select :
    (p : Session → Bool) (ss : List Session) → Distinct ss → Distinct (select p ss)
Distinct-select p [] d = tt
Distinct-select p (s ∷ ss) d = elim (Bool-cases (p s)) [
  | inl h ↦ rw h (IsFresh-select s.access_token p ss d.0, Distinct-select p ss d.1)
  | inr h ↦ rw h (Distinct-select p ss d.1)
]

pub by_token_fresh : (t : String) (ss : List Session) → IsFresh t ss → by_token t ss ≡ none
unfolding by_token
by_token_fresh t [] f = refl
by_token_fresh t (s ∷ ss) f = ground (arith, by_token_fresh t ss f.1, eq_iff s.access_token t, f.0)

-- What a lookup by id finds stands under that id, and is no row above the ids in use.
pub by_id-id : (i : ℕ) (ss : List Session) (s : Session) → by_id i ss ≡ some s → s.id ≡ i
unfolding by_id
by_id-id i [] s e = cc
by_id-id i (r ∷ ss) s e = ground (arith, by_id-id i ss s)

pub by_token-token :
    (t : String) (ss : List Session) (s : Session) → by_token t ss ≡ some s → s.access_token ≡ t
unfolding by_token
by_token-token t [] s e = cc
by_token-token t (r ∷ ss) s e = ground (arith, by_token-token t ss s, eq_iff r.access_token t)

-- The row that a token finds is the row that its id finds.
pub by_token-by_id :
    (n : ℕ) (t : String) (ss : List Session) (s : Session)
    → Below n ss
    → by_token t ss ≡ some s
    → (by_id s.id ss ≡ some s) × (s.id < n)
unfolding by_token by_id
by_token-by_id n t [] s b e = cc
by_token-by_id n t (r ∷ ss) s b e = ground (arith, by_token-by_id r.id t ss s b.1)

pub by_id-write :
    (i j : ℕ) (f : Session → Session) (ss : List Session)
    → ((s : Session) → (f s).id ≡ s.id)
    → by_id j (write i f ss) ≡ (if i =? j then Option.map f (by_id j ss) else by_id j ss)
unfolding by_id write
by_id-write i j f [] e = ground arith
by_id-write i j f (s ∷ ss) e = ground (arith, by_id-write i j f ss e, e s)

-- A write keeps a property of every row, if the row that it writes keeps it.
pub All-write {ℓ} :
    (P : Session → Type ℓ) (n i : ℕ) (f : Session → Session) (ss : List Session)
    → ((s : Session) → by_id i ss ≡ some s → P s → P (f s))
    → Below n ss
    → All P ss
    → All P (write i f ss)
unfolding write by_id
All-write P n i f [] k b h = tt
All-write P n i f (s ∷ ss) k b h = elim (Bool-cases (s.id =? i)) [
  | inl e ↦ rw e (
    k s (rw e refl) h.0,
    All-write P s.id i f ss
        (λ r found. absurd (cc (by_id_above s.id i ss b.1 (ground arith), found))) b.1 h.1,
  )
  | inr e ↦ rw e (h.0, All-write P s.id i f ss (λ r found. k r (rw e found)) b.1 h.1)
]

pub All-select {ℓ} :
    (P : Session → Type ℓ) (p : Session → Bool) (ss : List Session) → All P ss → All P (select p ss)
All-select P p [] h = tt
All-select P p (s ∷ ss) h = elim (Bool-cases (p s)) [
  | inl e ↦ rw e (h.0, All-select P p ss h.1)
  | inr e ↦ rw e (All-select P p ss h.1)
]

pub All-by_id {ℓ} :
    (P : Session → Type ℓ) (i : ℕ) (ss : List Session) (s : Session)
    → All P ss
    → by_id i ss ≡ some s
    → P s
unfolding by_id
All-by_id P i [] s h e = absurd (cc e)
All-by_id P i (r ∷ ss) s h e = elim (Bool-cases (r.id =? i)) [
  | inl q ↦ let same : r ≡ s = ground (arith, q) in subst P same h.0
  | inr q ↦ All-by_id P i ss s h.1 (ground (arith, q))
]

module _ (c : SessionConfig) (db : Database) where
  pub extend_row :
      (now i : ℕ) (s : Session)
      → by_id i db.sessions ≡ some s
      → extend_session c db now i ≡ (
          if ltb (s.created_at + c.max_session_duration) now
          then (db, false)
          else (record db { sessions = write i (extended c now) db.sessions }, true))
  unfolding extend_session
  extend_row now i s e = rw (e, extend_session)

  module _ (checked extending minted : ℕ) (old token jti : String) where
    pub refresh_unknown :
        by_token old db.sessions ≡ none
        → refresh_token c db checked extending minted old token jti ≡ (db, answer none)
    unfolding refresh_token
    refresh_unknown e = rw (e, refresh_token)

    pub refresh_known :
        (s : Session)
        → by_token old db.sessions ≡ some s
        → refresh_token c db checked extending minted old token jti
          ≡ refresh_row c db checked extending minted s token jti
    unfolding refresh_token
    refresh_known s e = rw (e, refresh_token)

-- Two writes of one row are one.
pub write-write :
    (i : ℕ) (f g : Session → Session) (ss : List Session)
    → ((s : Session) → (f s).id ≡ s.id)
    → write i g (write i f ss) ≡ write i (λ s. g (f s)) ss
unfolding write
write-write i f g [] e = refl
write-write i f g (s ∷ ss) e = ground (arith, write-write i f g ss e, e s)

module _ (old token : String) (f : Session → Session) (keeps : (s : Session) → (f s).id ≡ s.id)
    (renames : (s : Session) → (f s).access_token ≡ token) where
  -- Below the row that is written nothing changes.
  write_above : (n i : ℕ) (ss : List Session) → Below n ss → n ≤ i → write i f ss ≡ ss
  unfolding write
  write_above n i [] b h = refl
  write_above n i (s ∷ ss) b h = ground (arith, write_above s.id i ss b.1)

  pub renamed_old :
      (n : ℕ) (ss : List Session) (s : Session)
      → Below n ss
      → Distinct ss
      → token ≢ old
      → by_token old ss ≡ some s
      → by_token old (write s.id f ss) ≡ none
  unfolding by_token write
  renamed_old n [] s b d h e = refl
  renamed_old n (r ∷ ss) s b d h e = elim (Bool-cases (r.access_token == old)) [
    | inl hit ↦
        let same : r ≡ s = ground (arith, hit) in
        ground (
          arith,
          same,
          renames r,
          eq_iff token old,
          write_above r.id r.id ss b.1,
          by_token_fresh old ss (subst (λ t. IsFresh t ss) ((eq_iff r.access_token old).0 hit) d.0),
        )
    | inr miss ↦
        let found : by_token old ss ≡ some s = ground (arith, miss) in
        ground (
          arith,
          miss,
          found,
          by_token-by_id r.id old ss s b.1 found,
          renamed_old r.id ss s b.1 d.1 h found,
        )
  ]

  pub renamed_new :
      (n : ℕ) (ss : List Session) (s : Session)
      → Below n ss
      → IsFresh token ss
      → by_token old ss ≡ some s
      → by_token token (write s.id f ss) ≡ some (f s)
  unfolding by_token write
  renamed_new n [] s b d e = cc
  renamed_new n (r ∷ ss) s b d e = elim (Bool-cases (r.access_token == old)) [
    | inl hit ↦
        let same : r ≡ s = ground (arith, hit) in
        ground (arith, same, renames r, eq_iff token token)
    | inr miss ↦
        let found : by_token old ss ≡ some s = ground (arith, miss) in
        ground (
          arith,
          miss,
          found,
          eq_iff r.access_token token,
          d.0,
          by_token-by_id r.id old ss s b.1 found,
          renamed_new r.id ss s b.1 d.1 found,
        )
  ]

pub by_id-select :
    (i : ℕ) (p : Session → Bool) (ss : List Session) (s : Session)
    → by_id i ss ≡ some s
    → p s ≡ true
    → by_id i (select p ss) ≡ some s
unfolding by_id
by_id-select i p [] s e h = e
by_id-select i p (r ∷ ss) s e h = ground (arith, by_id-select i p ss s)
