-- ===== src/Sessions/Revocation.antt =====
-- `revoke_session` of packages/core/src/core/iam/session_manager.py: what a logout ends.
use venya.Prelude.{
  ℕ, ◌≤◌, String, ◌≡◌, refl, subst, ◌≢◌, inl, inr, Bool, true, false, not, none, some, List, [],
  ◌∷◌, arith, eq_iff, ◌=?◌, Bool-cases, select, All,
}
use venya.Sessions.{
  SessionConfig, Session, Database, ElevationToken, answer, by_id, by_token, refresh_token,
  validate_session, revoke_session, bound_to,
}
use venya.Sessions.Rows.{
  IsSound, IsFresh, Below, Distinct, by_token_fresh, All-by_id, refresh_unknown,
}

not_id : ℕ → Session → Bool
not_id i r = not (r.id =? i)

gone_by_id : (i : ℕ) (ss : List Session) → by_id i (select (not_id i) ss) ≡ none
unfolding by_id not_id
gone_by_id i [] = refl
gone_by_id i (s ∷ ss) = ground (arith, gone_by_id i ss)

kept_by_id : (i j : ℕ) (ss : List Session) → i ≢ j → by_id j (select (not_id i) ss) ≡ by_id j ss
unfolding by_id not_id
kept_by_id i j [] h = refl
kept_by_id i j (s ∷ ss) h = ground (arith, kept_by_id i j ss h)

-- Above the ids in use nothing is deleted.
none_deleted : (n i : ℕ) (ss : List Session) → Below n ss → n ≤ i → select (not_id i) ss ≡ ss
unfolding not_id
none_deleted n i [] b h = refl
none_deleted n i (s ∷ ss) b h = ground (arith, none_deleted s.id i ss b.1)

fresh_apart :
    (t : String) (s : Session) (i : ℕ) (ss : List Session)
    → IsFresh t ss
    → by_id i ss ≡ some s
    → s.access_token ≢ t
fresh_apart t s i ss f e = All-by_id (λ r. r.access_token ≢ t) i ss s f e

gone_by_token :
    (n i : ℕ) (ss : List Session) (s : Session)
    → Below n ss
    → Distinct ss
    → by_id i ss ≡ some s
    → by_token s.access_token (select (not_id i) ss) ≡ none
unfolding by_id by_token not_id
gone_by_token n i [] s b d e = refl
gone_by_token n i (r ∷ ss) s b d e = elim (Bool-cases (r.id =? i)) [
  | inl hit ↦
      let same : r ≡ s = ground (arith, hit) in
      ground (
        arith,
        hit,
        none_deleted r.id i ss b.1,
        by_token_fresh s.access_token ss
            (subst (λ (t : Session). IsFresh t.access_token ss) same d.0),
      )
  | inr miss ↦
      let found : by_id i ss ≡ some s = ground (arith, miss) in
      ground (
        arith,
        miss,
        gone_by_token r.id i ss s b.1 d.1 found,
        eq_iff r.access_token s.access_token,
        fresh_apart r.access_token s i ss d.0 found,
      )
]

unbound_left :
    (i : ℕ) (es : List ElevationToken)
    → All (λ e. bound_to i e ≡ false) (select (λ e. not (bound_to i e)) es)
unbound_left i [] = tt
unbound_left i (e ∷ es) = elim (Bool-cases (bound_to i e)) [
  | inl b ↦ rw b (unbound_left i es)
  | inr b ↦ rw b (b, unbound_left i es)
]

module _ (c : SessionConfig) (db : Database) (i : ℕ) (s : Session)
    (found : by_id i db.sessions ≡ some s) where
  revoked : revoke_session db i ≡ (
    record db {
      sessions = select (not_id i) db.sessions;
      elevations = select (λ e. not (bound_to i e)) db.elevations;
    },
    true,
  )
  unfolding revoke_session not_id
  revoked = rw (found, revoke_session)

  -- The revocation of a session of a sound table is complete: its id validates no more, its token
  -- refreshes to nothing and leaves the tables alone, no elevation token bound to it is left, and
  -- every other session stays.
  pub revocation_complete :
      (now checked extending minted : ℕ) (token jti : String)
      → IsSound db
      → let db' = (revoke_session db i).0 in
        (validate_session c db' now i ≡ false)
        × (refresh_token c db' checked extending minted s.access_token token jti
            ≡ (db', answer none))
        × All (λ e. bound_to i e ≡ false) db'.elevations
        × ((j : ℕ) → i ≢ j → by_id j db'.sessions ≡ by_id j db.sessions)
  unfolding validate_session
  revocation_complete now checked extending minted token jti w = rw revoked (
    rw (gone_by_id i db.sessions, validate_session),
    refresh_unknown c _ checked extending minted s.access_token token jti
        (gone_by_token db.next_id i db.sessions s w.ids w.tokens found),
    unbound_left i db.elevations,
    λ j apart. kept_by_id i j db.sessions apart,
  )
