-- ===== src/Sessions/Refresh.antt =====
-- `refresh_token` of packages/core/src/core/iam/session_manager.py: its three outcomes, and the
-- rotation of the bearer token.
use venya.Prelude.{
  ℕ, ◌+◌, ◌≤◌, ◌<◌, String, ◌≡◌, refl, sym, ap, ◌∙◌, ◌≢◌, ◌⊎◌, inl, inr, Bool, true, false, not,
  Option, none, some, List, [], arith, ltb, leb, if◌then◌else◌, Bool-cases, Option-cases,
}
use venya.Prelude.Dict
use venya.Prelude.Dict.{Dict}
use venya.Sessions.{
  SessionConfig, Session, Database, AccessToken, Answer, answer, user_not_active, by_id, by_token,
  write, extend_session, extended, rotated, new_access_token, refresh_token, refresh_row,
  check_refresh_window, is_user_active, cleanup_expired,
}
use venya.Sessions.Rows.{
  IsSound, IsFresh, extend_row, refresh_unknown, refresh_known, by_token-by_id, write-write,
  renamed_old, renamed_new, by_id-select,
}
use venya.Sessions.History.{RowInOrder, sweep_spares}

-- The session may be refreshed: it is not past its cap and its user is active.
abbrev pub MayRefresh : SessionConfig → Database → ℕ → Session → Type 0
MayRefresh c db now s =
    (now ≤ s.created_at + c.max_session_duration)
    × (is_user_active (Dict.get db.statuses s.user_id) ≡ true)

-- What a refresh of `s` writes to its row: the new token, and the idle limit unless the cap passed
-- in between.
pub refreshed : SessionConfig → ℕ → ℕ → String → String → Session → Session → Session
unfolding extended rotated
refreshed c extending minted token jti s r =
    rotated (new_access_token c minted s.user_id [] token jti)
      (if ltb (s.created_at + c.max_session_duration) extending then r else extended c extending r)

refreshed_row :
    (c : SessionConfig) (extending minted : ℕ) (token jti : String) (s : Session)
    → refreshed c extending minted token jti s s ≡ record {
      id = s.id;
      user_id = s.user_id;
      created_at = s.created_at;
      expires_at =
          if ltb (s.created_at + c.max_session_duration) extending
          then s.expires_at
          else extending + c.session_timeout;
      access_token = token;
      access_token_jti = jti;
      access_token_expires_at = some (minted + c.access_token_ttl);
    }
unfolding refreshed rotated new_access_token extended
refreshed_row c extending minted token jti s =
    elim (Bool-cases (ltb (s.created_at + c.max_session_duration) extending)) [
      | inl e ↦ rw e refl
      | inr e ↦ rw e refl
    ]

module _ (c : SessionConfig) (db : Database) (checked extending minted : ℕ)
    (old token jti : String) where
  abbrev refresh : Database × Answer (Option AccessToken)
  refresh = refresh_token c db checked extending minted old token jti

  abbrev renewed : Session → Database × Answer (Option AccessToken)
  renewed s = (
    record db { sessions = write s.id (refreshed c extending minted token jti s) db.sessions },
    answer (some (new_access_token c minted s.user_id [] token jti)),
  )

  written :
      (s : Session)
      → by_id s.id db.sessions ≡ some s
      → write s.id
          (rotated (new_access_token c minted s.user_id [] token jti))
          (extend_session c db extending s.id).0.sessions
        ≡ write s.id (refreshed c extending minted token jti s) db.sessions
  unfolding refreshed
  written s e =
      let token_of = new_access_token c minted s.user_id [] token jti in
      let write_if = λ (b : Bool).
        write s.id (λ r. rotated token_of (if b then r else extended c extending r)) db.sessions in
      elim (Bool-cases (ltb (s.created_at + c.max_session_duration) extending)) [
        | inl q ↦ rw (extend_row c db extending s.id s e, q) (ap write_if (sym q))
        | inr q ↦
            rw (extend_row c db extending s.id s e, q)
              (write-write s.id (extended c extending) (rotated token_of) db.sessions (λ r. refl)
                ∙ ap write_if (sym q))
      ]

  extend_tables :
      (s : Session)
      → by_id s.id db.sessions ≡ some s
      → (extend_session c db extending s.id).0
        ≡ record db { sessions = (extend_session c db extending s.id).0.sessions }
  extend_tables s e = elim (Bool-cases (ltb (s.created_at + c.max_session_duration) extending)) [
    | inl q ↦ rw (extend_row c db extending s.id s e, q)
    | inr q ↦ rw (extend_row c db extending s.id s e, q)
  ]

  granted :
      (s : Session)
      → by_id s.id db.sessions ≡ some s
      → ◌≡◌ {A = Database × Answer (Option AccessToken)}
          (
            record (extend_session c db extending s.id).0 {
              sessions =
                  write s.id
                    (rotated (new_access_token c minted s.user_id [] token jti))
                    (extend_session c db extending s.id).0.sessions;
            },
            answer (some (new_access_token c minted s.user_id [] token jti)),
          )
          (renewed s)
  granted s e =
      let t = new_access_token c minted s.user_id [] token jti in
      let told : Database → Database × Answer (Option AccessToken) = (λ d. (d, answer (some t))) in
      ap (λ (d : Database). told (record d { sessions = write s.id (rotated t) d.sessions }))
        (extend_tables s e)
      ∙ ap (λ (ss : List Session). told (record db { sessions = ss })) (written s e)

  -- The three ways in which the refresh of a known token ends.
  abbrev pub Ends : Session → Database × Answer (Option AccessToken) → Type 0
  Ends s r =
      ((s.created_at + c.max_session_duration < checked) × (r ≡ (db, answer none)))
      ⊎ (((checked ≤ s.created_at + c.max_session_duration)
            × (is_user_active (Dict.get db.statuses s.user_id) ≡ false)
            × (r ≡ (db, user_not_active s.user_id (Dict.get db.statuses s.user_id))))
          ⊎ (MayRefresh c db checked s × (r ≡ renewed s)))

  refresh_row-Ends :
      (s : Session)
      → by_id s.id db.sessions ≡ some s
      → Ends s (refresh_row c db checked extending minted s token jti)
  unfolding refresh_row check_refresh_window
  refresh_row-Ends s e = elim (Bool-cases (leb checked (s.created_at + c.max_session_duration))) [
    | inr late ↦ rw late (inl (ground arith, refl))
    | inl inside ↦ rw inside (elim (Bool-cases (is_user_active (Dict.get db.statuses s.user_id))) [
      | inr off ↦ rw off (inr (inl (ground arith, refl, refl)))
      | inl on ↦ rw on (inr (inr ((ground arith, refl), granted s e)))
    ])
  ]

  may_end :
      (s : Session) (r : Database × Answer (Option AccessToken))
      → MayRefresh c db checked s
      → Ends s r
      → r ≡ renewed s
  may_end s r m (inl (late, e)) = absurd (omega (arith, m.0))
  may_end s r m (inr (inl (inside, off, e))) = absurd (cc (m.1, off))
  may_end s r m (inr (inr (also, e))) = e

  -- Over a sound table, a token that no row carries is answered by nothing; the refresh of a known
  -- one ends in exactly the way that the cap and the user's status call for, and only the last way
  -- writes.
  pub refresh_outcomes :
      IsSound db
      → ((by_token old db.sessions ≡ none) × (refresh ≡ (db, answer none)))
        ⊎ ((s : Session) × (by_token old db.sessions ≡ some s) × Ends s refresh)
  refresh_outcomes w = elim (Option-cases (by_token old db.sessions)) [
    | inl u ↦ inl (u, refresh_unknown c db checked extending minted old token jti u)
    | inr (s, k) ↦ inr (
      s,
      k,
      rw (refresh_known c db checked extending minted old token jti s k)
          (refresh_row-Ends s (by_token-by_id db.next_id old db.sessions s w.ids k).0),
    )
  ]

  -- After a refresh that the session may have, with a new token that no row carries yet, the old
  -- token is known no more and the new one leads to the same session: its row has the same id, user
  -- and start, the new token with its identifier and a whole time to live from the moment it was
  -- minted, and ends a whole idle time after the extension, or as before if its cap passed in between.
  pub rotation :
      (s : Session)
      → IsSound db
      → IsFresh token db.sessions
      → token ≢ old
      → by_token old db.sessions ≡ some s
      → MayRefresh c db checked s
      → (by_token old refresh.0.sessions ≡ none)
        × (by_token token refresh.0.sessions
            ≡ some (record {
              id = s.id;
              user_id = s.user_id;
              created_at = s.created_at;
              expires_at =
                  if ltb (s.created_at + c.max_session_duration) extending
                  then s.expires_at
                  else extending + c.session_timeout;
              access_token = token;
              access_token_jti = jti;
              access_token_expires_at = some (minted + c.access_token_ttl);
            }))
  unfolding refreshed rotated new_access_token extended
  rotation s w f n k m =
      let found = (by_token-by_id db.next_id old db.sessions s w.ids k).0 in
      let done =
        refresh_known c db checked extending minted old token jti s k
        ∙ may_end s _ m (refresh_row-Ends s found) in
      let f' = refreshed c extending minted token jti s in
      let same_id : (r : Session) → (f' r).id ≡ r.id = (λ r. ground arith) in
      rw done (
        renamed_old old token f' same_id (λ r. refl) db.next_id db.sessions s w.ids w.tokens n k,
        renamed_new old token f' same_id (λ r. refl) db.next_id db.sessions s w.ids f k
            ∙ ap some (refreshed_row c extending minted token jti s),
      )

-- The sweep keeps every session that a refresh would still accept at that moment, if its row is
-- one that a history of calls leaves.
pub cleanup_keeps :
    (c : SessionConfig) (db : Database) (last now i : ℕ) (s : Session)
    → RowInOrder c last s
    → by_id i db.sessions ≡ some s
    → check_refresh_window c now s ≡ true
    → by_id i (cleanup_expired c db now).0.sessions ≡ some s
unfolding cleanup_expired
cleanup_keeps c db last now i s r e w =
    by_id-select i _ db.sessions s e (ap not (sweep_spares c last now s r w))
