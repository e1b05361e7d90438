-- ===== src/Sessions/History.antt =====
-- Histories of packages/core/src/core/iam/session_manager.py: what every row satisfies, whatever
-- the calls were, and that the sweep spares what can still be refreshed.
use venya.Prelude.{
  ℕ, ◌+◌, ◌≤◌, String, ◌≡◌, refl, inl, inr, Bool, true, false, Option, none, some, List, [], ◌∷◌,
  arith, ltb, leb, Bool-cases, Option-cases, select, All,
}
use venya.Prelude.Dict
use venya.Prelude.Dict.{Dict}
use venya.Sessions.{
  SessionConfig, Session, Database, ElevationToken, AccessToken, by_id, by_token, write,
  create_session, new_session, extend_session, extended, rotated, refresh_token, refresh_row,
  new_access_token, check_refresh_window, is_user_active, revoke_session, cleanup_expired, is_dead,
}
use venya.Sessions.Rows.{
  extend_row, refresh_unknown, refresh_known, Below, by_token-by_id, Below-write, by_id-write,
  Below-select, All-write, All-select, All-by_id,
}
use venya.Sessions.Calls.{
  Call, creates, extends, refreshes, revokes, cleans, sets_status, step, run, last_reading, Clocked,
  final,
}

-- A bearer token that a row carries ends at most its own life and the tolerance after the cap.
abbrev BearerCapped : SessionConfig → Session → Option ℕ → Type 0
BearerCapped c s none = Unit {0}
BearerCapped c s (some end) =
    end ≤ s.created_at + c.max_session_duration + c.access_token_ttl + c.clock_skew_tolerance

pub record RowInOrder (c : SessionConfig) (last : ℕ) (s : Session) : Type 0 where
  pub past : s.created_at ≤ last
  pub idle : s.created_at + c.session_timeout ≤ s.expires_at + c.clock_skew_tolerance
  pub bearer : BearerCapped c s s.access_token_expires_at

pub record Rows (c : SessionConfig) (last : ℕ) (db : Database) : Type 0 where
  pub ids : Below db.next_id db.sessions
  pub each : All (RowInOrder c last) db.sessions

module _ (c : SessionConfig) where
  later_row : (m n : ℕ) (s : Session) → m ≤ n → RowInOrder c m s → RowInOrder c n s
  later_row m n s h r = record { past = omega (arith, r.past); idle = r.idle; bearer = r.bearer }

  later_rows :
      (m n : ℕ) (ss : List Session) → m ≤ n → All (RowInOrder c m) ss → All (RowInOrder c n) ss
  later_rows m n [] h a = tt
  later_rows m n (s ∷ ss) h a = (later_row m n s h a.0, later_rows m n ss h a.1)

  create-Rows :
      (db : Database) (now flushed : ℕ) (user : String) (roles : List String) (token jti : String)
      → now ≤ flushed
      → flushed ≤ now + c.clock_skew_tolerance
      → Rows c flushed db
      → Rows c flushed (create_session c db now flushed user roles token jti).0
  unfolding create_session new_session
  create-Rows db now flushed user roles token jti h k r =
      elim (Bool-cases (is_user_active (Dict.get db.statuses user))) [
        | inl e ↦ rw e (record {
          ids = (omega arith, r.ids);
          each = (record { past = omega arith; idle = omega arith; bearer = omega arith }, r.each);
        })
        | inr e ↦ rw e r
      ]

  extend-Rows :
      (db : Database) (now i : ℕ) → Rows c now db → Rows c now (extend_session c db now i).0
  unfolding extend_session extended
  extend-Rows db now i r = elim (Option-cases (by_id i db.sessions)) [
    | inl e ↦ rw (e, extend_session) r
    | inr (s, e) ↦
        rw (extend_row c db now i s e)
          (elim (Bool-cases (ltb (s.created_at + c.max_session_duration) now)) [
            | inl q ↦ rw q r
            | inr q ↦ rw q (record {
              ids = Below-write db.next_id i (extended c now) db.sessions (λ t. refl) r.ids;
              each =
                  All-write (RowInOrder c now) db.next_id i (extended c now) db.sessions
                    (λ t f o. record {
                      past = o.past;
                      idle = omega (arith, o.past);
                      bearer = o.bearer;
                    })
                    r.ids r.each;
            })
          ])
  ]

  -- An extension leaves the row's age and its token alone.
  extended_row :
      (db : Database) (now i : ℕ) (s t : Session)
      → by_id i db.sessions ≡ some s
      → by_id i (extend_session c db now i).0.sessions ≡ some t
      → t.created_at ≡ s.created_at
  unfolding extended
  extended_row db now i s t e f =
      elim (Bool-cases (ltb (s.created_at + c.max_session_duration) now)) [
        | inl q ↦ cc (e, rw (extend_row c db now i s e, q) at f)
        | inr q ↦ ground (
          arith,
          e,
          by_id-write i i (extended c now) db.sessions (λ r. refl),
          rw (extend_row c db now i s e, q) at f,
        )
      ]

  later_Rows : (db : Database) (m n : ℕ) → m ≤ n → Rows c m db → Rows c n db
  later_Rows db m n h r = record { ids = r.ids; each = later_rows m n db.sessions h r.each }

  rotate-Rows :
      (db : Database) (last i : ℕ) (token : AccessToken)
      → ((t : Session)
          → by_id i db.sessions ≡ some t
          → token.good_until
            ≤ t.created_at + c.max_session_duration + c.access_token_ttl + c.clock_skew_tolerance)
      → Rows c last db
      → Rows c last (record db { sessions = write i (rotated token) db.sessions })
  unfolding rotated
  rotate-Rows db last i token ends r = record {
    ids = Below-write db.next_id i (rotated token) db.sessions (λ t. refl) r.ids;
    each =
        All-write (RowInOrder c last) db.next_id i (rotated token) db.sessions
          (λ t found o. record { past = o.past; idle = o.idle; bearer = ends t found }) r.ids
          r.each;
  }

  refresh_row-Rows :
      (db : Database) (checked extending minted : ℕ) (s : Session) (token jti : String)
      → checked ≤ extending
      → extending ≤ minted
      → minted ≤ checked + c.clock_skew_tolerance
      → by_id s.id db.sessions ≡ some s
      → Rows c checked db
      → Rows c minted (refresh_row c db checked extending minted s token jti).0
  unfolding refresh_row check_refresh_window
  refresh_row-Rows db checked extending minted s token jti h k l e r =
      elim (Bool-cases (leb checked (s.created_at + c.max_session_duration))) [
        | inr late ↦ rw late (later_Rows db checked minted (omega arith) r)
        | inl open_window ↦
            rw open_window (elim (Bool-cases (is_user_active (Dict.get db.statuses s.user_id))) [
              | inr off ↦ rw off (later_Rows db checked minted (omega arith) r)
              | inl on ↦ rw on (
                  rotate-Rows (extend_session c db extending s.id).0 minted s.id
                    (new_access_token c minted s.user_id [] token jti)
                    (λ t found. ground (arith, extended_row db extending s.id s t e found))
                    (later_Rows _ extending minted k
                      (extend-Rows db extending s.id (later_Rows db checked extending h r))))
            ])
      ]

  refresh-Rows :
      (db : Database) (checked extending minted : ℕ) (old token jti : String)
      → checked ≤ extending
      → extending ≤ minted
      → minted ≤ checked + c.clock_skew_tolerance
      → Rows c checked db
      → Rows c minted (refresh_token c db checked extending minted old token jti).0
  refresh-Rows db checked extending minted old token jti h k l r =
      elim (Option-cases (by_token old db.sessions)) [
        | inl e ↦
            rw (refresh_unknown c db checked extending minted old token jti e)
              (later_Rows db checked minted (omega arith) r)
        | inr (s, e) ↦ rw (refresh_known c db checked extending minted old token jti s e) (
            refresh_row-Rows db checked extending minted s token jti h k l
              (by_token-by_id db.next_id old db.sessions s r.ids e).0 r)
      ]

  select-Rows :
      (db : Database) (last : ℕ) (p : Session → Bool) (es : List ElevationToken)
      → Rows c last db
      → Rows c last (record db { sessions = select p db.sessions; elevations = es })
  select-Rows db last p es r = record {
    ids = Below-select db.next_id p db.sessions r.ids;
    each = All-select (RowInOrder c last) p db.sessions r.each;
  }

  revoke-Rows : (db : Database) (last i : ℕ) → Rows c last db → Rows c last (revoke_session db i).0
  unfolding revoke_session
  revoke-Rows db last i r = elim (Option-cases (by_id i db.sessions)) [
    | inl e ↦ rw (e, revoke_session) r
    | inr (s, e) ↦ rw (e, revoke_session) (select-Rows db last _ _ r)
  ]

  step-Rows :
      (db : Database) (last : ℕ) (k : Call) (ks : List Call)
      → Clocked c last (k ∷ ks)
      → Rows c last db
      → Rows c (last_reading k) (step c db k)
  unfolding step
  step-Rows db last (creates now flushed user roles token jti) ks h r =
      create-Rows db now flushed user roles token jti h.1 h.2
        (later_Rows db last flushed (omega arith) r)
  step-Rows db last (extends now i) ks h r = extend-Rows db now i (later_Rows db last now h.0 r)
  step-Rows db last (refreshes checked extending minted old token jti) ks h r =
      refresh-Rows db checked extending minted old token jti h.3.0 h.3.1 h.2
        (later_Rows db last checked h.0 r)
  step-Rows db last (revokes now i) ks h r = revoke-Rows db now i (later_Rows db last now h.0 r)
  step-Rows db last (cleans now) ks h r =
      unfold cleanup_expired in select-Rows db now _ db.elevations (later_Rows db last now h.0 r)
  step-Rows db last (sets_status now user status) ks h r = record {
    ids = r.ids;
    each = (later_Rows db last now h.0 r).each;
  }

  run-Rows :
      (db : Database) (last : ℕ) (ks : List Call)
      → Clocked c last ks
      → Rows c last db
      → Rows c (final last ks) (run c db ks)
  unfolding run
  run-Rows db last [] h r = r
  run-Rows db last (k ∷ ks) h r =
      run-Rows (step c db k) (last_reading k) ks h.4 (step-Rows db last k ks h r)

abbrev pub no_sessions : Dict String → Database
no_sessions statuses = record { statuses = statuses; sessions = []; elevations = []; next_id = 1 }

-- From an empty table, whatever is called, with a clock that does not run back and no call that
-- takes longer than the tolerance: every row was created in the past, its bearer token ends at
-- most one token life and the tolerance after the session's maximal duration, and its idle limit
-- is at least one timeout, less the tolerance, after its creation.
pub history_rows :
    (c : SessionConfig) (statuses : Dict String) (ks : List Call) (i : ℕ) (s : Session)
    → Clocked c 0 ks
    → by_id i (run c (no_sessions statuses) ks).sessions ≡ some s
    → RowInOrder c (final 0 ks) s
history_rows c statuses ks i s h e =
    let r = run-Rows c (no_sessions statuses) 0 ks h (record { ids = tt; each = tt }) in
    All-by_id (RowInOrder c (final 0 ks)) i _ s r.each e

-- The sweep deletes no session that could still be refreshed at that moment.
pub sweep_spares :
    (c : SessionConfig) (last now : ℕ) (s : Session)
    → RowInOrder c last s
    → check_refresh_window c now s ≡ true
    → is_dead c now s ≡ false
unfolding check_refresh_window is_dead
sweep_spares c last now s r w = ground (arith, r.idle)
