-- ===== src/Sessions/Tests.antt =====
-- The default configuration of packages/core/src/core/iam/session_manager.py and two users.
use venya.Prelude.{
  ℕ, ◌+◌, ◌*◌, String, ◌≡◌, refl, ◌≢◌, ◌⊎◌, true, false, none, some, List, [], ◌∷◌, arith, eq_iff,
  second, ltb, if◌then◌else◌, All,
}
use venya.Prelude.Dict
use venya.Prelude.Dict.{Dict}
use venya.Sessions.{
  extend_session, write, SessionConfig, Session, Database, ElevationToken, answer, by_id, by_token,
  refresh_token, revoke_session, cleanup_expired, create_session, check_refresh_window, bound_to,
  validate_session, is_user_active,
}
use venya.Sessions.Rows.{IsSound}
use venya.Sessions.Calls.{Call, creates, extends, refreshes, sets_status, run}
use venya.Sessions.History.{RowInOrder, no_sessions, history_rows}
use venya.Sessions.Refresh.{Ends, refresh_outcomes, rotation, cleanup_keeps}
use venya.Sessions.Revocation.{revocation_complete}

abbrev minute : ℕ
minute = 60 * second

abbrev config : SessionConfig
config = record {
  session_timeout = 15 * minute;
  access_token_ttl = 5 * minute;
  max_session_duration = 240 * minute;
  clock_skew_tolerance = minute;
}

abbrev users : Dict String
users = Dict.put (Dict.put Dict.empty "ana" "active") "bob" "disabled"

abbrev ana_session : Session
ana_session = record {
  id = 1;
  user_id = "ana";
  created_at = minute;
  expires_at = 16 * minute;
  access_token = "t1";
  access_token_jti = "j1";
  access_token_expires_at = some (6 * minute);
}

abbrev elevation : ElevationToken
elevation = record {
  token_hash = "h";
  owner = "ana";
  session_id = some 1;
  valid_until = 9 * minute;
  used = false;
}

abbrev db : Database
db = record {
  statuses = users;
  sessions = ana_session ∷ [];
  elevations = elevation ∷ [];
  next_id = 2;
}

db-IsSound : IsSound db
db-IsSound = record { ids = omega arith; tokens = (tt, tt) }

t1_found : by_token "t1" db.sessions ≡ some ana_session
unfolding by_token
t1_found = refl

id_found : by_id 1 db.sessions ≡ some ana_session
unfolding by_id
id_found = refl

t2_not_t1 : ◌≢◌ {A = String} "t2" "t1"
t2_not_t1 = ground (arith, eq_iff "t2" "t1")

t1_not_t2 : ◌≢◌ {A = String} "t1" "t2"
t1_not_t2 = ground (arith, eq_iff "t1" "t2")

ana_active : is_user_active (Dict.get users "ana") ≡ true
unfolding is_user_active Dict.get Dict.put Dict.empty
ana_active = refl

-- The session is idle since minute 16 and is revived at minute 20.
rotation_example :
    (by_token "t1"
        (refresh_token config db
          (20 * minute)
          (20 * minute)
          (20 * minute)
          "t1"
          "t2"
          "j2").0.sessions
      ≡ none)
    × (by_token "t2"
          (refresh_token config db
            (20 * minute)
            (20 * minute)
            (20 * minute)
            "t1"
            "t2"
            "j2").0.sessions
        ≡ some (record {
          id = ana_session.id;
          user_id = ana_session.user_id;
          created_at = ana_session.created_at;
          expires_at =
              if ltb (ana_session.created_at + config.max_session_duration) (20 * minute)
              then ana_session.expires_at
              else 20 * minute + config.session_timeout;
          access_token = "t2";
          access_token_jti = "j2";
          access_token_expires_at = some (20 * minute + config.access_token_ttl);
        }))
rotation_example =
    rotation config db (20 * minute) (20 * minute) (20 * minute) "t1" "t2" "j2" ana_session
      db-IsSound (t1_not_t2, tt) t2_not_t1 t1_found (omega arith, ana_active)

refresh_outcomes_example :
    ((by_token "t1" db.sessions ≡ none)
      × (refresh_token config db (20 * minute) (20 * minute) (20 * minute) "t1" "t2" "j2"
          ≡ (db, answer none)))
    ⊎ ((s : Session) × (by_token "t1" db.sessions ≡ some s)
        × Ends config db
            (20 * minute)
            (20 * minute)
            (20 * minute)
            "t1"
            "t2"
            "j2"
            s
            (refresh_token config db (20 * minute) (20 * minute) (20 * minute) "t1" "t2" "j2"))
refresh_outcomes_example =
    refresh_outcomes config db (20 * minute) (20 * minute) (20 * minute) "t1" "t2" "j2" db-IsSound

abbrev calls : List Call
calls =
    creates (5 * minute) (5 * minute) "ana" [] "t1" "j1"
    ∷ extends (10 * minute) 1
    ∷ refreshes (30 * minute) (30 * minute) (30 * minute) "t1" "t2" "j2"
    ∷ sets_status (31 * minute) "ana" "disabled"
    ∷ refreshes (32 * minute) (32 * minute) (32 * minute) "t2" "t3" "j3"
    ∷ []

abbrev after_calls : Session
after_calls = record {
  id = 1;
  user_id = "ana";
  created_at = 5 * minute;
  expires_at = 45 * minute;
  access_token = "t2";
  access_token_jti = "j2";
  access_token_expires_at = some (35 * minute);
}

calls_lead_to : by_id 1 (run config (no_sessions users) calls).sessions ≡ some after_calls
unfolding run is_user_active create_session refresh_token by_id by_token check_refresh_window
    extend_session write Dict.get Dict.put Dict.empty
calls_lead_to = refl

history_rows_example : RowInOrder config (32 * minute) after_calls
history_rows_example = history_rows config users calls 1 after_calls (omega arith) calls_lead_to

cleanup_keeps_example :
    by_id 1 (cleanup_expired config db (20 * minute)).0.sessions ≡ some ana_session
unfolding check_refresh_window
cleanup_keeps_example =
    cleanup_keeps config db (16 * minute) (20 * minute) 1 ana_session
      (record { past = omega arith; idle = omega arith; bearer = omega arith }) id_found refl

revocation_complete_example :
    let db' = (revoke_session db 1).0 in
    (validate_session config db' (2 * minute) 1 ≡ false)
    × (refresh_token config db' (2 * minute) (2 * minute) (2 * minute) "t1" "t2" "j2"
        ≡ (db', answer none))
    × All (λ e. bound_to 1 e ≡ false) db'.elevations
    × ((j : ℕ) → 1 ≢ j → by_id j db'.sessions ≡ by_id j db.sessions)
revocation_complete_example =
    revocation_complete config db 1 ana_session id_found (2 * minute) (2 * minute) (2 * minute)
      (2 * minute) "t2" "j2" db-IsSound
