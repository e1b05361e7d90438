-- ===== src/Snapshot/Answers.antt =====
-- packages/server/src/server/revocation_snapshot.py: what a poll is answered after any history.
use venya.Prelude.{
  ℕ, ◌+◌, ◌-◌, ◌*◌, ◌≡◌, refl, ap, ◌∙◌, inl, inr, Bool, true, false, ◌&&◌, not, Option, none, some,
  List, [], ◌∷◌, arith, second, ltb, leb, if◌then◌else◌, Bool-cases, Option-cases,
}
use venya.Snapshot.{
  Database, RevocationSnapshot, Plane, snapshot_unavailable, Result, ok, err, max_age_seconds,
  loaded, revocation_populations, relay_revocation_populations, note_stale_refusal,
  snapshot_is_stale, arm_publisher, disarm_publisher, publish_populations, publish_snapshot,
  publish_once, fallback_read, from_snapshot, read_relay_populations, read_populations,
}

-- The loop arms before its first tick and disarms when it ends; a tick publishes, or its read fails.
pub data Event : Type 0 where
  start stop : Event
  tick : Option Database → Event
  poll poll_relay : Option Database → Event

unfoldable pub step : Plane → ℕ → Event → Plane
unfolding arm_publisher disarm_publisher publish_once read_populations read_relay_populations
step p now start = arm_publisher p
step p now stop = disarm_publisher p
step p now (tick db) = (publish_once p db now).0
step p now (poll db) = (read_populations p db now).0
step p now (poll_relay db) = (read_relay_populations p db now).0

-- The latest event stands first.
unfoldable pub after : List (ℕ × Event) → Plane
unfolding step
after [] = loaded
after ((now, e) ∷ older) = step (after older) now e

-- The specification: whether the publisher runs, and the last database that was read well.
unfoldable pub runs : List (ℕ × Event) → Bool
runs [] = false
runs ((now, start) ∷ older) = true
runs ((now, stop) ∷ older) = false
runs ((now, e) ∷ older) = runs older

unfoldable pub last_read : List (ℕ × Event) → Option (ℕ × Database)
last_read [] = none
last_read ((now, tick (some db)) ∷ older) = some (now, db)
last_read ((now, e) ∷ older) = last_read older

-- Read less than 45 s ago.
unfoldable pub is_fresh : Option (ℕ × Database) → ℕ → Bool
is_fresh none now = false
is_fresh (some (t, db)) now = ltb (now - t) (45 * second)

unfoldable pub warranted : {A : Type 0} → (Database → A) → Option (ℕ × Database) → ℕ → Result A
warranted read none now = err snapshot_unavailable
warranted read (some (t, db)) now =
    if ltb (now - t) (45 * second) then ok (read db) else err snapshot_unavailable

abbrev pub promised :
    {A : Type 0} → (Database → A) → List (ℕ × Event) → Option Database → ℕ → Result A
promised read h db now = if runs h then warranted read (last_read h) now else fallback_read read db

-- Of a history: how many of its polls found the publisher running and nothing fresh.
unfoldable pub starved : List (ℕ × Event) → ℕ → ℕ
unfolding is_fresh
starved older now = if runs older && not (is_fresh (last_read older) now) then 1 else 0

unfoldable pub starved_polls : List (ℕ × Event) → ℕ
unfolding starved
starved_polls [] = 0
starved_polls ((now, poll db) ∷ older) = starved_polls older + starved older now
starved_polls ((now, poll_relay db) ∷ older) = starved_polls older + starved older now
starved_polls ((now, e) ∷ older) = starved_polls older

abbrev snapshot_of : ℕ × Database → RevocationSnapshot
unfolding revocation_populations relay_revocation_populations
snapshot_of (t, db) = record {
  serials = (revocation_populations db).0;
  identities = (revocation_populations db).1;
  published_mono = t;
  relay_serials = relay_revocation_populations db;
}

abbrev SamePopulation : Plane → Plane → Type 0
SamePopulation p q = (p.published ≡ q.published) × (p.publisher_running ≡ q.publisher_running)

from_snapshot-SamePopulation :
    {A : Type 0} (read : RevocationSnapshot → A) (p : Plane) (now : ℕ)
    → SamePopulation (from_snapshot read p now).0 p
unfolding from_snapshot note_stale_refusal
from_snapshot-SamePopulation read p now = elim (Option-cases p.published) [
  | inl e ↦ rw (e, from_snapshot) (e, refl)
  | inr (s, e) ↦ elim (Bool-cases (snapshot_is_stale (some s) now)) [
    | inl f ↦ rw (e, from_snapshot, f) (e, refl)
    | inr f ↦ rw (e, from_snapshot, f) (e, refl)
  ]
]

poll-SamePopulation :
    (p : Plane) (db : Option Database) (now : ℕ) → SamePopulation (read_populations p db now).0 p
unfolding read_populations
poll-SamePopulation p db now = elim (Bool-cases p.publisher_running) [
  | inl e ↦
      rw (e, read_populations)
        (from_snapshot-SamePopulation (λ s. (s.serials, s.identities))
          (record p { publisher_running = true }) now)
  | inr e ↦ rw (e, read_populations) (refl, refl)
]

poll_relay-SamePopulation :
    (p : Plane) (db : Option Database) (now : ℕ)
    → SamePopulation (read_relay_populations p db now).0 p
unfolding read_relay_populations
poll_relay-SamePopulation p db now = elim (Bool-cases p.publisher_running) [
  | inl e ↦
      rw (e, read_relay_populations)
        (from_snapshot-SamePopulation (λ s. s.relay_serials) (record p { publisher_running = true })
          now)
  | inr e ↦ rw (e, read_relay_populations) (refl, refl)
]

abbrev held : List (ℕ × Event) → Option RevocationSnapshot
unfolding last_read
held h = elim (last_read h) [ none ↦ none | some r ↦ some (snapshot_of r) ]

-- What the plane holds after a history.
after-holds :
    (h : List (ℕ × Event)) → ((after h).published ≡ held h) × ((after h).publisher_running ≡ runs h)
unfolding after last_read runs publish_once publish_snapshot publish_populations arm_publisher
    disarm_publisher
after-holds [] = (refl, refl)
after-holds ((now, start) ∷ h) = ((after-holds h).0, refl)
after-holds ((now, stop) ∷ h) = ((after-holds h).0, refl)
after-holds ((now, tick none) ∷ h) = after-holds h
after-holds ((now, tick (some db)) ∷ h) = (refl, (after-holds h).1)
after-holds ((now, poll db) ∷ h) =
    let same = poll-SamePopulation (after h) db now in
    (same.0 ∙ (after-holds h).0, same.1 ∙ (after-holds h).1)
after-holds ((now, poll_relay db) ∷ h) =
    let same = poll_relay-SamePopulation (after h) db now in
    (same.0 ∙ (after-holds h).0, same.1 ∙ (after-holds h).1)

leb-not-ltb : (a b : ℕ) → leb a b ≡ not (ltb b a)
leb-not-ltb a b = ground arith

stale-fresh :
    (t : ℕ) (db : Database) (now : ℕ)
    → snapshot_is_stale (some (snapshot_of (t, db))) now ≡ not (is_fresh (some (t, db)) now)
unfolding snapshot_is_stale is_fresh max_age_seconds snapshot_of
stale-fresh t db now = leb-not-ltb (45 * second) (now - t)

from_snapshot-warranted :
    {A : Type 0} (read : RevocationSnapshot → A) (live : Database → A)
    → ((t : ℕ) (db : Database) → read (snapshot_of (t, db)) ≡ live db)
    → (p : Plane) (r : Option (ℕ × Database)) (now : ℕ)
    → p.published ≡ elim r [ none ↦ none | some x ↦ some (snapshot_of x) ]
    → ((from_snapshot read p now).1 ≡ warranted live r now)
      × ((from_snapshot read p now).0.refusals
          ≡ p.refusals + (if not (is_fresh r now) then 1 else 0))
unfolding from_snapshot note_stale_refusal warranted is_fresh
from_snapshot-warranted read live h p none now e = rw (e, from_snapshot) (refl, refl)
from_snapshot-warranted read live h p (some (t, db)) now e =
    elim (Bool-cases (ltb (now - t) (45 * second))) [
      | inl f ↦
          rw (e, from_snapshot, stale-fresh t db now, is_fresh, f) (ap ok (h t db), omega arith)
      | inr f ↦ rw (e, from_snapshot, stale-fresh t db now, is_fresh, f) (refl, refl)
    ]

-- A poll of the plane that holds what a history leaves.
poll-promised :
    (h : List (ℕ × Event)) (p : Plane) (db : Option Database) (now : ℕ)
    → p.published ≡ held h
    → p.publisher_running ≡ runs h
    → ((read_populations p db now).1 ≡ promised revocation_populations h db now)
      × ((read_populations p db now).0.refusals ≡ p.refusals + starved h now)
unfolding read_populations starved snapshot_of held
poll-promised h p db now e r = elim (Bool-cases (runs h)) [
  | inl o ↦
      rw (r ∙ o, read_populations, starved, o)
        (from_snapshot-warranted (λ s. (s.serials, s.identities)) revocation_populations
          (λ t d. refl) (record p { publisher_running = true }) (last_read h) now e)
  | inr o ↦ rw (r ∙ o, read_populations, starved, o) (refl, omega arith)
]

poll_relay-promised :
    (h : List (ℕ × Event)) (p : Plane) (db : Option Database) (now : ℕ)
    → p.published ≡ held h
    → p.publisher_running ≡ runs h
    → ((read_relay_populations p db now).1 ≡ promised relay_revocation_populations h db now)
      × ((read_relay_populations p db now).0.refusals ≡ p.refusals + starved h now)
unfolding read_relay_populations starved snapshot_of held
poll_relay-promised h p db now e r = elim (Bool-cases (runs h)) [
  | inl o ↦
      rw (r ∙ o, read_relay_populations, starved, o)
        (from_snapshot-warranted (λ s. s.relay_serials) relay_revocation_populations (λ t d. refl)
          (record p { publisher_running = true }) (last_read h) now e)
  | inr o ↦ rw (r ∙ o, read_relay_populations, starved, o) (refl, omega arith)
]

after-refusals : (h : List (ℕ × Event)) → (after h).refusals ≡ starved_polls h
unfolding after starved_polls publish_once publish_snapshot publish_populations arm_publisher
    disarm_publisher
after-refusals [] = refl
after-refusals ((now, start) ∷ h) = after-refusals h
after-refusals ((now, stop) ∷ h) = after-refusals h
after-refusals ((now, tick none) ∷ h) = after-refusals h
after-refusals ((now, tick (some db)) ∷ h) = after-refusals h
after-refusals ((now, poll db) ∷ h) =
    let c = poll-promised h (after h) db now (after-holds h).0 (after-holds h).1 in
    c.1 ∙ ap (λ n. n + starved h now) (after-refusals h)
after-refusals ((now, poll_relay db) ∷ h) =
    let c = poll_relay-promised h (after h) db now (after-holds h).0 (after-holds h).1 in
    c.1 ∙ ap (λ n. n + starved h now) (after-refusals h)

-- After any history: while the publisher runs, a poll, of executors or of relays, is answered with
-- the populations of the last database that was read well, if that was less than 45 seconds ago, and
-- refused otherwise; while it does not run, with those of the database now, if that can be read. The
-- counter is the number of polls that were refused so.
pub poll_answers :
    (h : List (ℕ × Event)) (db : Option Database) (now : ℕ)
    → ((read_populations (after h) db now).1 ≡ promised revocation_populations h db now)
      × ((read_relay_populations (after h) db now).1
          ≡ promised relay_revocation_populations h db now)
      × ((after h).refusals ≡ starved_polls h)
poll_answers h db now =
    let holds = after-holds h in
    (
      (poll-promised h (after h) db now holds.0 holds.1).0,
      (poll_relay-promised h (after h) db now holds.0 holds.1).0,
      after-refusals h,
    )
