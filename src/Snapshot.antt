-- ===== src/Snapshot.antt =====
-- packages/server/src/server/revocation_snapshot.py: the published population of revoked credentials
-- from which polls are answered. The database that a read sees is an argument, none when the read
-- raises; readings of `time.monotonic()` are microseconds.
mod Answers
mod Tests
use Prim.Native.Nat.{Ordering}
use Prim.Native.String.{compare}
use venya.Prelude.{
  ℕ, zero, suc, ◌+◌, ◌-◌, ◌*◌, ◌/◌, ◌≤◌, ◌<◌, min, max, String, ◌≡◌, refl, sym, ap, subst, ◌∙◌, ◌≢◌,
  ◌↔◌, ◌⊎◌, inl, inr, Bool, true, false, ◌&&◌, ◌||◌, not, Option, none, some, List, [], ◌∷◌, ◌++◌,
  map, arith, ◌==◌, eq_iff, second, ltb, leb, ◌=?◌, if◌then◌else◌, Bool-cases, Option-cases, length,
  select, length-append, length-select-le, select-append, All, replicate, length-replicate, take,
  drop, Apart, Distinct, same_bytes, same_bytes_refl, take-append, drop-append, length-take,
  take-drop, length-drop, unsnoc, All-append, All-append_parts, All-take, All-drop, if-true,
  if-false, same_bytes-eq,
}

-- The columns that the populations are read from.
pub record Executor : Type 0 where
  pub id : String
  pub revoked_at : Option ℕ

pub record CoreRelayCredential : Type 0 where
  pub serial_number : String
  pub revoked_at : Option ℕ

-- `revocations` are the serial numbers of ExecutorCertRevocation.
pub record Database : Type 0 where
  pub revocations : List String
  pub executors : List Executor
  pub relay_credentials : List CoreRelayCredential

pub record RevocationSnapshot : Type 0 where
  pub serials : List String
  pub identities : List String
  pub published_mono : ℕ
  pub relay_serials : List String

-- The variables of the module; `refusals` is the count of the series that POLL_REFUSAL_SITE labels.
pub record Plane : Type 0 where
  pub published : Option RevocationSnapshot
  pub publisher_running : Bool
  pub unarmed_warned : Bool
  pub stale_warned : Bool
  pub refusals : ℕ

-- RevocationSnapshotUnavailable, or what a failed read of the database raises.
pub data Failure : Type 0 where
  snapshot_unavailable read_failed : Failure

pub data Result (A : Type 0) : Type 0 where
  ok : A → Result A
  err : Failure → Result A

unfoldable pub max_age_seconds : ℕ
max_age_seconds = 45

abbrev pub loaded : Plane
loaded = record {
  published = none;
  publisher_running = false;
  unarmed_warned = false;
  stale_warned = false;
  refusals = 0;
}

-- sorted, of texts
unfoldable pub insert_sorted : String → List String → List String
insert_sorted x [] = x ∷ []
insert_sorted x (y ∷ ys) =
    let rest = insert_sorted x ys in elim (compare x y) [ Ordering.gt ↦ y ∷ rest | o ↦ x ∷ y ∷ ys ]

unfoldable pub sorted : List String → List String
unfolding insert_sorted
sorted [] = []
sorted (x ∷ xs) = insert_sorted x (sorted xs)

abbrev pub is_set : Option ℕ → Bool
is_set none = false
is_set (some t) = true

unfoldable pub revocation_populations : Database → List String × List String
unfolding sorted
revocation_populations db = (
  sorted db.revocations,
  sorted (map (λ e. e.id) (select (λ e. is_set e.revoked_at) db.executors)),
)

unfoldable pub relay_revocation_populations : Database → List String
unfolding sorted
relay_revocation_populations db =
    sorted (map (λ r. r.serial_number) (select (λ r. is_set r.revoked_at) db.relay_credentials))

unfoldable pub note_stale_refusal : Plane → Plane
note_stale_refusal p = record p { refusals = p.refusals + 1; stale_warned = true }

unfoldable pub snapshot_is_stale : Option RevocationSnapshot → (now_mono : ℕ) → Bool
unfolding max_age_seconds
snapshot_is_stale none now_mono = true
snapshot_is_stale (some s) now_mono = leb (max_age_seconds * second) (now_mono - s.published_mono)

unfoldable pub arm_publisher : Plane → Plane
arm_publisher p = record p { publisher_running = true }

unfoldable pub disarm_publisher : Plane → Plane
disarm_publisher p = record p { publisher_running = false }

-- A publisher that does not know of the relays keeps those of the snapshot before.
unfoldable pub relays_of : Option RevocationSnapshot → Option (List String) → List String
relays_of published (some serials) = serials
relays_of none none = []
relays_of (some s) none = s.relay_serials

unfoldable pub publish_populations :
    Plane
    → (serials identities : List String) → (relay_serials : Option (List String))
    → (published_mono : ℕ) → Plane × RevocationSnapshot
unfolding relays_of
publish_populations p serials identities relay_serials published_mono =
    let snapshot : RevocationSnapshot = record {
      serials = serials;
      identities = identities;
      published_mono = published_mono;
      relay_serials = relays_of p.published relay_serials;
    } in
    (record p { published = some snapshot }, snapshot)

unfoldable pub publish_snapshot : Plane → Database → (now : ℕ) → Plane × RevocationSnapshot
unfolding publish_populations revocation_populations relay_revocation_populations
publish_snapshot p db now =
    let populations = revocation_populations db in
    publish_populations p populations.0 populations.1 (some (relay_revocation_populations db)) now

unfoldable pub publish_once :
    Plane → Option Database → (now : ℕ) → Plane × Option RevocationSnapshot
unfolding publish_snapshot
publish_once p none now = (p, none)
publish_once p (some db) now = let o = publish_snapshot p db now in (o.0, some o.1)

-- The read while no publisher runs.
abbrev pub fallback_read : {A : Type 0} → (Database → A) → Option Database → Result A
fallback_read read none = err read_failed
fallback_read read (some db) = ok (read db)

-- The answer from the snapshot, or the refusal, which is counted.
unfoldable pub from_snapshot :
    {A : Type 0} → (RevocationSnapshot → A) → Plane → (now : ℕ) → Plane × Result A
unfolding note_stale_refusal snapshot_is_stale
from_snapshot read p now = elim p.published [
  | none ↦ (note_stale_refusal p, err snapshot_unavailable)
  | some s ↦
      (if snapshot_is_stale (some s) now
        then (note_stale_refusal p, err snapshot_unavailable)
        else (p, ok (read s)))
]

unfoldable pub read_relay_populations :
    Plane → Option Database → (now : ℕ) → Plane × Result (List String)
unfolding from_snapshot relay_revocation_populations
read_relay_populations p db now =
    if p.publisher_running
    then from_snapshot (λ s. s.relay_serials) p now
    else (p, fallback_read relay_revocation_populations db)

unfoldable pub read_populations :
    Plane → Option Database → (now : ℕ) → Plane × Result (List String × List String)
unfolding from_snapshot revocation_populations
read_populations p db now =
    if p.publisher_running
    then from_snapshot (λ s. (s.serials, s.identities)) p now
    else (record p { unarmed_warned = true }, fallback_read revocation_populations db)

-- The counter outlives the reset.
unfoldable pub reset_snapshot_state : Plane → Plane
reset_snapshot_state p = record loaded { refusals = p.refusals }
