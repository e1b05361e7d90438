-- ===== src/Snapshot/Tests.antt =====
-- Concrete histories of packages/server/src/server/revocation_snapshot.py.
use venya.Prelude.{ℕ, ◌*◌, String, ◌≡◌, refl, none, some, List, [], ◌∷◌, second}
use venya.Snapshot.{
  Database, ok, err, snapshot_unavailable, max_age_seconds, insert_sorted, sorted,
  revocation_populations, relay_revocation_populations, note_stale_refusal, snapshot_is_stale,
  arm_publisher, publish_once, publish_snapshot, publish_populations, relays_of, from_snapshot,
  read_relay_populations, read_populations,
}
use venya.Snapshot.Answers.{
  Event, start, tick, poll, after, step, starved_polls, promised, poll_answers,
}

abbrev db_of : List String → Database
db_of serials = record {
  revocations = serials;
  executors =
      record { id = "x2"; revoked_at = some 4 }
      ∷ record { id = "x1"; revoked_at = some 9 }
      ∷ record { id = "x3"; revoked_at = none }
      ∷ [];
  relay_credentials = record { serial_number = "0a"; revoked_at = some 4 } ∷ [];
}

-- Read at 10 s; the tick at 20 s fails, and one poll at 56 s is refused.
abbrev history : List (ℕ × Event)
history =
    (56 * second, poll none)
    ∷ (20 * second, tick none)
    ∷ (10 * second, tick (some (db_of ("0f" ∷ "0b" ∷ []))))
    ∷ (9 * second, start)
    ∷ []

poll_answers_example :
    ((read_populations (after history) none (54 * second)).1
      ≡ promised revocation_populations history none (54 * second))
    × ((read_relay_populations (after history) none (54 * second)).1
        ≡ promised relay_revocation_populations history none (54 * second))
    × ((after history).refusals ≡ starved_polls history)
poll_answers_example = poll_answers history none (54 * second)

served_at_54 :
    (read_populations (after history) none (54 * second)).1
    ≡ ok ("0b" ∷ "0f" ∷ [], "x1" ∷ "x2" ∷ [])
unfolding after step read_populations from_snapshot snapshot_is_stale max_age_seconds
    note_stale_refusal arm_publisher publish_once publish_snapshot publish_populations relays_of
    revocation_populations relay_revocation_populations sorted insert_sorted
served_at_54 = refl

refused_at_55 :
    (read_relay_populations (after history) none (55 * second)).1 ≡ err snapshot_unavailable
unfolding after step read_populations read_relay_populations from_snapshot snapshot_is_stale
    max_age_seconds note_stale_refusal arm_publisher publish_once publish_snapshot
    publish_populations relays_of revocation_populations relay_revocation_populations sorted
    insert_sorted
refused_at_55 = refl

refused_once : (after history).refusals ≡ 1
unfolding after step read_populations from_snapshot snapshot_is_stale max_age_seconds
    note_stale_refusal arm_publisher publish_once publish_snapshot publish_populations relays_of
    revocation_populations relay_revocation_populations sorted insert_sorted
refused_once = refl
