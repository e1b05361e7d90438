-- ===== src/Roles/Calls.antt =====
-- Histories of calls to packages/core/src/core/iam/role_manager.py, and the ids in the tables.
use venya.Prelude.{
  ℕ, suc, ◌<◌, String, ◌≡◌, refl, sym, subst, ◌⊎◌, inl, inr, Bool, Option, some, List, [], ◌∷◌,
  arith, ◌=?◌, Bool-cases, select, All,
}
use venya.Prelude.Dict
use venya.Prelude.Dict.{Dict}
use venya.Roles.{
  Role, RoleMember, Database, Refusal, Result, ok, err, get_role, write, create_role, update_role,
}
use venya.Roles.Members.{delete_role, add_member, remove_member}
use venya.Roles.Tiers.{get_role-id}

-- The calls of the manager, and a write of a user's status by the server.
pub data Call : Type 0 where
  creates : String → String → Option String → Call
  updates : ℕ → Option String → Option String → Option String → Call
  deletes : ℕ → Call
  adds : String → ℕ → Call
  removes : String → ℕ → Option String → Call
  sets_status : String → String → Call

unfoldable pub step : (String → String) → Database → Call → Database
step lower db (creates name permissions description) =
    (create_role lower db name permissions description).0
step lower db (updates i name permissions description) =
    (update_role lower db i name permissions description).0
step lower db (deletes i) = (delete_role db i).0
step lower db (adds user i) = (add_member db user i).0
step lower db (removes user i caller) = (remove_member lower db user i caller).0
step lower db (sets_status user status) = record db { statuses = Dict.put db.statuses user status }

unfoldable pub run : (String → String) → Database → List Call → Database
unfolding step
run lower db [] = db
run lower db (k ∷ ks) = run lower (step lower db k) ks

-- Every membership is in a role that was created, and no role has an id that is yet to be handed out.
pub record IsSound (db : Database) : Type 0 where
  pub known : All (λ m. m.role_id < db.next_id) db.members
  pub fresh : All (λ r. r.id < db.next_id) db.roles

pub All-later :
    (n : ℕ) (ms : List RoleMember) → All (λ m. m.role_id < n) ms → All (λ m. m.role_id < suc n) ms
All-later n [] h = tt
All-later n (m ∷ ms) h = (omega (arith, h.0), All-later n ms h.1)

pub All-fresh : (n : ℕ) (rs : List Role) → All (λ r. r.id < n) rs → All (λ r. r.id < suc n) rs
All-fresh n [] h = tt
All-fresh n (r ∷ rs) h = (omega (arith, h.0), All-fresh n rs h.1)

pub All-kept :
    {A : Type 0} (P : A → Type 0) (p : A → Bool) (xs : List A) → All P xs → All P (select p xs)
All-kept P p [] h = tt
All-kept P p (x ∷ xs) h = elim (Bool-cases (p x)) [
  | inl e ↦ rw e (h.0, All-kept P p xs h.1)
  | inr e ↦ rw e (All-kept P p xs h.1)
]

pub All-write :
    (n i : ℕ) (f : Role → Role) (rs : List Role)
    → ((r : Role) → (f r).id ≡ r.id)
    → All (λ r. r.id < n) rs
    → All (λ r. r.id < n) (write i f rs)
unfolding write
All-write n i f [] e h = tt
All-write n i f (r ∷ rs) e h = elim (Bool-cases (r.id =? i)) [
  | inl q ↦ rw q (omega (arith, e r, h.0), All-write n i f rs e h.1)
  | inr q ↦ rw q (h.0, All-write n i f rs e h.1)
]

pub get_role_fresh :
    (n i : ℕ) (rs : List Role) (r : Role)
    → All (λ r. r.id < n) rs
    → get_role rs i ≡ some r
    → r.id < n
unfolding get_role
get_role_fresh n i [] r h e = absurd (cc e)
get_role_fresh n i (q ∷ rs) r h e = ground (arith, get_role_fresh n i rs r h.1, h.0)

pub Result-cases :
    {A : Type 0} (x : Result A) → ((a : A) × (x ≡ ok a)) ⊎ ((r : Refusal) × (x ≡ err r))
Result-cases (ok a) = inl (a, refl)
Result-cases (err r) = inr (r, refl)

pub own_id :
    (rs : List Role) (i : ℕ) (r : Role) → get_role rs i ≡ some r → get_role rs r.id ≡ some r
own_id rs i r e = subst (λ j. get_role rs j ≡ some r) (sym (get_role-id rs i r e)) e
