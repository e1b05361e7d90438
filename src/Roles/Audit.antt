-- ===== src/Roles/Audit.antt =====
-- What the permissions of packages/core/src/core/iam/role_manager.py grant to an auditor.
use venya.Prelude.{
  ℕ, ◌<◌, String, ◌≡◌, sym, ap, subst, ◌∙◌, ◌≢◌, inl, inr, true, false, ◌&&◌, none, some, List, [],
  ◌∷◌, arith, ◌==◌, eq_iff, ltb, Bool-cases, Option-cases, length, select,
}
use venya.Roles.{
  Role, RoleMember, Database, elem, mixed_auditor_tiers, get_role, is_of_user, tiers,
  get_user_roles,
}
use venya.Roles.Members.{is_membership, has_permission, grants}
use venya.Roles.Tiers.{has_other, mixed_exact}
use venya.Roles.Separation.{tier_set}

member_tier :
    (rs : List Role) (r : Role) (user : String) (i : ℕ) (ms : List RoleMember)
    → get_role rs i ≡ some r
    → 0 < length (select (is_membership user i) ms)
    → elem r.permissions (tiers rs (select (is_of_user user) ms)) ≡ true
unfolding tiers
member_tier rs r user i [] e h = absurd (omega (arith, h))
member_tier rs r user i (m ∷ ms) e h = elim (Bool-cases (is_membership user i m)) [
  | inl q ↦
      let same : m.role_id ≡ i = ground (arith, q) in
      let there : get_role rs m.role_id ≡ some r = ap (λ j. get_role rs j) same ∙ e in
      ground (arith, q, there, eq_iff r.permissions r.permissions)
  | inr q ↦ ground (arith, q, member_tier rs r user i ms e)
]

other_tier :
    (p : String) (ts : List String)
    → elem p ts ≡ true
    → (p == "auditor") ≡ false
    → has_other ts ≡ true
other_tier p [] h g = absurd (cc h)
other_tier p (t ∷ ts) h g = ground (arith, other_tier p ts, eq_iff t p)

module _ (db : Database) (user : String) (i : ℕ) (required : String) where
  permission-unknown : get_role db.roles i ≡ none → has_permission db user i required ≡ false
  unfolding has_permission
  permission-unknown e = rw (e, has_permission) (ground arith)

  permission-known :
      (r : Role)
      → get_role db.roles i ≡ some r
      → has_permission db user i required ≡ (
          ltb 0 (length (select (is_membership user i) db.members))
          && grants required r.permissions)
  unfolding has_permission
  permission-known r e = rw (e, has_permission) (ground arith)

  -- A permission comes from a membership in a role that has it.
  held :
      has_permission db user i required ≡ true
      → (r : Role) × (get_role db.roles i ≡ some r)
        × (0 < length (select (is_membership user i) db.members))
        × (grants required r.permissions ≡ true)
  held h = elim (Option-cases (get_role db.roles i)) [
    | inl e ↦ absurd (cc (h, permission-unknown e))
    | inr (r, e) ↦
        (r, e, ground (arith, h, permission-known r e), ground (arith, h, permission-known r e))
  ]

different_tiers : ◌≢◌ {A = String} "read-write" "auditor"
different_tiers = ground (arith, eq_iff "read-write" "auditor")

writes : (p : String) → grants "read-write" p ≡ true → (p == "auditor") ≡ false
unfolding grants
writes p h = elim (Bool-cases (p == "auditor")) [
  | inr e ↦ e
  | inl e ↦
      let is_auditor : p ≡ "auditor" = ground (arith, e, eq_iff p "auditor") in
      let is_writer : p ≡ "read-write" = ground (arith, h, eq_iff p "read-write") in
      absurd (different_tiers (sym is_writer ∙ is_auditor))
]

-- A user without mixed tiers who is a member of a role of the auditor tier may write through no role.
pub auditors_only_read :
    (db : Database) (user : String) (i j : ℕ) (r : Role)
    → mixed_auditor_tiers (tier_set db user) ≡ false
    → get_role db.roles i ≡ some r
    → r.permissions ≡ "auditor"
    → has_permission db user i "read" ≡ true
    → has_permission db user j "read-write" ≡ false
auditors_only_read db user i j r apart found auditor member =
    elim (Bool-cases (has_permission db user j "read-write")) [
      | inr e ↦ e
      | inl e ↦
          let (r', found', there', write) = held db user j "read-write" e in
          let (q, same, there, any) = held db user i "read" member in
          let audits : elem "auditor" (tiers db.roles (get_user_roles db user)) ≡ true =
            subst (λ p. elem p (tiers db.roles (get_user_roles db user)) ≡ true) auditor
              (member_tier db.roles r user i db.members found there) in
          let mixes : has_other (tiers db.roles (get_user_roles db user)) ≡ true =
            other_tier r'.permissions _ (member_tier db.roles r' user j db.members found' there')
              (writes r'.permissions write) in
          let ts = tiers db.roles (get_user_roles db user) in
          ground (arith, apart, mixed_exact ts, audits, mixes)
    ]
