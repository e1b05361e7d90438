-- ===== src/Roles/Removals.antt =====
-- The removals of packages/core/src/core/iam/role_manager.py keep an administrator.
use venya.Prelude.{
  ℕ, ◌+◌, ◌≤◌, String, ◌≡◌, refl, sym, subst, ◌∙◌, inl, inr, Bool, false, not, Option, none, some,
  List, [], ◌∷◌, arith, eq_iff, ltb, ◌=?◌, Bool-cases, Option-cases, length, select,
}
use venya.Prelude.Dict.{Dict}
use venya.Roles.{get_role_by_name, Role, RoleMember, Database, is_of_role, get_role_members}
use venya.Roles.Members.{
  usable_admin_ids, user_ids, signs_in, any_of_user, is_membership, admin_role_and_members,
  assert_removal_keeps_admin, removal_refusal, delete_membership, remove_member,
}

-- No two rows of the membership table are for the same user and role: its primary key.
abbrev pub Keyed : List RoleMember → Type 0
Keyed [] = Unit {0}
Keyed (m ∷ ms) = (length (select (is_membership m.user_id m.role_id) ms) ≡ 0) × Keyed ms

nothing_removed :
    (user : String) (i j : ℕ) (ms : List RoleMember)
    → (i =? j) ≡ false
    → select (is_of_role j) (select (λ m. not (is_membership user i m)) ms)
      ≡ select (is_of_role j) ms
nothing_removed user i j [] e = refl
nothing_removed user i j (m ∷ ms) e = ground (arith, nothing_removed user i j ms)

absent_kept :
    (user : String) (i : ℕ) (ms : List RoleMember)
    → length (select (is_membership user i) ms) ≡ 0
    → select (λ m. not (is_membership user i m)) ms ≡ ms
absent_kept user i [] e = refl
absent_kept user i (m ∷ ms) e = ground (arith, absent_kept user i ms)

one_removed :
    (user : String) (i : ℕ) (ms : List RoleMember)
    → Keyed ms
    → length (select (is_of_role i) ms)
      ≤ 1 + length (select (is_of_role i) (select (λ m. not (is_membership user i m)) ms))
one_removed user i [] k = omega arith
one_removed user i (m ∷ ms) k = elim (Bool-cases (is_membership user i m)) [
  | inr e ↦ ground (arith, e, one_removed user i ms k.1)
  | inl e ↦
      let same_user : m.user_id ≡ user = ground (arith, e, eq_iff m.user_id user) in
      let same_role : m.role_id ≡ i = ground (arith, e) in
      let gone : length (select (is_membership user i) ms) ≡ 0 =
        subst (λ u. length (select (is_membership u i) ms) ≡ 0) same_user
          (subst (λ j. length (select (is_membership m.user_id j) ms) ≡ 0) same_role k.0) in
      ground (arith, e, absent_kept user i ms gone)
]

not_held :
    (user : String) (i : ℕ) (ms : List RoleMember)
    → any_of_user user (select (is_of_role i) ms) ≡ false
    → length (select (is_membership user i) ms) ≡ 0
not_held user i [] e = refl
not_held user i (m ∷ ms) e = ground (arith, not_held user i ms)

-- A selection of the rows has no more members of the role that do not sign in.
locked_kept :
    (statuses : Dict String) (i : ℕ) (q : RoleMember → Bool) (ms : List RoleMember)
    → length (select (is_of_role i) (select q ms))
        + length (user_ids (select (signs_in statuses) (select (is_of_role i) ms)))
      ≤ length (user_ids (select (signs_in statuses) (select (is_of_role i) (select q ms))))
        + length (select (is_of_role i) ms)
locked_kept statuses i q [] = omega arith
locked_kept statuses i q (m ∷ ms) = ground (arith, locked_kept statuses i q ms)

-- How many members the admin role has, disabled ones included.
abbrev pub admin_count : (String → String) → Database → ℕ
admin_count lower db = elim (admin_role_and_members lower db) [
  | none ↦ 0
  | some (r, roster) ↦ length roster
]

module _ (lower : String → String) (db : Database) where
  count_unknown : get_role_by_name lower db.roles "admin" ≡ none → admin_count lower db ≡ 0
  unfolding admin_role_and_members
  count_unknown e = rw (e, admin_count) refl

  count_known :
      (r : Role) (ms : List RoleMember)
      → get_role_by_name lower db.roles "admin" ≡ some r
      → admin_count lower (record db { members = ms }) ≡ length (select (is_of_role r.id) ms)
  unfolding admin_role_and_members
  count_known r ms e = rw (e, admin_count) refl

  removal_known :
      (r : Role) (target : String) (role_id : Option ℕ) (caller : Option String)
      → get_role_by_name lower db.roles "admin" ≡ some r
      → assert_removal_keeps_admin lower db target role_id caller
        ≡ removal_refusal r.id (get_role_members db r.id) target role_id caller
  unfolding assert_removal_keeps_admin admin_role_and_members
  removal_known r target role_id caller e = rw (e, assert_removal_keeps_admin) refl

  delete_membership_keeps :
      (r : Role) (user : String) (i : ℕ) (caller : Option String)
      → Keyed db.members
      → removal_refusal r.id (get_role_members db r.id) user (some i) caller ≡ none
      → 1 ≤ length (get_role_members db r.id)
      → 1 ≤ length (get_role_members (delete_membership db user i).0 r.id)
  unfolding delete_membership removal_refusal
  delete_membership_keeps r user i caller k passed some_admin =
      elim (Bool-cases (ltb 0 (length (select (is_membership user i) db.members)))) [
        | inr e ↦ rw e some_admin
        | inl e ↦ rw e (elim (Bool-cases (i =? r.id)) [
          | inr other ↦ rw (nothing_removed user i r.id db.members other) some_admin
          | inl admin ↦
              let same : i ≡ r.id = ground (arith, admin) in
              ground (
                arith,
                e,
                admin,
                same,
                passed,
                one_removed user i db.members k,
                not_held user i db.members,
              )
        ])
      ]

  delete_membership_count :
      (r : Role) (user : String) (i : ℕ)
      → get_role_by_name lower db.roles "admin" ≡ some r
      → admin_count lower (delete_membership db user i).0
        ≡ length (get_role_members (delete_membership db user i).0 r.id)
  unfolding delete_membership
  delete_membership_count r user i seeded =
      elim (Bool-cases (ltb 0 (length (select (is_membership user i) db.members)))) [
        | inr e ↦ rw e (count_known r db.members seeded)
        | inl e ↦ rw e (count_known r _ seeded)
      ]

  usable_known :
      (r : Role) (ms : List RoleMember)
      → get_role_by_name lower db.roles "admin" ≡ some r
      → length (usable_admin_ids lower (record db { members = ms }))
        ≡ length (user_ids (select (signs_in db.statuses) (select (is_of_role r.id) ms)))
  unfolding usable_admin_ids admin_role_and_members
  usable_known r ms e = rw (e, usable_admin_ids) refl

  -- Of the members of the admin role, no more are unable to sign in than before.
  abbrev NoMoreLocked : Database → Type 0
  NoMoreLocked d =
      admin_count lower d + length (usable_admin_ids lower db)
      ≤ length (usable_admin_ids lower d) + admin_count lower db

  locked-select :
      (r : Role) (q : RoleMember → Bool)
      → get_role_by_name lower db.roles "admin" ≡ some r
      → NoMoreLocked (record db { members = select q db.members })
  locked-select r q e = omega (
    arith,
    locked_kept db.statuses r.id q db.members,
    count_known r (select q db.members) e,
    usable_known r (select q db.members) e,
    count_known r db.members e,
    usable_known r db.members e,
  )

  delete_membership-locked :
      (r : Role) (user : String) (i : ℕ)
      → get_role_by_name lower db.roles "admin" ≡ some r
      → NoMoreLocked (delete_membership db user i).0
  unfolding delete_membership
  delete_membership-locked r user i e =
      elim (Bool-cases (ltb 0 (length (select (is_membership user i) db.members)))) [
        | inr f ↦ rw f (omega arith)
        | inl f ↦ rw f (locked-select r (λ m. not (is_membership user i m)) e)
      ]

  -- No removal of a membership empties the admin role, whoever asks for it, over a table of
  -- memberships with its primary key. A disabled member counts as one; of those who cannot sign in
  -- the role has no more than before, so that where all can, somebody who can stays.
  pub removal_keeps_admin :
      (user : String) (i : ℕ) (caller : Option String)
      → Keyed db.members
      → 1 ≤ admin_count lower db
      → (1 ≤ admin_count lower (remove_member lower db user i caller).0)
        × (admin_count lower (remove_member lower db user i caller).0
              + length (usable_admin_ids lower db)
            ≤ length (usable_admin_ids lower (remove_member lower db user i caller).0)
              + admin_count lower db)
  unfolding remove_member
  removal_keeps_admin user i caller k some_admin =
      elim (Option-cases (assert_removal_keeps_admin lower db user (some i) caller)) [
        | inr (refusal, e) ↦ rw (e, remove_member) (some_admin, omega arith)
        | inl e ↦
            rw (e, remove_member)
              (elim (Option-cases (get_role_by_name lower db.roles "admin")) [
                | inl none_seeded ↦ absurd (omega (arith, some_admin, count_unknown none_seeded))
                | inr (r, seeded) ↦
                    let before = count_known r db.members seeded in
                    let passed = sym (removal_known r user (some i) caller seeded) ∙ e in
                    let kept =
                      delete_membership_keeps r user i caller k passed
                        (omega (arith, some_admin, before)) in
                    (
                      omega (arith, kept, delete_membership_count r user i seeded),
                      delete_membership-locked r user i seeded,
                    )
              ])
      ]
