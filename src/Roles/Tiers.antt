-- ===== src/Roles/Tiers.antt =====
-- The tiers of a user in packages/core/src/core/iam/role_manager.py: what a mixed set of them is, and how they
-- follow the tables.
use venya.Prelude.{
  ℕ, ◌≤◌, ◌<◌, String, ◌≡◌, refl, ◌∙◌, ◌≢◌, ◌⊎◌, inl, inr, Bool, true, false, ◌&&◌, ◌||◌, not, some,
  List, [], ◌∷◌, arith, ◌==◌, eq_iff, ◌=?◌, if◌then◌else◌, Bool-cases, Option-cases, length, All,
}
use mathlib.Core.Option
use venya.Roles.Members.{any_of_role}
use venya.Roles.{
  Role, RoleMember, elem, distinct, mixed_auditor_tiers, get_role, tiers, tiers_with, write,
}

-- One of the tiers is not the auditor's.
abbrev pub has_other : List String → Bool
has_other [] = false
has_other (t ∷ ts) = not (t == "auditor") || has_other ts

elem-distinct : (x : String) (ts : List String) → elem x (distinct ts) ≡ elem x ts
unfolding distinct
elem-distinct x [] = refl
elem-distinct x (t ∷ ts) = ground (arith, elem-distinct x ts, eq_iff t x)

two_elements :
    (x y : String) (ts : List String) → x ≢ y → elem x ts ≡ true → elem y ts ≡ true → 2 ≤ length ts
two_elements x y [] n h g = absurd (cc h)
two_elements x y (t ∷ []) n h g = absurd (n (ground (arith, eq_iff t x, eq_iff t y)))
two_elements x y (t ∷ u ∷ ts) n h g = omega arith

other_element :
    (ts : List String)
    → has_other ts ≡ true
    → (y : String) × ((y == "auditor") ≡ false) × (elem y ts ≡ true)
other_element [] h = absurd (cc h)
other_element (t ∷ ts) h = elim (Bool-cases (t == "auditor")) [
  | inl e ↦ let (y, n, g) = other_element ts (ground (arith, e)) in (y, n, ground (arith, g))
  | inr e ↦ (t, e, ground (arith, eq_iff t t))
]

only_auditor :
    (ts : List String) → has_other ts ≡ false → (distinct ts ≡ []) ⊎ (distinct ts ≡ "auditor" ∷ [])
unfolding distinct
only_auditor [] h = inl refl
only_auditor (t ∷ ts) h = ground (arith, only_auditor ts, eq_iff t "auditor")

same_elements : (ts : List String) → has_other ts ≡ false → length (distinct ts) ≤ 1
same_elements ts h = ground (arith, only_auditor ts h)

-- A set of tiers is mixed exactly when the auditor tier and another one are in it.
pub mixed_exact :
    (ts : List String) → mixed_auditor_tiers (distinct ts) ≡ (elem "auditor" ts && has_other ts)
unfolding mixed_auditor_tiers
mixed_exact ts = elim (Bool-cases (elem "auditor" ts)) [
  | inr e ↦ rw (elem-distinct, e) refl
  | inl e ↦ elim (Bool-cases (has_other ts)) [
    | inr h ↦ ground (arith, elem-distinct "auditor" ts, same_elements ts h)
    | inl h ↦
        let (y, n, g) = other_element ts h in
        let two : 2 ≤ length (distinct ts) =
          two_elements y "auditor" (distinct ts) (ground (arith, eq_iff y "auditor"))
            (elem-distinct y ts ∙ g) (elem-distinct "auditor" ts ∙ e) in
        ground (arith, elem-distinct "auditor" ts, two)
  ]
]

pub get_role-write :
    (i j : ℕ) (f : Role → Role) (rs : List Role)
    → ((r : Role) → (f r).id ≡ r.id)
    → get_role (write i f rs) j ≡ (if i =? j then Option.map f (get_role rs j) else get_role rs j)
unfolding get_role write
get_role-write i j f [] e = ground arith
get_role-write i j f (r ∷ rs) e = ground (arith, get_role-write i j f rs e, e r)

pub get_role-id : (rs : List Role) (i : ℕ) (r : Role) → get_role rs i ≡ some r → r.id ≡ i
unfolding get_role
get_role-id [] i r e = absurd (cc e)
get_role-id (q ∷ rs) i r e = ground (arith, get_role-id rs i r)

-- A new role is not the role of a membership.
pub tiers-create :
    (r : Role) (rs : List Role) (ms : List RoleMember)
    → All (λ m. m.role_id < r.id) ms
    → tiers (r ∷ rs) ms ≡ tiers rs ms
unfolding tiers get_role
tiers-create r rs [] h = refl
tiers-create r rs (m ∷ ms) h = ground (arith, tiers-create r rs ms h.1, h.0)

-- An update that keeps the permissions keeps the tiers.
pub tiers-same :
    (i : ℕ) (f : Role → Role) (rs : List Role) (ms : List RoleMember)
    → ((r : Role) → (f r).id ≡ r.id)
    → ((r : Role) → (f r).permissions ≡ r.permissions)
    → tiers (write i f rs) ms ≡ tiers rs ms
unfolding tiers
tiers-same i f rs [] e g = refl
tiers-same i f rs (m ∷ ms) e g = elim (Option-cases (get_role rs m.role_id)) [
  | inl n ↦ ground (arith, get_role-write i m.role_id f rs e, tiers-same i f rs ms e g, n)
  | inr (r, n) ↦ ground (arith, get_role-write i m.role_id f rs e, tiers-same i f rs ms e g, n, g r)
]

pub tiers-write :
    (i : ℕ) (p : String) (f : Role → Role) (rs : List Role) (r : Role) (ms : List RoleMember)
    → ((r : Role) → (f r).id ≡ r.id)
    → ((r : Role) → (f r).permissions ≡ p)
    → get_role rs i ≡ some r
    → tiers (write i f rs) ms ≡ tiers_with rs i p ms
unfolding tiers tiers_with
tiers-write i p f rs r [] e g found = refl
tiers-write i p f rs r (m ∷ ms) e g found = elim (Bool-cases (i =? m.role_id)) [
  | inl q ↦
      let same : m.role_id ≡ i = ground (arith, q) in
      let there : get_role (write i f rs) m.role_id ≡ some (f r) =
        get_role-write i m.role_id f rs e ∙ ground (arith, q, same, found) in
      ground (arith, there, tiers-write i p f rs r ms e g found, g r, q)
  | inr q ↦
      let there : get_role (write i f rs) m.role_id ≡ get_role rs m.role_id =
        get_role-write i m.role_id f rs e ∙ ground (arith, q) in
      ground (arith, there, tiers-write i p f rs r ms e g found, q)
]

pub tiers_with-other :
    (rs : List Role) (i : ℕ) (p : String) (ms : List RoleMember)
    → any_of_role i ms ≡ false
    → tiers_with rs i p ms ≡ tiers rs ms
unfolding tiers tiers_with
tiers_with-other rs i p [] h = refl
tiers_with-other rs i p (m ∷ ms) h = ground (arith, tiers_with-other rs i p ms)
