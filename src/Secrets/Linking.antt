-- ===== src/Secrets/Linking.antt =====
-- packages/core/src/core/engine/core.py, Core.put: what the links that it writes do to visibility.
use venya.Prelude.{
  ℕ, String, ◌≡◌, refl, ap, subst, ◌∙◌, ◌≢◌, inl, inr, Bool, true, false, ◌&&◌, ◌||◌, some, List,
  [], ◌∷◌, arith, ◌==◌, eq_iff, ◌=?◌, if◌then◌else◌, Bool-cases, Option-cases,
}
use venya.Roles.{Role, SecretRole, elem}
use venya.Secrets.{
  Failure, Result, ok, err, role_named, scoped, role_not_found, integrity_error, roles_not_held,
}
use venya.Secrets.Writing.{role_by_name, linked, link_roles, unlinked, offending, authorized}

scoped-cons :
    (roles : List Role) (l : SecretRole) (scopes : List SecretRole) (names : List String) (i : ℕ)
    → scoped roles (l ∷ scopes) names i
      ≡ ((l.secret_id =? i && role_named roles names l.scope) || scoped roles scopes names i)
unfolding scoped
scoped-cons roles l scopes names i = refl

-- The links of one secret do not matter to another.
pub scoped-unlinked :
    (roles : List Role) (scopes : List SecretRole) (names : List String) (i j : ℕ)
    → i ≢ j
    → scoped roles (unlinked i scopes) names j ≡ scoped roles scopes names j
unfolding scoped unlinked
scoped-unlinked roles [] names i j ne = refl
scoped-unlinked roles (l ∷ scopes) names i j ne =
    ground (arith, scoped-unlinked roles scopes names i j ne)

step : ℕ → Role → List SecretRole → List SecretRole
step i r scopes = record { secret_id = i; scope = r.id } ∷ scopes

scoped-step :
    (roles : List Role) (i : ℕ) (r : Role) (scopes : List SecretRole) (names : List String) (j : ℕ)
    → i ≢ j
    → scoped roles (step i r scopes) names j ≡ scoped roles scopes names j
unfolding scoped step
scoped-step roles i r scopes names j ne = ground arith

-- What is in scope stays so.
scoped_kept :
    (roles : List Role) (i : ℕ) (r : Role) (scopes : List SecretRole) (names : List String) (j : ℕ)
    → scoped roles scopes names j ≡ true
    → scoped roles (step i r scopes) names j ≡ true
unfolding scoped step
scoped_kept roles i r scopes names j h = ground (arith, h)

-- A role with a wanted name brings the secret into scope.
scoped_linked :
    (roles : List Role) (i : ℕ) (r : Role) (scopes : List SecretRole) (names : List String)
    → role_named roles names r.id ≡ true
    → scoped roles (step i r scopes) names i ≡ true
unfolding scoped step
scoped_linked roles i r scopes names h = ground (arith, h)

some_eq : {A : Type 0} (a b : A) → some a ≡ some b → a ≡ b
some_eq a b e = cc

role_first :
    (q : Role) (roles : List Role) (name : String) (names : List String) (r : Role)
    → q ≡ r
    → q.name ≡ name
    → elem name names ≡ true
    → role_named (q ∷ roles) names r.id ≡ true
unfolding role_named
role_first q roles name names r e e' h =
    subst (λ (t : Role). role_named (q ∷ roles) names t.id ≡ true) e
      (let held : elem q.name names ≡ true = ap (λ t. elem t names) e' ∙ h in ground (arith, held))

role_named-by_name :
    (roles : List Role) (name : String) (names : List String) (r : Role)
    → role_by_name roles name ≡ some r
    → elem name names ≡ true
    → role_named roles names r.id ≡ true
unfolding role_by_name role_named
role_named-by_name [] name names r e h = cc
role_named-by_name (q ∷ roles) name names r e h = elim (Bool-cases (q.name == name)) [
  | inl same ↦
      role_first q roles name names r (some_eq q r (rw same at e)) ((eq_iff q.name name).0 same) h
  | inr other ↦
      (let rest = role_named-by_name roles name names r (rw other at e) h in ground (arith, rest))
]

not_refused :
    {A : Type 0} (b : Bool) (f : Failure) (m : Result A) (a : A)
    → (if b then err f else m) ≡ ok a
    → m ≡ ok a
not_refused true f m a h = cc
not_refused false f m a h = h

err-ok : {A : Type 0} (f : Failure) (a : A) (m : Result A) → m ≡ err f → m ≡ ok a → ⊥
err-ok f a m e h = cc

-- One name of the loop: the role is there, and the loop goes on with its link.
link-cons :
    (roles : List Role) (i : ℕ) (name : String) (names : List String)
    (scopes result : List SecretRole)
    → link_roles roles i (name ∷ names) scopes ≡ ok result
    → (r : Role) × (role_by_name roles name ≡ some r)
      × (link_roles roles i names (step i r scopes) ≡ ok result)
unfolding link_roles step
link-cons roles i name names scopes result h = elim (Option-cases (role_by_name roles name)) [
  | inl e ↦ absurd (
      err-ok (role_not_found name) result (link_roles roles i (name ∷ names) scopes)
        (rw (e, link_roles) refl) h)
  | inr (r, e) ↦ (
    r,
    e,
    not_refused (linked scopes i r.id) integrity_error (link_roles roles i names (step i r scopes))
        result (rw (e, link_roles) at h),
  )
]

pub scoped-link_roles :
    (roles : List Role) (i : ℕ) (names : List String) (scopes result : List SecretRole)
    → link_roles roles i names scopes ≡ ok result
    → (wanted : List String) (j : ℕ) → i ≢ j
    → scoped roles result wanted j ≡ scoped roles scopes wanted j
unfolding link_roles
scoped-link_roles roles i [] scopes result h wanted j ne =
    let same : result ≡ scopes = cc in ap (λ t. scoped roles t wanted j) same
scoped-link_roles roles i (name ∷ names) scopes result h wanted j ne =
    let w = link-cons roles i name names scopes result h in
    scoped-link_roles roles i names (step i w.0 scopes) result w.2 wanted j ne
    ∙ scoped-step roles i w.0 scopes wanted j ne

kept-link_roles :
    (roles : List Role) (i : ℕ) (names : List String) (scopes result : List SecretRole)
    → link_roles roles i names scopes ≡ ok result
    → (wanted : List String) → scoped roles scopes wanted i ≡ true
    → scoped roles result wanted i ≡ true
unfolding link_roles
kept-link_roles roles i [] scopes result h wanted k =
    let same : scopes ≡ result = cc in subst (λ t. scoped roles t wanted i ≡ true) same k
kept-link_roles roles i (name ∷ names) scopes result h wanted k =
    let w = link-cons roles i name names scopes result h in
    kept-link_roles roles i names (step i w.0 scopes) result w.2 wanted
      (scoped_kept roles i w.0 scopes wanted i k)

-- A secret that was linked to a role that the reader holds is in scope.
pub scoped-first :
    (roles : List Role) (i : ℕ) (name : String) (names : List String)
    (scopes result : List SecretRole)
    → link_roles roles i (name ∷ names) scopes ≡ ok result
    → (wanted : List String) → elem name wanted ≡ true
    → scoped roles result wanted i ≡ true
scoped-first roles i name names scopes result h wanted held =
    let w = link-cons roles i name names scopes result h in
    kept-link_roles roles i names (step i w.0 scopes) result w.2 wanted
      (scoped_linked roles i w.0 scopes wanted (role_named-by_name roles name wanted w.0 w.1 held))

-- The caller holds the first name of an authorized scope.
pub first_held :
    (held : List String) (name : String) (names : List String) (b : Bool)
    → authorized (some held) (name ∷ names) ≡ ok b
    → elem name held ≡ true
unfolding authorized offending
first_held held name names b h = elim (Bool-cases (elem name held)) [
  | inl e ↦ e
  | inr e ↦ absurd (
      err-ok (roles_not_held (name ∷ offending held (name ∷ []) names)) b
        (authorized (some held) (name ∷ names)) (rw (e, authorized, offending) refl) h)
]
