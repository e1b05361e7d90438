-- ===== src/Roles/Names.antt =====
-- The names of the roles of packages/core/src/core/iam/role_manager.py.
use venya.Prelude.{
  ℕ, String, ◌≡◌, refl, sym, ap, ◌∙◌, ◌≢◌, ◌⊎◌, inl, inr, false, not, none, some, List, [], ◌∷◌,
  arith, ◌==◌, eq_iff, ◌=?◌, Bool-cases, Option-cases, select,
}
use venya.Roles.{Role, get_role, get_role_by_name, name_taken, write}
use venya.Roles.Tiers.{get_role-write}

module _ (lower : String → String) where
  -- Two roles whose names are the same but for case are one.
  pub record Named (rs : List Role) : Type 0 where
    pub apart :
        (i j : ℕ) (q r : Role)
        → get_role rs i ≡ some q
        → get_role rs j ≡ some r
        → lower q.name ≡ lower r.name
        → i ≡ j

  free_name :
      (name : String) (rs : List Role) (i : ℕ) (q : Role)
      → get_role_by_name lower rs name ≡ none
      → get_role rs i ≡ some q
      → lower q.name ≢ lower name
  unfolding get_role_by_name get_role
  free_name name [] i q e g h = absurd (cc g)
  free_name name (r ∷ rs) i q e g h = elim (Bool-cases (lower r.name == lower name)) [
    | inl p ↦ ground (arith, e, p)
    | inr p ↦ elim (Bool-cases (r.id =? i)) [
      | inl own ↦
          let same : r ≡ q = ground (arith, g, own) in
          ground (arith, p, same, h, eq_iff (lower r.name) (lower name))
      | inr other ↦ free_name name rs i q (ground (arith, e, p)) (ground (arith, g, other)) h
    ]
  ]

  free_beside :
      (name : String) (rs : List Role) (i j : ℕ) (q : Role)
      → name_taken lower rs i name ≡ false
      → get_role rs j ≡ some q
      → lower q.name ≡ lower name
      → i ≡ j
  unfolding name_taken get_role
  free_beside name [] i j q e g h = absurd (cc g)
  free_beside name (r ∷ rs) i j q e g h = elim (Bool-cases (r.id =? j)) [
    | inl own ↦
        let same : r ≡ q = ground (arith, g, own) in
        ground (arith, own, same, h, e, eq_iff (lower r.name) (lower name))
    | inr other ↦ free_beside name rs i j q (ground (arith, e)) (ground (arith, g, other)) h
  ]

  module _ (idempotent : (s : String) → lower (lower s) ≡ lower s) where
    new_name-clash :
        (r : Role) (name : String) (rs : List Role) (j : ℕ) (q : Role)
        → r.name ≡ lower name
        → get_role_by_name lower rs name ≡ none
        → get_role rs j ≡ some q
        → lower q.name ≡ lower r.name
        → ⊥
    new_name-clash r name rs j q e free at same =
        free_name name rs j q free at (same ∙ ap lower e ∙ idempotent name)

    pub create-Named :
        (r : Role) (name : String) (rs : List Role)
        → r.name ≡ lower name
        → get_role_by_name lower rs name ≡ none
        → Named rs
        → Named (r ∷ rs)
    unfolding get_role
    create-Named r name rs e free n = record {
      apart = λ i j p q at_i at_j same. elim (Bool-cases (r.id =? i)) [
        | inl a ↦ elim (Bool-cases (r.id =? j)) [
          | inl b ↦ ground (arith, a, b)
          | inr b ↦
              let first : r ≡ p = ground (arith, at_i, a) in
              absurd (
                new_name-clash r name rs j q e free (ground (arith, at_j, b))
                  (sym same ∙ ap (λ (u : Role). lower u.name) (sym first)))
        ]
        | inr a ↦ elim (Bool-cases (r.id =? j)) [
          | inl b ↦
              let second : r ≡ q = ground (arith, at_j, b) in
              absurd (
                new_name-clash r name rs i p e free (ground (arith, at_i, a))
                  (same ∙ ap (λ (u : Role). lower u.name) (sym second)))
          | inr b ↦ n.apart i j p q (ground (arith, at_i, a)) (ground (arith, at_j, b)) same
        ]
      ];
    }

    written_row :
        (rs : List Role) (i k : ℕ) (f : Role → Role) (name : String) (p : Role)
        → ((r : Role) → (f r).id ≡ r.id)
        → ((r : Role) → (f r).name ≡ lower name)
        → get_role (write i f rs) k ≡ some p
        → ((i ≡ k) × (lower p.name ≡ lower name)) ⊎ (get_role rs k ≡ some p)
    written_row rs i k f name p keeps names at = elim (Bool-cases (i =? k)) [
      | inr other ↦ inr (sym (get_role-write i k f rs keeps ∙ ground (arith, other)) ∙ at)
      | inl own ↦ elim (Option-cases (get_role rs k)) [
        | inl gone ↦ absurd (ground (arith, get_role-write i k f rs keeps, own, gone, at))
        | inr (r, there) ↦
            let same : f r ≡ p = ground (arith, get_role-write i k f rs keeps, own, there, at) in
            inl (
              ground (arith, own),
              ap (λ (u : Role). lower u.name) (sym same) ∙ ap lower (names r) ∙ idempotent name,
            )
      ]
    ]

    pub write-Named :
        (rs : List Role) (i : ℕ) (f : Role → Role) (name : String)
        → ((r : Role) → (f r).id ≡ r.id)
        → ((r : Role) → (f r).name ≡ lower name)
        → name_taken lower rs i name ≡ false
        → Named rs
        → Named (write i f rs)
    write-Named rs i f name keeps names free n = record {
      apart = λ k l p q at_k at_l same. elim (written_row rs i k f name p keeps names at_k) [
        | inl (own, named) ↦ elim (written_row rs i l f name q keeps names at_l) [
          | inl (own', named') ↦ sym own ∙ own'
          | inr there ↦ sym own ∙ free_beside name rs i l q free there (sym same ∙ named)
        ]
        | inr here ↦ elim (written_row rs i l f name q keeps names at_l) [
          | inl (own', named') ↦ sym (free_beside name rs i k p free here (same ∙ named')) ∙ own'
          | inr there ↦ n.apart k l p q here there same
        ]
      ];
    }

  -- A write that keeps every name.
  kept_row :
      (rs : List Role) (i k : ℕ) (f : Role → Role) (p : Role)
      → ((r : Role) → (f r).id ≡ r.id)
      → ((r : Role) → (f r).name ≡ r.name)
      → get_role (write i f rs) k ≡ some p
      → (r : Role) × (get_role rs k ≡ some r) × (lower r.name ≡ lower p.name)
  kept_row rs i k f p keeps names at = elim (Bool-cases (i =? k)) [
    | inr other ↦ (p, sym (get_role-write i k f rs keeps ∙ ground (arith, other)) ∙ at, refl)
    | inl own ↦ elim (Option-cases (get_role rs k)) [
      | inl gone ↦ absurd (ground (arith, get_role-write i k f rs keeps, own, gone, at))
      | inr (r, there) ↦
          let same : f r ≡ p = ground (arith, get_role-write i k f rs keeps, own, there, at) in
          (r, there, ap lower (sym (names r)) ∙ ap (λ (u : Role). lower u.name) same)
    ]
  ]

  pub keep-Named :
      (rs : List Role) (i : ℕ) (f : Role → Role)
      → ((r : Role) → (f r).id ≡ r.id)
      → ((r : Role) → (f r).name ≡ r.name)
      → Named rs
      → Named (write i f rs)
  keep-Named rs i f keeps names n = record {
    apart = λ k l p q at_k at_l same.
        let (p', here, e) = kept_row rs i k f p keeps names at_k in
        let (q', there, g) = kept_row rs i l f q keeps names at_l in
        n.apart k l p' q' here there (e ∙ same ∙ sym g);
  }

  deleted_gone : (i : ℕ) (rs : List Role) → get_role (select (λ r. not (r.id =? i)) rs) i ≡ none
  unfolding get_role
  deleted_gone i [] = refl
  deleted_gone i (r ∷ rs) = ground (arith, deleted_gone i rs)

  deleted_row :
      (i k : ℕ) (rs : List Role) (p : Role)
      → get_role (select (λ r. not (r.id =? i)) rs) k ≡ some p
      → get_role rs k ≡ some p
  unfolding get_role
  deleted_row i k [] p e = e
  deleted_row i k (r ∷ rs) p e = ground (arith, e, deleted_row i k rs p, deleted_gone i rs)

  pub delete-Named : (i : ℕ) (rs : List Role) → Named rs → Named (select (λ r. not (r.id =? i)) rs)
  delete-Named i rs n = record {
    apart = λ k l p q at_k at_l same.
        n.apart k l p q (deleted_row i k rs p at_k) (deleted_row i l rs q at_l) same;
  }
