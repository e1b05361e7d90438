-- ===== src/Secrets/Storing.antt =====
-- packages/core/src/core/engine/core.py, Core.put: what it stores is what the caller resolves next.
use mathlib.Core.List.{Memᴰ}
use venya.Prelude.{
  ℕ, suc, String, ◌≡◌, refl, sym, ap, subst, ◌∙◌, ◌≢◌, ◌⊎◌, inl, inr, Bool, true, false, ◌&&◌, ◌||◌,
  Option, none, some, List, [], ◌∷◌, arith, ◌==◌, eq_iff, ◌=?◌, if◌then◌else◌, Bool-cases,
  Option-cases, select, if-true, if-false,
}
use venya.Prelude.Dict.{Dict}
use venya.Roles.{SecretRole, elem}
use venya.Encryption.{Envelope}
use venya.Secrets.{
  Secret, Core, SecretRecord, Failure, Result, ok, err, is_nil, scoped, visible, lower, lowest,
  resolve_secret_in,
}
use venya.Secrets.Writing.{
  link_roles, unlinked, rewritten, replace_row, stored_record, replace, insert, new_secret, write,
  or_none,
}
use venya.Secrets.Linking.{scoped-unlinked, scoped-link_roles, scoped-first}
use venya.Secrets.Resolving.{
  IsSound, mapped_option, lowest-map, select-map, lowest-Mem, select-Mem, select_same,
}

-- Whether the query of _resolve_secret_in keeps a row, by what it asks of the row.
abbrev verdict : (of_key : Bool) → List String → (in_scope by_user : Bool) → Bool
verdict of_key names in_scope by_user =
    of_key && (if is_nil names then by_user else in_scope || by_user)

verdict_kept :
    (k : Bool) (names : List String) (before after user : Bool)
    → verdict k names before user ≡ true
    → (is_nil names ≡ false → after ≡ true)
    → verdict k names after user ≡ true
verdict_kept false names before after user h scope = cc
verdict_kept true [] before after user h scope = h
verdict_kept true (n ∷ names) before after user h scope = rw (scope refl) refl

verdict_owned :
    (k : Bool) (names : List String) (scope user : Bool)
    → k ≡ true
    → user ≡ true
    → verdict k names scope user ≡ true
verdict_owned false names scope user h u = cc
verdict_owned true [] scope user h u = u
verdict_owned true (n ∷ names) true user h u = refl
verdict_owned true (n ∷ names) false user h u = u

abbrev resolves : Core → String → String → List String → Secret → Bool
resolves c key user names s =
    verdict (s.key == key) names (scoped c.roles c.scopes names s.id) (s.created_by == user)

resolve-resolves :
    (c : Core) (key user : String) (names : List String)
    → resolve_secret_in c key (some user) names
      ≡ lowest (select (resolves c key user names) c.secrets)
unfolding resolve_secret_in visible
resolve-resolves c key user names = refl

abbrev outcome : Core → SecretRecord → Core × Result SecretRecord
outcome d r = (d, ok r)

pub ok_eq : {A : Type 0} (a b : A) → Result.ok a ≡ Result.ok b → a ≡ b
ok_eq a b e = cc

pub err-ok : {A : Type 0} (f : Failure) (a : A) (m : Result A) → m ≡ err f → m ≡ ok a → ⊥
err-ok f a m e h = cc

pub Result-cases :
    {A : Type 0} (r : Result A) → ((a : A) × (r ≡ ok a)) ⊎ ((f : Failure) × (r ≡ err f))
Result-cases (ok a) = inl (a, refl)
Result-cases (err f) = inr (f, refl)

-- The write as far as the caller's roles reach: either they supply none, or they hold the first name.
module _ (c : Core) (sound : IsSound c) (key user name : String) (more roles : List String)
    (held : is_nil roles ≡ false → elem name roles ≡ true) where
  -- The rows of other secrets are as visible as before.
  replaced-others :
      (s : Secret) (scopes : List SecretRole)
      → link_roles c.roles s.id (name ∷ more) (unlinked s.id c.scopes) ≡ ok scopes
      → (t : Secret) → s.id ≢ t.id
      → scoped c.roles scopes roles t.id ≡ scoped c.roles c.scopes roles t.id
  replaced-others s scopes h t ne =
      scoped-link_roles c.roles s.id (name ∷ more) (unlinked s.id c.scopes) scopes h roles t.id ne
      ∙ scoped-unlinked c.roles c.scopes roles s.id t.id ne

  rewriting : Secret → Envelope → String → Option (Dict String) → Secret → Secret
  rewriting s e version meta t = if t.id =? s.id then rewritten e version meta t else t

  module _ (s : Secret) (e : Envelope) (version : String) (meta : Option (Dict String))
      (scopes : List SecretRole)
      (linked : link_roles c.roles s.id (name ∷ more) (unlinked s.id c.scopes) ≡ ok scopes)
      (found : resolve_secret_in c key (some user) roles ≡ some s) where
    after : Core
    unfolding replace_row rewritten
    after = record c {
      secrets = replace_row s.id (rewritten e version meta) c.secrets;
      scopes = scopes;
    }

    lookup : Memᴰ s c.secrets × (resolves c key user roles s ≡ true)
    lookup = select-Mem (resolves c key user roles) c.secrets s (
        lowest-Mem (select (resolves c key user roles) c.secrets) s
          (sym (resolve-resolves c key user roles) ∙ found))

    rewritten_row :
        (t : Secret)
        → t ≡ s
        → resolves after key user roles (rewritten e version meta t) ≡ resolves c key user roles t
    unfolding after rewritten
    rewritten_row t same =
        let before : resolves c key user roles t ≡ true =
          ap (resolves c key user roles) same ∙ lookup.1 in
        let scope : is_nil roles ≡ false → scoped c.roles scopes roles t.id ≡ true = λ some_roles.
          subst (λ (u : Secret). scoped c.roles scopes roles u.id ≡ true) (sym same)
            (scoped-first c.roles s.id name more (unlinked s.id c.scopes) scopes linked roles
              (held some_roles)) in
        verdict_kept (t.key == key) roles (scoped c.roles c.scopes roles t.id)
          (scoped c.roles scopes roles t.id) (t.created_by == user) before scope
        ∙ sym before

    same_row :
        (t : Secret)
        → Memᴰ t c.secrets
        → resolves after key user roles (rewriting s e version meta t) ≡ resolves c key user roles t
    unfolding rewriting after
    same_row t m = elim (Bool-cases (t.id =? s.id)) [
      | inl h ↦
          (ap (resolves after key user roles)
              (if-true (t.id =? s.id) (rewritten e version meta t) t h)
            ∙ rewritten_row t (sound.unique t s m lookup.0 (ground (arith, h))))
      | inr h ↦
          (ap (resolves after key user roles)
              (if-false (t.id =? s.id) (rewritten e version meta t) t h)
            ∙ ap (λ b. verdict (t.key == key) roles b (t.created_by == user))
                (replaced-others s scopes linked t (ground (arith, h))))
    ]

    rewriting-id : (t : Secret) → (rewriting s e version meta t).id ≡ t.id
    unfolding rewriting rewritten
    rewriting-id t = elim (Bool-cases (t.id =? s.id)) [
      | inl h ↦ ap (λ (u : Secret). u.id) (if-true (t.id =? s.id) (rewritten e version meta t) t h)
      | inr h ↦ ap (λ (u : Secret). u.id) (if-false (t.id =? s.id) (rewritten e version meta t) t h)
    ]

    -- A replaced secret resolves to the row as it was rewritten.
    resolve-replaced :
        resolve_secret_in after key (some user) roles ≡ some (rewritten e version meta s)
    unfolding after replace_row mapped_option rewriting
    resolve-replaced =
        resolve-resolves after key user roles
        ∙ ap lowest (
            select-map (rewriting s e version meta) (resolves c key user roles)
              (resolves after key user roles) c.secrets same_row)
        ∙ lowest-map (rewriting s e version meta) (select (resolves c key user roles) c.secrets)
            rewriting-id
        ∙ ap (mapped_option (rewriting s e version meta))
            (sym (resolve-resolves c key user roles) ∙ found)
        ∙ ap some (if-true (s.id =? s.id) (rewritten e version meta s) s (ground arith))

    replaced_row :
        replace c s e version meta (name ∷ more)
        ≡ (after, ok (stored_record true (name ∷ more) (rewritten e version meta s)))
    unfolding replace after
    replaced_row = rw (linked, replace) refl

  module _ (n : Secret) (scopes : List SecretRole) (fresh : n.id ≡ c.next_id) (of_key : n.key ≡ key)
      (by_user : n.created_by ≡ user)
      (linked : link_roles c.roles n.id (name ∷ more) c.scopes ≡ ok scopes)
      (missing : resolve_secret_in c key (some user) roles ≡ none) where
    inserted : Core
    inserted = record c { secrets = n ∷ c.secrets; scopes = scopes; next_id = suc c.next_id }

    old_row :
        (t : Secret)
        → Memᴰ t c.secrets
        → resolves inserted key user roles t ≡ resolves c key user roles t
    unfolding inserted
    old_row t m =
        ap (λ b. verdict (t.key == key) roles b (t.created_by == user))
          (scoped-link_roles c.roles n.id (name ∷ more) c.scopes scopes linked roles t.id
            (λ e. absurd (omega (arith, sound.below t m, fresh, e))))

    new_row : resolves inserted key user roles n ≡ true
    unfolding inserted
    new_row =
        verdict_owned (n.key == key) roles (scoped c.roles scopes roles n.id) (n.created_by == user)
          ((eq_iff n.key key).1 of_key) ((eq_iff n.created_by user).1 by_user)

    first_row :
        select (resolves inserted key user roles) (n ∷ c.secrets)
        ≡ n ∷ select (resolves inserted key user roles) c.secrets
    first_row =
        if-true (resolves inserted key user roles n)
          (n ∷ select (resolves inserted key user roles) c.secrets)
          (select (resolves inserted key user roles) c.secrets) new_row

    -- An inserted secret resolves to itself.
    resolve-inserted : resolve_secret_in inserted key (some user) roles ≡ some n
    unfolding inserted lower lowest
    resolve-inserted =
        resolve-resolves inserted key user roles
        ∙ ap lowest first_row
        ∙ ap (lower n) (
            ap lowest (
              select_same (resolves c key user roles) (resolves inserted key user roles) c.secrets
                old_row)
            ∙ sym (resolve-resolves c key user roles)
            ∙ missing)

    inserted_row : insert c n (name ∷ more) ≡ (inserted, ok (stored_record false (name ∷ more) n))
    unfolding insert inserted
    inserted_row = rw (linked, insert) refl

  -- What a write promises of the tables and the record it ends with.
  abbrev pub Stores : Envelope → Core → SecretRecord → Type 0
  Stores e d r =
      (resolve_secret_in d key (some user) roles ≡ some r.stored)
      × (r.stored.envelope ≡ e)
      × (d.kek ≡ c.kek)

  ended :
      (e : Envelope) (d d' : Core) (r r' : SecretRecord)
      → Stores e d' r'
      → outcome d' r' ≡ outcome d r
      → Stores e d r
  ended e d d' r r' h same =
      let cores : d' ≡ d = ap (λ (o : Core × Result SecretRecord). o.0) same in
      let records : r' ≡ r = ok_eq r' r (ap (λ (o : Core × Result SecretRecord). o.1) same) in
      subst (λ t. Stores e t r) cores (subst (Stores e d') records h)

  not_raised :
      (o : Core × Result SecretRecord) (d : Core) (f : Failure) (r : SecretRecord)
      → o ≡ (c, err f)
      → o ≡ (d, ok r)
      → ⊥
  not_raised o d f r e e' =
      err-ok f r o.1 (ap (λ (o : Core × Result SecretRecord). o.1) e)
        (ap (λ (o : Core × Result SecretRecord). o.1) e')

  insert-Stores :
      (n : Secret)
      → n.id ≡ c.next_id
      → n.key ≡ key
      → n.created_by ≡ user
      → resolve_secret_in c key (some user) roles ≡ none
      → (d : Core) (r : SecretRecord) → insert c n (name ∷ more) ≡ (d, ok r)
      → Stores n.envelope d r
  unfolding insert inserted stored_record
  insert-Stores n fresh of_key by_user missing d r h =
      elim (Result-cases (link_roles c.roles n.id (name ∷ more) c.scopes)) [
        | inl (scopes, linked) ↦
            ended n.envelope d (inserted n scopes fresh of_key by_user linked missing) r
              (stored_record false (name ∷ more) n)
              (resolve-inserted n scopes fresh of_key by_user linked missing, refl, refl)
              (sym (inserted_row n scopes fresh of_key by_user linked missing) ∙ h)
        | inr (f, e) ↦ absurd (not_raised (insert c n (name ∷ more)) d f r (rw (e, insert) refl) h)
      ]

  replace-Stores :
      (s : Secret) (e : Envelope) (version : String) (meta : Option (Dict String))
      → resolve_secret_in c key (some user) roles ≡ some s
      → (d : Core) (r : SecretRecord) → replace c s e version meta (name ∷ more) ≡ (d, ok r)
      → Stores e d r
  unfolding rewritten replace after stored_record
  replace-Stores s e version meta found d r h =
      elim (Result-cases (link_roles c.roles s.id (name ∷ more) (unlinked s.id c.scopes))) [
        | inl (scopes, linked) ↦
            ended e d (after s e version meta scopes linked found) r
              (stored_record true (name ∷ more) (rewritten e version meta s))
              (resolve-replaced s e version meta scopes linked found, refl, refl)
              (sym (replaced_row s e version meta scopes linked found) ∙ h)
        | inr (f, g) ↦
            absurd
              (not_raised (replace c s e version meta (name ∷ more)) d f r (rw (g, replace) refl) h)
      ]

  -- The row that a write hands back is the one that the caller resolves next.
  pub write-Stores :
      (now : ℕ) (e : Envelope) (version : String) (meta : Option (Dict String))
      (callers : Option (List String)) (d : Core) (r : SecretRecord)
      → or_none callers ≡ roles
      → write c now key e user (name ∷ more) version meta callers ≡ (d, ok r)
      → Stores e d r
  unfolding write new_secret
  write-Stores now e version meta callers d r same h =
      elim (Option-cases (resolve_secret_in c key (some user) roles)) [
        | inl missing ↦
            (let m = subst (λ t. resolve_secret_in c key (some user) t ≡ none) (sym same) missing in
              insert-Stores (new_secret c now key e user version meta) refl refl refl missing d r
                (sym (rw (m, write) refl) ∙ h))
        | inr (s, found) ↦
            (let m = subst (λ t. resolve_secret_in c key (some user) t ≡ some s) (sym same) found in
              replace-Stores s e version meta found d r (sym (rw (m, write) refl) ∙ h))
      ]
