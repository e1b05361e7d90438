-- ===== src/Secrets/Writing.antt =====
-- packages/core/src/core/engine/core.py, Core.put, delete and list.
use venya.Prelude.{
  ℕ, suc, String, Bool, true, false, ◌&&◌, ◌||◌, not, Option, none, some, List, [], ◌∷◌, map, ◌==◌,
  ◌=?◌, if◌then◌else◌, select,
}
use venya.Prelude.Dict
use venya.Prelude.Dict.{Dict}
use venya.Roles.{Role, SecretRole, elem}
use venya.Encryption
use venya.Encryption.{Envelope, encrypt_secret}
use venya.Secrets.{
  Secret, Core, SecretRecord, Result, ok, err, ◌>>=◌, any, is_nil, resolve_secret_in, unscoped,
  roles_not_held, role_not_found, kek_not_configured, encryption_error, integrity_error, not_owner,
}

-- dict.fromkeys(names), less those held, in the order of their first places.
unfoldable pub offending : (held seen : List String) → List String → List String
offending held seen [] = []
offending held seen (name ∷ names) =
    let rest = offending held (name ∷ seen) names in
    if elem name held || elem name seen then rest else name ∷ rest

-- The refusal of a scope that the caller does not hold.
unfoldable pub authorized : Option (List String) → List String → Result Bool
unfolding offending
authorized none names = ok true
authorized (some held) names = elim (offending held [] names) [
  | [] ↦ ok true
  | name ∷ more ↦ err (roles_not_held (name ∷ more))
]

-- query(Role).filter(Role.name == role_name).first()
unfoldable pub role_by_name : List Role → String → Option Role
role_by_name [] name = none
role_by_name (r ∷ rs) name =
    let rest = role_by_name rs name in if r.name == name then some r else rest

unfoldable pub linked : List SecretRole → (secret_id role_id : ℕ) → Bool
linked scopes i r = any (λ l. l.secret_id =? i && l.scope =? r) scopes

-- The loop that links the roles; a link that is there already breaks the primary key.
unfoldable pub link_roles : List Role → ℕ → List String → List SecretRole → Result (List SecretRole)
unfolding role_by_name linked
link_roles roles i [] scopes = ok scopes
link_roles roles i (name ∷ names) scopes = elim (role_by_name roles name) [
  | none ↦ err (role_not_found name)
  | some r ↦
      (if linked scopes i r.id
        then err integrity_error
        else link_roles roles i names (record { secret_id = i; scope = r.id } ∷ scopes))
]

unfoldable pub unlinked : ℕ → List SecretRole → List SecretRole
unlinked i scopes = select (λ l. not (l.secret_id =? i)) scopes

-- meta or {}
abbrev pub or_empty : Option (Dict String) → Dict String
or_empty none = Dict.empty
or_empty (some d) = d

-- The columns that a replacement writes.
unfoldable pub rewritten : Envelope → String → Option (Dict String) → Secret → Secret
rewritten e version meta s = record s {
  envelope = e;
  key_version_id = version;
  meta = or_empty meta;
}

unfoldable pub replace_row : ℕ → (Secret → Secret) → List Secret → List Secret
replace_row i f ss = map (λ s. if s.id =? i then f s else s) ss

unfoldable pub stored_record : Bool → List String → Secret → SecretRecord
stored_record replaced names s = record {
  stored = s;
  role_names = names;
  meta = if replaced then some s.meta else none;
  replaced = replaced;
}

unfoldable pub replace :
    Core
    → Secret
    → Envelope
    → String
    → Option (Dict String)
    → List String
    → Core × Result SecretRecord
unfolding link_roles unlinked rewritten replace_row stored_record
replace c s e version meta names = elim (link_roles c.roles s.id names (unlinked s.id c.scopes)) [
  | err f ↦ (c, err f)
  | ok scopes ↦ (
    record c { secrets = replace_row s.id (rewritten e version meta) c.secrets; scopes = scopes },
    ok (stored_record true names (rewritten e version meta s)),
  )
]

unfoldable pub insert : Core → Secret → List String → Core × Result SecretRecord
unfolding link_roles stored_record
insert c s names = elim (link_roles c.roles s.id names c.scopes) [
  | err f ↦ (c, err f)
  | ok scopes ↦ (
    record c { secrets = s ∷ c.secrets; scopes = scopes; next_id = suc c.next_id },
    ok (stored_record false names s),
  )
]

-- caller_roles as _resolve_secret_in takes them.
abbrev pub or_none : Option (List String) → List String
or_none none = []
or_none (some names) = names

unfoldable pub new_secret :
    Core → (now : ℕ) → String → Envelope → String → String → Option (Dict String) → Secret
new_secret c now key e user version meta = record {
  id = c.next_id;
  key = key;
  envelope = e;
  key_version_id = version;
  created_by = user;
  created_at = now;
  meta = or_empty meta;
}

unfoldable pub write :
    Core
    → (now : ℕ) → String
    → Envelope
    → String
    → List String
    → String
    → Option (Dict String)
    → Option (List String)
    → Core × Result SecretRecord
unfolding replace insert new_secret
write c now key e user names version meta caller_roles =
    elim (resolve_secret_in c key (some user) (or_none caller_roles)) [
      | some s ↦ replace c s e version meta names
      | none ↦ insert c (new_secret c now key e user version meta) names
    ]

-- `dek` and `nonce` are the random bytes of the encryption.
module _ (aes : List ℕ → List ℕ → List ℕ) (seal : List ℕ → List ℕ → List ℕ → List ℕ) where
  unfoldable pub sealed : Option (List ℕ) → (dek nonce value : List ℕ) → Result Envelope
  sealed none dek nonce value = err kek_not_configured
  sealed (some kek) dek nonce value = elim (encrypt_secret aes seal kek dek nonce value) [
    | Encryption.ok e ↦ ok e
    | Encryption.err f ↦ err (encryption_error f)
  ]

  -- The refusals of put before the transaction, and the envelope.
  unfoldable pub prepared :
      Core → (dek nonce value : List ℕ) → List String → Option (List String) → Result Envelope
  unfolding authorized sealed
  prepared c dek nonce value names caller_roles =
      if is_nil names
      then err unscoped
      else authorized caller_roles names >>= λ t. sealed c.kek dek nonce value

  unfoldable pub put :
      Core
      → (now : ℕ) (dek nonce : List ℕ) → String
      → (value : List ℕ) → String
      → List String
      → String
      → Option (Dict String)
      → Option (List String)
      → Core × Result SecretRecord
  unfolding prepared write
  put c now dek nonce key value user names version meta caller_roles =
      elim (prepared c dek nonce value names caller_roles) [
        | err f ↦ (c, err f)
        | ok e ↦ write c now key e user names version meta caller_roles
      ]

unfoldable pub own_secret : String → String → List Secret → Option Secret
own_secret key user [] = none
own_secret key user (s ∷ ss) =
    let rest = own_secret key user ss in
    if s.key == key && s.created_by == user then some s else rest

unfoldable pub delete : Core → String → String → Core × Result Bool
unfolding own_secret unlinked
delete c key user = elim (own_secret key user c.secrets) [
  | none ↦ (c, ok false)
  | some s ↦
      (if not (s.created_by == user) then (c, err not_owner) else (
        record c {
          secrets = select (λ t. not (t.id =? s.id)) c.secrets;
          scopes = unlinked s.id c.scopes;
          links = select (λ l. not (l.secret_id =? s.id)) c.links;
        },
        ok true,
      ))
]
