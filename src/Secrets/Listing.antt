-- ===== src/Secrets/Listing.antt =====
-- packages/core/src/core/engine/core.py, Core.list. `like` is the LIKE of the database against the
-- prefix followed by `%`.
use venya.Prelude.{
  ℕ, String, Bool, true, false, ◌&&◌, ◌||◌, not, Option, none, some, List, [], ◌∷◌, ◌++◌, map, ◌==◌,
  ◌=?◌, if◌then◌else◌, select,
}
use venya.Prelude.Dict
use venya.Prelude.Dict.{Dict}
use venya.Roles.{Role, SecretRole}
use venya.Secrets.{Secret, Core, SecretRecord, any, is_nil, scoped, owned}

-- An argument that is given and not empty.
abbrev pub given : Option String → Bool
given none = false
given (some text) = not (text == "")

-- A secret with a link to a role, as the join demands.
unfoldable pub joined : List SecretRole → Secret → Bool
joined scopes s = any (λ l. l.secret_id =? s.id) scopes

unfoldable pub listed : Core → List String → Option String → Secret → Bool
listed c names user s =
    if not (is_nil names) || given user
    then (not (is_nil names) && scoped c.roles c.scopes names s.id) || (given user && owned user s)
    else true

equals : Option String → String → Bool
equals none wanted = false
equals (some text) wanted = text == wanted

-- A filter of the metadata, when its argument is given.
unfoldable pub meta_filter : String → Option String → Secret → Bool
unfolding equals
meta_filter field none s = true
meta_filter field (some wanted) s = (wanted == "") || equals (Dict.get s.meta field) wanted

unfoldable pub role_names_of : List Role → List SecretRole → ℕ → List String
role_names_of roles [] i = []
role_names_of roles (l ∷ scopes) i =
    let rest = role_names_of roles scopes i in
    if l.secret_id =? i
    then map (λ r. r.name) (select (λ r. r.id =? l.scope) roles) ++ rest
    else rest

module _ (like : String → String → Bool) where
  prefixed : Option String → Secret → Bool
  prefixed none s = true
  prefixed (some prefix) s = (prefix == "") || like prefix s.key

  selected :
      Core
      → Option String
      → List String
      → Option String
      → (executor purpose username : Option String) → Secret
      → Bool
  unfolding prefixed listed joined meta_filter
  selected c prefix names user executor purpose username s =
      joined c.scopes s
      && prefixed prefix s
      && listed c names user s
      && meta_filter "executor" executor s
      && meta_filter "purpose" purpose s
      && meta_filter "username" username s

  unfoldable pub list :
      Core
      → Option String
      → List String
      → Option String
      → (executor purpose username : Option String) → List SecretRecord
  unfolding selected role_names_of
  list c prefix names user executor purpose username =
      map
        (λ s. record {
          stored = s;
          role_names = role_names_of c.roles c.scopes s.id;
          meta = some s.meta;
          replaced = false;
        })
        (select (selected c prefix names user executor purpose username) c.secrets)
