-- ===== src/Prelude/Dict.antt =====
-- Python's `dict` with string keys. The representation is private: clients have `dict_laws`.
-- No modelled code depends on the order of a dict's entries.
use Prim.Native.Nat.{ℕ, suc, ◌+◌}
use Prim.Native.String.{String}
use mathlib.Core.Path.{◌≡◌, refl}
use mathlib.Core.Bool.{Bool}
use mathlib.Core.Option.{Option, none, some}
use mathlib.Core.List.{List, [], ◌∷◌}
use native.Mathlib.Omega.{arith}
use text.Mathlib.Text.{◌==◌}
use text.Mathlib.TextEquality.{eq_iff}
use text.Mathlib.TextPositions.{eq_refl}
use venya.Prelude.Tests.{if◌then◌else◌}

module _ {ℓ} {V : Type ℓ} where
  look_up : String → List (String × V) → Option V
  look_up k [] = none
  look_up k ((j, v) ∷ m) = if j == k then some v else look_up k m

  without : String → List (String × V) → List (String × V)
  without k [] = []
  without k ((j, v) ∷ m) = let rest = without k m in if j == k then rest else (j, v) ∷ rest

  -- Each entry whose value passes the test goes.
  swept : (V → Bool) → List (String × V) → List (String × V)
  unfolding without
  swept p [] = []
  swept p ((k, v) ∷ m) = let rest = swept p m in if p v then without k rest else (k, v) ∷ rest

  look_up-without :
      (k j : String) (m : List (String × V))
      → look_up j (without k m) ≡ (if k == j then none else look_up j m)
  unfolding look_up without
  look_up-without k j [] = ground arith
  look_up-without k j ((i, v) ∷ m) =
      ground (arith, look_up-without k j m, eq_iff i k, eq_iff i j, eq_iff k j)

  abbrev pub kept : (V → Bool) → Option V → Option V
  kept p none = none
  kept p (some v) = if p v then none else some v

  look_up-swept :
      (p : V → Bool) (j : String) (m : List (String × V))
      → look_up j (swept p m) ≡ kept p (look_up j m)
  unfolding look_up swept
  look_up-swept p j [] = refl
  look_up-swept p j ((k, v) ∷ m) =
      ground (arith, look_up-swept p j m, look_up-without k j (swept p m), eq_iff k j)

pub record Dict {ℓ} (V : Type ℓ) : Type ℓ where
  entries : List (String × V)

module _ {ℓ} {V : Type ℓ} where
  unfoldable pub empty : Dict V
  empty = record { entries = [] }

  -- d.get(k)
  unfoldable pub get : Dict V → String → Option V
  unfolding look_up
  get d k = look_up k d.entries

  -- del d[k], d.pop(k, None)
  unfoldable pub remove : Dict V → String → Dict V
  unfolding without
  remove d k = record { entries = without k d.entries }

  -- d[k] = v
  unfoldable pub put : Dict V → String → V → Dict V
  unfolding without
  put d k v = record { entries = (k, v) ∷ without k d.entries }

  -- The entries whose value passes the test are deleted.
  unfoldable pub sweep : (V → Bool) → Dict V → Dict V
  unfolding swept
  sweep p d = record { entries = swept p d.entries }

  count_where : (V → Bool) → List (String × V) → ℕ
  count_where p [] = 0
  count_where p ((k, v) ∷ m) = let rest = count_where p m in if p v then suc rest else rest

  -- How many entries pass the test.
  unfoldable pub count : (V → Bool) → Dict V → ℕ
  unfolding count_where
  count p d = count_where p d.entries

  sum_where : (V → ℕ) → List (String × V) → ℕ
  sum_where f [] = 0
  sum_where f ((k, v) ∷ m) = f v + sum_where f m

  -- The sum of a figure over the entries.
  unfoldable pub total : (V → ℕ) → Dict V → ℕ
  unfolding sum_where
  total f d = sum_where f d.entries

  mapped : (V → V) → List (String × V) → List (String × V)
  mapped f [] = []
  mapped f ((k, v) ∷ m) = (k, f v) ∷ mapped f m

  -- Each value is replaced by its image.
  unfoldable pub map_values : (V → V) → Dict V → Dict V
  unfolding mapped
  map_values f d = record { entries = mapped f d.entries }

  abbrev pub map_option : (V → V) → Option V → Option V
  map_option f none = none
  map_option f (some v) = some (f v)

  look_up-mapped :
      (f : V → V) (k : String) (m : List (String × V))
      → look_up k (mapped f m) ≡ map_option f (look_up k m)
  unfolding look_up mapped
  look_up-mapped f k [] = refl
  look_up-mapped f k ((j, v) ∷ m) = ground (arith, look_up-mapped f k m)

  pub get-map_values :
      (f : V → V) (d : Dict V) (k : String) → get (map_values f d) k ≡ map_option f (get d k)
  unfolding get map_values
  get-map_values f d k = look_up-mapped f k d.entries

  pub get-empty : (k : String) → get empty k ≡ none
  unfolding get empty
  get-empty k = refl

  pub get-put :
      (d : Dict V) (k other : String) (v : V)
      → get (put d k v) other ≡ (if k == other then some v else get d other)
  unfolding get put
  get-put d k other v = ground (arith, look_up-without k other d.entries)

  pub get-put_self : (d : Dict V) (k : String) (v : V) → get (put d k v) k ≡ some v
  get-put_self d k v = simp (get-put, eq_refl)

  pub get-remove :
      (d : Dict V) (gone k : String) → get (remove d gone) k ≡ (if gone == k then none else get d k)
  unfolding get remove
  get-remove d gone k = unfold look_up without in look_up-without gone k d.entries

  pub get-sweep : (p : V → Bool) (d : Dict V) (j : String) → get (sweep p d) j ≡ kept p (get d j)
  unfolding get sweep
  get-sweep p d j = look_up-swept p j d.entries

pub ruleset dict_laws = (get-empty, get-remove, get-put, get-sweep, get-map_values)
