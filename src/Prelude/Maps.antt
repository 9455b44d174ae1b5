-- ===== src/Prelude/Maps.antt =====
-- Go's `map[string]V`: an association list. The order of the list stands for the order in which
-- `range` visits the map, which Go leaves open.
use Prim.Native.String.{String}
use mathlib.Core.Path.{◌≡◌, refl}
use mathlib.Core.Bool.{Bool, true, false}
use mathlib.Core.Option.{Option, none, some}
use mathlib.Core.List.{List, [], ◌∷◌}
use native.Mathlib.Omega.{arith}
use text.Mathlib.Text.{◌==◌ as str_eq}
use text.Mathlib.TextEquality.{eq_iff}
use afd.Prelude.Tests.{if◌then◌else◌}

abbrev pub GoMap {ℓ} : Type ℓ → Type ℓ
GoMap V = List (String × V)

module _ {ℓ} {V : Type ℓ} where
  unfoldable pub lookup : String → GoMap V → Option V
  lookup key [] = none
  lookup key ((first, value) ∷ others) =
      let found = lookup key others in if str_eq first key then some value else found

  -- `m[key] = value`.
  unfoldable pub insert : String → V → GoMap V → GoMap V
  insert key value [] = (key, value) ∷ []
  insert key value ((first, old) ∷ others) =
      let kept = (first, old) ∷ insert key value others in
      if str_eq first key then (key, value) ∷ others else kept

  -- `delete(m, key)`.
  unfoldable pub delete : String → GoMap V → GoMap V
  delete key [] = []
  delete key ((first, old) ∷ others) =
      let rest = delete key others in if str_eq first key then rest else (first, old) ∷ rest

  unfoldable pub has_key : String → GoMap V → Bool
  has_key key [] = false
  has_key key ((first, _) ∷ others) =
      let found = has_key key others in if str_eq first key then true else found

  pub lookup-insert :
      (key asked : String) (value : V) (entries : GoMap V)
      → lookup asked (insert key value entries)
        ≡ (if str_eq key asked then some value else lookup asked entries)
  unfolding lookup insert
  lookup-insert key asked value [] = refl
  lookup-insert key asked value ((first, old) ∷ others) =
      let below = lookup-insert key asked value others in
      ground (arith, below, eq_iff first asked, eq_iff first key, eq_iff key asked)

  pub lookup-delete :
      (key asked : String) (entries : GoMap V)
      → lookup asked (delete key entries)
        ≡ (if str_eq key asked then none else lookup asked entries)
  unfolding lookup delete
  lookup-delete key asked [] = ground arith
  lookup-delete key asked ((first, old) ∷ others) =
      let below = lookup-delete key asked others in
      ground (arith, below, eq_iff first asked, eq_iff first key, eq_iff key asked)
