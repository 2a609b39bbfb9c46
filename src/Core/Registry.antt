-- ===== src/Core/Registry.antt =====
-- internal/provider/registry.go: the adapters by their type. `NewHandler` of
-- internal/core/webhook/handler.go fills its map in the same way.
use mathlib.Core.List.{foldl}
use im_providers_service.Prelude.{
  String, ◌≡◌, refl, Option, none, some, List, [], ◌∷◌, arith, ◌==◌, string_eq, if◌then◌else◌,
}
use im_providers_service.Prelude.Dict.{lookup, insert, lookup-insert}
use im_providers_service.Prelude.Failure.{Result, ok, err, plain}

-- `P` is `Provider`, and `type_of` its method `Type`.
module _ {P : Type 0} (type_of : P → String) where
  register : List (String × P) → P → List (String × P)
  register m p = insert (type_of p) p m

  unfoldable pub new_registry : List P → List (String × P)
  unfolding register
  new_registry providers = foldl register [] providers

  unfoldable pub get : List (String × P) → String → Result P
  get registry type = elim (lookup type registry) [
    | none ↦ err (plain "provider not found")
    | some p ↦ ok p
  ]

  -- The last adapter of a type, in the order in which they were given.
  abbrev pub last_of_type : String → List P → Option P
  last_of_type t [] = none
  last_of_type t (p ∷ ps) = elim (last_of_type t ps) [
    | some q ↦ some q
    | none ↦ if type_of p == t then some p else none
  ]

  abbrev or_before : Option P → Option P → Option P
  or_before none before = before
  or_before (some p) before = some p

  lookup-foldl :
      (ps : List P) (m : List (String × P)) (t : String)
      → lookup t (foldl register m ps) ≡ or_before (last_of_type t ps) (lookup t m)
  unfolding register
  lookup-foldl [] m t = refl
  lookup-foldl (p ∷ ps) m t =
      ground (arith, lookup-foldl ps (insert (type_of p) p m) t, lookup-insert t (type_of p) p m)

  pub lookup-new_registry :
      (ps : List P) (t : String) → lookup t (new_registry ps) ≡ last_of_type t ps
  unfolding new_registry lookup
  lookup-new_registry ps t = ground (arith, lookup-foldl ps [] t)

  -- The registry finds the last adapter that was given with the type asked for, and none if no
  -- adapter has it.
  get-new_registry :
      (ps : List P) (t : String)
      → get (new_registry ps) t
        ≡ (elim (last_of_type t ps) [ none ↦ err (plain "provider not found") | some p ↦ ok p ])
  unfolding get new_registry lookup
  get-new_registry ps t = ground (arith, lookup-foldl ps [] t)
