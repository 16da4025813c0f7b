-- ===== src/Prelude/Dict.antt =====
-- A JavaScript object or Map used as a dictionary: string keys in insertion order.
use Prim.Native.String.{String}
use mathlib.Core.Path.{◌≡◌, refl}
use mathlib.Core.Option.{Option, none, some}
use mathlib.Core.List.{List, [], ◌∷◌}
use native.Mathlib.Omega.{arith}
use text.Mathlib.Text.{◌==◌ as str_eq}
use text.Mathlib.TextEquality.{eq_iff}
use agentunited.Prelude.Tests.{if◌then◌else◌}

abbrev pub Dict {ℓ} : Type ℓ → Type ℓ
Dict V = List (String × V)

module _ {ℓ} {V : Type ℓ} where
  -- d[key], where `none` is undefined.
  unfoldable pub lookup : String → Dict V → Option V
  lookup key [] = none
  lookup key ((first, value) ∷ d) = if str_eq first key then some value else lookup key d

  -- d[key] = value: an old key keeps its place.
  unfoldable pub insert : String → V → Dict V → Dict V
  insert key value [] = (key, value) ∷ []
  insert key value ((first, old) ∷ d) =
      let later = (first, old) ∷ insert key value d in
      if str_eq first key then (first, value) ∷ d else later

  -- delete d[key].
  unfoldable pub delete : String → Dict V → Dict V
  delete key [] = []
  delete key ((first, old) ∷ d) =
      let later = delete key d in if str_eq first key then later else (first, old) ∷ later

  -- d[key] || fallback.
  abbrev pub get_or : String → V → Dict V → V
  get_or key fallback d = elim (lookup key d) [ none ↦ fallback | some value ↦ value ]

  pub lookup-insert :
      (key other : String) (value : V) (d : Dict V)
      → lookup other (insert key value d)
        ≡ (if str_eq key other then some value else lookup other d)
  unfolding lookup insert
  lookup-insert key other value [] = refl
  lookup-insert key other value ((first, old) ∷ d) =
      let ih = lookup-insert key other value d in
      ground (arith, ih, eq_iff first key, eq_iff first other, eq_iff key other)

  pub lookup-delete :
      (key other : String) (d : Dict V)
      → lookup other (delete key d) ≡ (if str_eq key other then none else lookup other d)
  unfolding lookup delete
  lookup-delete key other [] = ground arith
  lookup-delete key other ((first, old) ∷ d) =
      let ih = lookup-delete key other d in
      ground (arith, ih, eq_iff first key, eq_iff first other, eq_iff key other)
