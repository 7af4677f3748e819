-- ===== src/Prelude/Dict.antt =====
-- `HashMap<String, V>` as the list of its entries in iteration order. The order of a real map is
-- unspecified, so no theorem may rest on it; keys are distinct (`NodupKeys`).
use mathlib.Core.Path.{◌≡◌, refl, subst}
use mathlib.Core.Option.{Option, none, some}
use mathlib.Core.List.{List, [], ◌∷◌}
use native.Mathlib.Omega.{arith}
use vm_authn_scope.Prelude.Tests.{if◌then◌else◌, ◌==◌, text_eq, text_dec}
use vm_authn_scope.Prelude.Lists.{All}
use vm_authn_scope.Prelude.Text.{Text}

abbrev pub Dict : Type 0 → Type 0
Dict V = List (Text × V)

module _ {V : Type 0} where
  -- `HashMap::get`
  unfoldable pub lookup : Text → Dict V → Option V
  lookup k [] = none
  lookup k ((j, v) ∷ d) = if j == k then some v else lookup k d

  -- `HashMap::insert`
  unfoldable pub insert : Text → V → Dict V → Dict V
  insert k v [] = (k, v) ∷ []
  insert k v ((j, w) ∷ d) = if j == k then (k, v) ∷ d else (j, w) ∷ insert k v d

  abbrev pub NodupKeys : Dict V → Type 0
  NodupKeys [] = Unit
  NodupKeys ((k, _) ∷ d) = (lookup k d ≡ none) × NodupKeys d

  pub lookup-insert :
      (j k : Text) (v : V) (d : Dict V)
      → lookup j (insert k v d) ≡ (if k == j then some v else lookup j d)
  unfolding lookup insert
  lookup-insert j k v [] = refl
  lookup-insert j k v (_ ∷ d) = ground (arith, lookup-insert j k v d)

  pub insert-NodupKeys : (k : Text) (v : V) (d : Dict V) → NodupKeys d → NodupKeys (insert k v d)
  unfolding insert lookup
  insert-NodupKeys k v [] _ = (refl, tt)
  insert-NodupKeys k v ((j, _) ∷ d) (fresh, u) =
      ground (arith, insert-NodupKeys k v d u, lookup-insert j k v d)

module _ {V : Type 0} (P : V → Type 0) where
  -- What holds of all values holds of one that is found.
  pub lookup-All :
      (k : Text) {v : V} (d : Dict V) → All (λ (e : Text × V). P e.1) d → lookup k d ≡ some v → P v
  unfolding lookup
  lookup-All k [] h e = absurd (cc)
  lookup-All k {v} ((j, w) ∷ d) (hw, h) e = elim (text_dec j k) [
    | yes p ↦ let same : w ≡ v = ground arith in subst P same hw
    | no n ↦ lookup-All k d h (ground arith)
  ]
