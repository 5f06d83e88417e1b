-- ===== src/Map.antt =====
-- `std::map`, as far as src/launcherlib uses it: a list of pairs in the order of its keys.
pub mod Order
pub mod Laws
use mapplauncherd.Base.{Bool, true, false, List, [], ◌∷◌, Option, none, some, if◌then◌else◌}
use Order.{Ord}

abbrev pub Map {ℓ κ} : Type ℓ → Type κ → Type (ℓ ⊔ κ)
Map K V = List (K × V)

module _ {ℓ κ} {K : Type ℓ} {V : Type κ} ⦃o : Ord K⦄ where
  -- `m.find(k)`: none is `m.end()`.
  unfoldable pub find : K → Map K V → Option V
  find k [] = none
  find k ((j, v) ∷ m) = if o.eqb j k then some v else find k m

  -- `m[k] = v`
  unfoldable pub insert : K → V → Map K V → Map K V
  insert k v [] = (k, v) ∷ []
  insert k v ((j, w) ∷ m) =
      if o.eqb j k
      then (k, v) ∷ m
      else if o.ltb k j
      then (k, v) ∷ (j, w) ∷ m
      else (j, w) ∷ insert k v m

  -- `m.erase(m.find(k))`, where the key is there
  unfoldable pub erase : K → Map K V → Map K V
  erase k [] = []
  erase k ((j, w) ∷ m) = if o.eqb j k then erase k m else (j, w) ∷ erase k m
