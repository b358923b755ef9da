-- ===== src/Prelude/Maps.antt =====
-- A JavaScript Map as a list of its entries in insertion order; a key stands once.
use mathlib.Core.Path.{◌≡◌, refl}
use mathlib.Core.Logic.{◌↔◌}
use mathlib.Core.Bool.{Bool, true}
use mathlib.Core.Option.{Option, none, some}
use mathlib.Core.List.{List, [], ◌∷◌}
use native.Mathlib.Omega.{arith}
use kb_1_daemon.Prelude.Tests.{if◌then◌else◌}

module _ {K V : Type 0} (same : K → K → Bool) where
  -- `get`, `set` and `delete`
  unfoldable pub get_entry : K → List (K × V) → Option V
  get_entry k [] = none
  get_entry k ((j, v) ∷ m) = if same j k then some v else get_entry k m

  unfoldable pub set_entry : K → V → List (K × V) → List (K × V)
  set_entry k v [] = (k, v) ∷ []
  set_entry k v ((j, w) ∷ m) =
      let later = set_entry k v m in if same j k then (j, v) ∷ m else (j, w) ∷ later

  unfoldable pub delete_entry : K → List (K × V) → List (K × V)
  delete_entry k [] = []
  delete_entry k ((j, v) ∷ m) =
      let later = delete_entry k m in if same j k then later else (j, v) ∷ later

  module _ (agrees : (a b : K) → (same a b ≡ true) ↔ (a ≡ b)) where
    pub get_entry-set_entry :
        (k j : K) (v : V) (m : List (K × V))
        → get_entry k (set_entry j v m) ≡ (if same j k then some v else get_entry k m)
    unfolding get_entry set_entry
    get_entry-set_entry k j v [] = refl
    get_entry-set_entry k j v ((i, w) ∷ m) =
        ground (arith, agrees i j, agrees j k, agrees i k, get_entry-set_entry k j v m)

    pub get_entry-delete_entry :
        (k j : K) (m : List (K × V))
        → get_entry k (delete_entry j m) ≡ (if same j k then none else get_entry k m)
    unfolding get_entry delete_entry
    get_entry-delete_entry k j [] = ground arith
    get_entry-delete_entry k j ((i, w) ∷ m) =
        ground (arith, agrees i j, agrees j k, agrees i k, get_entry-delete_entry k j m)
