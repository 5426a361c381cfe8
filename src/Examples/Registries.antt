-- ===== src/Examples/Registries.antt =====
-- Registries (internal/server/registry.go) with two virtual apps.
use mathlib.Core.List.Perm
use sg_emulator.Base.{◌≡◌, refl, none, some, [], ◌∷◌, arith, if◌then◌else◌, ◌≢◌, ◌⊎◌}
use sg_emulator.Base.Action.{ok, err}
use sg_emulator.Base.Int.{pos}
use sg_emulator.Base.Bytes.{Bytes, bytes_eq}
use sg_emulator.Base.Dict.{lookup}
use sg_emulator.Errors.{already_registered}
use sg_emulator.Registry.{VirtualApp, Registry, register, get_by_id, list_apps, get_k_closest}
use sg_emulator.Registry.Laws.{IsRegistry, register-IsRegistry}
use sg_emulator.Registry.Nearest.{Nearest, get_k_closest-Nearest, get_k_closest-perm}
use sg_emulator.Examples.Data.{id_of, are_bytes}

abbrev near_app : VirtualApp
near_app = record { id = id_of 1; transports = [] }

abbrev far_app : VirtualApp
far_app = record { id = id_of 9; transports = [] }

abbrev one : Registry
one = record { by_id = (id_of 9, far_app) ∷ [] }

abbrev both : Registry
both = record { by_id = (id_of 9, far_app) ∷ (id_of 1, near_app) ∷ [] }

abbrev other_order : Registry
other_order = record { by_id = (id_of 1, near_app) ∷ (id_of 9, far_app) ∷ [] }

one-IsRegistry : IsRegistry one
unfolding lookup
one-IsRegistry = ((refl, refl, are_bytes 9 (omega arith)), refl, tt)

both-IsRegistry : IsRegistry both
unfolding lookup bytes_eq
both-IsRegistry = (
  (refl, refl, are_bytes 9 (omega arith)),
  refl,
  ((refl, refl, are_bytes 1 (omega arith)), refl, tt),
)

register-IsRegistry_example :
    IsRegistry (register near_app one).1
    × (((get_by_id near_app.id one ≡ none)
          × ((register near_app one).0 ≡ ok tt)
          × ((k : Bytes)
              → get_by_id k (register near_app one).1
                ≡ (if bytes_eq near_app.id k then some near_app else get_by_id k one)))
        ⊎ ((get_by_id near_app.id one ≢ none)
            × (register near_app one ≡ (err already_registered, one))))
register-IsRegistry_example =
    register-IsRegistry near_app one (refl, refl, are_bytes 1 (omega arith)) one-IsRegistry

get_k_closest-Nearest_example : Nearest 1000 (id_of 0) 1 both
get_k_closest-Nearest_example =
    get_k_closest-Nearest 1000 (id_of 0) 1 both (omega arith) (omega arith)

get_k_closest-perm_example :
    get_k_closest 1000 (id_of 0) (pos 1) both ≡ get_k_closest 1000 (id_of 0) (pos 1) other_order
unfolding list_apps
get_k_closest-perm_example =
    get_k_closest-perm (id_of 0) (are_bytes 0 (omega arith)) refl 1000 (pos 1) both other_order
      both-IsRegistry (Perm.swap near_app far_app [])
