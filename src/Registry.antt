-- ===== src/Registry.antt =====
-- The registry of virtual apps (internal/server/registry.go) and what a virtual app keeps
-- (internal/server/virtual_app.go): its identifier and its transports. The client, the channel of
-- events, contexts and goroutines are left out.
pub mod Distance
pub mod Sorting
pub mod Laws
pub mod Nearest
use Prim.Native.Nat.{bit_xor}
use sg_emulator.Base.{
  ltb, ⊤, ℕ, zero, suc, ◌+◌, ◌*◌, not, Option, none, some, List, [], ◌∷◌, ◌++◌, map, length, leb,
  if◌then◌else◌,
}
use sg_emulator.Base.Bytes.{Bytes}
use sg_emulator.Base.Dict.{Dict, lookup, insert, delete}
use sg_emulator.Base.Int.{ℤ, pos, pos_part, ltb_ℤ}
use sg_emulator.Base.Action.{Result, ok, err, panic, Action, ◌>>=◌, ◌>>◌, get, modify, fail_if}
use sg_emulator.Errors.{Error, already_registered, k_not_positive}
use sg_emulator.Id.{ScalegraphId}
use sg_emulator.Account.{is_some}

-- What `Type()` and `Address()` of a transport answer.
pub record Transport : Type 0 where
  pub kind : Bytes
  pub address : Bytes

pub record VirtualApp : Type 0 where
  pub id : ScalegraphId
  pub transports : List Transport

unfoldable pub new_virtual_app : ScalegraphId → VirtualApp
new_virtual_app id = record { id = id; transports = [] }

unfoldable pub add_transport : Transport → VirtualApp → VirtualApp
add_transport t v = record v { transports = v.transports ++ t ∷ [] }

-- The loop of `Addresses`, over the map that it fills.
unfoldable pub fill_addresses : List Transport → Dict Bytes → Dict Bytes
fill_addresses [] m = m
fill_addresses (t ∷ ts) m = fill_addresses ts (insert t.kind t.address m)

unfoldable pub addresses : VirtualApp → Dict Bytes
addresses v = fill_addresses v.transports []

pub record Registry : Type 0 where
  pub by_id : Dict VirtualApp

unfoldable pub new_registry : Registry
new_registry = record { by_id = [] }

unfoldable pub register : VirtualApp → Action Error Registry ⊤
register v = do
  r ← get
  fail_if (is_some (lookup v.id r.by_id)) already_registered
  modify λ r. record r { by_id = insert v.id v r.by_id }

unfoldable pub unregister : ScalegraphId → Registry → Registry
unregister id r = record r { by_id = delete id r.by_id }

unfoldable pub get_by_id : ScalegraphId → Registry → Option VirtualApp
get_by_id id r = lookup id r.by_id

-- `List`, in some order of the map's entries.
unfoldable pub list_apps : Registry → List VirtualApp
list_apps r = map (λ e. e.1) r.by_id

unfoldable pub count : Registry → ℕ
count r = length r.by_id

-- `CreateVirtualApp` of internal/server/server.go, for the identifier that is drawn.
unfoldable pub create_virtual_app : ScalegraphId → Action Error Registry VirtualApp
create_virtual_app id = do register (new_virtual_app id); λ r. (ok (new_virtual_app id), r)

-- The loop that fills `xor`.
unfoldable pub xor_bytes : Bytes → Bytes → Bytes
xor_bytes [] ys = []
xor_bytes (x ∷ xs) [] = []
xor_bytes (x ∷ xs) (y ∷ ys) = bit_xor x y ∷ xor_bytes xs ys

-- `SetBytes`: the number whose digits to the base 256 follow those of `n`.
unfoldable pub be_value : ℕ → Bytes → ℕ
be_value n [] = n
be_value n (b ∷ bs) = be_value (n * 256 + b) bs

unfoldable pub xor_distance : ScalegraphId → ScalegraphId → ℕ
xor_distance a b = be_value 0 (xor_bytes a b)

-- `sort.Slice`, by a key.
module _ (key : VirtualApp → ℕ) where
  unfoldable pub insert_by : VirtualApp → List VirtualApp → List VirtualApp
  insert_by v [] = v ∷ []
  insert_by v (w ∷ ws) =
      let rest = insert_by v ws in if leb (key v) (key w) then v ∷ w ∷ ws else w ∷ rest

  unfoldable pub sort_by : List VirtualApp → List VirtualApp
  sort_by [] = []
  sort_by (v ∷ vs) = insert_by v (sort_by vs)

unfoldable pub take : ℕ → List VirtualApp → List VirtualApp
take zero vs = []
take (suc n) [] = []
take (suc n) (v ∷ vs) = v ∷ take n vs

-- `largest` is the greatest capacity with which `make` can allocate; beyond it `make` panics.
unfoldable pub get_k_closest : ℕ → ScalegraphId → ℤ → Registry → Result Error (List VirtualApp)
get_k_closest largest target k r =
    if not (ltb_ℤ (pos 0) k)
    then err k_not_positive
    else (if ltb largest (pos_part k)
        then panic
        else ok (take (pos_part k) (sort_by (λ v. xor_distance target v.id) (list_apps r))))
