-- ===== src/Registry/Laws.antt =====
-- The registry (internal/server/registry.go) as a map: each virtual app stands once, under its own
-- identifier of 20 bytes.
use mathlib.Core.List.{Mem, mem-cons, not-mem-nil}
use mathlib.Core.Logic.Or
use native.Mathlib.Decide.{ℕ_discrete}
use sg_emulator.Base.{
  ⊤, ◌⊎◌, subst, ◌≡◌, ◌≢◌, refl, ap, Option, none, some, [], ◌∷◌, map, length, Bool-cases,
  Option-cases, inl, inr, if◌then◌else◌, arith,
}
use sg_emulator.Base.Bytes.{Bytes, AreBytes, bytes_eq, bytes_eq_iff, bytes_eq_refl}
use sg_emulator.Base.Dict.{Dict, lookup, insert, delete, lookup-insert, lookup-delete}
use sg_emulator.Base.Action.{ok, err}
use sg_emulator.Errors.{already_registered}
use sg_emulator.Id.{ScalegraphId, id_length}
use sg_emulator.Registry.{VirtualApp, Registry, new_registry, register, unregister, get_by_id}

abbrev pub IsEntry : Bytes → VirtualApp → Type 0
IsEntry k v = (v.id ≡ k) × (length k ≡ id_length) × AreBytes k

abbrev pub AreEntries : Dict VirtualApp → Type 0
AreEntries [] = ⊤
AreEntries ((k, v) ∷ m) = IsEntry k v × (lookup k m ≡ none) × AreEntries m

abbrev pub IsRegistry : Registry → Type 0
IsRegistry r = AreEntries r.by_id

insert-AreEntries :
    (k : Bytes) (v : VirtualApp) (m : Dict VirtualApp)
    → IsEntry k v
    → lookup k m ≡ none
    → AreEntries m
    → AreEntries (insert k v m)
unfolding lookup insert
insert-AreEntries k v [] e n h = (e, refl, tt)
insert-AreEntries k v ((j, w) ∷ m) e n h = elim (Bool-cases (bytes_eq j k)) [
  | inl same ↦ absurd (ground arith)
  | inr other ↦ rw other (
    h.0,
    ground (arith, h.1, lookup-insert j k v m, bytes_eq_iff k j, bytes_eq_iff j k),
    insert-AreEntries k v m e (rw other at n) h.2,
  )
]

delete-AreEntries : (k : Bytes) (m : Dict VirtualApp) → AreEntries m → AreEntries (delete k m)
unfolding delete
delete-AreEntries k [] h = h
delete-AreEntries k ((j, w) ∷ m) h = elim (Bool-cases (bytes_eq j k)) [
  | inl same ↦ rw same (delete-AreEntries k m h.2)
  | inr other ↦ rw other (h.0, ground (arith, h.1, lookup-delete j k m), delete-AreEntries k m h.2)
]

pub new_registry-IsRegistry : IsRegistry new_registry
unfolding new_registry
new_registry-IsRegistry = tt

-- Registering a virtual app whose identifier has 20 bytes keeps the registry well formed; where the
-- identifier is free the app is found under it and all others as before, and where it is taken the
-- call fails and changes nothing.
pub register-IsRegistry :
    (v : VirtualApp) (r : Registry)
    → IsEntry v.id v
    → IsRegistry r
    → IsRegistry (register v r).1
      × (((get_by_id v.id r ≡ none)
            × ((register v r).0 ≡ ok tt)
            × ((k : Bytes)
                → get_by_id k (register v r).1
                  ≡ (if bytes_eq v.id k then some v else get_by_id k r)))
          ⊎ ((get_by_id v.id r ≢ none) × (register v r ≡ (err already_registered, r))))
unfolding register get_by_id
register-IsRegistry v r e h = elim (Option-cases (lookup v.id r.by_id)) [
  | inl free ↦ rw free (
    insert-AreEntries v.id v r.by_id e free h,
    inl (refl, refl, λ k. lookup-insert k v.id v r.by_id),
  )
  | inr (w, taken) ↦ rw taken (h, inr (λ q. cc, refl))
]

pub unregister-IsRegistry :
    (id : ScalegraphId) (r : Registry) → IsRegistry r → IsRegistry (unregister id r)
unfolding unregister
unregister-IsRegistry id r h = delete-AreEntries id r.by_id h

-- What is found under a key is an entry.
pub found-IsEntry :
    (k : Bytes) (v : VirtualApp) (m : Dict VirtualApp)
    → AreEntries m
    → lookup k m ≡ some v
    → IsEntry k v
unfolding lookup
found-IsEntry k v [] h e = cc
found-IsEntry k v ((j, w) ∷ m) h e = elim (Bool-cases (bytes_eq j k)) [
  | inl same ↦
      let k_is = (bytes_eq_iff j k).0 same in
      let v_is : some w ≡ some v = rw same at e in
      (ground arith, ground arith, subst AreBytes k_is h.0.2)
  | inr other ↦ found-IsEntry k v m h.2 (rw other at e)
]

pub apps_set : IsSet (Option VirtualApp)
apps_set = hlevel ℕ_discrete

-- Every listed app is found under its identifier.
pub listed_found :
    (v : VirtualApp) (m : Dict VirtualApp)
    → AreEntries m
    → Mem v (map (λ e. e.1) m)
    → lookup v.id m ≡ some v
unfolding lookup
listed_found v [] h m = absurd (not-mem-nil m)
listed_found v ((j, w) ∷ rest) h m =
    Or.elim (apps_set _ _) (mem-cons.0 m)
      (λ e. ground (arith, h.0.0, ap (λ u. u.id) e, bytes_eq_refl w.id))
      (λ later. let ih = listed_found v rest h.2 later in ground (arith, h.1, bytes_eq_iff j v.id))
