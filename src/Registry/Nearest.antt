-- ===== src/Registry/Nearest.antt =====
-- The k closest virtual apps (GetKClosest of internal/server/registry.go).
use mathlib.Core.List.{Perm}
use mathlib.Core.List.Perm
use sg_emulator.Base.{
  ℕ, ◌<◌, ◌≤◌, ◌≡◌, refl, sym, ◌∙◌, ap, List, [], ◌∷◌, suc, ◌++◌, map, length, leb, if◌then◌else◌,
  arith,
}
use sg_emulator.Base.Bytes.{AreBytes}
use sg_emulator.Base.Dict.{Dict}
use sg_emulator.Base.Int.{ℤ, pos}
use sg_emulator.Base.Action.{ok}
use sg_emulator.Id.{ScalegraphId, id_length}
use sg_emulator.Registry.{
  VirtualApp, Registry, list_apps, count, xor_distance, sort_by, take, get_k_closest,
}
use sg_emulator.Registry.Distance.{xor_distance_inj}
use sg_emulator.Registry.Sorting.{
  IsSorted, Separates, sort_by-perm, sort_by-IsSorted, length-sort_by, sorted_unique, drop,
  take-append-drop, length-take,
}
use sg_emulator.Registry.Laws.{IsRegistry, AreEntries, listed_found, found-IsEntry}

abbrev pub distance_to : ScalegraphId → VirtualApp → ℕ
distance_to target v = xor_distance target v.id

-- What `GetKClosest` answers: a beginning of the registered apps in the order of their distance.
pub record Nearest (largest : ℕ) (target : ScalegraphId) (k : ℕ) (r : Registry) : Type 0 where
  pub chosen : List VirtualApp
  pub others : List VirtualApp
  pub answer : get_k_closest largest target (pos k) r ≡ ok chosen
  pub whole : Perm (chosen ++ others) (list_apps r)
  pub sorted : IsSorted (distance_to target) (chosen ++ others)
  pub size : length chosen ≡ (if leb k (count r) then k else count r)

length-list_apps : (m : Dict VirtualApp) → length (map (λ e. e.1) m) ≡ length m
length-list_apps [] = refl
length-list_apps (e ∷ m) = ap suc (length-list_apps m)

-- For a positive k that `make` can allocate, `GetKClosest` answers with k registered apps, or with
-- all if there are fewer, nearest first, and no registered app that is left out is nearer than one of
-- them.
pub get_k_closest-Nearest :
    (largest : ℕ) (target : ScalegraphId) (k : ℕ) (r : Registry)
    → 0 < k
    → k ≤ largest
    → Nearest largest target k r
unfolding get_k_closest count list_apps
get_k_closest-Nearest largest target k r h fits =
    let vs = sort_by (distance_to target) (list_apps r) in
    record {
      chosen = take k vs;
      others = drop k vs;
      answer = ground arith;
      whole = rw (take-append-drop k vs) (sort_by-perm (distance_to target) (list_apps r));
      sorted = rw (take-append-drop k vs) (sort_by-IsSorted (distance_to target) (list_apps r));
      size =
          rw (← length-list_apps r.by_id, ← length-sort_by (distance_to target) (list_apps r))
            (length-take k vs);
    }

module _ (target : ScalegraphId) (bytes : AreBytes target) (size : length target ≡ id_length) where
  registry-Separates :
      (m : Dict VirtualApp) → AreEntries m → Separates (distance_to target) (map (λ e. e.1) m)
  registry-Separates m h v w mv mw e =
      let found_v = listed_found v m h mv in
      let found_w = listed_found w m h mw in
      let at_v = found-IsEntry v.id v m h found_v in
      let at_w = found-IsEntry w.id w m h found_w in
      let same =
        xor_distance_inj target v.id w.id bytes at_v.2 at_w.2 (at_v.1 ∙ sym size)
          (at_w.1 ∙ sym size) e in
      ground (arith, found_v, found_w, same)

  -- The answer does not depend on the order in which the map is read: two well-formed registries
  -- with the same apps give the same answer, which may be the error or the panic for k.
  pub get_k_closest-perm :
      (largest : ℕ) (k : ℤ) (r r' : Registry)
      → IsRegistry r
      → Perm (list_apps r) (list_apps r')
      → get_k_closest largest target k r ≡ get_k_closest largest target k r'
  unfolding get_k_closest list_apps
  get_k_closest-perm largest k r r' h p =
      let key = distance_to target in
      let there = sort_by-perm key (list_apps r) in
      let same =
        sorted_unique key _ _ (sort_by-IsSorted key (list_apps r))
          (sort_by-IsSorted key (list_apps r'))
          (Perm.trans there (Perm.trans p (Perm.symm (sort_by-perm key (list_apps r')))))
          (λ v w mv mw.
            registry-Separates r.by_id h v w ((Perm.mem_iff there).0 mv)
              ((Perm.mem_iff there).0 mw)) in
      rw same refl
