-- ===== src/Base/Dict.antt =====
-- A Go map with string (or byte array) keys, as an association list.
use mathlib.Core.Path.{◌≡◌, refl}
use mathlib.Core.Option.{Option, none, some}
use mathlib.Core.List.{List, [], ◌∷◌}
use native.Mathlib.Omega.{arith}
use sg_emulator.Base.Tests.{if◌then◌else◌}
use sg_emulator.Base.Bytes.{Bytes, bytes_eq, bytes_eq_iff, bytes_eq_refl}

abbrev pub Dict {ℓ} : Type ℓ → Type ℓ
Dict V = List (Bytes × V)

module _ {ℓ} {V : Type ℓ} where
  -- `m[k]`
  unfoldable pub lookup : Bytes → Dict V → Option V
  lookup k [] = none
  lookup k ((j, v) ∷ m) = if bytes_eq j k then some v else lookup k m

  -- `m[k] = v`
  unfoldable pub insert : Bytes → V → Dict V → Dict V
  insert k v [] = (k, v) ∷ []
  insert k v ((j, w) ∷ m) = if bytes_eq j k then (k, v) ∷ m else (j, w) ∷ insert k v m

  -- `delete(m, k)`
  unfoldable pub delete : Bytes → Dict V → Dict V
  delete k [] = []
  delete k ((j, w) ∷ m) = let rest = delete k m in if bytes_eq j k then rest else (j, w) ∷ rest

  pub lookup-insert :
      (j k : Bytes) (v : V) (m : Dict V)
      → lookup j (insert k v m) ≡ (if bytes_eq k j then some v else lookup j m)
  unfolding lookup insert
  lookup-insert j k v [] = refl
  lookup-insert j k v ((i, w) ∷ m) =
      ground (arith, bytes_eq_iff k j, bytes_eq_iff i k, bytes_eq_iff i j, lookup-insert j k v m)

  pub lookup-delete :
      (j k : Bytes) (m : Dict V)
      → lookup j (delete k m) ≡ (if bytes_eq k j then none else lookup j m)
  unfolding lookup delete
  lookup-delete j k [] = ground arith
  lookup-delete j k ((i, w) ∷ m) =
      ground (arith, bytes_eq_iff k j, bytes_eq_iff i k, bytes_eq_iff i j, lookup-delete j k m)

  pub lookup-insert_self : (k : Bytes) (v : V) (m : Dict V) → lookup k (insert k v m) ≡ some v
  lookup-insert_self k v m = ground (arith, lookup-insert k k v m, bytes_eq_refl k)

  pub lookup-delete_self : (k : Bytes) (m : Dict V) → lookup k (delete k m) ≡ none
  lookup-delete_self k m = ground (arith, lookup-delete k k m, bytes_eq_refl k)

  -- An entry that is put back leaves every look-up as it was.
  module _ (id : Bytes) (s : Dict V) where
    pub delete-insert :
        (v : V) (k : Bytes) → lookup id s ≡ none → lookup k (delete id (insert id v s)) ≡ lookup k s
    delete-insert v k e =
        ground
          (arith, lookup-delete k id (insert id v s), lookup-insert k id v s, bytes_eq_iff id k)

    pub insert-delete :
        (v : V) (k : Bytes)
        → lookup id s ≡ some v
        → lookup k (insert id v (delete id s)) ≡ lookup k s
    insert-delete v k e =
        ground (arith, lookup-insert k id v (delete id s), lookup-delete k id s, bytes_eq_iff id k)

    pub insert-insert :
        (v w : V) (k : Bytes)
        → lookup id s ≡ some v
        → lookup k (insert id v (insert id w s)) ≡ lookup k s
    insert-insert v w k e =
        ground
          (arith, lookup-insert k id v (insert id w s), lookup-insert k id w s, bytes_eq_iff id k)

  -- Storing the entry that is there changes nothing.
  pub insert_same : (k : Bytes) (v : V) (m : Dict V) → lookup k m ≡ some v → insert k v m ≡ m
  unfolding lookup insert
  insert_same k v [] e = cc
  insert_same k v ((j, w) ∷ m) e = ground (arith, bytes_eq_iff j k, insert_same k v m)
