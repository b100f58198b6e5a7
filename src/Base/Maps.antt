-- ===== src/Base/Maps.antt =====
-- Go's maps as association lists with one entry for each key. The order of the entries is that of
-- their insertion; Go's own iteration order is unspecified.
use honryu.Base.Tests.{if◌then◌else◌}
use mathlib.Core.Path.{◌≡◌, refl, ap, ◌∙◌}
use mathlib.Core.Logic.{◌↔◌}
use mathlib.Core.Bool.{Bool, true, false}
use mathlib.Core.Option.{Option, none, some}
use mathlib.Core.List.{List, [], ◌∷◌}
use native.Mathlib.Omega.{arith}

module _ {ℓ κ} {K : Type ℓ} {V : Type κ} (eq : K → K → Bool) where
  unfoldable pub lookup : K → List (K × V) → Option V
  lookup k [] = none
  lookup k ((j, v) ∷ m) = if eq j k then some v else lookup k m

  -- `m[k] = v`
  unfoldable pub store : K → V → List (K × V) → List (K × V)
  store k v [] = (k, v) ∷ []
  store k v ((j, w) ∷ m) = if eq j k then (j, v) ∷ m else (j, w) ∷ store k v m

  -- `delete(m, k)`
  unfoldable pub delete : K → List (K × V) → List (K × V)
  delete k [] = []
  delete k ((j, v) ∷ m) = let rest = delete k m in if eq j k then rest else (j, v) ∷ rest

  unfoldable pub lookup_or : V → K → List (K × V) → V
  lookup_or d k [] = d
  lookup_or d k ((j, v) ∷ m) = if eq j k then v else lookup_or d k m

  pub store-there :
      (k j : K) (w v : V) (m : List (K × V))
      → eq j k ≡ false
      → store k w ((j, v) ∷ m) ≡ (j, v) ∷ store k w m
  unfolding store
  store-there k j w v m h = rw (h, store) refl

  pub lookup_or-there :
      (d : V) (k j : K) (v : V) (m : List (K × V))
      → eq j k ≡ false
      → lookup_or d k ((j, v) ∷ m) ≡ lookup_or d k m
  unfolding lookup_or
  lookup_or-there d k j v m h = rw (h, lookup_or) refl

  -- `m[k]`, changed: at its entry, and at a later one.
  pub update-here :
      (f : V → V) (d : V) (k j : K) (v : V) (m : List (K × V))
      → eq j k ≡ true
      → store k (f (lookup_or d k ((j, v) ∷ m))) ((j, v) ∷ m) ≡ (j, f v) ∷ m
  unfolding lookup_or store
  update-here f d k j v m h = simp h refl

  pub update-there :
      (f : V → V) (d : V) (k j : K) (v : V) (m : List (K × V))
      → eq j k ≡ false
      → store k (f (lookup_or d k ((j, v) ∷ m))) ((j, v) ∷ m)
        ≡ (j, v) ∷ store k (f (lookup_or d k m)) m
  update-there f d k j v m h =
      store-there k j (f (lookup_or d k ((j, v) ∷ m))) v m h
      ∙ ap (λ w. (j, v) ∷ store k (f w) m) (lookup_or-there d k j v m h)

  module _ (eq_iff : (a b : K) → (eq a b ≡ true) ↔ (a ≡ b)) where
    pub lookup-store :
        (k j : K) (v : V) (m : List (K × V))
        → lookup j (store k v m) ≡ (if eq k j then some v else lookup j m)
    unfolding lookup store
    lookup-store k j v [] = refl
    lookup-store k j v ((i, w) ∷ m) =
        ground (arith, eq_iff i k, eq_iff i j, eq_iff k j, lookup-store k j v m)

    pub lookup_or-store :
        (d : V) (k j : K) (v : V) (m : List (K × V))
        → lookup_or d j (store k v m) ≡ (if eq k j then v else lookup_or d j m)
    unfolding lookup_or store
    lookup_or-store d k j v [] = refl
    lookup_or-store d k j v ((i, w) ∷ m) =
        ground (arith, eq_iff i k, eq_iff i j, eq_iff k j, lookup_or-store d k j v m)

    pub lookup_or-same :
        (d : V) (k : K) (v : V) (m : List (K × V)) → lookup_or d k (store k v m) ≡ v
    lookup_or-same d k v m = ground (arith, lookup_or-store d k k v m, eq_iff k k)

    pub lookup-delete :
        (k j : K) (m : List (K × V)) → lookup j (delete k m) ≡ (if eq k j then none else lookup j m)
    unfolding lookup delete
    lookup-delete k j [] = ground arith
    lookup-delete k j ((i, w) ∷ m) =
        ground (arith, eq_iff i k, eq_iff i j, eq_iff k j, lookup-delete k j m)

    pub lookup-same : (k : K) (v : V) (m : List (K × V)) → lookup k (store k v m) ≡ some v
    lookup-same k v m = ground (arith, lookup-store k k v m, eq_iff k k)

    pub store-store : (k : K) (v w : V) (m : List (K × V)) → store k w (store k v m) ≡ store k w m
    unfolding store
    store-store k v w [] = ground (arith, eq_iff k k)
    store-store k v w ((j, u) ∷ m) = ground (arith, eq_iff j k, store-store k v w m)
