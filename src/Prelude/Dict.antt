-- ===== src/Prelude/Dict.antt =====
-- Python's `dict` as an association list: an assignment to a present key keeps its place, a new
-- key goes last.
use mathlib.Core.Path.{◌≡◌, refl}
use mathlib.Core.Bool.{Bool, not}
use mathlib.Core.Option.{Option, none, some}
use mathlib.Core.List.{List, [], ◌∷◌}
use native.Mathlib.Omega.{arith}
use cloudify_common.Prelude.Tests.{if◌then◌else◌, is_none}
use cloudify_common.Prelude.Equality.{Eq, ◌==◌}

abbrev pub Dict {ℓ κ} : Type ℓ → Type κ → Type (ℓ ⊔ κ)
Dict K V = List (K × V)

-- `o` if it holds a value, `d` otherwise.
abbrev pub or_else {ℓ} : {A : Type ℓ} → Option A → Option A → Option A
or_else none d = d
or_else (some a) d = some a

module _ {ℓ κ} {K : Type ℓ} {V : Type κ} ⦃e : Eq K⦄ where
  -- `m.get(k)`
  unfoldable pub get : K → Dict K V → Option V
  get k [] = none
  get k ((j, v) ∷ m) = if j == k then some v else get k m

  -- `m[k] = v`
  unfoldable pub put : K → V → Dict K V → Dict K V
  put k v [] = (k, v) ∷ []
  put k v ((j, w) ∷ m) = if j == k then (k, v) ∷ m else (j, w) ∷ put k v m

  -- `m.pop(k, None)`, the value left out
  unfoldable pub remove : K → Dict K V → Dict K V
  remove k [] = []
  remove k ((j, w) ∷ m) = let rest = remove k m in if j == k then rest else (j, w) ∷ rest

  -- `m.update(n)`
  unfoldable pub update : Dict K V → Dict K V → Dict K V
  update m [] = m
  update m ((k, v) ∷ n) = update (put k v m) n

  -- `k in m`
  abbrev pub has_key : K → Dict K V → Bool
  has_key k m = not (is_none (get k m))

  -- No key stands twice.
  abbrev pub IsDict : Dict K V → Type κ
  IsDict [] = Unit
  IsDict ((k, v) ∷ m) = (get k m ≡ none) × IsDict m

  pub get-nil : (k : K) → get k [] ≡ none
  unfolding get
  get-nil k = refl

  pub get-put :
      (k j : K) (v : V) (m : Dict K V) → get j (put k v m) ≡ (if k == j then some v else get j m)
  unfolding get put
  get-put k j v [] = refl
  get-put k j v ((i, w) ∷ m) =
      ground (arith, e.same_iff k j, e.same_iff i k, e.same_iff i j, get-put k j v m)

  pub get-remove :
      (k j : K) (m : Dict K V) → get j (remove k m) ≡ (if k == j then none else get j m)
  unfolding get remove
  get-remove k j [] = ground arith
  get-remove k j ((i, w) ∷ m) =
      ground (arith, e.same_iff k j, e.same_iff i k, e.same_iff i j, get-remove k j m)

  pub get-update :
      (j : K) (m n : Dict K V) → IsDict n → get j (update m n) ≡ or_else (get j n) (get j m)
  unfolding get update
  get-update j m [] d = refl
  get-update j m ((k, v) ∷ n) d =
      ground (arith, e.same_iff k j, get-put k j v m, get-update j (put k v m) n d.1)
