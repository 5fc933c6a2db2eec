-- ===== src/Prelude/Set.antt =====
-- Python's `set` of numbers that name objects, as a list.
use Prim.Native.Nat.{ℕ}
use mathlib.Core.Path.{◌≡◌}
use mathlib.Core.Bool.{Bool, false, not, ◌||◌, ◌&&◌}
use mathlib.Core.List.{List, [], ◌∷◌}
use native.Mathlib.Omega.{arith}
use cloudify_common.Prelude.Tests.{if◌then◌else◌, nat_beq}

-- `x in s`
unfoldable pub mem : ℕ → List ℕ → Bool
mem x [] = false
mem x (y ∷ s) = nat_beq y x || mem x s

-- `s.add(x)`
unfoldable pub add : ℕ → List ℕ → List ℕ
add x s = if mem x s then s else x ∷ s

-- `s.discard(x)`
unfoldable pub discard : ℕ → List ℕ → List ℕ
discard x [] = []
discard x (y ∷ s) = let rest = discard x s in if nat_beq y x then rest else y ∷ rest

pub mem-add : (x y : ℕ) (s : List ℕ) → mem y (add x s) ≡ (nat_beq x y || mem y s)
unfolding add mem
mem-add x y s = ground arith

pub mem-discard : (x y : ℕ) (s : List ℕ) → mem y (discard x s) ≡ (not (nat_beq x y) && mem y s)
unfolding discard mem
mem-discard x y [] = ground arith
mem-discard x y (z ∷ s) = ground (arith, mem-discard x y s)
