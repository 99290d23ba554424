-- ===== src/Common/Sets.antt =====
-- Python's and Redis's sets of numbers, as lists that are only asked for members.
use Prim.Native.Nat.{ℕ}
use mathlib.Core.Path.{◌≡◌, refl}
use mathlib.Core.Bool.{Bool, false, ◌||◌, ◌&&◌, not}
use mathlib.Core.List.{List, [], ◌∷◌}
use native.Mathlib.Omega.{arith}
use pipe_lens.Common.Tests.{◌==◌, if◌then◌else◌}

-- `n in s`
unfoldable pub has : ℕ → List ℕ → Bool
has n [] = false
has n (m ∷ s) = m == n || has n s

-- `s.add(n)`
unfoldable pub add : ℕ → List ℕ → List ℕ
add n s = if has n s then s else n ∷ s

-- `s.discard(n)`
unfoldable pub discard : ℕ → List ℕ → List ℕ
discard n [] = []
discard n (m ∷ s) = let rest = discard n s in if m == n then rest else m ∷ rest

pub has-discard : (n m : ℕ) (s : List ℕ) → has m (discard n s) ≡ (has m s && not (n == m))
unfolding has discard
has-discard n m [] = refl
has-discard n m (k ∷ s) = ground (arith, has-discard n m s)

pub has-add : (n m : ℕ) (s : List ℕ) → has m (add n s) ≡ (n == m || has m s)
unfolding has add
has-add n m s = ground arith
