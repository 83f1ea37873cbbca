-- ===== src/Base/Words.antt =====
-- Machine words: wrap-around, and the little-endian bytes of a word as `memcpy` lays them out.
use Prim.Native.Nat.{ℕ, zero, suc, ◌+◌, ◌-◌, ◌*◌, ◌/◌, ◌%◌, ◌^◌, ◌<◌}
use mathlib.Core.Path.{◌≡◌, refl, ap}
use mathlib.Core.List.{List, [], ◌∷◌}
use native.Mathlib.Omega.{arith}
use gate.Base.Tests.{Bytes}
use gate.Base.Lists.{length}

abbrev pub u8 : ℕ → ℕ
u8 n = n % 256

abbrev pub u32 : ℕ → ℕ
u32 n = n % 2 ^ 32

abbrev pub u64 : ℕ → ℕ
u64 n = n % 2 ^ 64

-- a - b on uint64_t.
abbrev pub sub64 : ℕ → ℕ → ℕ
sub64 a b = (a + 2 ^ 64 - b) % 2 ^ 64

-- The `w` bytes of a word, lowest first.
unfoldable pub le_bytes : ℕ → ℕ → Bytes
le_bytes zero n = []
le_bytes (suc w) n = (n % 256) ∷ le_bytes w (n / 256)

unfoldable pub of_le : Bytes → ℕ
of_le [] = 0
of_le (b ∷ bs) = b + 256 * of_le bs

pub length-le_bytes : (w n : ℕ) → length (le_bytes w n) ≡ w
unfolding le_bytes
length-le_bytes zero n = refl
length-le_bytes (suc w) n = ap suc (length-le_bytes w (n / 256))

-- 256 ^ w, by the recursion that the bytes follow.
abbrev pub pow256 : ℕ → ℕ
pow256 zero = 1
pow256 (suc w) = 256 * pow256 w

pub of_le-le_bytes : (w n : ℕ) → n < pow256 w → of_le (le_bytes w n) ≡ n
unfolding le_bytes of_le
of_le-le_bytes zero n h = omega arith
of_le-le_bytes (suc w) n h = omega (arith, of_le-le_bytes w (n / 256) (omega arith))

-- Each number is the one before it plus one, as uint64_t, the first counted from `last`.
abbrev pub Consecutive : ℕ → List ℕ → Type 0
Consecutive last [] = Unit {0}
Consecutive last (n ∷ ns) = (n ≡ u64 (last + 1)) × Consecutive n ns
