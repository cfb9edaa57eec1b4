-- ===== src/Base/Words.antt =====
-- Arrays of 32-bit integers of at least 0 in memory: four bytes each, the least significant first.
use Prim.Native.Nat.{ℕ, zero, suc, ◌+◌, ◌*◌, ◌/◌, ◌%◌, ◌<◌}
use mathlib.Core.Path.{◌≡◌, refl, ap}
use mathlib.Core.List.{List, [], ◌∷◌, ◌++◌}
use native.Mathlib.Omega.{arith}
use in_lib.Base.Lists.{length, get_or, drop, All}

abbrev pub write_u32 : ℕ → List ℕ
write_u32 n = n % 256 ∷ n / 256 % 256 ∷ n / 65536 % 256 ∷ n / 16777216 % 256 ∷ []

abbrev pub write_u32s : List ℕ → List ℕ
write_u32s [] = []
write_u32s (x ∷ xs) = write_u32 x ++ write_u32s xs

-- The integer in the first four bytes.
abbrev pub u32_at : List ℕ → ℕ
u32_at bs = get_or bs 0 0 + 256 * get_or bs 1 0 + 65536 * get_or bs 2 0 + 16777216 * get_or bs 3 0

-- The first `n` integers.
abbrev pub u32s_at : ℕ → List ℕ → List ℕ
u32s_at zero bs = []
u32s_at (suc n) bs = u32_at bs ∷ u32s_at n (drop 4 bs)

pub u32_at-write_u32 : (x : ℕ) (bs : List ℕ) → x < 4294967296 → u32_at (write_u32 x ++ bs) ≡ x
u32_at-write_u32 x bs h = omega arith

pub length-write_u32s : (xs : List ℕ) → length (write_u32s xs) ≡ 4 * length xs
length-write_u32s [] = refl
length-write_u32s (x ∷ xs) = omega (arith, length-write_u32s xs)

pub u32s_at-write_u32s :
    (xs : List ℕ) → All (λ x. x < 4294967296) xs → u32s_at (length xs) (write_u32s xs) ≡ xs
u32s_at-write_u32s [] h = refl
u32s_at-write_u32s (x ∷ xs) h =
    rw (u32_at-write_u32 x (write_u32s xs) h.0) (ap (λ ys. x ∷ ys) (u32s_at-write_u32s xs h.1))
