-- ===== src/Bytes.antt =====
-- The little-endian form of a u32: Rust's `u32::from_le_bytes` and `u32::to_le_bytes`, and Node's
-- `Buffer.readUInt32LE` and `Buffer.writeUInt32LE`. A byte is a number below 256.
use js_sidecar.Prelude.{
  ℕ, ◌+◌, ◌-◌, ◌*◌, ◌/◌, ◌%◌, ◌^◌, ◌≤◌, ◌<◌, ◌≡◌, refl, List, [], ◌∷◌, ◌++◌, arith, length, get_or,
  get_or-append, take, drop, All, Option, none, some, ltb, if◌then◌else◌,
}

abbrev pub u32_mod : ℕ
u32_mod = 2 ^ 32

abbrev pub IsU32 : ℕ → Type 0
IsU32 n = n < 2 ^ 32

abbrev pub IsByte : ℕ → Type 0
IsByte b = b < 256

unfoldable pub to_le_bytes : ℕ → List ℕ
to_le_bytes n = n % 256 ∷ n / 2 ^ 8 % 256 ∷ n / 2 ^ 16 % 256 ∷ n / 2 ^ 24 % 256 ∷ []

unfoldable pub from_le_bytes : ℕ → ℕ → ℕ → ℕ → ℕ
from_le_bytes a b c d = a + 2 ^ 8 * b + 2 ^ 16 * c + 2 ^ 24 * d

-- The four bytes of `header` from `at` on, as Rust reads them from an array that has them.
unfoldable pub u32_at : List ℕ → ℕ → ℕ
unfolding from_le_bytes
u32_at bytes at =
    from_le_bytes (get_or bytes at 0) (get_or bytes (at + 1) 0) (get_or bytes (at + 2) 0)
      (get_or bytes (at + 3) 0)

-- `buffer.readUInt32LE(at)`: `none` is the RangeError of a read past the end.
unfoldable pub read_u32_le : List ℕ → ℕ → Option ℕ
unfolding u32_at
read_u32_le buffer at = if ltb (length buffer) (at + 4) then none else some (u32_at buffer at)

-- `buffer.subarray(from, to)`: both ends are clamped to the length, and a range that ends before it
-- begins is empty.
abbrev pub subarray : List ℕ → ℕ → ℕ → List ℕ
subarray buffer from to = take (to - from) (drop from buffer)

pub length-to_le_bytes : (n : ℕ) → length (to_le_bytes n) ≡ 4
unfolding to_le_bytes
length-to_le_bytes n = refl

pub to_le_bytes-IsByte : (n : ℕ) → All IsByte (to_le_bytes n)
unfolding to_le_bytes
to_le_bytes-IsByte n = omega arith

pub u32_at-to_le_bytes : (n : ℕ) (rest : List ℕ) → IsU32 n → u32_at (to_le_bytes n ++ rest) 0 ≡ n
unfolding u32_at to_le_bytes
u32_at-to_le_bytes n rest h = omega arith

-- Bytes behind the four that are read do not matter.
pub u32_at-append :
    (xs ys : List ℕ) (at : ℕ) → at + 4 ≤ length xs → u32_at (xs ++ ys) at ≡ u32_at xs at
unfolding u32_at
u32_at-append xs ys at h = ground (
  arith,
  get_or-append xs ys at 0,
  get_or-append xs ys (at + 1) 0,
  get_or-append xs ys (at + 2) 0,
  get_or-append xs ys (at + 3) 0,
)
