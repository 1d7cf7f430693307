-- ===== src/Strings.antt =====
-- strings.c: `StringArray`, the growing array of strings.
-- A string is a number that identifies it. `array` is `data`, NULL where `none`; an array
-- of `calloc` holds NULLs, and memory that `realloc` adds is set to NULL by the code.
pub mod Push
mod Tests
use chibicc.Common.{
  ℕ, suc, ◌*◌, ltb, length, Option, none, some, List, [], ◌∷◌, ◌++◌, ◌==◌, if◌then◌else◌, set,
  replicate,
}

pub record StringArray : Type 0 where
  pub array : Option (List (Option ℕ))
  pub capacity : ℕ
  pub len : ℕ

-- The array once there is one: `calloc(8, ...)`.
abbrev pub cells_of : Option (List (Option ℕ)) → ℕ → List (Option ℕ) × ℕ
cells_of none capacity = (replicate 8 none, 8)
cells_of (some cells) capacity = (cells, capacity)

-- Twice the cells, where `len` is the capacity.
abbrev pub grown : List (Option ℕ) × ℕ → ℕ → List (Option ℕ) × ℕ
grown (cells, capacity) len =
    if capacity == len then (cells ++ replicate capacity none, capacity * 2) else (cells, capacity)

-- `data[len++] = s`; `none` is a write out of bounds.
abbrev pub store : List (Option ℕ) × ℕ → ℕ → ℕ → Option StringArray
store (cells, capacity) len s =
    if ltb len (length cells)
    then some (record { array = some (set cells len (some s)); capacity = capacity; len = suc len })
    else none

unfoldable pub strarray_push : StringArray → ℕ → Option StringArray
strarray_push arr s = store (grown (cells_of arr.array arr.capacity) arr.len) arr.len s
