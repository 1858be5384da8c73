-- ===== src/Bytes.antt =====
-- Memory and file contents as lists of bytes, and integers as the platform stores them: least
-- significant byte first (the structs of the program are written to disk as they lie in memory).
pub mod Laws
use sea.Prelude.{
  ℕ, zero, suc, ◌+◌, ◌-◌, ◌*◌, ◌/◌, ◌%◌, List, [], ◌∷◌, ◌++◌, length, take, drop, replicate,
}

-- The `k` bytes of an unsigned integer.
unfoldable pub le_bytes : ℕ → ℕ → List ℕ
le_bytes zero v = []
le_bytes (suc k) v = v % 256 ∷ le_bytes k (v / 256)

unfoldable pub of_le_bytes : List ℕ → ℕ
of_le_bytes [] = 0
of_le_bytes (b ∷ bs) = b + 256 * of_le_bytes bs

-- `k` bytes at offset `i` of an object, as an unsigned integer.
abbrev pub field_at : ℕ → ℕ → List ℕ → ℕ
field_at i k bs = of_le_bytes (take k (drop i bs))

-- A file after `w` was written at position `p`: a gap behind the end is filled with zeros.
unfoldable pub write_at : List ℕ → ℕ → List ℕ → List ℕ
write_at b p [] = b
write_at b p (x ∷ w) =
    take p b ++ (replicate (p - length b) 0 ++ ((x ∷ w) ++ drop (p + suc (length w)) b))

-- What a read of `n` bytes at position `p` gives.
abbrev pub read_at : List ℕ → ℕ → ℕ → List ℕ
read_at b p n = take n (drop p b)
