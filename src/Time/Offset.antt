-- ===== src/Time/Offset.antt =====
-- src/block/time/sea_block_offset.c: a growing array of file offsets.
pub mod Laws
use sea.Prelude.{
  ℕ, zero, suc, ◌+◌, ◌-◌, ◌*◌, Option, none, some, List, [], ◌∷◌, ◌++◌, ltb, leb, ==_refl, ◌==◌,
  if◌then◌else◌, length, get_or,
}
use sea.Posix
use sea.Posix.{M, pure, undef, einval, ◌>>=◌}

-- `offsets` are the slots that `count` counts; the others hold the zeros of `memset`. `room` is
-- the number of slots that the caller's pointer reaches: none once `realloc` has moved the block.
pub record OffsetList : Type 0 where
  pub size : ℕ
  pub room : ℕ
  pub offsets : List ℕ

-- sizeof(struct sea_block_offset): three 32-bit fields, padded for the 64-bit slots.
abbrev pub header_size : ℕ
header_size = 16

abbrev pub increment_size : ℕ
increment_size = 1280

abbrev pub count : OffsetList → ℕ
count h = length h.offsets

abbrev pub fresh : OffsetList
fresh = record { size = header_size + increment_size * 8; room = increment_size; offsets = [] }

unfoldable pub malloc : M (Option OffsetList)
malloc = do
  got ← Posix.malloc (header_size + increment_size * 8)
  pure (if got then some fresh else none)

-- The branch that the test `count >= size` leads to.
unfoldable pub grow : OffsetList → ℕ → M (ℕ × OffsetList)
grow h offset = do
  got ← Posix.malloc ((h.size - header_size) * 2 + header_size)
  if got
      then pure (0, record { size = h.size * 2; room = 0; offsets = h.offsets ++ offset ∷ [] })
      else pure (einval, h)

unfoldable pub append : OffsetList → ℕ → M (ℕ × OffsetList)
unfolding grow
append h offset =
    if leb h.size (count h)
    then grow h offset
    else if ltb (count h) h.room
    then pure (0, record h { offsets = h.offsets ++ offset ∷ [] })
    else undef

unfoldable pub get : OffsetList → ℕ → M ℕ
get h i = if ltb i h.room then pure (get_or h.offsets i 0) else undef

-- Appends the elements of an array, one call for each. The pointer is not tested before.
unfoldable pub append_all : Option OffsetList → List ℕ → M (Option OffsetList)
append_all h [] = pure h
append_all none (o ∷ os) = undef
append_all (some h) (o ∷ os) = ◌>>=◌ (append h o) (λ r. append_all (some r.1) os)
