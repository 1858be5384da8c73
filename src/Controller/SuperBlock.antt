-- ===== src/Controller/SuperBlock.antt =====
-- src/controller/super_block.c: the number of the block that is written next, which is meant to
-- survive a restart as the one record of a block of its own. `md5` stands for the text that the
-- library's `md5` leaves in a buffer.
pub mod Restart
pub mod Fresh
use sea.Prelude.{
  ℕ, ◌+◌, ◌-◌, ◌%◌, ◌^◌, Option, none, some, List, [], ◌∷◌, ◌++◌, ltb, ◌||◌, if◌then◌else◌, length,
  take,
}
use sea.Bytes.{le_bytes, of_le_bytes}
use sea.Posix
use sea.Posix.{M, pure, undef, einval, uninit_bytes, ◌>>=◌, ◌>>◌}
use sea.Column.{strlen}
use sea.Time.Block
use sea.Time.Block.{Block, Answer, max_size_default, max_count_default}

-- The two texts are arrays of 32 and of PATH_MAX characters.
pub record SuperBlock : Type 0 where
  pub controller_name : List ℕ
  pub dir : List ℕ
  pub block_id : ℕ

-- `sea_block_query_by_record_id` with a null pointer for the buffer, to which nothing can be copied.
unfoldable pub into_null : Answer → M Answer
into_null a = elim a.copied [ none ↦ pure a | some bs ↦ elim bs [ [] ↦ pure a | c ∷ cs ↦ undef ] ]

unfoldable pub get_block_id : SuperBlock → M (ℕ × ℕ)
get_block_id sb = pure (0, sb.block_id)

unfoldable pub close_super_block : SuperBlock → M ℕ
close_super_block sb = pure 0

create_if_null : List ℕ → ℕ → Option Block → M ℕ
create_if_null dir id none = Block.create dir id max_size_default max_count_default
create_if_null dir id (some block) = pure 0

-- Opens the block, creates it where that fails, and opens it in any case once more.
unfoldable pub open_created : List ℕ → ℕ → M (Option Block)
unfolding create_if_null
open_created dir id = do
  there ← Block.open_block dir id
  create_if_null dir id there
  Block.open_block dir id

module _ (md5 : List ℕ → List ℕ) where
  -- The first characters of the digest, read as a number.
  abbrev pub controller_get_block_id : List ℕ → ℕ
  controller_get_block_id db_name = of_le_bytes (take 8 (md5 db_name))

  take_next : SuperBlock → ℕ → Block → M (ℕ × SuperBlock)
  unfolding into_null
  take_next sb id block = do
    found ← Block.query_by_record_id block 0 8
    into_null found
    Block.close_block block
    pure (0, record sb { block_id = (id + 1) % 2 ^ 64 })

  unfoldable pub sync_super_block_from_disk : SuperBlock → M (ℕ × SuperBlock)
  unfolding take_next
  sync_super_block_from_disk sb = do
    name ← strlen sb.controller_name
    dir ← strlen sb.dir
    block ← open_created dir (controller_get_block_id name)
    elim block [
      | none ↦ pure (einval, sb)
      | some block ↦ take_next sb (controller_get_block_id name) block
    ]

  unfoldable pub sync_super_block_to_disk : SuperBlock → M ℕ
  sync_super_block_to_disk sb = do
    name ← strlen sb.controller_name
    dir ← strlen sb.dir
    block ← Block.open_block dir (controller_get_block_id name)
    elim block [
      | none ↦ pure einval
      | some block ↦ (do
        ret ← Block.update block 0 (le_bytes 8 sb.block_id) 8
        Block.close_block block
        pure ret)
    ]

  -- What is copied over the start of the arrays has no end of its own: the rest is never set. The
  -- result of the call that fills `block_id` is not tested.
  filled : List ℕ → List ℕ → M (Option SuperBlock)
  filled dir db_name = do
    name_rest ← uninit_bytes (length db_name) (32 - length db_name)
    dir_rest ← uninit_bytes (32 + length dir) (4096 - length dir)
    id ← uninit_bytes 4128 8
    synced ← sync_super_block_from_disk (record {
      controller_name = db_name ++ name_rest;
      dir = dir ++ dir_rest;
      block_id = of_le_bytes id;
    })
    pure (some synced.1)

  unfoldable pub open_or_create : List ℕ → List ℕ → M (Option SuperBlock)
  unfolding filled
  open_or_create dir db_name = do
    got ← Posix.malloc 4136
    if got
        then (if ltb 32 (length db_name) || ltb 4096 (length dir)
            then undef
            else filled dir db_name)
        else pure none

  unfoldable pub expire_block_id : SuperBlock → M (ℕ × SuperBlock)
  expire_block_id sb = do
    let sb' = record sb { block_id = (sb.block_id + 1) % 2 ^ 64 }
    sync_super_block_to_disk sb'
    pure (0, sb')
