-- ===== src/Time/Block.antt =====
-- src/block/time/sea_block.c: a block, its data file and its index file together. The unused
-- parameters of the files below are left out here too.
pub mod Log
pub mod Append
pub mod Read
pub mod Open
pub mod Reuse
pub mod Update
pub mod Afresh
pub mod Live
pub mod Lifetime
pub mod Apart
pub mod Paths
pub mod Create
pub mod Bounds
use sea.Prelude.{
  ℕ, zero, suc, ◌+◌, ◌*◌, Option, none, some, List, [], ◌∷◌, ltb, ◌==◌, ◌||◌, if◌then◌else◌, length,
  take,
}
use sea.Posix
use sea.Posix.{M, pure, undef, einval, enoent, ◌>>=◌, ◌>>◌}
use sea.Time.Offset.{OffsetList}
use sea.Time.Record
use sea.Time.Record.{RecordList}
use sea.Time.Data
use sea.Time.Data.{Data}
use sea.Time.Index
use sea.Time.Index.{Index}

pub record Block : Type 0 where
  pub dir : List ℕ
  pub block_id : ℕ
  pub handle : Data
  pub index : Index

abbrev pub max_size_default : ℕ
max_size_default = 128 * 1024 * 1024

abbrev pub max_count_default : ℕ
max_count_default = 128 * 1024

-- `max_size` is replaced by its default where it is 0, and then read by nothing.
unfoldable pub create : List ℕ → ℕ → ℕ → ℕ → M ℕ
create dir block_id max_size max_count = do
  ret ← Index.create dir block_id (if max_count == 0 then max_count_default else max_count)
  if ret == 0 then Data.create dir block_id else pure ret

unfoldable pub destroy : List ℕ → ℕ → M (Unit {0})
destroy dir block_id = do Data.destroy dir block_id; Index.destroy dir block_id; pure tt

open_parts : List ℕ → ℕ → M (Option Block)
open_parts dir block_id = do
  d ← Data.open_data dir block_id
  elim d [
    | none ↦ pure none
    | some d ↦ (do
      r ← Index.open_index dir block_id
      elim r.1 [
        | none ↦ pure none
        | some i ↦ pure (some (record { dir = dir; block_id = block_id; handle = d; index = i }))
      ])
  ]

-- sizeof(struct sea_block) is 32. `none` is a null pointer.
unfoldable pub open_block : List ℕ → ℕ → M (Option Block)
unfolding open_parts
open_block dir block_id = do
  got ← Posix.malloc 32
  if got
      then (do
        got_dir ← Posix.malloc (length dir + 1)
        if got_dir then open_parts dir block_id else pure none)
      else pure none

unfoldable pub close_block : Block → M (Unit {0})
close_block block = do Data.close_data block.handle; Index.close_index block.index

-- The block after the call, and the values of the variables that the pointers name.
pub record Appended : Type 0 where
  pub ret : ℕ
  pub block : Option Block
  pub record_id : ℕ
  pub over_limit : ℕ

append_parts : Block → List ℕ → ℕ → ℕ → ℕ → M Appended
append_parts block buffer len record_id over_limit = do
  r ← Data.append block.handle buffer len 0
  if r.0 == 0
      then (do
        a ← Index.append block.index r.1
        pure (record {
          ret = a.ret;
          block = some (record block { index = a.index });
          record_id = a.record_id;
          over_limit = a.over_limit;
        }))
      else pure
          (record { ret = r.0; block = some block; record_id = record_id; over_limit = over_limit })

append_checked : Option Block → Option (List ℕ) → ℕ → ℕ → ℕ → M Appended
unfolding append_parts
append_checked (some block) (some buffer) len record_id over_limit =
    if len == 0
    then pure (record {
      ret = einval;
      block = some block;
      record_id = record_id;
      over_limit = over_limit;
    })
    else append_parts block buffer len record_id over_limit
append_checked block _ len record_id over_limit =
    pure (record { ret = einval; block = block; record_id = record_id; over_limit = over_limit })

-- `record_id` and `over_limit` are what the caller's variables hold before.
unfoldable pub append : Option Block → Option (List ℕ) → ℕ → ℕ → ℕ → M Appended
unfolding append_checked
append block buffer len record_id over_limit = append_checked block buffer len record_id over_limit

records_at : Block → Option OffsetList → M (Option RecordList)
records_at block none = pure none
records_at block (some offsets) = Data.query_by_offsets block.handle offsets

unfoldable pub query_by_count : Block → ℕ → ℕ → M (Option RecordList × Option ℕ)
unfolding records_at
query_by_count block first count = do
  found ← Index.query_by_count block.index first count
  list ← records_at block found.offsets
  pure (list, found.real_count)

unfoldable pub query_by_time : Block → ℕ → ℕ → ℕ → M (Option RecordList × ℕ)
unfolding records_at
query_by_time block stop first real_count = do
  found ← Index.query_by_time block.index stop first real_count
  list ← records_at block found.0
  pure (list, found.1)

-- The result code, and what was copied into the caller's buffer, with its length in `ret_buf_len`.
pub record Answer : Type 0 where
  pub ret : ℕ
  pub copied : Option (List ℕ)

abbrev pub first_bytes : Option (List ℕ) → List ℕ
first_bytes none = []
first_bytes (some r) = r

copy : ℕ → List ℕ → Answer
copy buf_len r =
    if ltb buf_len (length r)
    then record { ret = enoent; copied = none }
    else record { ret = 0; copied = some r }

-- Where the list is empty, the length stays 0 and nothing is copied.
answer : ℕ → Option RecordList → Answer
unfolding copy Record.get_first
answer buf_len none = record { ret = einval; copied = none }
answer buf_len (some list) = copy buf_len (first_bytes (Record.get_first list))

unfoldable pub query_by_record_id : Block → ℕ → ℕ → M Answer
unfolding records_at answer
query_by_record_id block record_id buf_len = do
  found ← Index.query_by_record_id block.index record_id
  list ← records_at block found
  pure (answer buf_len list)

update_at : Block → Option OffsetList → List ℕ → ℕ → M ℕ
update_at block none buffer len = pure einval
update_at block (some offset) buffer len = Data.insert_by_offsets block.handle offset buffer len

unfoldable pub update : Block → ℕ → List ℕ → ℕ → M ℕ
unfolding update_at
update block record_id buffer len = do
  found ← Index.query_by_record_id block.index record_id
  update_at block found buffer len
