-- ===== src/Time/Index.antt =====
-- src/block/time/sea_block_index.c: the index file of a block, a header of 40 bytes and one entry
-- of 16 bytes for each record, written as the packed structs lie in memory. The parameters
-- `start` and `count` of `query_by_time` are not used by the code, and are left out.
pub mod Layout
pub mod Append
pub mod Query
pub mod Range
pub mod Failure
mod Tests
use sea.Prelude.{
  ℕ, zero, suc, ◌+◌, ◌-◌, ◌*◌, ◌%◌, ◌^◌, true, false, Option, none, some, List, [], ◌∷◌, ◌++◌, ltb,
  leb, ◌==◌, if◌then◌else◌, length, take, drop, map, ◌&&◌,
}
use sea.Bytes.{le_bytes, field_at}
use sea.Posix
use sea.Posix.{
  M, pure, undef, einval, enomem, lseek_set, lseek_end, write, read, ftruncate, close, open_file,
  file_exists, unlink, get_errno, set_errno, ◌>>=◌, ◌>>◌,
}
use sea.Time.Utils.{
  path_max, snprintf, sub_dir, make_sub_dir, get_current_mills, size_of_write, size_of_read,
}
use sea.Time.Offset
use sea.Time.Offset.{OffsetList}

pub record Header : Type 0 where
  pub block_id : ℕ
  pub max_count : ℕ
  pub start_timestamp : ℕ
  pub stop_timestamp : ℕ
  pub count : ℕ
  pub unused : ℕ

pub record Entry : Type 0 where
  pub timestamp : ℕ
  pub offset : ℕ

pub record Index : Type 0 where
  pub fd : ℕ
  pub header : Header

abbrev pub header_size : ℕ
header_size = 40

abbrev pub entry_size : ℕ
entry_size = 16

-- The structs as they stand in the file, and as they are read back.
unfoldable pub header_bytes : Header → List ℕ
header_bytes h =
    le_bytes 8 h.block_id
    ++ (le_bytes 8 h.max_count
        ++ (le_bytes 8 h.start_timestamp
            ++ (le_bytes 8 h.stop_timestamp ++ (le_bytes 4 h.count ++ le_bytes 4 h.unused))))

unfoldable pub header_of : List ℕ → Header
header_of bs = record {
  block_id = field_at 0 8 bs;
  max_count = field_at 8 8 bs;
  start_timestamp = field_at 16 8 bs;
  stop_timestamp = field_at 24 8 bs;
  count = field_at 32 4 bs;
  unused = field_at 36 4 bs;
}

unfoldable pub entry_bytes : Entry → List ℕ
entry_bytes e = le_bytes 8 e.timestamp ++ le_bytes 8 e.offset

unfoldable pub entry_of : List ℕ → Entry
entry_of bs = record { timestamp = field_at 0 8 bs; offset = field_at 8 8 bs }

-- An array of `n` entries in a buffer.
unfoldable pub entries_of : ℕ → List ℕ → List Entry
unfolding entry_of
entries_of zero bs = []
entries_of (suc n) bs = entry_of (take entry_size bs) ∷ entries_of n (drop entry_size bs)

-- "%s/%llu/index"
unfoldable pub filename : List ℕ → ℕ → List ℕ
filename dir block_id =
    snprintf path_max (sub_dir dir block_id ++ (b'/' ∷ b'i' ∷ b'n' ∷ b'd' ∷ b'e' ∷ b'x' ∷ []))

abbrev pub new_header : ℕ → ℕ → ℕ → Header
new_header block_id max_count now = record {
  block_id = block_id;
  max_count = max_count;
  start_timestamp = now;
  stop_timestamp = now;
  count = 0;
  unused = 0;
}

write_new_header : ℕ → ℕ → ℕ → M ℕ
write_new_header fd block_id max_count = do
  now ← get_current_mills
  r ← write fd (header_bytes (new_header block_id max_count now))
  ret ← elim r [ none ↦ get_errno | some _ ↦ pure 0 ]
  close fd
  pure ret

unfoldable pub create : List ℕ → ℕ → ℕ → M ℕ
unfolding write_new_header
create dir block_id max_count = do
  make_sub_dir dir block_id
  fd ← open_file (filename dir block_id) true
  elim fd [ none ↦ get_errno | some fd ↦ write_new_header fd block_id max_count ]

unfoldable pub destroy : List ℕ → ℕ → M ℕ
destroy dir block_id = do
  there ← file_exists (filename dir block_id)
  if there
      then (do r ← unlink (filename dir block_id); elim r [ none ↦ get_errno | some _ ↦ pure 0 ])
      else pure 0

-- Closes the descriptor of a failed open; descriptor 0 counts as none.
give_up : ℕ → ℕ → M (ℕ × Option Index)
give_up fd ret = do (if ltb 0 fd then close fd else pure tt); pure (ret, none)

read_header : ℕ → M (ℕ × Option Index)
unfolding give_up
read_header fd = do
  r ← read fd header_size
  elim r [
    | none ↦ give_up fd einval
    | some bs ↦
        if length bs == header_size
        then (do
          got ← Posix.malloc 44
          if got
              then pure (0, some (record { fd = fd; header = header_of bs }))
              else give_up fd enomem)
        else give_up fd einval
  ]

-- The error code, and the index unless the pointer is null.
unfoldable pub open_index : List ℕ → ℕ → M (ℕ × Option Index)
unfolding read_header
open_index dir block_id = do
  fd ← open_file (filename dir block_id) false
  elim fd [ none ↦ (do ret ← get_errno; pure (ret, none)) | some fd ↦ read_header fd ]

unfoldable pub close_index : Index → M (Unit {0})
close_index index = close index.fd

pub record Appended : Type 0 where
  pub ret : ℕ
  pub index : Index
  pub record_id : ℕ
  pub over_limit : ℕ

-- The header in memory, before anything is written.
abbrev pub counted : Header → ℕ → Header
counted h now = record h { count = (h.count + 1) % 2 ^ 32; stop_timestamp = now }

abbrev pub uncounted : Header → Header
uncounted h = record h { count = (h.count + (2 ^ 32 - 1)) % 2 ^ 32 }

abbrev pub at_limit : Header → ℕ
at_limit h = if leb h.max_count h.count then 1 else 0

-- The second write, and what is undone where it fails.
append_header : Index → ℕ → ℕ → M Appended
append_header index record_id over_limit = do
  lseek_set index.fd 0
  r ← write index.fd (header_bytes index.header)
  if size_of_write r == header_size
      then pure (record { ret = 0; index = index; record_id = record_id; over_limit = over_limit })
      else (do
        let index' = record index { header = uncounted index.header }
        ftruncate index.fd (header_size + entry_size * index'.header.count)
        pure
            (record { ret = 0xff; index = index'; record_id = record_id; over_limit = over_limit }))

append_entry : Index → Entry → ℕ → ℕ → M Appended
unfolding append_header
append_entry index entry record_id over_limit = do
  lseek_end index.fd 0
  r ← write index.fd (entry_bytes entry)
  if size_of_write r == entry_size
      then append_header index record_id over_limit
      else pure
          (record { ret = einval; index = index; record_id = record_id; over_limit = over_limit })

unfoldable pub append : Index → ℕ → M Appended
unfolding append_entry
append index offset = do
  now ← get_current_mills
  let h = counted index.header now
  append_entry (record index { header = h }) (record { timestamp = now; offset = offset })
      index.header.count (at_limit h)

-- An array of offsets, or a null pointer, and the value of `*real_count` where it is set.
pub record Found : Type 0 where
  pub offsets : Option OffsetList
  pub real_count : Option ℕ

abbrev pub read_count : ℕ → ℕ → ℕ → ℕ
read_count total first count = if ltb ((first + count) % 2 ^ 32) total then count else total - first

abbrev pub entry_offset : Entry → ℕ
entry_offset e = e.offset

read_entries : Index → Option OffsetList → ℕ → M Found
read_entries index offsets n = do
  r ← read index.fd (entry_size * n)
  elim r [
    | none ↦ pure (record { offsets = offsets; real_count = none })
    | some bs ↦
        if length bs % 2 ^ 32 == entry_size * n
        then (do
          filled ← Offset.append_all offsets (map entry_offset (entries_of n bs))
          pure (record { offsets = filled; real_count = some n }))
        else pure (record { offsets = offsets; real_count = none })
  ]

-- Where the first record is not there, the code goes on to free a pointer that it has not set.
unfoldable pub query_by_count : Index → ℕ → ℕ → M Found
unfolding read_entries
query_by_count index first count = do
  lseek_set index.fd (header_size + entry_size * first)
  if leb index.header.count first then undef else (do
    offsets ← Offset.malloc
    got ← Posix.malloc (entry_size * read_count index.header.count first count)
    if got
        then read_entries index offsets (read_count index.header.count first count)
        else pure (record { offsets = offsets; real_count = none }))

-- `errno` for a record that is not there: EOF is -1.
abbrev pub eof : ℕ
eof = 2 ^ 32 - 1

append_or_crash : Option OffsetList → ℕ → M OffsetList
append_or_crash none offset = undef
append_or_crash (some h) offset = do r ← Offset.append h offset; pure r.1

-- The offsets, and the number of them added to `real_count`, which the caller has set.
time_loop : ℕ → ℕ → ℕ → Option OffsetList → ℕ → M (Option OffsetList × ℕ)
unfolding append_or_crash
time_loop zero fd stop offsets real_count = pure (offsets, real_count)
time_loop (suc rounds) fd stop offsets real_count = do
  r ← read fd entry_size
  elim r [
    | none ↦ pure (offsets, real_count)
    | some bs ↦
        if length bs == entry_size && ltb (entry_of bs).timestamp stop
        then (do
          filled ← append_or_crash offsets (entry_of bs).offset
          time_loop rounds fd stop (some filled) ((real_count + 1) % 2 ^ 32))
        else pure (offsets, real_count)
  ]

unfoldable pub query_by_time : Index → ℕ → ℕ → ℕ → M (Option OffsetList × ℕ)
unfolding time_loop
query_by_time index stop first real_count =
    if leb index.header.count first then (do set_errno eof; pure (none, real_count)) else (do
      lseek_set index.fd (header_size + entry_size * first)
      offsets ← Offset.malloc
      time_loop (index.header.count - first) index.fd stop offsets real_count)

unfoldable pub query_by_record_id : Index → ℕ → M (Option OffsetList)
unfolding append_or_crash
query_by_record_id index record_id =
    if leb index.header.count record_id then (do set_errno eof; pure none) else (do
      lseek_set index.fd (header_size + entry_size * record_id)
      offsets ← Offset.malloc
      r ← read index.fd entry_size
      elim r [
        | none ↦ pure offsets
        | some bs ↦
            if length bs == entry_size
            then (do filled ← append_or_crash offsets (entry_of bs).offset; pure (some filled))
            else pure offsets
      ])
