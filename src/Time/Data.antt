-- ===== src/Time/Data.antt =====
-- src/block/time/sea_block_data.c: the data file of a block. Each record stands between a header
-- and a tail of eight bytes. The parameter `overlimit` of `append` and the parameter `max_size` of
-- `create` are not used by the code, and are left out.
pub mod Append
pub mod Frame
pub mod Query
use sea.Prelude.{
  ℕ, zero, suc, ◌+◌, ◌-◌, ◌%◌, ◌^◌, true, false, Option, none, some, List, [], ◌∷◌, ◌++◌, ltb, ◌==◌,
  if◌then◌else◌, length,
}
use sea.Bytes.{le_bytes, field_at}
use sea.Posix
use sea.Posix.{
  M, pure, undef, einval, enoent, memcpy, uninit_bytes, lseek_set, lseek_cur, lseek_end, write,
  read, close, open_file, file_exists, unlink, get_errno, decimal, ◌>>=◌, ◌>>◌,
}
use sea.Time.Utils.{
  path_max, snprintf, sub_dir, size_of_write, size_of_read, offset_of, sign_extend,
}
use sea.Time.Offset
use sea.Time.Offset.{OffsetList}
use sea.Time.Record
use sea.Time.Record.{RecordList}

pub record Data : Type 0 where
  pub fd : ℕ

-- "%s/%llu/%llu"
unfoldable pub filename : List ℕ → ℕ → List ℕ
filename dir block_id = snprintf path_max (sub_dir dir block_id ++ (b'/' ∷ decimal block_id))

unfoldable pub create : List ℕ → ℕ → M ℕ
create dir block_id = do
  fd ← open_file (filename dir block_id) true
  elim fd [ none ↦ get_errno | some fd ↦ close fd >> pure 0 ]

unfoldable pub destroy : List ℕ → ℕ → M ℕ
destroy dir block_id = do
  there ← file_exists (filename dir block_id)
  if there
      then (do r ← unlink (filename dir block_id); elim r [ none ↦ get_errno | some _ ↦ pure 0 ])
      else pure 0

unfoldable pub open_data : List ℕ → ℕ → M (Option Data)
open_data dir block_id = do
  fd ← open_file (filename dir block_id) false
  elim fd [
    | none ↦ pure none
    | some fd ↦ do got ← Posix.malloc 4; pure (if got then some (record { fd = fd }) else none)
  ]

unfoldable pub close_data : Data → M ℕ
close_data d = do (if ltb 0 d.fd then close d.fd else pure tt); pure 0

-- struct sea_block_data_header and struct sea_block_data_tail; the padding is never set.
abbrev pub magic_header : ℕ
magic_header = b'^'

abbrev pub magic_tail : ℕ
magic_tail = b'$'

abbrev pub header_bytes : List ℕ → ℕ → List ℕ
header_bytes pad n = magic_header ∷ 0 ∷ (pad ++ le_bytes 4 n)

abbrev pub tail_bytes : List ℕ → ℕ → List ℕ
tail_bytes pad n = le_bytes 4 n ++ (pad ++ magic_tail ∷ [])

abbrev pub frame : List ℕ → List ℕ → ℕ → List ℕ → List ℕ
frame head_pad tail_pad n payload = header_bytes head_pad n ++ (payload ++ tail_bytes tail_pad n)

-- The buffer that `append` and `insert_by_offsets` fill, if there is memory for it. Its size is an
-- `int`, and `memcpy` does not stop at it.
unfoldable pub build : List ℕ → ℕ → M (Option (List ℕ))
build buffer len = do
  head_pad ← uninit_bytes 2 2
  tail_pad ← uninit_bytes 12 3
  let buf_len = (16 + len) % 2 ^ 32
  got ← Posix.malloc (sign_extend buf_len)
  if got
      then (do
        payload ← memcpy buffer len
        if ltb buf_len (16 + len) then undef else pure (some (frame head_pad tail_pad len payload)))
      else pure none

write_frame : Data → List ℕ → M ℕ
write_frame d buf = do
  size ← write d.fd buf
  pure (if size_of_write size == length buf then 0 else enoent)

-- The result code, and the offset (unchanged if it is not reached).
unfoldable pub append : Data → List ℕ → ℕ → ℕ → M (ℕ × ℕ)
unfolding build write_frame
append d buffer len offset = do
  buf ← build buffer len
  elim buf [
    | none ↦ pure (einval, offset)
    | some buf ↦ do end ← lseek_end d.fd 0; ret ← write_frame d buf; pure (ret, offset_of end)
  ]

unfoldable pub insert_by_offsets : Data → OffsetList → List ℕ → ℕ → M ℕ
unfolding build write_frame
insert_by_offsets d offset buffer len = do
  buf ← build buffer len
  elim buf [
    | none ↦ pure einval
    | some buf ↦ do off ← Offset.get offset 0; lseek_set d.fd off; write_frame d buf
  ]

-- The length field of a header that was read.
abbrev pub header_length : List ℕ → ℕ
header_length bs = field_at 4 4 bs

-- What stands in the record's buffer after the read.
read_buffer : ℕ → Option (List ℕ) → M (List ℕ)
read_buffer n none = uninit_bytes 0 n
read_buffer n (some bs) = pure bs

-- The record whose header was read: `none` where the code leaves the loop.
read_record : Data → ℕ → List ℕ → M (Option (List ℕ))
unfolding read_buffer
read_record d offset header = do
  lseek_set d.fd ((offset + 8) % 2 ^ 64)
  got ← Posix.malloc (header_length header)
  if got
      then (do
        r ← read d.fd (header_length header)
        buf ← read_buffer (header_length header) r
        pure (if size_of_read r == header_length header then some buf else none))
      else pure none

-- One round up to the append: `none` where the code leaves the loop.
read_at_offset : Data → ℕ → M (Option (List ℕ))
unfolding read_record
read_at_offset d offset = do
  lseek_cur d.fd offset
  r ← read d.fd 8
  elim r [
    | none ↦ pure none
    | some header ↦ if length header == 8 then read_record d offset header else pure none
  ]

query_loop : ℕ → Data → OffsetList → ℕ → Option RecordList → M (Option RecordList)
unfolding read_at_offset
query_loop zero d offsets i list = pure list
query_loop (suc rounds) d offsets i list = do
  offset ← Offset.get offsets i
  found ← read_at_offset d offset
  elim found [
    | none ↦ pure list
    | some buf ↦ do r ← Record.append list buf (length buf); query_loop rounds d offsets (i + 1) r.1
  ]

unfoldable pub query_by_offsets : Data → OffsetList → M (Option RecordList)
unfolding query_loop
query_by_offsets d offsets = do
  list ← Record.malloc
  query_loop (Offset.count offsets) d offsets 0 list
