-- ===== src/Column.antt =====
-- src/block/array: a column, a file that holds a header and values of one fixed size. The parameter
-- `over_limit` of `append` is not used by the code, and is left out.
pub mod Append
pub mod Create
pub mod Read
mod Tests
use sea.Prelude.{
  ℕ, zero, suc, ◌+◌, ◌-◌, ◌*◌, ◌/◌, ◌%◌, ◌^◌, true, false, Option, none, some, List, [], ◌∷◌, ◌++◌,
  ltb, ◌==◌, if◌then◌else◌, length, take, drop,
}
use sea.Bytes.{le_bytes, field_at}
use sea.Posix
use sea.Posix.{
  M, pure, undef, einval, enomem, memcpy, uninit_bytes, lseek_set, lseek_end, write, read,
  ftruncate, close, open_file, file_exists, get_errno, ◌>>=◌, ◌>>◌,
}
use sea.Time.Utils.{size_of_write, offset_of}

-- The value types are numbers; the widths of the single and the double float are both 8.
unfoldable pub type_size : ℕ → ℕ
type_size type =
    if type == 1
    then 1
    else if type == 2
    then 1
    else if type == 3
    then 2
    else if type == 4
    then 2
    else if type == 5
    then 4
    else if type == 6
    then 4
    else if type == 7
    then 8
    else if type == 8
    then 8
    else if type == 9
    then 8
    else if type == 10
    then 8
    else if type == 11
    then 16
    else 4

-- struct col_array_info: a type and a name of 32 bytes, ended by a zero.
pub record Info : Type 0 where
  pub record_type : ℕ
  pub col_name : List ℕ

pub record Header : Type 0 where
  pub count : ℕ
  pub record_type : ℕ
  pub col_name : List ℕ

pub record Column : Type 0 where
  pub fd : ℕ
  pub header : Header

-- sizeof(struct col_array_hdr), which is packed
abbrev pub header_size : ℕ
header_size = 37

unfoldable pub header_bytes : Header → List ℕ
header_bytes h = le_bytes 4 h.count ++ (le_bytes 1 h.record_type ++ h.col_name)

unfoldable pub header_of : List ℕ → Header
header_of bs = record {
  count = field_at 0 4 bs;
  record_type = field_at 4 1 bs;
  col_name = take 32 (drop 5 bs);
}

-- The bytes before the first zero; a string with no end inside its object is not read.
unfoldable pub string_of : List ℕ → Option (List ℕ)
string_of [] = none
string_of (c ∷ cs) =
    let rest = string_of cs in
    if c == 0 then some [] else elim rest [ none ↦ none | some s ↦ some (c ∷ s) ]

unfoldable pub strlen : List ℕ → M (List ℕ)
strlen cs = elim (string_of cs) [ none ↦ undef | some s ↦ pure s ]

write_header : ℕ → Header → M ℕ
write_header fd h = do
  r ← write fd (header_bytes h)
  ret ← (if size_of_write r == header_size then pure header_size else get_errno)
  (if ltb 0 fd then close fd else pure tt)
  pure ret

-- What the name does not cover of `col_name` is never set. The result of `write` is returned.
create_column : List ℕ → Info → M ℕ
unfolding write_header
create_column path info = do
  fd ← open_file path true
  elim fd [
    | none ↦ get_errno
    | some fd ↦ (do
      name ← strlen info.col_name
      rest ← uninit_bytes (5 + length name) (32 - length name)
      write_header fd
          (record { count = 0; record_type = info.record_type; col_name = take 32 (name ++ rest) }))
  ]

unfoldable pub create : List ℕ → Option Info → M ℕ
unfolding create_column
create path none = pure einval
create path (some info) = create_column path info

-- Where the file is there, the code unlinks the path in a buffer that it has not filled.
unfoldable pub destroy : List ℕ → M ℕ
destroy path = do there ← file_exists path; (if there then undef else pure 0)

-- The pointer that `open` returns: null, to freed memory, to memory that was not filled, or to a
-- column.
pub data ColumnPointer : Type 0 where
  null freed unset : ColumnPointer
  valid : Column → ColumnPointer

close_if : ℕ → M (Unit {0})
close_if fd = if ltb 0 fd then close fd else pure tt

-- The end of `open` where something went wrong: by the value of `errno` it may count as success.
give_up : ℕ → ℕ → M (ℕ × ColumnPointer)
unfolding close_if
give_up fd ret = if ret == 0 then pure (0, unset) else (do close_if fd; pure (ret, freed))

read_column : ℕ → M (ℕ × ColumnPointer)
unfolding give_up
read_column fd = do
  r ← read fd header_size
  elim r [
    | none ↦ (do e ← get_errno; give_up fd e)
    | some bs ↦
        if length bs == header_size
        then pure (0, valid (record { fd = fd; header = header_of bs }))
        else (do e ← get_errno; give_up fd e)
  ]

unfoldable pub open_column : List ℕ → M (ℕ × ColumnPointer)
unfolding read_column
open_column path = do
  got ← Posix.malloc 44
  if got
      then (do
        fd ← open_file path false
        elim fd [ none ↦ (do e ← get_errno; pure (e, freed)) | some fd ↦ read_column fd ])
      else pure (enomem, null)

unfoldable pub close_column : Column → M (Unit {0})
close_column c = close c.fd

-- The number of whole values in a buffer, and their bytes.
abbrev pub whole_values : ℕ → ℕ → ℕ
whole_values type n = n / type_size type

abbrev pub whole_size : ℕ → ℕ → ℕ
whole_size type n = whole_values type n * type_size type

abbrev pub counted : Header → ℕ → Header
counted h n = record h { count = (h.count + n) % 2 ^ 32 }

-- Updates the header after the values; whether that works is not tested.
append_header : Column → ℕ → M (ℕ × Column)
append_header c n = do
  let c' = record c { header = counted c.header n }
  lseek_set c.fd 0
  write c.fd (header_bytes c'.header)
  pure (0, c')

unfoldable pub append : Column → List ℕ → ℕ → M (ℕ × Column)
unfolding append_header
append c buffer record_size = do
  end ← lseek_end c.fd 0
  values ← memcpy buffer (whole_size c.header.record_type record_size)
  r ← write c.fd values
  if size_of_write r == whole_size c.header.record_type record_size
      then append_header c (whole_values c.header.record_type record_size)
      else (do ret ← get_errno; ftruncate c.fd (offset_of end); pure (ret, c))

-- The code, the bytes copied and the number of values.
pub record Values : Type 0 where
  pub ret : ℕ
  pub bytes : Option (List ℕ)
  pub real_count : Option ℕ

abbrev pub span_size : ℕ → ℕ → ℕ → ℕ
span_size type start stop = ((stop + 2 ^ 32 - start) % 2 ^ 32 * type_size type) % 2 ^ 32

abbrev pub smaller : ℕ → ℕ → ℕ
smaller buf span = if ltb span buf then span else buf

unfoldable pub read_values : Column → ℕ → ℕ → ℕ → M Values
read_values c start stop record_size = do
  let type = c.header.record_type
  lseek_set c.fd ((start * type_size type) % 2 ^ 32 + header_size)
  r ← read c.fd (smaller (whole_size type record_size) (span_size type start stop))
  elim r [
    | none ↦ (do e ← get_errno; pure (record { ret = e; bytes = none; real_count = none }))
    | some bs ↦
        pure (record { ret = 0; bytes = some bs; real_count = some (length bs / type_size type) })
  ]
