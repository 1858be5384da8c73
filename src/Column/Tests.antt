-- ===== src/Column/Tests.antt =====
-- Runs of the functions of src/block/array, and the theorems at concrete inputs.
use sea.Prelude.{
  ℕ, ◌+◌, ◌≡◌, refl, none, some, List, [], ◌∷◌, ◌++◌, length, take, replicate, arith, if◌then◌else◌,
  ◌==◌, false,
}
use sea.Bytes.{le_bytes}
use sea.Posix
use sea.Posix.{Os, Run, ran, undefined, fine, short}
use sea.Posix.Laws.{on_file}
use sea.Posix.Faulty.{queue}
use sea.Column.{
  open_column, valid, Info, Header, Column, header_bytes, create, append, read_values, type_size,
  string_of, strlen,
}
use sea.Column.Create.{create_then_open}
use sea.Column.Append.{Stored, append_whole, append_cut}
use sea.Column.Read.{append_then_read}

-- A column of numbers of 16 bits, with one number in it.
abbrev header : Header
header = record { count = 1; record_type = 3; col_name = b'n' ∷ replicate 31 0 }

abbrev column : Column
column = record { fd = 3; header = header }

abbrev one : List ℕ
one = 1 ∷ 0 ∷ []

-- Two numbers, and a half of one.
abbrev more : List ℕ
more = 2 ∷ 0 ∷ 3 ∷ 0 ∷ 9 ∷ []

abbrev system : Os
system = record {
  names = λ p. none;
  dirs = λ p. false;
  bytes = λ i. if i == 10 then header_bytes header ++ one else [];
  fds = λ fd. if fd == 3 then some (record { inode = 10; pos = 0 }) else none;
  next_inode = 11;
  next_fd = 4;
  errno = 0;
  faults = [];
  clock = λ n. n;
  ticks = 0;
  uninit = λ n. 170;
}

stored : Stored system column one
unfolding type_size
stored = record {
  inode = 10;
  pos = 0;
  file = record { opened = refl; content = refl; quiet = refl };
  named = refl;
  total = refl;
}

append_whole_example :
    (c' : Column) × (os' : Os) × (append column more 5 system ≡ ran (0, c') os')
    × (c'.header.count ≡ 3)
    × Stored os' c' (1 ∷ 0 ∷ 2 ∷ 0 ∷ 3 ∷ 0 ∷ [])
unfolding type_size
append_whole_example =
    append_whole stored more 5 (omega arith) (omega arith) (omega arith) (omega arith)

append_cut_example :
    append column more 5
      (queue (short 1 ∷ fine ∷ []) (on_file system 3 10 (header_bytes header ++ one) 0))
    ≡ ran
        (0, column)
        (queue [] (
          on_file system 3 10
            (header_bytes header ++ one)
            (length (header_bytes header ++ one) + 1)))
unfolding type_size
append_cut_example =
    append_cut system 3 10 0 header one more 5 refl (omega arith) (omega arith) (omega arith) [] 1
      (omega arith)

append_then_read_example :
    (c' : Column) × (os' : Os) × (os'' : Os) × (append column more 5 system ≡ ran (0, c') os')
    × (read_values c' 1 c'.header.count 5 os'
        ≡ ran (record { ret = 0; bytes = some (2 ∷ 0 ∷ 3 ∷ 0 ∷ []); real_count = some 2 }) os'')
unfolding type_size
append_then_read_example =
    append_then_read stored more 5 (omega arith) (omega arith) (omega arith) (omega arith)

code_of : Run ℕ → ℕ
code_of (ran n s) = n
code_of undefined = 99

-- A column that was created is reported with the size of its header as the code.
create_code :
    code_of
      (create (b'c' ∷ []) (some (record { record_type = 3; col_name = b'n' ∷ 0 ∷ [] })) system)
    ≡ 37
unfolding code_of create string_of header_bytes le_bytes strlen Posix.open_file Posix.uninit_bytes
    Posix.write Posix.close
create_code = refl

abbrev info : Info
info = record { record_type = 3; col_name = b'n' ∷ 0 ∷ [] }

create_then_open_example :
    (c : Column) × (os' : Os) × (os'' : Os) × (create (b'c' ∷ []) (some info) system ≡ ran 37 os')
    × (os'.faults ≡ [])
    × (open_column (b'c' ∷ []) os' ≡ ran (0, valid c) os'')
    × Stored os'' c []
    × (c.header.record_type ≡ 3)
    × (take 1 c.header.col_name ≡ b'n' ∷ [])
unfolding string_of
create_then_open_example =
    create_then_open system (b'c' ∷ []) info (b'n' ∷ []) refl refl refl (omega arith) (omega arith)
      (omega arith)
