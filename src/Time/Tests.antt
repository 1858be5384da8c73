-- ===== src/Time/Tests.antt =====
-- Runs of the functions of src/block/time, and the theorems at concrete inputs.
use sea.Prelude.{
  ℕ, ◌+◌, ◌≡◌, refl, some, none, List, [], ◌∷◌, ◌++◌, length, arith, if◌then◌else◌, leb,
}
use sea.Bytes.{le_bytes, of_le_bytes}
use sea.Posix
use sea.Posix.{Os, ran, undefined}
use sea.Posix.Laws.{on_file}
use sea.Time.Data
use sea.Time.Index
use sea.Time.Index.{Header, Entry}
use sea.Time.Block
use sea.Time.Block.{Block, Appended, append, query_by_record_id, open_block}
use sea.Time.Block.Update.{update_refines}
use sea.Time.Data.Query.{query_two-on_file}
use sea.Time.Index.Query.{found}
use sea.Time.Block.Log.{Stored}
use sea.Time.Block.{create}
use sea.Time.Block.Create.{Made, create_empty}
use sea.Time.Block.Append.{HasSpace, append_refines}
use sea.Time.Block.Open.{OnDisk, open_then_query}
use sea.Time.Block.Lifetime.{Writable, append_each, numbered, stored_size, create_append_query}
use sea.Time.Block.Reuse.{append_then_query}
use sea.Time.Sample.{
  framed_sample, abc, xy, header, entries, contents, block, system, sample-IsLog, stored,
}

abbrev pqr : List ℕ
pqr = b'p' ∷ b'q' ∷ b'r' ∷ []

space : HasSpace (system 0 []) block (abc ∷ xy ∷ []) (stored 0) 3
unfolding stored le_bytes
space = record {
  nonempty = omega arith;
  frame_size = omega arith;
  file_size = omega arith;
  records = omega arith;
}

create_empty_example :
    (os' : Os) × (create (b'd' ∷ []) 5 0 8 (system 0 []) ≡ ran 0 os')
    × Made (system 0 []) os' (b'd' ∷ []) 5
    × (d : OnDisk os' (b'd' ∷ []) 5 []) × (d.index_inode ≡ 12)
    × (d.data_inode ≡ 13)
    × (d.b ≡ [])
    × (d.header.max_count ≡ 8)
create_empty_example =
    create_empty (system 0 []) (b'd' ∷ []) 5 0 8 (omega arith) refl refl refl (omega arith)
      (omega arith) (omega arith)

abbrev two_records : List (List ℕ)
two_records = abc ∷ xy ∷ []

two_records-Writable : Writable two_records
two_records-Writable = omega arith

-- A block with a limit of 1 is given two records.
create_append_query_example :
    (os1 : Os) × (os2 : Os) × (os3 : Os) × (os4 : Os) × (os5 : Os) × (block : Block)
    × (other : Block) × (create (b'd' ∷ []) 5 0 1 (system 0 []) ≡ ran 0 os1)
    × (open_block (b'd' ∷ []) 5 os1 ≡ ran (some block) os2)
    × (append_each (some block) two_records os2 ≡ ran ((0, 0) ∷ (0, 1) ∷ []) os3)
    × (open_block (b'd' ∷ []) 5 os3 ≡ ran (some other) os4)
    × (query_by_record_id other 1 8 os4 ≡ ran (record { ret = 0; copied = some xy }) os5)
unfolding numbered stored_size
create_append_query_example =
    create_append_query (system 0 []) (b'd' ∷ []) 5 0 1 two_records 1 8 xy (omega arith) refl
      (omega arith) refl refl (omega arith) (omega arith) (omega arith) two_records-Writable
      (omega arith) (omega arith) refl (omega arith)

append_refines_example :
    (a : Appended) × (block' : Block) × (os' : Os) × (append
        (some block)
        (some pqr)
        3
        0
        0
        (system 0 [])
      ≡ ran a os')
    × (a.ret ≡ 0)
    × (a.record_id ≡ 2)
    × (a.over_limit ≡ (if leb 3 3 then 1 else 0))
    × (a.block ≡ some block')
    × (s' : Stored os' block' (abc ∷ xy ∷ pqr ∷ [])) × (s'.data_pos ≡ length s'.b)
    × (length s'.b ≡ length contents + 19)
unfolding stored
append_refines_example = append_refines (stored 0) pqr 0 0 space

append_then_query_example :
    (a : Appended) × (block' : Block) × (os' : Os) × (os'' : Os) × (append
        (some block)
        (some pqr)
        3
        0
        0
        (system 0 [])
      ≡ ran a os')
    × (a.ret ≡ 0)
    × (a.block ≡ some block')
    × (query_by_record_id block' 2 64 os' ≡ ran (record { ret = 0; copied = some [] }) os'')
unfolding stored le_bytes
append_then_query_example = append_then_query (stored 0) pqr 0 0 2 64 pqr space (omega arith) refl

-- The same block as files on disk, under their names.
abbrev disk : Os
disk = record (system 0 []) {
  names = λ p.
      if Posix.path_eq (Index.filename (b'd' ∷ []) 9) p
      then some 11
      else if Posix.path_eq (Data.filename (b'd' ∷ []) 9) p
      then some 10
      else none;
}

on_disk : OnDisk disk (b'd' ∷ []) 9 (abc ∷ xy ∷ [])
unfolding Index.filename Data.filename Posix.decimal Posix.path_eq
on_disk = record {
  header = header;
  es = entries;
  b = contents;
  index_inode = 11;
  data_inode = 10;
  log = sample-IsLog;
  quiet = refl;
  index_name = refl;
  data_name = refl;
  index_file = refl;
  data_file = refl;
  other_inode = omega arith;
}

open_then_query_example :
    (opened : Block) × (os' : Os) × (os'' : Os) × (open_block (b'd' ∷ []) 9 disk
      ≡ ran (some opened) os')
    × (query_by_record_id opened 1 64 os' ≡ ran (record { ret = 0; copied = some xy }) os'')
unfolding on_disk le_bytes
open_then_query_example =
    open_then_query on_disk 1 64 xy (omega arith) (omega arith) (omega arith) refl (omega arith)

update_refines_example :
    (os' : Os) × (Block.update block 0 pqr 3 (system 0 []) ≡ ran 0 os')
    × Stored os' block (pqr ∷ xy ∷ [])
unfolding stored le_bytes
update_refines_example =
    update_refines (stored 0) 0 abc pqr refl (omega arith) refl (omega arith) (omega arith)

abbrev three : List ℕ
three = contents ++ framed_sample pqr

-- In a file of three records, a query for the second and the third returns the second alone.
query_two-on_file_example :
    Data.query_by_offsets
      (record { fd = 3 })
      (found (19 ∷ 37 ∷ []))
      (on_file (system 0 []) 3 10 three 0)
    ≡ ran (some (xy ∷ [])) (on_file (system 0 []) 3 10 three 66)
unfolding le_bytes of_le_bytes
query_two-on_file_example =
    query_two-on_file (system 0 []) 3 10 three (found (19 ∷ 37 ∷ [])) 19 37 xy [] refl (omega arith)
      (record { whole = refl; sized = refl; body = refl; fits = omega arith; small = omega arith })
      (omega arith) (omega arith)
