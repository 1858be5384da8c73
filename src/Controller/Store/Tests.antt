-- ===== src/Controller/Store/Tests.antt =====
-- A node that is started in an empty directory, and in one with a block.
use sea.Prelude.{
  ℕ, zero, suc, ◌+◌, ◌≤◌, ◌<◌, ◌^◌, ◌≡◌, refl, sym, subst, some, none, List, [], ◌∷◌, arith,
  get_elem?, if◌then◌else◌, ◌==◌,
}
use mathlib.Core.Option.{some_inj, some-ne-none}
use sea.Bytes.{le_bytes, of_le_bytes}
use sea.Posix
use sea.Posix.{Os, ran, undefined}
use sea.Time.Data
use sea.Time.Index
use sea.Time.Index.{Header}
use sea.Time.Index.Layout.{index_bytes}
use sea.Time.Block.Paths.{data-data_ne, index-index_ne, data-index_ne, path_eq_ne}
use sea.Time.Sample.{abc, xy, header, entries, contents, system, sample-IsLog}
use sea.Controller.{Controller, data_dir, create, write}
use sea.Controller.PhoneList.{Slot}
use sea.Controller.Sample.{direct, digest, idle_dht, idle_nng, pqr}
use sea.Controller.Store.{Held, Absent, Shelf}
use sea.Controller.Store.Get.{shelf_get}
use sea.Controller.Store.Start.{Blank}
use sea.Controller.Store.Reads.{Wanted, found, failed, promised, read_all, start_then_reads}
use sea.Controller.Store.FirstWrite.{first_write_overreads}

abbrev no_files : Os
no_files = system 0 []

no_files-Blank : Blank no_files
no_files-Blank = record {
  quiet = refl;
  positive = omega arith;
  absent = λ id lt. record { data_name = refl; index_name = refl };
  ends = record { name_end = refl; dir_end = refl };
}

first_write_overreads_example :
    (c : Controller (ℕ → Slot)) × (os' : Os) × (create direct digest data_dir no_files
      ≡ ran (some c) os')
    × (write idle_dht idle_nng direct digest c (some pqr) 3 0 os' ≡ undefined)
unfolding of_le_bytes
first_write_overreads_example =
    first_write_overreads direct idle_dht idle_nng digest no_files no_files-Blank pqr (omega arith)
      (omega arith) (omega arith)

-- The super block's own block 9, with no record, and the block 10 with two.
abbrev own_header : Header
own_header = record header { count = 0 }

abbrev next_header : Header
next_header = record header { block_id = 10 }

abbrev with_blocks : Os
with_blocks = record (system 0 []) {
  bytes = λ i.
      if i == 10
      then contents
      else if i == 11
      then index_bytes next_header entries
      else if i == 13
      then index_bytes own_header []
      else [];
  names = λ p.
      if Posix.path_eq (Data.filename data_dir 9) p
      then some 12
      else if Posix.path_eq (Index.filename data_dir 9) p
      then some 13
      else if Posix.path_eq (Data.filename data_dir 10) p
      then some 10
      else if Posix.path_eq (Index.filename data_dir 10) p
      then some 11
      else none;
  next_inode = 14;
}

own_block : Held with_blocks 9 []
unfolding Index.filename Data.filename Posix.decimal Posix.path_eq
own_block = record {
  on_disk = record {
    header = own_header;
    es = [];
    b = [];
    index_inode = 13;
    data_inode = 12;
    log = record { total = refl; header = omega arith; entries = tt; records = tt };
    quiet = refl;
    index_name = refl;
    data_name = refl;
    index_file = refl;
    data_file = refl;
    other_inode = omega arith;
  };
  size = omega arith;
  few = omega arith;
}

next_block : Held with_blocks 10 (abc ∷ xy ∷ [])
unfolding Index.filename Data.filename Posix.decimal Posix.path_eq le_bytes
next_block = record {
  on_disk = record {
    header = next_header;
    es = entries;
    b = contents;
    index_inode = 11;
    data_inode = 10;
    log = record {
      total = refl;
      header = omega arith;
      entries = sample-IsLog.entries;
      records = sample-IsLog.records;
    };
    quiet = refl;
    index_name = refl;
    data_name = refl;
    index_file = refl;
    data_file = refl;
    other_inode = omega arith;
  };
  size = omega arith;
  few = omega arith;
}

none_else : (id : ℕ) → 11 ≤ id → id < 2 ^ 64 → Absent with_blocks id
none_else id le lt = record {
  data_name =
      rw
        (
          path_eq_ne (Data.filename data_dir 9) (Data.filename data_dir id)
              (data-data_ne data_dir (omega arith) (omega arith) lt (omega arith)),
          path_eq_ne (Index.filename data_dir 9) (Data.filename data_dir id)
              (λ e. data-index_ne data_dir (omega arith) id 9 (sym e)),
          path_eq_ne (Data.filename data_dir 10) (Data.filename data_dir id)
              (data-data_ne data_dir (omega arith) (omega arith) lt (omega arith)),
          path_eq_ne (Index.filename data_dir 10) (Data.filename data_dir id)
              (λ e. data-index_ne data_dir (omega arith) id 10 (sym e)),
        )
        refl;
  index_name =
      rw
        (
          path_eq_ne (Data.filename data_dir 9) (Index.filename data_dir id)
              (data-index_ne data_dir (omega arith) 9 id),
          path_eq_ne (Index.filename data_dir 9) (Index.filename data_dir id)
              (index-index_ne data_dir (omega arith) (omega arith) lt (omega arith)),
          path_eq_ne (Data.filename data_dir 10) (Index.filename data_dir id)
              (data-index_ne data_dir (omega arith) 10 id),
          path_eq_ne (Index.filename data_dir 10) (Index.filename data_dir id)
              (index-index_ne data_dir (omega arith) (omega arith) lt (omega arith)),
        )
        refl;
}

shelf_block :
    (i : ℕ) (rs : List (List ℕ))
    → get_elem? ([] ∷ (abc ∷ xy ∷ []) ∷ []) i ≡ some rs
    → Held with_blocks (9 + i) rs
shelf_block zero rs e = subst (Held with_blocks 9) (some_inj.0 e) own_block
shelf_block (suc zero) rs e = subst (Held with_blocks 10) (some_inj.0 e) next_block
shelf_block (suc (suc i)) rs e = absurd (some-ne-none rs (sym e))

shelf : Shelf with_blocks 9 ([] ∷ (abc ∷ xy ∷ []) ∷ [])
shelf = record {
  quiet = refl;
  positive = omega arith;
  held = shelf_block;
  beyond = λ id le lt. none_else id (omega (arith, le)) lt;
}

-- Both records, one that is not there, the own block, and a block that is not there.
abbrev asked : List Wanted
asked =
    record { block_id = 10; record_id = 0 }
    ∷ record { block_id = 10; record_id = 1 }
    ∷ record { block_id = 10; record_id = 2 }
    ∷ record { block_id = 9; record_id = 0 }
    ∷ record { block_id = 70; record_id = 0 }
    ∷ []

start_then_reads_example :
    (c : Controller (ℕ → Slot)) × (os' : Os) × (os'' : Os) × (create direct digest data_dir
        with_blocks
      ≡ ran (some c) os')
    × (read_all idle_dht idle_nng 64 asked os'
        ≡ ran (found abc ∷ found xy ∷ failed 22 ∷ failed 22 ∷ failed 22 ∷ []) os'')
    × Shelf os'' 9 ([] ∷ (abc ∷ xy ∷ []) ∷ [])
unfolding of_le_bytes promised shelf_get
start_then_reads_example =
    start_then_reads direct idle_dht idle_nng digest 64 (λ os e. refl) shelf
      (record { name_end = refl; dir_end = refl }) asked (ground arith)
