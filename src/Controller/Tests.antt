-- ===== src/Controller/Tests.antt =====
-- Runs of the functions of src/controller, and the theorems at concrete inputs.
use sea.Prelude.{◌≡◌, refl, some, none, [], ◌∷◌, arith, if◌then◌else◌, ◌==◌}
use sea.Bytes.{of_le_bytes}
use sea.Posix
use sea.Posix.{Os, M, pure, ran}
use sea.Time.Data
use sea.Time.Index
use sea.Time.Index.{Header}
use sea.Time.Index.Layout.{index_bytes}
use sea.Time.Block.Open.{OnDisk}
use sea.Time.Sample.{header, system}
use sea.Posix.Returns.{Returns}
use sea.Time.Block.Bounds.{FitsBuffer}
use sea.Controller.Bounds.{read-FitsBuffer}
use sea.Controller.{read}
use sea.Controller.SuperBlock.{expire_block_id, sync_super_block_from_disk}
use sea.Controller.SuperBlock.Restart.{expire_then_restart}
use sea.Column.{string_of}
use sea.Controller.PhoneList
use sea.Controller.PhoneList.{PhoneEntry, outside, holds, Khash}
use sea.Controller.Sample.{digest, disk, super_block, idle_dht, idle_nng}

-- The super block's own block, with no record.
abbrev no_records : Header
no_records = record header { count = 0 }

abbrev fresh : Os
fresh = record (system 0 []) {
  bytes = λ i. if i == 11 then index_bytes no_records [] else [];
  names = λ p.
      if Posix.path_eq (Index.filename (b'd' ∷ []) 9) p
      then some 11
      else if Posix.path_eq (Data.filename (b'd' ∷ []) 9) p
      then some 10
      else none;
}

fresh-OnDisk : OnDisk fresh (b'd' ∷ []) 9 []
unfolding Index.filename Data.filename Posix.decimal Posix.path_eq
fresh-OnDisk = record {
  header = no_records;
  es = [];
  b = [];
  index_inode = 11;
  data_inode = 10;
  log = record { total = refl; header = omega arith; entries = tt; records = tt };
  quiet = refl;
  index_name = refl;
  data_name = refl;
  index_file = refl;
  data_file = refl;
  other_inode = omega arith;
}

expire_then_restart_example :
    (os' : Os) × (os'' : Os) × (expire_block_id digest (record super_block { block_id = 70 }) fresh
      ≡ ran (0, record super_block { block_id = 71 }) os')
    × (sync_super_block_from_disk digest (record super_block { block_id = 70 }) os'
        ≡ ran (0, record super_block { block_id = 10 }) os'')
    × OnDisk os'' (b'd' ∷ []) 9 []
unfolding of_le_bytes string_of
expire_then_restart_example =
    expire_then_restart digest (record super_block { block_id = 70 }) (b'c' ∷ []) (b'd' ∷ []) fresh
      refl refl (omega arith) (omega arith) fresh-OnDisk

-- A buffer of 2 bytes.
read-FitsBuffer_example : Returns (FitsBuffer 2) (read idle_dht idle_nng 9 1 2 disk)
read-FitsBuffer_example = read-FitsBuffer idle_dht idle_nng 9 1 2 disk
