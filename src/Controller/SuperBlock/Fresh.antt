-- ===== src/Controller/SuperBlock/Fresh.antt =====
-- `open_created` for a block that is not there.
use sea.Prelude.{ℕ, ◌+◌, ◌^◌, ◌≤◌, ◌<◌, ◌≡◌, refl, some, none, List, [], length, arith}
use sea.Posix.{Os, ran, enoent}
use sea.Time.Data
use sea.Time.Index
use sea.Time.Block.{max_size_default, max_count_default}
use sea.Time.Block.Open.{OnDisk, open_missing, opened_block, state_opened, open_block-eq}
use sea.Time.Block.Create.{Made, create_empty}
use sea.Controller.SuperBlock.{open_created}

-- The block as it is made, with its files under the next two inodes.
pub record NewBlock (os os' : Os) (dir : List ℕ) (id : ℕ) : Type 0 where
  pub made : Made os os' dir id
  pub on_disk : OnDisk os' dir id []
  pub index_inode : on_disk.index_inode ≡ os.next_inode
  pub data_inode : on_disk.data_inode ≡ os.next_inode + 1
  pub empty : on_disk.b ≡ []
  pub limit : on_disk.header.max_count ≡ max_count_default

pub open_created_new :
    (os : Os) (dir : List ℕ) (id : ℕ)
    → length dir ≤ 4000
    → os.faults ≡ []
    → os.names (Data.filename dir id) ≡ none
    → os.names (Index.filename dir id) ≡ none
    → id < 2 ^ 64
    → (os' : Os) × (n : NewBlock os os' dir id) × (open_created dir id os
        ≡ ran (some (opened_block n.on_disk)) (state_opened n.on_disk))
unfolding open_created
open_created_new os dir id small quiet data_absent index_absent li =
    let missed : Os = record os { errno = enoent } in
    let (os', created, made, d, index_at, data_at, empty, limit) =
      create_empty missed dir id max_size_default max_count_default small quiet data_absent
        index_absent (omega arith) (omega arith) li in
    (
      os',
      record {
        made = record {
          bytes = made.bytes;
          names = made.names;
          fds = made.fds;
          next = made.next;
          inodes = made.inodes;
          quiet = made.quiet;
        };
        on_disk = d;
        index_inode = index_at;
        data_inode = data_at;
        empty = empty;
        limit = limit;
      },
      rw
          (
            open_missing dir id os quiet (omega arith) data_absent,
            created,
            open_block-eq d (omega arith),
          )
          refl,
    )
