-- ===== src/Controller/SuperBlock/Restart.antt =====
-- What the super block is after a restart.
use sea.Prelude.{ℕ, ◌+◌, ◌-◌, ◌%◌, ◌^◌, ◌≤◌, ◌<◌, ◌≡◌, refl, some, List, [], length, arith}
use sea.Bytes.{le_bytes}
use sea.Posix.{Os, ran, einval}
use sea.Posix.Kept.{Kept, Kept-trans, Kept-errno}
use sea.Column.{string_of}
use sea.Column.Create.{strlen_lem}
use sea.Time.Index.Query.{query_by_record_id_absent}
use sea.Time.Block
use sea.Time.Block.{Block}
use sea.Time.Block.Log.{Stored, same_total}
use sea.Time.Block.Open.{OnDisk, state_opened, opened-Stored, open_block-eq}
use sea.Time.Block.Live.{Kept-OnDisk}
use sea.Time.Block.Afresh.{fetch_absent, opened-Kept, two_closed, close_block-eq, closed-Kept}
use sea.Controller.SuperBlock.{
  SuperBlock, controller_get_block_id, sync_super_block_from_disk, sync_super_block_to_disk,
  expire_block_id, open_created, into_null,
}

-- An update of a record that the log does not have changes no file.
update_absent :
    {os : Os} {block : Block} {rs : List (List ℕ)} (s : Stored os block rs) (k : ℕ) (buf : List ℕ)
    (n : ℕ)
    → length rs ≤ k
    → Block.update block k buf n os ≡ ran einval (record os { errno = 2 ^ 32 - 1 })
unfolding Block.update
update_absent {os} {block} s k buf n le =
    rw
      (query_by_record_id_absent os block.index.fd s.index_inode s.index_pos block.index.header
        block.index.header s.es k (omega (arith, same_total s)) os)
      refl

module _ (md5 : List ℕ → List ℕ) (sb : SuperBlock) (name dir : List ℕ)
    (named : string_of sb.controller_name ≡ some name) (placed : string_of sb.dir ≡ some dir)
    (small : length dir + 1 < 2 ^ 63) where
  abbrev id : ℕ
  id = controller_get_block_id md5 name

  -- An empty log on disk stays so, and the number in memory is the one behind the block's own.
  pub from_disk :
      (os : Os) (d : OnDisk os dir id [])
      → 0 < os.next_fd
      → (os' : Os) × (sync_super_block_from_disk md5 sb os
          ≡ ran (0, record sb { block_id = (id + 1) % 2 ^ 64 }) os')
        × Kept os os'
  unfolding sync_super_block_from_disk open_created into_null
  from_disk os d positive =
      let k : Kept os (state_opened d) = opened-Kept d positive in
      let d' : OnDisk (state_opened d) dir id [] = Kept-OnDisk k d in
      let (block, os1, os2, os3, opened, missed, closed_eq, kept) =
        fetch_absent d' (omega (arith, positive, k.next)) 0 8 small (omega arith) in
      (
        os3,
        rw
            (
              strlen_lem sb.controller_name name os named,
              strlen_lem sb.dir dir os placed,
              open_block-eq d small,
              opened,
              missed,
              closed_eq,
            )
            refl,
        Kept-trans k kept,
      )

  to_disk :
      (os : Os) (d : OnDisk os dir id [])
      → 0 < os.next_fd
      → (os' : Os) × (sync_super_block_to_disk md5 sb os ≡ ran einval os') × Kept os os'
  unfolding sync_super_block_to_disk
  to_disk os d positive =
      let missed : Os = record (state_opened d) { errno = 2 ^ 32 - 1 } in
      (
        two_closed d positive missed,
        rw
            (
              strlen_lem sb.controller_name name os named,
              strlen_lem sb.dir dir os placed,
              open_block-eq d small,
              update_absent (opened-Stored d) 0 (le_bytes 8 sb.block_id) 8 (omega arith),
              close_block-eq d positive missed,
            )
            refl,
        closed-Kept d positive (Kept-errno (opened-Kept d positive) (2 ^ 32 - 1)),
      )

-- The number is counted up in memory alone.
pub expire-eq :
    (md5 : List ℕ → List ℕ) (sb : SuperBlock) (name dir : List ℕ) (os : Os)
    → string_of sb.controller_name ≡ some name
    → string_of sb.dir ≡ some dir
    → length dir + 1 < 2 ^ 63
    → 0 < os.next_fd
    → OnDisk os dir (controller_get_block_id md5 name) []
    → (os' : Os) × (expire_block_id md5 sb os
        ≡ ran (0, record sb { block_id = (sb.block_id + 1) % 2 ^ 64 }) os')
      × Kept os os'
unfolding expire_block_id
expire-eq md5 sb name dir os named placed small positive d =
    let counted : SuperBlock = record sb { block_id = (sb.block_id + 1) % 2 ^ 64 } in
    let (os', written, kept) = to_disk md5 counted name dir named placed small os d positive in
    (os', rw written refl, kept)

-- The environment letting every call succeed, and the super block's own block holding no record: the
-- number that `expire_block_id` counts up in memory is not written, and a super block that is read
-- afterwards has the number behind the digest again, whatever number was reached before.
pub expire_then_restart :
    (md5 : List ℕ → List ℕ) (sb : SuperBlock) (name dir : List ℕ) (os : Os)
    → string_of sb.controller_name ≡ some name
    → string_of sb.dir ≡ some dir
    → length dir + 1 < 2 ^ 63
    → 0 < os.next_fd
    → OnDisk os dir (controller_get_block_id md5 name) []
    → (os' : Os) × (os'' : Os) × (expire_block_id md5 sb os
        ≡ ran (0, record sb { block_id = (sb.block_id + 1) % 2 ^ 64 }) os')
      × (sync_super_block_from_disk md5 sb os'
          ≡ ran (0, record sb { block_id = (controller_get_block_id md5 name + 1) % 2 ^ 64 }) os'')
      × OnDisk os'' dir (controller_get_block_id md5 name) []
expire_then_restart md5 sb name dir os named placed small positive d =
    let (os', expired, kept) = expire-eq md5 sb name dir os named placed small positive d in
    let d' = Kept-OnDisk kept d in
    let (os'', synced, kept') =
      from_disk md5 sb name dir named placed small os' d' (omega (arith, kept.next)) in
    (os', os'', expired, synced, Kept-OnDisk kept' d')
