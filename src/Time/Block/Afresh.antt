-- ===== src/Time/Block/Afresh.antt =====
-- A block that is opened, asked for one record and closed, while other handles stay open on its
-- files.
use sea.Prelude.{
  ℕ, ◌+◌, ◌-◌, ◌*◌, ◌^◌, ◌≤◌, ◌<◌, ◌≡◌, refl, some, none, List, length, get_elem?, arith, lt→ltb,
}
use sea.Posix.{Os, ran, einval}
use sea.Posix.Laws.{with_fd-next}
use sea.Posix.Names.{closed, close_lem}
use sea.Posix.Kept.{
  Kept, Kept-refl, Kept-with_fd, Kept-on_file, Kept-closed, Kept-errno, Holds-Kept,
}
use sea.Time.Data
use sea.Time.Index
use sea.Time.Index.Query.{query_by_record_id_absent}
use sea.Time.Index.Layout.{index_bytes}
use sea.Time.Block.{Block, open_block, query_by_record_id, close_block}
use sea.Time.Block.Log.{Stored, same_total}
use sea.Time.Block.Read
use sea.Time.Block.Open
use sea.Time.Block.Open.{OnDisk, opened_block, state_opened, opened-Stored, open_block-eq, index_fd}

-- The handles below `next_fd` keep what they hold.
unfoldable pub Stored-Kept :
    {os os' : Os} {block : Block} {rs : List (List ℕ)}
    → Kept os os'
    → block.index.fd < os.next_fd
    → block.handle.fd < os.next_fd
    → Stored os block rs
    → Stored os' block rs
Stored-Kept k index_lt data_lt s = record {
  es = s.es;
  b = s.b;
  index_inode = s.index_inode;
  data_inode = s.data_inode;
  index_pos = s.index_pos;
  data_pos = s.data_pos;
  log = s.log;
  index = Holds-Kept k index_lt s.index;
  handle = Holds-Kept k data_lt s.handle;
  other_fd = s.other_fd;
  other_inode = s.other_inode;
}

-- A record that the log does not have is not found, and nothing is read.
pub query_absent :
    {os : Os} {block : Block} {rs : List (List ℕ)} (s : Stored os block rs) (k buf_len : ℕ)
    → length rs ≤ k
    → query_by_record_id block k buf_len os
      ≡ ran (record { ret = einval; copied = none }) (record os { errno = 2 ^ 32 - 1 })
unfolding query_by_record_id
query_absent {os} {block} s k buf_len le =
    rw
      (query_by_record_id_absent os block.index.fd s.index_inode s.index_pos block.index.header
        block.index.header s.es k (omega (arith, same_total s)) os)
      refl

module _ {os : Os} {dir : List ℕ} {block_id : ℕ} {rs : List (List ℕ)}
    (d : OnDisk os dir block_id rs) (positive : 0 < os.next_fd) where
  abbrev pub two_closed : Os → Os
  two_closed s = closed (closed s (opened_block d).handle.fd) (opened_block d).index.fd

  pub close_block-eq : (s : Os) → close_block (opened_block d) s ≡ ran tt (two_closed s)
  unfolding close_block Data.close_data Index.close_index
  close_block-eq s =
      rw
        (
          lt→ltb 0 os.next_fd positive,
          close_lem s os.next_fd,
          close_lem (closed s os.next_fd) (index_fd d),
        )
        refl

  index_fd_le : os.next_fd ≤ index_fd d
  index_fd_le = omega (arith, with_fd-next os d.data_inode)

  pub opened-Kept : Kept os (state_opened d)
  opened-Kept =
      Kept-on_file (Kept-with_fd (Kept-with_fd (Kept-refl os d.quiet) d.data_inode) d.index_inode)
        (index_fd d) d.index_inode 0 40 (index_bytes d.header d.es) index_fd_le (Open.index-Holds d)

  pub closed-Kept : {s : Os} → Kept os s → Kept os (two_closed s)
  closed-Kept k = Kept-closed (Kept-closed k os.next_fd (omega arith)) (index_fd d) index_fd_le

  pub read-Kept :
      (k : ℕ) (r : List ℕ) (nth : get_elem? rs k ≡ some r) (few : length rs < 2 ^ 32)
      → Kept os (Read.state_read (opened-Stored d) k r nth few)
  unfolding opened-Stored
  read-Kept k r nth few =
      Kept-on_file
        (Kept-on_file opened-Kept (index_fd d) d.index_inode 40 (40 + 16 * k + 16)
          (index_bytes d.header d.es) index_fd_le (opened-Stored d).index)
        os.next_fd d.data_inode 0 _ d.b (omega arith)
        (Read.data-Holds (opened-Stored d) k r nth few)

  -- The three calls for a record of the log.
  pub fetch_present :
      (k buf_len : ℕ) (r : List ℕ)
      → length dir + 1 < 2 ^ 63
      → length d.b < 2 ^ 63
      → length rs < 2 ^ 32
      → get_elem? rs k ≡ some r
      → length r ≤ buf_len
      → (block : Block) × (os₁ : Os) × (os₂ : Os) × (os₃ : Os) × (open_block dir block_id os
          ≡ ran (some block) os₁)
        × (query_by_record_id block k buf_len os₁ ≡ ran (record { ret = 0; copied = some r }) os₂)
        × (close_block block os₂ ≡ ran tt os₃)
        × Kept os os₃
  unfolding opened-Stored
  fetch_present k buf_len r small bounded few nth le = (
    opened_block d,
    state_opened d,
    Read.state_read (opened-Stored d) k r nth few,
    two_closed (Read.state_read (opened-Stored d) k r nth few),
    open_block-eq d small,
    Read.query_fresh-eq (opened-Stored d) k r nth few buf_len refl bounded le,
    close_block-eq (Read.state_read (opened-Stored d) k r nth few),
    closed-Kept (read-Kept k r nth few),
  )

  -- The three calls for a record that the log does not have.
  pub fetch_absent :
      (k buf_len : ℕ)
      → length dir + 1 < 2 ^ 63
      → length rs ≤ k
      → (block : Block) × (os₁ : Os) × (os₂ : Os) × (os₃ : Os) × (open_block dir block_id os
          ≡ ran (some block) os₁)
        × (query_by_record_id block k buf_len os₁
            ≡ ran (record { ret = einval; copied = none }) os₂)
        × (close_block block os₂ ≡ ran tt os₃)
        × Kept os os₃
  fetch_absent k buf_len small le =
      let missed : Os = record (state_opened d) { errno = 2 ^ 32 - 1 } in
      (
        opened_block d,
        state_opened d,
        missed,
        two_closed missed,
        open_block-eq d small,
        query_absent (opened-Stored d) k buf_len le,
        close_block-eq missed,
        closed-Kept (Kept-errno opened-Kept (2 ^ 32 - 1)),
      )
