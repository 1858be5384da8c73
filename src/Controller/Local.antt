-- ===== src/Controller/Local.antt =====
-- A controller whose block is open: what its files and its memory then hold, and what it reads.
pub mod NodeList
use sea.Prelude.{
  ℕ, ◌+◌, ◌-◌, ◌*◌, ◌%◌, ◌^◌, ◌≤◌, ◌<◌, ◌≡◌, ◌≢◌, refl, sym, ap, ap₂, ◌∙◌, subst, Option, some,
  none, List, [], ◌∷◌, ◌++◌, length, arith, get_elem?, if◌then◌else◌, ◌==◌, leb, lt→leb,
}
use sea.Posix.{Os, ran, M, einval}
use sea.Posix.Kept.{Kept}
use sea.Time.Block
use sea.Time.Block.{Block}
use sea.Time.Block.Log.{Stored, same_total}
use sea.Time.Block.Append.{HasSpace, append-eq, state_after, block_after}
use sea.Time.Block.Open.{OnDisk}
use sea.Controller.Reads.{read-OnDisk, read_beyond}
use sea.Time.Block.Live.{Live, Live-OnDisk, Live-Kept, append-Live, append-size}
use sea.Time.Data
use sea.Time.Index
use sea.Controller.DhtList
use sea.Time.Index.{at_limit, counted}
use sea.Time.Index.Append.{now}
use sea.Controller.SuperBlock
use sea.Controller.{Controller, data_dir, read_from_local, read}
use sea.Controller.PhoneList.{Khash}
use sea.Controller.DhtList.{Dht}
use sea.Controller.Data.{Nng}

-- The controller's block is open, holds the log `rs`, and is found by its name.
pub record Serving {T : Type 0} (os : Os) (c : Controller T) (rs : List (List ℕ)) : Type 0 where
  pub block : Block
  pub in_use : c.block ≡ some block
  pub live : Live os block rs
  pub dir : block.dir ≡ data_dir
  pub number : block.block_id ≡ c.super_block.block_id
  pub positive : 0 < os.next_fd

-- The room for one more record of `n` bytes, which does not fill the block.
pub record HasRoom {T : Type 0} {os : Os} {c : Controller T} {rs : List (List ℕ)}
    (s : Serving os c rs) (n : ℕ) : Type 0 where
  pub nonempty : n ≢ 0
  pub frame_size : 16 + n < 2 ^ 31
  pub file_size : length s.live.stored.b < 2 ^ 63
  pub records : length rs + 1 < 2 ^ 32
  pub below_limit : length rs + 1 < s.block.index.header.max_count

unfoldable pub Serving-Kept :
    {T : Type 0} {os os' : Os} {c : Controller T} {rs : List (List ℕ)}
    → Kept os os'
    → Serving os c rs
    → Serving os' c rs
unfolding Live-Kept
Serving-Kept k s = record {
  block = s.block;
  in_use = s.in_use;
  live = Live-Kept k s.live;
  dir = s.dir;
  number = s.number;
  positive = omega (arith, s.positive, k.next);
}

module _ {T : Type 0} {os : Os} {c : Controller T} {rs : List (List ℕ)} (s : Serving os c rs) where
  -- The block, as it is found in the controller's directory.
  unfoldable pub serving-OnDisk : OnDisk os data_dir c.super_block.block_id rs
  serving-OnDisk = record {
    header = s.block.index.header;
    es = s.live.stored.es;
    b = s.live.stored.b;
    index_inode = s.live.stored.index_inode;
    data_inode = s.live.stored.data_inode;
    log = s.live.stored.log;
    quiet = s.live.stored.handle.quiet;
    index_name =
        ap₂ (λ d n. os.names (Index.filename d n)) (sym s.dir) (sym s.number) ∙ s.live.index_name;
    data_name =
        ap₂ (λ d n. os.names (Data.filename d n)) (sym s.dir) (sym s.number) ∙ s.live.data_name;
    index_file = s.live.stored.index.content;
    data_file = s.live.stored.handle.content;
    other_inode = s.live.stored.other_inode;
  }

  -- A record of the block is read, whether or not it was written through this handle.
  pub read_present :
      (dht : Dht) (nng : Nng) (k buf_len : ℕ) (r : List ℕ)
      → length s.live.stored.b < 2 ^ 63
      → length rs < 2 ^ 32
      → get_elem? rs k ≡ some r
      → length r ≤ buf_len
      → (os' : Os) × (read dht nng c.super_block.block_id k buf_len os
          ≡ ran (record { ret = 0; copied = some r }) os')
        × Kept os os'
  unfolding serving-OnDisk
  read_present dht nng k buf_len r small few nth le =
      read-OnDisk serving-OnDisk s.positive dht nng k buf_len r small few nth le
