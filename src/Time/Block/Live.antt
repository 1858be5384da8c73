-- ===== src/Time/Block/Live.antt =====
-- An open block together with the names of its files: what is written through the handle is what
-- another handle finds.
use sea.Prelude.{ℕ, ◌+◌, ◌<◌, ◌≡◌, ◌∙◌, some, List, [], ◌∷◌, ◌++◌, length, arith, length-append}
use sea.Posix.{Os}
use sea.Posix.Kept.{Kept}
use sea.Time.Data
use sea.Time.Data.Append.{framed, length-framed}
use sea.Time.Index
use sea.Time.Block.{Block}
use sea.Time.Block.Log.{Stored}
use sea.Time.Block.Append.{
  HasSpace, state_after, block_after, append-Stored, state_after-names, state_after-next,
}
use sea.Time.Block.Open.{OnDisk}
use sea.Time.Block.Afresh.{Stored-Kept}

pub record Live (os : Os) (block : Block) (rs : List (List ℕ)) : Type 0 where
  pub stored : Stored os block rs
  pub index_name : os.names (Index.filename block.dir block.block_id) ≡ some stored.index_inode
  pub data_name : os.names (Data.filename block.dir block.block_id) ≡ some stored.data_inode
  pub index_open : block.index.fd < os.next_fd
  pub data_open : block.handle.fd < os.next_fd

-- What a process finds that opens the block by its name.
unfoldable pub Live-OnDisk :
    {os : Os} {block : Block} {rs : List (List ℕ)}
    → Live os block rs
    → OnDisk os block.dir block.block_id rs
Live-OnDisk {block = block} l = record {
  header = block.index.header;
  es = l.stored.es;
  b = l.stored.b;
  index_inode = l.stored.index_inode;
  data_inode = l.stored.data_inode;
  log = l.stored.log;
  quiet = l.stored.handle.quiet;
  index_name = l.index_name;
  data_name = l.data_name;
  index_file = l.stored.index.content;
  data_file = l.stored.handle.content;
  other_inode = l.stored.other_inode;
}

unfoldable pub Live-Kept :
    {os os' : Os} {block : Block} {rs : List (List ℕ)}
    → Kept os os'
    → Live os block rs
    → Live os' block rs
unfolding Stored-Kept
Live-Kept {block = block} k l = record {
  stored = Stored-Kept k l.index_open l.data_open l.stored;
  index_name = k.names (Index.filename block.dir block.block_id) ∙ l.index_name;
  data_name = k.names (Data.filename block.dir block.block_id) ∙ l.data_name;
  index_open = omega (arith, l.index_open, k.next);
  data_open = omega (arith, l.data_open, k.next);
}

unfoldable pub Kept-OnDisk :
    {os os' : Os} {dir : List ℕ} {block_id : ℕ} {rs : List (List ℕ)}
    → Kept os os'
    → OnDisk os dir block_id rs
    → OnDisk os' dir block_id rs
Kept-OnDisk {dir = dir} {block_id = block_id} k d = record {
  header = d.header;
  es = d.es;
  b = d.b;
  index_inode = d.index_inode;
  data_inode = d.data_inode;
  log = d.log;
  quiet = k.quiet;
  index_name = k.names (Index.filename dir block_id) ∙ d.index_name;
  data_name = k.names (Data.filename dir block_id) ∙ d.data_name;
  index_file = k.bytes d.index_inode ∙ d.index_file;
  data_file = k.bytes d.data_inode ∙ d.data_file;
  other_inode = d.other_inode;
}

module _ {os : Os} {block : Block} {rs : List (List ℕ)} (l : Live os block rs) (payload : List ℕ)
    (space : HasSpace os block rs l.stored (length payload)) where
  -- The handle after an append, which its names still lead to.
  unfoldable pub append-Live :
      Live (state_after l.stored payload space) (block_after os block) (rs ++ payload ∷ [])
  unfolding append-Stored
  append-Live = record {
    stored = append-Stored l.stored payload space;
    index_name =
        state_after-names l.stored payload space (Index.filename block.dir block.block_id)
        ∙ l.index_name;
    data_name =
        state_after-names l.stored payload space (Data.filename block.dir block.block_id)
        ∙ l.data_name;
    index_open = omega (arith, l.index_open, state_after-next l.stored payload space);
    data_open = omega (arith, l.data_open, state_after-next l.stored payload space);
  }

  pub append-size : length append-Live.stored.b ≡ length l.stored.b + (16 + length payload)
  unfolding append-Live append-Stored
  append-size = omega (
    arith,
    length-append l.stored.b (framed os (length payload) payload),
    length-framed os payload,
  )
