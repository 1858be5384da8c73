-- ===== src/Time/Block/Apart.antt =====
-- Two open blocks with no descriptor and no file in common: an append to the one leaves the other.
use sea.Prelude.{ℕ, ◌≢◌, ◌∙◌, List, length, arith}
use sea.Posix.{Os}
use sea.Posix.Laws.{Holds, Holds-on_file_ne, Holds-tick}
use sea.Time.Data
use sea.Time.Index
use sea.Time.Block.{Block}
use sea.Time.Block.Log.{Stored}
use sea.Time.Block.Append.{HasSpace, state_after, state_after-names, state_after-next}
use sea.Time.Block.Live.{Live}

-- Of the pairs, the first is the one block's and the second the other's.
pub record Apart {os : Os} {block other : Block} {rs rs' : List (List ℕ)} (s : Stored os block rs)
    (t : Stored os other rs') : Type 0 where
  pub data_data_fd : block.handle.fd ≢ other.handle.fd
  pub data_index_fd : block.handle.fd ≢ other.index.fd
  pub index_data_fd : block.index.fd ≢ other.handle.fd
  pub index_index_fd : block.index.fd ≢ other.index.fd
  pub data_data : s.data_inode ≢ t.data_inode
  pub data_index : s.data_inode ≢ t.index_inode
  pub index_data : s.index_inode ≢ t.data_inode
  pub index_index : s.index_inode ≢ t.index_inode

module _ {os : Os} {block : Block} {rs : List (List ℕ)} (s : Stored os block rs) (payload : List ℕ)
    (space : HasSpace os block rs s (length payload)) where
  file_kept :
      {fd inode p : ℕ} {b : List ℕ}
      → block.handle.fd ≢ fd
      → block.index.fd ≢ fd
      → s.data_inode ≢ inode
      → s.index_inode ≢ inode
      → Holds os fd inode b p
      → Holds (state_after s payload space) fd inode b p
  file_kept df xf di xi h =
      Holds-on_file_ne _ _ _ _ _ xf xi (Holds-tick (Holds-on_file_ne _ _ _ _ _ df di h))

  unfoldable pub Apart-Live :
      {other : Block} {rs' : List (List ℕ)} (l : Live os other rs')
      → Apart s l.stored
      → Live (state_after s payload space) other rs'
  unfolding file_kept
  Apart-Live {other} l a = record {
    stored = record {
      es = l.stored.es;
      b = l.stored.b;
      index_inode = l.stored.index_inode;
      data_inode = l.stored.data_inode;
      index_pos = l.stored.index_pos;
      data_pos = l.stored.data_pos;
      log = l.stored.log;
      index = file_kept a.data_index_fd a.index_index_fd a.data_index a.index_index l.stored.index;
      handle = file_kept a.data_data_fd a.index_data_fd a.data_data a.index_data l.stored.handle;
      other_fd = l.stored.other_fd;
      other_inode = l.stored.other_inode;
    };
    index_name =
        state_after-names s payload space (Index.filename other.dir other.block_id) ∙ l.index_name;
    data_name =
        state_after-names s payload space (Data.filename other.dir other.block_id) ∙ l.data_name;
    index_open = omega (arith, l.index_open, state_after-next s payload space);
    data_open = omega (arith, l.data_open, state_after-next s payload space);
  }
