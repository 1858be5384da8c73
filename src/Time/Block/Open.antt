-- ===== src/Time/Block/Open.antt =====
-- `sea_block_open` on the files of a block.
use sea.Prelude.{
  ℕ, ◌+◌, ◌^◌, ◌≤◌, ◌<◌, ◌≡◌, ◌≢◌, refl, sym, ap, subst, ◌∙◌, false, some, none, List, [], length,
  take, get_elem?, arith, take-append_self,
}
use sea.Posix.{Os, ran, open_file, enoent}
use sea.Posix.Laws.{
  Holds, Holds-on_file, Holds-on_file_ne, on_file, read_lem, malloc-on_file, malloc_lem, with_fd,
  open_file_lem, Holds-with_fd, Holds-with_fd_ne, with_fd-names, with_fd-bytes, with_fd-faults,
  with_fd-next,
}
use sea.Time.Data
use sea.Time.Index
use sea.Time.Index.{Index, Header, Entry, header_bytes, open_index}
use sea.Time.Index.Layout.{index_bytes, flat, length-header_bytes, header_of-header_bytes}
use sea.Time.Block.{Block, open_block, query_by_record_id}
use sea.Time.Block.Read.{query_fresh}
use sea.Time.Block.Log.{Stored, IsLog}

-- The two files of a block hold a log, whoever has them open.
pub record OnDisk (os : Os) (dir : List ℕ) (block_id : ℕ) (rs : List (List ℕ)) : Type 0 where
  pub header : Header
  pub es : List Entry
  pub b : List ℕ
  pub index_inode : ℕ
  pub data_inode : ℕ
  pub log : IsLog header es b rs
  pub quiet : os.faults ≡ []
  pub index_name : os.names (Index.filename dir block_id) ≡ some index_inode
  pub data_name : os.names (Data.filename dir block_id) ≡ some data_inode
  pub index_file : os.bytes index_inode ≡ index_bytes header es
  pub data_file : os.bytes data_inode ≡ b
  pub other_inode : data_inode ≢ index_inode

-- A block with no data file is not opened.
pub open_missing :
    (dir : List ℕ) (id : ℕ) (os : Os)
    → os.faults ≡ []
    → length dir + 1 < 2 ^ 63
    → os.names (Data.filename dir id) ≡ none
    → open_block dir id os ≡ ran none (record os { errno = enoent })
unfolding open_block Data.open_data open_file
open_missing dir id os quiet small absent =
    rw
      (
        malloc_lem 32 os quiet (omega arith),
        malloc_lem (length dir + 1) os quiet small,
        quiet,
        absent,
      )
      refl

read_header_bytes : (h : Header) (es : List Entry) → take 40 (index_bytes h es) ≡ header_bytes h
read_header_bytes h es =
    ap (λ n. take n (index_bytes h es)) (sym (length-header_bytes h))
    ∙ take-append_self (header_bytes h) (flat es)

module _ {os : Os} {dir : List ℕ} {block_id : ℕ} {rs : List (List ℕ)}
    (d : OnDisk os dir block_id rs) where
  abbrev pub data_open : Os
  data_open = with_fd os d.data_inode

  abbrev pub both_open : Os
  both_open = with_fd data_open d.index_inode

  abbrev pub index_fd : ℕ
  index_fd = data_open.next_fd

  pub index-Holds : Holds both_open index_fd d.index_inode (index_bytes d.header d.es) 0
  index-Holds =
      subst (λ b. Holds both_open index_fd d.index_inode b 0)
        (with_fd-bytes os d.data_inode d.index_inode ∙ d.index_file)
        (Holds-with_fd data_open d.index_inode (with_fd-faults os d.data_inode ∙ d.quiet))

  abbrev pub state_opened : Os
  state_opened = on_file both_open index_fd d.index_inode (index_bytes d.header d.es) 40

  pub data-Holds : Holds both_open os.next_fd d.data_inode d.b 0
  data-Holds =
      subst (λ b. Holds both_open os.next_fd d.data_inode b 0) d.data_file
        (Holds-with_fd_ne data_open d.index_inode (omega (arith, with_fd-next os d.data_inode))
          (Holds-with_fd os d.data_inode d.quiet))

  open_data-eq : Data.open_data dir block_id os ≡ ran (some (record { fd = os.next_fd })) data_open
  unfolding Data.open_data
  open_data-eq =
      rw
        (
          open_file_lem os (Data.filename dir block_id) false d.data_inode d.quiet d.data_name,
          malloc_lem 4 data_open (with_fd-faults os d.data_inode ∙ d.quiet) (omega arith),
        )
        refl

  open_index-eq :
      open_index dir block_id data_open
      ≡ ran (0, some (record { fd = index_fd; header = d.header })) state_opened
  unfolding open_index
  open_index-eq =
      rw
        (
          open_file_lem data_open (Index.filename dir block_id) false d.index_inode
              (with_fd-faults os d.data_inode ∙ d.quiet)
              (with_fd-names os d.data_inode (Index.filename dir block_id) ∙ d.index_name),
          read_lem index-Holds 40,
          read_header_bytes d.header d.es,
          length-header_bytes d.header,
          malloc-on_file both_open index_fd d.index_inode (index_bytes d.header d.es) 40 44
              (omega arith),
          header_of-header_bytes d.header d.log.header,
        )
        refl

  abbrev pub opened_block : Block
  opened_block = record {
    dir = dir;
    block_id = block_id;
    handle = record { fd = os.next_fd };
    index = record { fd = index_fd; header = d.header };
  }

  pub open_block-eq :
      length dir + 1 < 2 ^ 63 → open_block dir block_id os ≡ ran (some opened_block) state_opened
  unfolding open_block
  open_block-eq small =
      rw
        (
          malloc_lem 32 os d.quiet (omega arith),
          malloc_lem (length dir + 1) os d.quiet small,
          open_data-eq,
          open_index-eq,
        )
        refl

  unfoldable pub opened-Stored : Stored state_opened opened_block rs
  opened-Stored = record {
    es = d.es;
    b = d.b;
    index_inode = d.index_inode;
    data_inode = d.data_inode;
    index_pos = 40;
    data_pos = 0;
    log = d.log;
    index = Holds-on_file _ _ _ _ _;
    handle =
        Holds-on_file_ne _ _ _ _ _ (omega (arith, with_fd-next os d.data_inode))
          (λ e. d.other_inode (sym e)) data-Holds;
    other_fd = omega (arith, with_fd-next os d.data_inode);
    other_inode = d.other_inode;
  }

-- The environment letting every call succeed, opening a block whose files hold a log gives a
-- handle on that log whose data file is at position 0.
pub open_refines :
    {os : Os} {dir : List ℕ} {block_id : ℕ} {rs : List (List ℕ)} (d : OnDisk os dir block_id rs)
    → length dir + 1 < 2 ^ 63
    → (block : Block) × (os' : Os) × (s : Stored os' block rs) × (open_block dir block_id os
        ≡ ran (some block) os')
      × (s.data_pos ≡ 0)
      × (s.b ≡ d.b)
unfolding opened-Stored
open_refines d small =
    (opened_block d, state_opened d, opened-Stored d, open_block-eq d small, refl, refl)

-- The environment letting every call succeed, what a process reads that opens a block afresh whose
-- files hold a log: the query for each record that fits the buffer returns 0 and the record's bytes.
pub open_then_query :
    {os : Os} {dir : List ℕ} {block_id : ℕ} {rs : List (List ℕ)} (d : OnDisk os dir block_id rs)
    (k buf_len : ℕ) (r : List ℕ)
    → length dir + 1 < 2 ^ 63
    → length d.b < 2 ^ 63
    → length rs < 2 ^ 32
    → get_elem? rs k ≡ some r
    → length r ≤ buf_len
    → (block : Block) × (opened : Os) × (read : Os) × (open_block dir block_id os
        ≡ ran (some block) opened)
      × (query_by_record_id block k buf_len opened ≡ ran (record { ret = 0; copied = some r }) read)
unfolding opened-Stored
open_then_query d k buf_len r small bounded few nth le =
    let q = query_fresh (opened-Stored d) k buf_len r refl bounded few nth le in
    (opened_block d, state_opened d, q.0, open_block-eq d small, q.1)
