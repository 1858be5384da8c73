-- ===== src/Time/Block/Append.antt =====
-- `sea_block_append` appends to the log that an open block holds.
use sea.Prelude.{
  ℕ, ◌+◌, ◌^◌, ◌<◌, ◌≡◌, ◌≢◌, refl, sym, ap, some, List, [], ◌∷◌, ◌++◌, length, arith,
  length-append, leb, if◌then◌else◌, ne→==,
}
use sea.Posix.{Os, ran}
use sea.Posix.Laws.{
  Holds, Holds-on_file, Holds-on_file_ne, Holds-tick, on_file, tick, reading-on_file,
}
use sea.Time.Data
use sea.Time.Data.Append.{framed, length-framed}
use sea.Time.Data.Append
use sea.Time.Index
use sea.Time.Index.{Index, counted, at_limit}
use sea.Time.Index.Layout.{flat, index_bytes, length-flat, length-header_bytes}
use sea.Time.Index.Append.{now, new_entry, appended}
use sea.Time.Block.{Block, Appended, append}
use sea.Time.Block.Log.{Stored, IsLog-extend, Records-length, same_total}

-- The room that the integer types leave for one more record of `n` bytes.
pub record HasSpace (os : Os) (block : Block) (rs : List (List ℕ)) (s : Stored os block rs) (n : ℕ)
    : Type 0 where
  pub nonempty : n ≢ 0
  pub frame_size : 16 + n < 2 ^ 31
  pub file_size : length s.b < 2 ^ 63
  pub records : length rs + 1 < 2 ^ 32

abbrev pub block_after : Os → Block → Block
block_after os block = record block {
  index = record { fd = block.index.fd; header = counted block.index.header (now os) };
}

-- What an append returns when the environment lets every call succeed.
abbrev pub success : Os → Block → Appended
success os block = record {
  ret = 0;
  block = some (block_after os block);
  record_id = block.index.header.count;
  over_limit = at_limit (counted block.index.header (now os));
}

module _ {os : Os} {block : Block} {rs : List (List ℕ)} (s : Stored os block rs) (payload : List ℕ)
    (space : HasSpace os block rs s (length payload)) where
  abbrev pub after_data : Os
  after_data =
      on_file os block.handle.fd s.data_inode (s.b ++ framed os (length payload) payload)
        (length s.b + (16 + length payload))

  abbrev pub entries : List Index.Entry
  entries = s.es ++ new_entry (now os) (length s.b) ∷ []

  abbrev pub state_after : Os
  state_after =
      on_file (tick after_data) block.index.fd s.index_inode
        (index_bytes (counted block.index.header (now os)) entries) 40

  index-Holds :
      Holds after_data block.index.fd s.index_inode
        (index_bytes block.index.header s.es)
        s.index_pos
  index-Holds = Holds-on_file_ne os _ _ _ _ s.other_fd s.other_inode s.index

  index_small : length (index_bytes block.index.header s.es) < 2 ^ 63
  index_small = omega (
    arith,
    length-append (Index.header_bytes block.index.header) (flat s.es),
    length-header_bytes block.index.header,
    length-flat s.es,
    Records-length s.b 0 s.es rs s.log.records,
    space.records,
  )

  pub append-eq :
      (record_id over_limit : ℕ)
      → append (some block) (some payload) (length payload) record_id over_limit os
        ≡ ran (success os block) state_after
  unfolding append
  append-eq record_id over_limit =
      rw
        (
          ne→== (length payload) 0 space.nonempty,
          Data.Append.append_lem s.handle payload 0 space.frame_size space.file_size,
          Index.Append.append_lem block.index.header block.index.header s.es index-Holds
              (length s.b) index_small,
          reading-on_file os block.handle.fd s.data_inode
              (s.b ++ framed os (length payload) payload) (length s.b + (16 + length payload)),
        )
        refl

  pub state_after-names : (p : List ℕ) → state_after.names p ≡ os.names p
  unfolding on_file tick
  state_after-names p = refl

  pub state_after-next : state_after.next_fd ≡ os.next_fd
  unfolding on_file tick
  state_after-next = refl

  pub state_after-inodes : state_after.next_inode ≡ os.next_inode
  unfolding on_file tick
  state_after-inodes = refl

  unfoldable pub append-Stored : Stored state_after (block_after os block) (rs ++ payload ∷ [])
  append-Stored = record {
    es = entries;
    b = s.b ++ framed os (length payload) payload;
    index_inode = s.index_inode;
    data_inode = s.data_inode;
    index_pos = 40;
    data_pos = length s.b + (16 + length payload);
    log =
        IsLog-extend os payload (now os) s.log (omega arith) (omega (arith, space.frame_size))
          (omega (arith, space.file_size)) space.records;
    index = Holds-on_file _ _ _ _ _;
    handle =
        Holds-on_file_ne _ _ _ _ _ (λ e. s.other_fd (sym e)) (λ e. s.other_inode (sym e))
          (Holds-tick (Holds-on_file _ _ _ _ _));
    other_fd = s.other_fd;
    other_inode = s.other_inode;
  }

-- The environment letting every call succeed, an append of a payload of between 1 and 2^31 - 17 bytes
-- to a block that holds the log `rs`, of fewer than 2^32 - 1 records, with a data file below 2^63
-- bytes, leaves the log with the payload behind it; it returns 0, the number of records before as
-- the record's id, and an overlimit of 1 exactly if the new number of records has reached
-- `max_count`. The data file has grown by the payload and 16 bytes, and its position is at its end.
pub append_refines :
    {os : Os} {block : Block} {rs : List (List ℕ)} (s : Stored os block rs) (payload : List ℕ)
    (record_id over_limit : ℕ)
    → HasSpace os block rs s (length payload)
    → (a : Appended) × (block' : Block) × (os' : Os) × (append
          (some block)
          (some payload)
          (length payload)
          record_id
          over_limit
          os
        ≡ ran a os')
      × (a.ret ≡ 0)
      × (a.record_id ≡ length rs)
      × (a.over_limit ≡ (if leb block.index.header.max_count (length rs + 1) then 1 else 0))
      × (a.block ≡ some block')
      × (s' : Stored os' block' (rs ++ payload ∷ [])) × (s'.data_pos ≡ length s'.b)
      × (length s'.b ≡ length s.b + (16 + length payload))
unfolding append-Stored
append_refines {os} {block} {rs} s payload record_id over_limit space = (
  success os block,
  block_after os block,
  state_after s payload space,
  append-eq s payload space record_id over_limit,
  refl,
  same_total s,
  limit,
  refl,
  append-Stored s payload space,
  at_end,
  sym at_end,
)
  where
    limit :
        at_limit (counted block.index.header (now os))
        ≡ (if leb block.index.header.max_count (length rs + 1) then 1 else 0)
    limit =
        ap (λ n. if leb block.index.header.max_count n then 1 else 0)
          (omega (arith, same_total s, space.records))

    at_end : length s.b + (16 + length payload) ≡ length (s.b ++ framed os (length payload) payload)
    at_end =
        omega
          (arith, length-append s.b (framed os (length payload) payload), length-framed os payload)
