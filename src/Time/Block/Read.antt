-- ===== src/Time/Block/Read.antt =====
-- `sea_block_query_by_record_id`: what it answers on a handle that has just been opened, and what
-- after the handle has been used.
use sea.Prelude.{
  ℕ, ◌+◌, ◌*◌, ◌^◌, ◌≤◌, ◌<◌, ◌≡◌, refl, sym, ap, subst, ◌∙◌, some, List, [], ◌∷◌, length, arith,
  get_elem?, get_elem?-lt, le→ltb,
}
use sea.Posix.{Os, ran}
use sea.Posix.Laws.{Holds, Holds-on_file, Holds-on_file_ne, on_file, on_file-eq}
use sea.Time.Data
use sea.Time.Data.Query.{query_one-on_file, query_past-on_file}
use sea.Time.Index
use sea.Time.Index.{Index}
use sea.Time.Index.Layout.{index_bytes}
use sea.Time.Index.Query.{found, query_by_record_id-on_file}
use sea.Time.Block.{Block, copy, query_by_record_id}
use sea.Time.Block.Log.{Stored, Placed, Records-nth, same_total}

copy_fits :
    (buf_len : ℕ) (r : List ℕ)
    → length r ≤ buf_len
    → copy buf_len r ≡ record { ret = 0; copied = some r }
unfolding copy
copy_fits buf_len r le = rw (le→ltb buf_len (length r) le)

module _ {os : Os} {block : Block} {rs : List (List ℕ)} (s : Stored os block rs) (k : ℕ)
    (r : List ℕ) (nth : get_elem? rs k ≡ some r) (few : length rs < 2 ^ 32) where
  pub placed : Placed s.es s.b k r
  placed = Records-nth s.b 0 s.es rs k r s.log.entries s.log.records nth

  abbrev pub after_index : Os
  after_index =
      on_file os block.index.fd s.index_inode (index_bytes block.index.header s.es)
        (40 + 16 * k + 16)

  k_lt : k < length rs
  k_lt = get_elem?-lt rs k r nth

  index_answer :
      Index.query_by_record_id block.index k os
      ≡ ran (some (found (placed.entry.offset ∷ []))) after_index
  index_answer =
      ap (Index.query_by_record_id block.index k) (sym (on_file-eq s.index))
      ∙ query_by_record_id-on_file os block.index.fd s.index_inode s.index_pos block.index.header
          block.index.header s.es k placed.entry (omega (arith, k_lt, same_total s)) placed.nth
          placed.fits (omega (arith, k_lt))

  abbrev pub at_position : ℕ → Os
  at_position p = on_file after_index block.handle.fd s.data_inode s.b p

  abbrev pub state_read : Os
  state_read = at_position (placed.entry.offset + 8 + length r)

  pub data-Holds : Holds after_index block.handle.fd s.data_inode s.b s.data_pos
  data-Holds =
      Holds-on_file_ne os _ _ _ _ (λ e. s.other_fd (sym e)) (λ e. s.other_inode (sym e)) s.handle

  data_answer :
      s.data_pos ≡ 0
      → length s.b < 2 ^ 63
      → Data.query_by_offsets block.handle (found (placed.entry.offset ∷ [])) after_index
        ≡ ran (some (r ∷ [])) state_read
  data_answer start small =
      ap (Data.query_by_offsets block.handle (found (placed.entry.offset ∷ []))) (
        sym (
          on_file-eq (subst (Holds after_index block.handle.fd s.data_inode s.b) start data-Holds)))
      ∙ query_one-on_file after_index block.handle.fd s.data_inode s.b
          (found (placed.entry.offset ∷ [])) placed.entry.offset r refl (omega arith) placed.at
          small

  pub query_fresh-eq :
      (buf_len : ℕ)
      → s.data_pos ≡ 0
      → length s.b < 2 ^ 63
      → length r ≤ buf_len
      → query_by_record_id block k buf_len os ≡ ran (record { ret = 0; copied = some r }) state_read
  unfolding query_by_record_id
  query_fresh-eq buf_len start small le =
      rw (index_answer, data_answer start small)
        (ap (λ a. ran a state_read) (copy_fits buf_len r le))

  pub read-Stored : (p : ℕ) → Stored (at_position p) block rs
  read-Stored p = record {
    es = s.es;
    b = s.b;
    index_inode = s.index_inode;
    data_inode = s.data_inode;
    index_pos = 40 + 16 * k + 16;
    data_pos = p;
    log = s.log;
    index = Holds-on_file_ne _ _ _ _ _ s.other_fd s.other_inode (Holds-on_file _ _ _ _ _);
    handle = Holds-on_file _ _ _ _ _;
    other_fd = s.other_fd;
    other_inode = s.other_inode;
  }

  -- The data file's position being at its end, the query misses the record.
  data_missed :
      length s.b ≤ s.data_pos + placed.entry.offset
      → s.data_pos + placed.entry.offset < 2 ^ 63
      → Data.query_by_offsets block.handle (found (placed.entry.offset ∷ [])) after_index
        ≡ ran (some []) (at_position (s.data_pos + placed.entry.offset))
  data_missed past small =
      ap (Data.query_by_offsets block.handle (found (placed.entry.offset ∷ [])))
        (sym (on_file-eq data-Holds))
      ∙ query_past-on_file after_index block.handle.fd s.data_inode s.b
          (found (placed.entry.offset ∷ [])) placed.entry.offset s.data_pos [] refl (omega arith)
          past small

  pub query_missed-eq :
      (buf_len : ℕ)
      → length s.b ≤ s.data_pos
      → s.data_pos + length s.b < 2 ^ 63
      → query_by_record_id block k buf_len os
        ≡ ran
            (record { ret = 0; copied = some [] })
            (at_position (s.data_pos + placed.entry.offset))
  unfolding query_by_record_id
  query_missed-eq buf_len past small =
      rw (index_answer, data_missed (omega arith) (omega (arith, placed.at.fits)))
        (ap (λ a. ran a (at_position (s.data_pos + placed.entry.offset)))
          (copy_fits buf_len [] (omega arith)))

-- On a handle whose data file is at position 0, such as one just opened, the query for a record of
-- the log returns 0 and the record's bytes, if they fit the caller's buffer, and keeps the log.
pub query_fresh :
    {os : Os} {block : Block} {rs : List (List ℕ)} (s : Stored os block rs) (k buf_len : ℕ)
    (r : List ℕ)
    → s.data_pos ≡ 0
    → length s.b < 2 ^ 63
    → length rs < 2 ^ 32
    → get_elem? rs k ≡ some r
    → length r ≤ buf_len
    → (os' : Os) × (query_by_record_id block k buf_len os
        ≡ ran (record { ret = 0; copied = some r }) os')
      × Stored os' block rs
query_fresh s k buf_len r start small few nth le =
    (_, query_fresh-eq s k r nth few buf_len start small le, read-Stored s k r nth few _)

-- On a handle whose data file is at its end, where an append leaves it, the query for any record
-- of the log returns 0, as if it had succeeded, and no bytes.
pub query_after_append :
    {os : Os} {block : Block} {rs : List (List ℕ)} (s : Stored os block rs) (k buf_len : ℕ)
    (r : List ℕ)
    → s.data_pos ≡ length s.b
    → length s.b < 2 ^ 62
    → length rs < 2 ^ 32
    → get_elem? rs k ≡ some r
    → (os' : Os) × (query_by_record_id block k buf_len os
        ≡ ran (record { ret = 0; copied = some [] }) os')
      × Stored os' block rs
query_after_append s k buf_len r end small few nth = (
  _,
  query_missed-eq s k r nth few buf_len (omega arith) (omega arith),
  read-Stored s k r nth few _,
)
