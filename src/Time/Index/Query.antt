-- ===== src/Time/Index/Query.antt =====
-- The queries of an open index, against the list of its entries.
use sea.Prelude.{
  ℕ, zero, suc, ◌+◌, ◌-◌, ◌*◌, ◌^◌, ◌≤◌, ◌<◌, ◌≡◌, refl, ap, ◌∙◌, none, some, List, [], ◌∷◌, take,
  drop, map, get_elem?, arith, append-nil, lt→leb, le→leb,
}
use sea.Posix.{Os, ran, set_errno}
use sea.Posix.Laws.{on_file, lseek_set-on_file, read-on_file}
use sea.Time.Offset.{OffsetList, fresh}
use sea.Time.Offset.Laws.{
  HasRoom, fresh-HasRoom, extended, append_fits, append_all_fits, append_all_overrun,
}
use sea.Time.Offset.Laws
use sea.Time.Index.{Header, Entry, query_by_record_id, entry_offset, entry_bytes}
use sea.Time.Index.Layout.{
  FitsEntry, index_bytes, flat, read_at-index_bytes, length-entry_bytes, entry_of-entry_bytes,
}

-- The list that one offset leaves.
abbrev pub found : List ℕ → OffsetList
found xs = extended fresh xs

abbrev pub offsets_of : List Entry → List ℕ
offsets_of es = map entry_offset es

pub take_one :
    (es : List Entry) (k : ℕ) (e : Entry) → get_elem? es k ≡ some e → take 1 (drop k es) ≡ e ∷ []
take_one [] k e h = ground arith
take_one (x ∷ es) zero e h = ground arith
take_one (x ∷ es) (suc k) e h = take_one es k e h

read_one :
    (h : Header) (es : List Entry) (k : ℕ) (e : Entry)
    → get_elem? es k ≡ some e
    → take 16 (drop (40 + 16 * k) (index_bytes h es)) ≡ entry_bytes e
read_one h es k e found =
    read_at-index_bytes h es k 1 ∙ ap flat (take_one es k e found) ∙ append-nil (entry_bytes e)

module _ (os : Os) (fd inode p : ℕ) (h h0 : Header) (es : List Entry) where
  -- The entry of a record that the header counts is read, and its offset returned.
  pub query_by_record_id-on_file :
      (k : ℕ) (e : Entry)
      → k < h.count
      → get_elem? es k ≡ some e
      → FitsEntry e
      → 40 + 16 * k < 2 ^ 63
      → query_by_record_id
          (record { fd = fd; header = h })
          k
          (on_file os fd inode (index_bytes h0 es) p)
        ≡ ran
            (some (found (e.offset ∷ [])))
            (on_file os fd inode (index_bytes h0 es) (40 + 16 * k + 16))
  unfolding query_by_record_id
  query_by_record_id-on_file k e lt here fe small =
      rw
        (
          lt→leb h.count k lt,
          lseek_set-on_file os fd inode (index_bytes h0 es) p (40 + 16 * k) small,
          Laws.malloc-on_file os fd inode (index_bytes h0 es) (40 + 16 * k),
          read-on_file os fd inode (index_bytes h0 es) (40 + 16 * k) 16,
          read_one h0 es k e here,
          length-entry_bytes e,
          entry_of-entry_bytes e fe,
          append_fits fresh e.offset (on_file os fd inode (index_bytes h0 es) (40 + 16 * k + 16))
              fresh-HasRoom (omega arith),
        )
        refl

  -- A record that the header does not count is not found.
  pub query_by_record_id_absent :
      (k : ℕ)
      → h.count ≤ k
      → (s : Os)
      → query_by_record_id (record { fd = fd; header = h }) k s
        ≡ ran none (record s { errno = 2 ^ 32 - 1 })
  unfolding query_by_record_id set_errno
  query_by_record_id_absent k le s = rw (le→leb h.count k le)
