-- ===== src/Time/Data/Query.antt =====
-- `sea_block_data_query_by_offsets`.
use sea.Prelude.{
  ℕ, ◌+◌, ◌^◌, ◌≤◌, ◌<◌, ◌≡◌, refl, none, some, List, [], ◌∷◌, ◌++◌, length, arith, drop_all,
  ==_refl, lt→ltb, take_all,
}
use sea.Posix.{Os, ran}
use sea.Posix.Laws.{
  on_file, malloc-on_file, memcpy_lem, lseek_set-on_file, lseek_cur-on_file, read-on_file,
}
use sea.Time.Offset.{OffsetList}
use sea.Time.Offset
use sea.Time.Record
use sea.Time.Record.{RecordList}
use sea.Time.Data.{read_at_offset, query_by_offsets}
use sea.Time.Data.Frame.{RecordAt}
use native.Mathlib.Nat.{mod-eq_of_lt}

zero_add : (n : ℕ) → 0 + n ≡ n
zero_add n = omega arith

add_zero : (n : ℕ) → n + 0 ≡ n
add_zero n = omega arith

module _ (os : Os) (fd inode : ℕ) (b : List ℕ) where
  -- The code seeks from the current position: a round finds the record at `offset` only from
  -- position 0, and leaves the position behind the payload.
  read_at_offset-on_file :
      (offset : ℕ) (payload : List ℕ)
      → RecordAt b offset payload
      → length b < 2 ^ 63
      → read_at_offset (record { fd = fd }) offset (on_file os fd inode b 0)
        ≡ ran (some payload) (on_file os fd inode b (offset + 8 + length payload))
  unfolding read_at_offset
  read_at_offset-on_file offset payload r lt =
      rw
        (
          lseek_cur-on_file os fd inode b 0 offset (omega (arith, r.fits)),
          zero_add offset,
          read-on_file os fd inode b offset 8,
          r.whole,
          r.sized,
          mod-eq_of_lt {n = offset + 8} {m = 2 ^ 64} (omega (arith, r.fits)),
          lseek_set-on_file os fd inode b (offset + 8) (offset + 8) (omega (arith, r.fits)),
          malloc-on_file os fd inode b (offset + 8) (length payload) (omega (arith, r.small)),
          read-on_file os fd inode b (offset + 8) (length payload),
          r.body,
          mod-eq_of_lt {n = length payload} {m = 2 ^ 32} r.small,
          ==_refl (length payload),
        )
        refl

  -- From a position that the offset takes past the end of the file nothing is found.
  read_at_offset-past :
      (p offset : ℕ)
      → length b ≤ p + offset
      → p + offset < 2 ^ 63
      → read_at_offset (record { fd = fd }) offset (on_file os fd inode b p)
        ≡ ran none (on_file os fd inode b (p + offset))
  unfolding read_at_offset
  read_at_offset-past p offset past lt =
      rw
        (
          lseek_cur-on_file os fd inode b p offset lt,
          read-on_file os fd inode b (p + offset) 8,
          drop_all (p + offset) b past,
          add_zero (p + offset),
        )
        refl

  append-on_file :
      (p : ℕ) (list : RecordList) (payload : List ℕ)
      → length payload < 2 ^ 32
      → Record.append (some list) payload (length payload) (on_file os fd inode b p)
        ≡ ran (0, some (list ++ payload ∷ [])) (on_file os fd inode b p)
  unfolding Record.append
  append-on_file p list payload small =
      rw
        (
          malloc-on_file os fd inode b p (length payload + 24) (omega arith),
          memcpy_lem payload (length payload) (on_file os fd inode b p) (omega arith),
          take_all (length payload) payload (omega arith),
        )
        refl

  malloc-on_file_record :
      (p : ℕ) → Record.malloc (on_file os fd inode b p) ≡ ran (some []) (on_file os fd inode b p)
  unfolding Record.malloc
  malloc-on_file_record p = rw (malloc-on_file os fd inode b p 24 (omega arith))

  -- On a handle at position 0, the query for one offset returns the record there.
  pub query_one-on_file :
      (h : OffsetList) (offset : ℕ) (payload : List ℕ)
      → h.offsets ≡ offset ∷ []
      → 0 < h.room
      → RecordAt b offset payload
      → length b < 2 ^ 63
      → query_by_offsets (record { fd = fd }) h (on_file os fd inode b 0)
        ≡ ran (some (payload ∷ [])) (on_file os fd inode b (offset + 8 + length payload))
  unfolding query_by_offsets Offset.get
  query_one-on_file h offset payload one room r lt =
      rw
        (
          malloc-on_file_record 0,
          one,
          lt→ltb 0 h.room room,
          read_at_offset-on_file offset payload r lt,
          append-on_file (offset + 8 + length payload) [] payload r.small,
        )
        refl

  -- Where the position and the first offset together pass the end of the file, nothing is found.
  pub query_past-on_file :
      (h : OffsetList) (offset p : ℕ) (more : List ℕ)
      → h.offsets ≡ offset ∷ more
      → 0 < h.room
      → length b ≤ p + offset
      → p + offset < 2 ^ 63
      → query_by_offsets (record { fd = fd }) h (on_file os fd inode b p)
        ≡ ran (some []) (on_file os fd inode b (p + offset))
  unfolding query_by_offsets Offset.get
  query_past-on_file h offset p more one room past lt =
      rw (malloc-on_file_record p, one, lt→ltb 0 h.room room, read_at_offset-past p offset past lt)
        refl

  -- On a handle at position 0, where the second offset taken from behind the first record's payload
  -- passes the end of the file, the query returns the first record alone.
  pub query_two-on_file :
      (h : OffsetList) (first second : ℕ) (payload more : List ℕ)
      → h.offsets ≡ first ∷ second ∷ more
      → 1 < h.room
      → RecordAt b first payload
      → length b ≤ first + 8 + length payload + second
      → first + 8 + length payload + second < 2 ^ 63
      → query_by_offsets (record { fd = fd }) h (on_file os fd inode b 0)
        ≡ ran (some (payload ∷ [])) (on_file os fd inode b (first + 8 + length payload + second))
  unfolding query_by_offsets Offset.get
  query_two-on_file h first second payload more two room r past lt =
      rw
        (
          malloc-on_file_record 0,
          two,
          lt→ltb 0 h.room (omega arith),
          read_at_offset-on_file first payload r (omega (arith, r.fits)),
          append-on_file (first + 8 + length payload) [] payload r.small,
          lt→ltb 1 h.room room,
          read_at_offset-past (first + 8 + length payload) second past lt,
        )
        refl
