-- ===== src/Time/Index/Append.antt =====
-- `sea_block_index_append`, and the invariant of an open index.
use sea.Prelude.{
  ℕ, ◌+◌, ◌%◌, ◌^◌, ◌<◌, ◌≡◌, refl, sym, ap, ◌∙◌, List, [], ◌∷◌, ◌++◌, length, arith, append_assoc,
  append-nil,
}
use sea.Bytes.{write_at}
use sea.Bytes.Laws.{write_at-end, write_at-inside}
use sea.Posix.{Os, ran}
use sea.Posix.Laws.{
  Holds, on_file, on_file-eq, tick, lseek_set-on_file, lseek_end-on_file, write-on_file,
  gettimeofday-on_file,
}
use sea.Time.Utils.{get_current_mills}
use sea.Time.Index.{
  Header, Entry, Index, Appended, append, counted, at_limit, header_bytes, entry_bytes,
}
use sea.Time.Index.Layout.{flat, index_bytes, flat-append, length-header_bytes, length-entry_bytes}

-- The reading of the clock that the next call takes.
abbrev pub now : Os → ℕ
now os = os.clock os.ticks % 2 ^ 64

abbrev pub appended : Index → ℕ → ℕ → Appended
appended index offset t = record {
  ret = 0;
  index = record index { header = counted index.header t };
  record_id = index.header.count;
  over_limit = at_limit (counted index.header t);
}

abbrev pub new_entry : ℕ → ℕ → Entry
new_entry t offset = record { timestamp = t; offset = offset }

module _ (h h0 : Header) (es : List Entry) (t offset : ℕ) where
  pub entry_written :
      write_at (index_bytes h0 es) (length (index_bytes h0 es)) (entry_bytes (new_entry t offset))
      ≡ index_bytes h0 (es ++ new_entry t offset ∷ [])
  entry_written =
      write_at-end (index_bytes h0 es) (entry_bytes (new_entry t offset))
      ∙ append_assoc (header_bytes h0) (flat es) (entry_bytes (new_entry t offset))
      ∙ ap (λ l. header_bytes h0 ++ l)
          (ap (λ l. flat es ++ l) (sym (append-nil (entry_bytes (new_entry t offset))))
            ∙ sym (flat-append es (new_entry t offset ∷ [])))

  header_written : write_at (index_bytes h0 es) 0 (header_bytes h) ≡ index_bytes h es
  header_written =
      write_at-inside [] (header_bytes h0) (flat es) (header_bytes h)
        (length-header_bytes h ∙ sym (length-header_bytes h0))

pub append-on_file :
    (os : Os) (fd inode p : ℕ) (h h0 : Header) (es : List Entry) (offset : ℕ)
    → length (index_bytes h0 es) < 2 ^ 63
    → append (record { fd = fd; header = h }) offset (on_file os fd inode (index_bytes h0 es) p)
      ≡ ran (appended (record { fd = fd; header = h }) offset (now os)) (
          on_file
            (tick os)
            fd
            inode
            (index_bytes (counted h (now os)) (es ++ new_entry (now os) offset ∷ []))
            40)
unfolding append get_current_mills
append-on_file os fd inode p h h0 es offset lt =
    let t = now os in
    let e = new_entry t offset in
    rw
      (
        gettimeofday-on_file os fd inode (index_bytes h0 es) p,
        lseek_end-on_file (tick os) fd inode (index_bytes h0 es) p lt,
        write-on_file (tick os) fd inode (index_bytes h0 es) (length (index_bytes h0 es))
            (entry_bytes e),
        length-entry_bytes e,
        entry_written h h0 es t offset,
        lseek_set-on_file (tick os) fd inode (index_bytes h0 (es ++ e ∷ []))
            (length (index_bytes h0 es) + 16) 0 (omega arith),
        write-on_file (tick os) fd inode (index_bytes h0 (es ++ e ∷ [])) 0
            (header_bytes (counted h t)),
        length-header_bytes (counted h t),
        header_written (counted h t) h0 (es ++ e ∷ []) t offset,
      )
      refl

-- The environment letting every call succeed, `append` writes the entry behind the others and the
-- counted header in place of the old one, and returns 0, the old count and whether the new count
-- has reached the limit; nothing else changes but the clock.
pub append_lem :
    {os : Os} {fd inode p : ℕ} (h h0 : Header) (es : List Entry)
    → Holds os fd inode (index_bytes h0 es) p
    → (offset : ℕ) → length (index_bytes h0 es) < 2 ^ 63
    → append (record { fd = fd; header = h }) offset os
      ≡ ran (appended (record { fd = fd; header = h }) offset (now os)) (
          on_file
            (tick os)
            fd
            inode
            (index_bytes (counted h (now os)) (es ++ new_entry (now os) offset ∷ []))
            40)
append_lem {os} {fd} {inode} {p} h h0 es holds offset lt =
    ap (append (record { fd = fd; header = h }) offset) (sym (on_file-eq holds))
    ∙ append-on_file os fd inode p h h0 es offset lt
