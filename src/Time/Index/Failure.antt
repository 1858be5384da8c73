-- ===== src/Time/Index/Failure.antt =====
-- `sea_block_index_append` where one of its two writes goes wrong.
use sea.Prelude.{
  ℕ, ◌+◌, ◌-◌, ◌*◌, ◌%◌, ◌^◌, ◌<◌, ◌≡◌, refl, sym, ap, ◌∙◌, List, [], ◌∷◌, ◌++◌, length, take,
  replicate, arith, length-append, length-take, append_assoc, append-nil, ap₂, ne→==,
  take-append_self,
}
use sea.Bytes.Laws.{write_at-end}
use sea.Posix.{Os, Fault, fine, fail, short, ran}
use sea.Posix.Laws.{on_file, tick}
use sea.Posix.Faulty.{
  queue, set_error, lseek_set-queue, lseek_end-queue, gettimeofday-queue, write_fine-queue,
  write_fail-queue, write_short-queue, ftruncate-queue,
}
use native.Mathlib.Nat.{mod-eq_of_lt}
use sea.Time.Utils.{get_current_mills}
use sea.Time.Index.{Header, Entry, append, counted, uncounted, at_limit, header_bytes, entry_bytes}
use sea.Time.Index.Layout.{
  flat, index_bytes, length-flat, flat-append, length-header_bytes, length-entry_bytes,
}
use sea.Time.Index.Append.{now, new_entry, entry_written}

count_back : (n : ℕ) → n < 2 ^ 32 → ((n + 1) % 2 ^ 32 + (2 ^ 32 - 1)) % 2 ^ 32 ≡ n
count_back n lt = omega arith

uncounted-counted :
    (h : Header) (t : ℕ)
    → h.count < 2 ^ 32
    → uncounted (counted h t) ≡ record h { stop_timestamp = t }
uncounted-counted h t lt i = record h { stop_timestamp = t; count = count_back h.count lt i }

length-index_bytes :
    (h : Header) (es : List Entry) → length (index_bytes h es) ≡ 40 + 16 * length es
length-index_bytes h es =
    omega (arith, length-append (header_bytes h) (flat es), length-header_bytes h, length-flat es)

-- The file cut after the entries that it held before.
cut_back :
    (h : Header) (es : List Entry) (e : Entry) (n : ℕ)
    → n ≡ length es
    → take (40 + 16 * n) (index_bytes h (es ++ e ∷ []))
        ++ replicate (40 + 16 * n - length (index_bytes h (es ++ e ∷ []))) 0
      ≡ index_bytes h es
cut_back h es e n total =
    ap₂ ◌++◌ taken (ap (λ k. replicate k 0) none_added) ∙ append-nil (index_bytes h es)
  where
    whole : index_bytes h (es ++ e ∷ []) ≡ index_bytes h es ++ (entry_bytes e ++ [])
    whole =
        ap (λ l. header_bytes h ++ l) (flat-append es (e ∷ []))
        ∙ sym (append_assoc (header_bytes h) (flat es) (entry_bytes e ++ []))

    size : 40 + 16 * n ≡ length (index_bytes h es)
    size = omega (arith, length-index_bytes h es)

    taken : take (40 + 16 * n) (index_bytes h (es ++ e ∷ [])) ≡ index_bytes h es
    taken = ap₂ take size whole ∙ take-append_self (index_bytes h es) (entry_bytes e ++ [])

    none_added : 40 + 16 * n - length (index_bytes h (es ++ e ∷ [])) ≡ 0
    none_added = omega (arith, length-index_bytes h (es ++ e ∷ []), length-append es (e ∷ []))

-- Where the header cannot be written, the entry is taken back: the call returns 255, the count and
-- the file are as before. (The time of the attempt stays in the header in memory.)
pub append_header_fails :
    (os : Os) (fs : List Fault) (fd inode p error : ℕ) (h h0 : Header) (es : List Entry)
    (offset : ℕ)
    → h.count ≡ length es
    → length es < 2 ^ 32
    → append
        (record { fd = fd; header = h })
        offset
        (queue (fine ∷ fail error ∷ fine ∷ fs) (on_file os fd inode (index_bytes h0 es) p))
      ≡ ran
          (record {
            ret = 255;
            index = record { fd = fd; header = record h { stop_timestamp = now os } };
            record_id = h.count;
            over_limit = at_limit (counted h (now os));
          })
          (queue fs (on_file (set_error error (tick os)) fd inode (index_bytes h0 es) 0))
unfolding append get_current_mills
append_header_fails os fs fd inode p error h h0 es offset total few =
    let t = now os in
    let e = new_entry t offset in
    let os' = tick os in
    rw
      (
        gettimeofday-queue (fine ∷ fail error ∷ fine ∷ fs) os fd inode (index_bytes h0 es) p,
        lseek_end-queue (fine ∷ fail error ∷ fine ∷ fs) os' fd inode (index_bytes h0 es) p
            (omega (arith, length-index_bytes h0 es)),
        write_fine-queue (fail error ∷ fine ∷ fs) os' fd inode (index_bytes h0 es)
            (length (index_bytes h0 es)) (entry_bytes e),
        length-entry_bytes e,
        entry_written h0 h0 es t offset,
        lseek_set-queue (fail error ∷ fine ∷ fs) os' fd inode (index_bytes h0 (es ++ e ∷ []))
            (length (index_bytes h0 es) + 16) 0 (omega arith),
        write_fail-queue (fine ∷ fs) os' fd inode (index_bytes h0 (es ++ e ∷ [])) 0 error
            (header_bytes (counted h t)),
        uncounted-counted h t (omega arith),
        count_back h.count (omega arith),
        ftruncate-queue fs (set_error error os') fd inode (index_bytes h0 (es ++ e ∷ [])) 0
            (40 + 16 * h.count),
        cut_back h0 es e h.count total,
      )
      refl

-- Where the entry is cut short, the call returns EINVAL and leaves in memory a header that counts
-- the entry, which is not in the file.
pub append_entry_cut :
    (os : Os) (fs : List Fault) (fd inode p n : ℕ) (h h0 : Header) (es : List Entry) (offset : ℕ)
    → length es < 2 ^ 32
    → n < 16
    → append
        (record { fd = fd; header = h })
        offset
        (queue (short n ∷ fs) (on_file os fd inode (index_bytes h0 es) p))
      ≡ ran
          (record {
            ret = 22;
            index = record { fd = fd; header = counted h (now os) };
            record_id = h.count;
            over_limit = at_limit (counted h (now os));
          })
          (queue fs (
            on_file
              (tick os)
              fd
              inode
              (index_bytes h0 es ++ take n (entry_bytes (new_entry (now os) offset)))
              (length (index_bytes h0 es) + n)))
unfolding append get_current_mills
append_entry_cut os fs fd inode p n h h0 es offset few lt =
    let t = now os in
    let e = new_entry t offset in
    let os' = tick os in
    rw
      (
        gettimeofday-queue (short n ∷ fs) os fd inode (index_bytes h0 es) p,
        lseek_end-queue (short n ∷ fs) os' fd inode (index_bytes h0 es) p
            (omega (arith, length-index_bytes h0 es)),
        write_short-queue fs os' fd inode (index_bytes h0 es) (length (index_bytes h0 es)) n
            (entry_bytes e),
        cut_length e n lt,
        write_at-end (index_bytes h0 es) (take n (entry_bytes e)),
        mod-eq_of_lt {n = n} {m = 2 ^ 32} (omega arith),
        ne→== n 16 (omega arith),
      )
      refl
  where
    cut_length : (e : Entry) (n : ℕ) → n < 16 → length (take n (entry_bytes e)) ≡ n
    cut_length e n lt = omega (arith, length-take n (entry_bytes e), length-entry_bytes e)
