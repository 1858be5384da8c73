-- ===== src/Time/Data/Append.antt =====
-- `sea_block_data_append` on an open data file.
use sea.Prelude.{
  ℕ, ◌+◌, ◌^◌, ◌≤◌, ◌<◌, ◌≡◌, refl, sym, ap, ◌∙◌, true, some, List, ◌++◌, ◌==◌, length, take, arith,
  lt→ltb, le→ltb, length-append, take_all,
}
use sea.Bytes.{le_bytes}
use sea.Bytes.Laws.{write_at-end}
use sea.Posix.{Os, ran, junk}
use sea.Posix.Laws.{
  Holds, on_file, on_file-eq, malloc-on_file, memcpy_lem, uninit_bytes-on_file, lseek_end-on_file,
  write-on_file,
}
use sea.Time.Utils.{size_of_write}
use sea.Time.Data.{append, build, frame, tail_bytes}
use native.Mathlib.Nat.{mod-eq_of_lt}

abbrev pub framed : Os → ℕ → List ℕ → List ℕ
framed os len payload = frame (junk os.uninit 2 2) (junk os.uninit 12 3) len payload

pub length-framed :
    (os : Os) (payload : List ℕ) → length (framed os (length payload) payload) ≡ 16 + length payload
unfolding le_bytes junk
length-framed os payload =
    omega (arith, length-append payload (tail_bytes (junk os.uninit 12 3) (length payload)))

pub build-on_file :
    (os : Os) (fd inode : ℕ) (b : List ℕ) (p : ℕ) (buffer : List ℕ) (len : ℕ)
    → len ≤ length buffer
    → 16 + len < 2 ^ 31
    → build buffer len (on_file os fd inode b p)
      ≡ ran (some (framed os len (take len buffer))) (on_file os fd inode b p)
unfolding build
build-on_file os fd inode b p buffer len le lt =
    rw
      (
        uninit_bytes-on_file os fd inode b p 2 2,
        uninit_bytes-on_file os fd inode b p 12 3,
        mod-eq_of_lt {n = 16 + len} {m = 2 ^ 32} (omega arith),
        lt→ltb (16 + len) (2 ^ 31) lt,
        malloc-on_file os fd inode b p (16 + len) (omega arith),
        memcpy_lem buffer len (on_file os fd inode b p) le,
        le→ltb (16 + len) (16 + len) (omega arith),
      )
      refl

-- What `write` returns for a frame is its length.
pub framed_size :
    (os : Os) (payload : List ℕ)
    → 16 + length payload < 2 ^ 31
    → (size_of_write (some (length (framed os (length payload) payload)))
        == length (framed os (length payload) payload))
      ≡ true
framed_size os payload lt = ground (arith, length-framed os payload)

pub append-on_file :
    (os : Os) (fd inode : ℕ) (b : List ℕ) (p : ℕ) (payload : List ℕ) (offset : ℕ)
    → 16 + length payload < 2 ^ 31
    → length b < 2 ^ 63
    → append (record { fd = fd }) payload (length payload) offset (on_file os fd inode b p)
      ≡ ran
          (0, length b)
          (on_file os fd inode
            (b ++ framed os (length payload) payload)
            (length b + (16 + length payload)))
unfolding append
append-on_file os fd inode b p payload offset lt small =
    rw
      (
        build-on_file os fd inode b p payload (length payload) (omega arith) lt,
        take_all (length payload) payload (omega arith),
        lseek_end-on_file os fd inode b p small,
        write-on_file os fd inode b (length b) (framed os (length payload) payload),
        framed_size os payload lt,
        write_at-end b (framed os (length payload) payload),
        length-framed os payload,
      )
      refl

-- The environment letting every call succeed, `append` returns 0 and the offset at which the file
-- ended, and writes there the payload in its frame; nothing else changes.
pub append_lem :
    {os : Os} {fd inode p : ℕ} {b : List ℕ} (h : Holds os fd inode b p) (payload : List ℕ)
    (offset : ℕ)
    → 16 + length payload < 2 ^ 31
    → length b < 2 ^ 63
    → append (record { fd = fd }) payload (length payload) offset os
      ≡ ran
          (0, length b)
          (on_file os fd inode
            (b ++ framed os (length payload) payload)
            (length b + (16 + length payload)))
append_lem {os} {fd} {inode} {p} {b} h payload offset lt small =
    ap (append (record { fd = fd }) payload (length payload) offset) (sym (on_file-eq h))
    ∙ append-on_file os fd inode b p payload offset lt small
