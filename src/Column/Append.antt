-- ===== src/Column/Append.antt =====
-- `col_array_append`: the whole values go behind those that the file holds, and are counted.
use sea.Prelude.{
  ℕ, ◌+◌, ◌-◌, ◌*◌, ◌^◌, ◌≤◌, ◌<◌, ◌≡◌, refl, sym, ap, ap₂, ◌∙◌, List, [], ◌∷◌, ◌++◌, length, take,
  replicate, arith, length-append, length-take, ==_refl, ne→==, append_assoc, take-append_self,
  append-nil,
}
use sea.Bytes.{le_bytes, write_at}
use sea.Bytes.Laws.{write_at-end, write_at-inside}
use sea.Posix.{Os, Fault, fine, short, ran}
use sea.Posix.Laws.{
  Holds, Holds-on_file, on_file, on_file-eq, lseek_set-on_file, lseek_end-on_file, write-on_file,
  memcpy_lem,
}
use sea.Posix.Faulty.{queue, lseek_end-queue, write_short-queue, ftruncate-queue, get_errno-queue}
use sea.Column.{Header, Column, type_size, header_bytes, append, counted, whole_values, whole_size}
use native.Mathlib.Nat.{mod-eq_of_lt, div-mul-le_self, add-mul}

pub length-header_bytes : (h : Header) → length h.col_name ≡ 32 → length (header_bytes h) ≡ 37
unfolding header_bytes le_bytes
length-header_bytes h named = omega (arith, named)

-- `c` is open on a file that holds its header and the values `vals`, as many as it counts.
pub record Stored (os : Os) (c : Column) (vals : List ℕ) : Type 0 where
  pub inode : ℕ
  pub pos : ℕ
  pub file : Holds os c.fd inode (header_bytes c.header ++ vals) pos
  pub named : length c.header.col_name ≡ 32
  pub total : length vals ≡ c.header.count * type_size c.header.record_type

header_replaced :
    (h h' : Header) (vals : List ℕ)
    → length h.col_name ≡ 32
    → length h'.col_name ≡ 32
    → write_at (header_bytes h ++ vals) 0 (header_bytes h') ≡ header_bytes h' ++ vals
header_replaced h h' vals named named' =
    write_at-inside [] (header_bytes h) vals (header_bytes h')
      (omega (arith, length-header_bytes h named, length-header_bytes h' named'))

module _ (os : Os) (fd inode p : ℕ) (h : Header) (vals buffer : List ℕ) (n : ℕ)
    (named : length h.col_name ≡ 32) (enough : n ≤ length buffer) (small : n < 2 ^ 31)
    (bounded : 37 + length vals < 2 ^ 63) where
  abbrev type : ℕ
  type = h.record_type

  abbrev new : List ℕ
  new = take (whole_size type n) buffer

  whole_le : whole_size type n ≤ n
  whole_le = div-mul-le_self n (type_size type)

  length-new : length new ≡ whole_size type n
  length-new = omega (arith, length-take (whole_size type n) buffer, whole_le)

  length-file : length (header_bytes h ++ vals) ≡ 37 + length vals
  length-file = omega (arith, length-append (header_bytes h) vals, length-header_bytes h named)

  appended :
      write_at (header_bytes h ++ vals) (length (header_bytes h ++ vals)) new
      ≡ header_bytes h ++ (vals ++ new)
  appended = write_at-end (header_bytes h ++ vals) new ∙ append_assoc (header_bytes h) vals new

  append-on_file :
      append
        (record { fd = fd; header = h })
        buffer
        n
        (on_file os fd inode (header_bytes h ++ vals) p)
      ≡ ran
          (0, record { fd = fd; header = counted h (whole_values type n) })
          (on_file os fd inode
            (header_bytes (counted h (whole_values type n)) ++ (vals ++ new))
            (0 + length (header_bytes (counted h (whole_values type n)))))
  unfolding append
  append-on_file =
      rw
        (
          lseek_end-on_file os fd inode (header_bytes h ++ vals) p (omega (arith, length-file)),
          memcpy_lem buffer (whole_size type n)
              (on_file os fd inode (header_bytes h ++ vals) (length (header_bytes h ++ vals)))
              (omega (arith, whole_le)),
          write-on_file os fd inode (header_bytes h ++ vals) (length (header_bytes h ++ vals)) new,
          length-new,
          mod-eq_of_lt {n = whole_size type n} {m = 2 ^ 32} (omega (arith, whole_le)),
          ==_refl (whole_size type n),
          appended,
          lseek_set-on_file os fd inode (header_bytes h ++ (vals ++ new))
              (length (header_bytes h ++ vals) + whole_size type n) 0 (omega arith),
          write-on_file os fd inode (header_bytes h ++ (vals ++ new)) 0
              (header_bytes (counted h (whole_values type n))),
          header_replaced h (counted h (whole_values type n)) (vals ++ new) named named,
        )
        refl

  abbrev padded : List ℕ → List ℕ
  padded more =
      take (length (header_bytes h ++ vals)) ((header_bytes h ++ vals) ++ more)
      ++ replicate (length (header_bytes h ++ vals) - length ((header_bytes h ++ vals) ++ more)) 0

  cut_back : (more : List ℕ) → padded more ≡ header_bytes h ++ vals
  cut_back more =
      ap₂ ◌++◌ (take-append_self (header_bytes h ++ vals) more) (ap (λ k. replicate k 0) none_added)
      ∙ append-nil (header_bytes h ++ vals)
    where
      none_added : length (header_bytes h ++ vals) - length ((header_bytes h ++ vals) ++ more) ≡ 0
      none_added = omega (arith, length-append (header_bytes h ++ vals) more)

  -- Where the values do not all go into the file, a part of them taken, the file and the header are
  -- as before, and the code returned is the `errno` of some earlier call, such as 0.
  pub append_cut :
      (fs : List Fault) (m : ℕ)
      → m < whole_size type n
      → append
          (record { fd = fd; header = h })
          buffer
          n
          (queue (short m ∷ fine ∷ fs) (on_file os fd inode (header_bytes h ++ vals) p))
        ≡ ran
            (os.errno, record { fd = fd; header = h })
            (queue fs
              (on_file os fd inode (header_bytes h ++ vals) (length (header_bytes h ++ vals) + m)))
  unfolding append
  append_cut fs m lt =
      rw
        (
          lseek_end-queue (short m ∷ fine ∷ fs) os fd inode (header_bytes h ++ vals) p
              (omega (arith, length-file)),
          memcpy_lem buffer (whole_size type n)
              (queue (short m ∷ fine ∷ fs)
                (on_file os fd inode (header_bytes h ++ vals) (length (header_bytes h ++ vals))))
              (omega (arith, whole_le)),
          write_short-queue (fine ∷ fs) os fd inode (header_bytes h ++ vals)
              (length (header_bytes h ++ vals)) m new,
          length-cut m lt,
          mod-eq_of_lt {n = m} {m = 2 ^ 32} (omega (arith, whole_le)),
          ne→== m (whole_size type n) (omega arith),
          write_at-end (header_bytes h ++ vals) (take m new),
          get_errno-queue (fine ∷ fs) os fd inode ((header_bytes h ++ vals) ++ take m new)
              (length (header_bytes h ++ vals) + m),
          ftruncate-queue fs os fd inode ((header_bytes h ++ vals) ++ take m new)
              (length (header_bytes h ++ vals) + m) (length (header_bytes h ++ vals)),
          cut_back (take m new),
        )
        refl
    where
      length-cut : (m : ℕ) → m < whole_size type n → length (take m new) ≡ m
      length-cut m lt = omega (arith, length-take m new, length-new)

module _ {os : Os} {c : Column} {vals : List ℕ} (s : Stored os c vals) (buffer : List ℕ) (n : ℕ)
    (enough : n ≤ length buffer) (small : n < 2 ^ 31) (bounded : 37 + length vals < 2 ^ 63)
    (few : c.header.count + whole_values c.header.record_type n < 2 ^ 32) where
  abbrev pub added : Column
  added = record { fd = c.fd; header = counted c.header (whole_values c.header.record_type n) }

  abbrev pub values_added : List ℕ
  values_added = vals ++ take (whole_size c.header.record_type n) buffer

  abbrev pub state_added : Os
  state_added =
      on_file os c.fd s.inode (header_bytes added.header ++ values_added)
        (0 + length (header_bytes added.header))

  pub append-eq : append c buffer n os ≡ ran (0, added) state_added
  append-eq =
      ap (append c buffer n) (sym (on_file-eq s.file))
      ∙ append-on_file os c.fd s.inode s.pos c.header vals buffer n s.named enough small bounded

  pub count_added : added.header.count ≡ c.header.count + whole_values c.header.record_type n
  count_added =
      mod-eq_of_lt {n = c.header.count + whole_values c.header.record_type n} {m = 2 ^ 32} few

  pub append-Stored : Stored state_added added values_added
  append-Stored =
      let size : ℕ = type_size c.header.record_type in
      record {
        inode = s.inode;
        pos = 0 + length (header_bytes added.header);
        file = Holds-on_file os c.fd s.inode (header_bytes added.header ++ values_added) _;
        named = s.named;
        total =
            length-append vals (take (whole_size c.header.record_type n) buffer)
            ∙ ap₂ ◌+◌ s.total (
                length-new os c.fd s.inode s.pos c.header vals buffer n s.named enough small
                  bounded)
            ∙ sym (add-mul c.header.count (whole_values c.header.record_type n) size)
            ∙ ap (λ k. k * size) (sym count_added);
      }

-- The environment letting every call succeed, an append of `n` bytes, fewer than 2^31, to a column whose
-- file is below 2^63 bytes returns 0 and puts
-- the whole values among them behind the column's values; a part of a value at the end is dropped.
-- The count does not wrap.
pub append_whole :
    {os : Os} {c : Column} {vals : List ℕ} (s : Stored os c vals) (buffer : List ℕ) (n : ℕ)
    → n ≤ length buffer
    → n < 2 ^ 31
    → 37 + length vals < 2 ^ 63
    → c.header.count + whole_values c.header.record_type n < 2 ^ 32
    → (c' : Column) × (os' : Os) × (append c buffer n os ≡ ran (0, c') os')
      × (c'.header.count ≡ c.header.count + whole_values c.header.record_type n)
      × Stored os' c' (vals ++ take (whole_size c.header.record_type n) buffer)
append_whole s buffer n enough small bounded few = (
  added s buffer n enough small bounded few,
  state_added s buffer n enough small bounded few,
  append-eq s buffer n enough small bounded few,
  count_added s buffer n enough small bounded few,
  append-Stored s buffer n enough small bounded few,
)
