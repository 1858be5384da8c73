-- ===== src/Column/Read.antt =====
-- `col_array_read` on a column that has been written.
use sea.Prelude.{
  ℕ, ◌+◌, ◌-◌, ◌*◌, ◌/◌, ◌%◌, ◌^◌, ◌≤◌, ◌<◌, ◌≡◌, refl, sym, ap, ap₂, ◌∙◌, some, List, ◌++◌, length,
  take, drop, arith, length-append, length-take, length-drop, drop-append_add, drop-append_self,
  take_all,
}
use sea.Bytes.{read_at}
use sea.Posix.{Os, ran}
use sea.Posix.Laws.{Holds-on_file, on_file, on_file-eq, lseek_set-on_file, read-on_file}
use sea.Column.{
  Header, Column, type_size, header_bytes, append, read_values, whole_values, whole_size, smaller,
  span_size,
}
use sea.Column.Append.{
  Stored, length-header_bytes, added, state_added, append-eq, append-Stored, count_added,
}
use native.Mathlib.Nat.{mod-eq_of_lt, div-mul-le_self, mul-div_cancel, mul-le-mul_right, add-mul}

type_size-positive : (type : ℕ) → 0 < type_size type
unfolding type_size
type_size-positive type = ground arith

read_from_value :
    (h : Header) (vals : List ℕ) (k n : ℕ)
    → length h.col_name ≡ 32
    → read_at (header_bytes h ++ vals) (k + 37) n ≡ take n (drop k vals)
read_from_value h vals k n named =
    ap (λ p. take n (drop p (header_bytes h ++ vals))) from
    ∙ ap (take n) (drop-append_add k (header_bytes h) vals)
  where
    from : k + 37 ≡ length (header_bytes h) + k
    from = omega (arith, length-header_bytes h named)

smaller_second : (buf span : ℕ) → span ≤ buf → smaller buf span ≡ span
smaller_second buf span le = ground arith

-- The size of a span of values, none of whose products wrap, and which fits the buffer.
smaller-span :
    (type start stop n : ℕ)
    → start ≤ stop
    → stop < 2 ^ 32
    → stop * type_size type < 2 ^ 32
    → stop - start ≤ whole_values type n
    → smaller (whole_size type n) (span_size type start stop) ≡ (stop - start) * type_size type
smaller-span type start stop n le lt small fits =
    let size : ℕ = type_size type in
    let wide : (stop - start) * size < 2 ^ 32 =
      omega (arith, mul-le-mul_right {m = stop - start} {n = stop} size (omega arith)) in
    let distance : (stop + 2 ^ 32 - start) % 2 ^ 32 ≡ stop - start = omega arith in
    let span : span_size type start stop ≡ (stop - start) * size =
      ap (λ k. (k * size) % 2 ^ 32) distance
      ∙ mod-eq_of_lt {n = (stop - start) * size} {m = 2 ^ 32} wide in
    ap (smaller (whole_size type n)) span
    ∙ smaller_second (whole_size type n) ((stop - start) * size) (mul-le-mul_right size fits)

module _ (os : Os) (fd inode p : ℕ) (h : Header) (vals : List ℕ) (start stop n : ℕ)
    (named : length h.col_name ≡ 32) (total : length vals ≡ h.count * type_size h.record_type)
    (le : start ≤ stop) (held : stop ≤ h.count) (lt : h.count < 2 ^ 32)
    (small : 37 + length vals < 2 ^ 32) (fits : stop - start ≤ whole_values h.record_type n) where
  abbrev size : ℕ
  size = type_size h.record_type

  abbrev file : List ℕ
  file = header_bytes h ++ vals

  abbrev asked : List ℕ
  asked = take ((stop - start) * size) (drop (start * size) vals)

  ends : stop * size ≤ length vals
  ends = omega (arith, total, mul-le-mul_right {m = stop} {n = h.count} size held)

  parts : start * size + (stop - start) * size ≡ stop * size
  parts = sym (add-mul start (stop - start) size) ∙ ap (λ k. k * size) (omega arith)

  length-asked : length asked ≡ (stop - start) * size
  length-asked = omega (
    arith,
    length-take ((stop - start) * size) (drop (start * size) vals),
    length-drop (start * size) vals,
    ends,
    parts,
  )

  number : length asked / size ≡ stop - start
  number =
      ap (λ k. k / size) length-asked
      ∙ mul-div_cancel (stop - start) (type_size-positive h.record_type)

  read_values-on_file :
      read_values (record { fd = fd; header = h }) start stop n (on_file os fd inode file p)
      ≡ ran
          (record { ret = 0; bytes = some asked; real_count = some (stop - start) })
          (on_file os fd inode file (start * size + 37 + length asked))
  unfolding read_values
  read_values-on_file =
      rw
        (
          mod-eq_of_lt {n = start * size} {m = 2 ^ 32} (omega (arith, ends, parts)),
          lseek_set-on_file os fd inode file p (start * size + 37) (omega (arith, ends, parts)),
          smaller-span h.record_type start stop n le (omega arith) (omega (arith, ends)) fits,
          read-on_file os fd inode file (start * size + 37) ((stop - start) * size),
          read_from_value h vals (start * size) ((stop - start) * size) named,
          number,
        )
        refl

-- On a column, a read of the values from `start` up to `stop`, all of them there and fitting the
-- buffer of `n` bytes, returns 0, their bytes and their number, and keeps the column.
pub read_whole :
    {os : Os} {c : Column} {vals : List ℕ} (s : Stored os c vals) (start stop n : ℕ)
    → start ≤ stop
    → stop ≤ c.header.count
    → c.header.count < 2 ^ 32
    → 37 + length vals < 2 ^ 32
    → stop - start ≤ whole_values c.header.record_type n
    → (os' : Os) × (read_values c start stop n os
        ≡ ran
            (record {
              ret = 0;
              bytes = some (
                  take
                    ((stop - start) * type_size c.header.record_type)
                    (drop (start * type_size c.header.record_type) vals));
              real_count = some (stop - start);
            })
            os')
      × Stored os' c vals
read_whole {os} {c} {vals} s start stop n le held lt small fits = (
  on_file os c.fd s.inode (header_bytes c.header ++ vals) (
      start * type_size c.header.record_type
      + 37
      + length (
          take ((stop - start) * type_size c.header.record_type)
            (drop (start * type_size c.header.record_type) vals))),
  ap (read_values c start stop n) (sym (on_file-eq s.file))
      ∙ read_values-on_file os c.fd s.inode s.pos c.header vals start stop n s.named s.total le held
          lt small fits,
  record {
    inode = s.inode;
    pos = _;
    file = Holds-on_file os c.fd s.inode (header_bytes c.header ++ vals) _;
    named = s.named;
    total = s.total;
  },
)

-- The environment letting every call succeed, the file staying below 2^32 bytes, the buffer having fewer
-- than 2^31 and the count not wrapping, the values appended by a call are what a read of the
-- numbers that they were given returns: the bytes of the buffer, up to a part of a value at its end.
pub append_then_read :
    {os : Os} {c : Column} {vals : List ℕ} (s : Stored os c vals) (buffer : List ℕ) (n : ℕ)
    → n ≤ length buffer
    → n < 2 ^ 31
    → 37 + length vals + n < 2 ^ 32
    → c.header.count + whole_values c.header.record_type n < 2 ^ 32
    → (c' : Column) × (os' : Os) × (os'' : Os) × (append c buffer n os ≡ ran (0, c') os')
      × (read_values c' c.header.count c'.header.count n os'
          ≡ ran
              (record {
                ret = 0;
                bytes = some (take (whole_size c.header.record_type n) buffer);
                real_count = some (whole_values c.header.record_type n);
              })
              os'')
append_then_read {os} {c} {vals} s buffer n enough small bounded few =
    let bounded_63 : 37 + length vals < 2 ^ 63 = omega arith in
    let type : ℕ = c.header.record_type in
    let k : ℕ = whole_values type n in
    let new = take (k * type_size type) buffer in
    let c' : Column = added s buffer n enough small bounded_63 few in
    let whole_le : k * type_size type ≤ n = div-mul-le_self n (type_size type) in
    let length_new : length new ≡ k * type_size type =
      omega (arith, length-take (k * type_size type) buffer, whole_le) in
    let count_eq : c'.header.count ≡ c.header.count + k =
      count_added s buffer n enough small bounded_63 few in
    let diff : c'.header.count - c.header.count ≡ k = omega (arith, count_eq) in
    let answer =
      read_whole (append-Stored s buffer n enough small bounded_63 few) c.header.count
        c'.header.count n (omega (arith, count_eq)) (omega arith) (omega (arith, count_eq))
        (omega (arith, length-append vals new, length_new, whole_le)) (omega (arith, diff)) in
    let behind : drop (c.header.count * type_size type) (vals ++ new) ≡ new =
      ap (λ m. drop m (vals ++ new)) (sym s.total) ∙ drop-append_self vals new in
    let bytes_eq : take ((c'.header.count - c.header.count) * type_size type)
          (drop (c.header.count * type_size type) (vals ++ new))
        ≡ new =
      ap₂ (λ m l. take (m * type_size type) l) diff behind
      ∙ take_all (k * type_size type) new (omega (arith, length_new)) in
    (
      c',
      state_added s buffer n enough small bounded_63 few,
      answer.0,
      append-eq s buffer n enough small bounded_63 few,
      answer.1
          ∙ ap₂ (λ bs m. ran (record { ret = 0; bytes = some bs; real_count = some m }) answer.0)
              bytes_eq diff,
    )
