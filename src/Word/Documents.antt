-- ===== src/Word/Documents.antt =====
-- The documents of a word: what `sea_word_insert_doc` adds is what the search answers with.
use sea.Prelude.{
  ℕ, ◌+◌, ◌-◌, ◌*◌, ◌^◌, ◌≤◌, ◌<◌, ◌≡◌, refl, sym, ap, ap₂, ◌∙◌, some, List, ◌++◌, length, take,
  drop, arith, length-append, length-take, take_all,
}
use sea.Posix.{Os, ran}
use sea.Column.{Column, valid, append, type_size, whole_values, whole_size}
use sea.Column.Append.{Stored, added, state_added, append-eq, append-Stored, count_added}
use native.Mathlib.Nat.{div-mul-le_self}
use sea.Column.Read.{read_whole}
use sea.Word.{SeaWord, find_doc_by_words_forward, insert_doc}

abbrev pub handle : Column → SeaWord
handle c = record { array = valid c }

insert_doc-eq :
    (c c' : Column) (buffer : List ℕ) (n ret : ℕ) (os os' : Os)
    → append c buffer n os ≡ ran (ret, c') os'
    → insert_doc (handle c) buffer n os ≡ ran (ret, handle c') os'
unfolding insert_doc
insert_doc-eq c c' buffer n ret os os' e = rw e refl

minus_zero : (n : ℕ) → n - 0 ≡ n
minus_zero n = omega arith

-- The search for as many documents as there are answers with all of them.
pub find_all :
    {os : Os} {c : Column} {docs : List ℕ} (s : Stored os c docs) (len : ℕ)
    → c.header.count < 2 ^ 32
    → 37 + length docs < 2 ^ 32
    → c.header.count ≤ whole_values c.header.record_type len
    → (os' : Os) × (find_doc_by_words_forward (handle c) c.header.count len os
        ≡ ran (record { ret = 0; bytes = some docs; real_count = some c.header.count }) os')
      × Stored os' c docs
unfolding find_doc_by_words_forward
find_all {c = c} {docs = docs} s len few small fits =
    let size : ℕ = type_size c.header.record_type in
    let (os', answer, stays) =
      read_whole s 0 c.header.count len (omega arith) (omega arith) few small (omega arith) in
    let none_before : 0 * size ≡ 0 = omega arith in
    let all : length docs ≡ (c.header.count - 0) * size =
      s.total ∙ ap (λ k. k * size) (sym (minus_zero c.header.count)) in
    let whole : take ((c.header.count - 0) * size) (drop (0 * size) docs) ≡ docs =
      ap (λ k. take ((c.header.count - 0) * size) (drop k docs)) none_before
      ∙ take_all ((c.header.count - 0) * size) docs (omega (arith, all)) in
    (
      os',
      answer
          ∙ ap₂ (λ bs m. ran (record { ret = 0; bytes = some bs; real_count = some m }) os') whole
              (minus_zero c.header.count),
      stays,
    )

-- The environment letting every call succeed, the file staying below 2^32 bytes, `n` being below 2^31,
-- the count not wrapping and the caller's `len` bytes having room for all documents: an insert of the
-- `n` bytes of document numbers returns 0, and the search for all documents of the word then answers with those before and, behind them,
-- the whole numbers inserted.
pub insert_then_find :
    {os : Os} {c : Column} {docs : List ℕ} (s : Stored os c docs) (doc_id : List ℕ) (n len : ℕ)
    → n ≤ length doc_id
    → n < 2 ^ 31
    → 37 + length docs + n < 2 ^ 32
    → c.header.count + whole_values c.header.record_type n < 2 ^ 32
    → c.header.count + whole_values c.header.record_type n ≤ whole_values c.header.record_type len
    → (w' : SeaWord) × (os' : Os) × (os'' : Os) × (insert_doc (handle c) doc_id n os
        ≡ ran (0, w') os')
      × (find_doc_by_words_forward w' (c.header.count + whole_values c.header.record_type n) len os'
          ≡ ran
              (record {
                ret = 0;
                bytes = some (docs ++ take (whole_size c.header.record_type n) doc_id);
                real_count = some (c.header.count + whole_values c.header.record_type n);
              })
              os'')
insert_then_find {os} {c} {docs} s doc_id n len enough small bounded few fits =
    let bounded_63 : 37 + length docs < 2 ^ 63 = omega arith in
    let type : ℕ = c.header.record_type in
    let k : ℕ = whole_values type n in
    let c' : Column = added s doc_id n enough small bounded_63 few in
    let os' : Os = state_added s doc_id n enough small bounded_63 few in
    let all = docs ++ take (whole_size type n) doc_id in
    let count : c'.header.count ≡ c.header.count + k =
      count_added s doc_id n enough small bounded_63 few in
    let le : k * type_size type ≤ n = div-mul-le_self n (type_size type) in
    let size_all : 37 + length all < 2 ^ 32 = omega (
      arith,
      length-append docs (take (whole_size type n) doc_id),
      length-take (whole_size type n) doc_id,
      le,
    ) in
    let (os'', answer, _) =
      find_all (append-Stored s doc_id n enough small bounded_63 few) len (omega (arith, count))
        size_all (omega (arith, count)) in
    (
      handle c',
      os',
      os'',
      insert_doc-eq c c' doc_id n 0 os os' (append-eq s doc_id n enough small bounded_63 few),
      ap (λ m. find_doc_by_words_forward (handle c') m len os') (sym count)
          ∙ answer
          ∙ ap (λ m. ran (record { ret = 0; bytes = some all; real_count = some m }) os'') count,
    )
