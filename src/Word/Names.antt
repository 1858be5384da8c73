-- ===== src/Word/Names.antt =====
-- `sea_word_create` and `sea_word_open`: which words a column can be found again for.
use sea.Prelude.{
  ℕ, zero, suc, ◌-◌, ◌≤◌, ◌<◌, ◌≡◌, ◌≢◌, refl, sym, ap, ap₂, ◌∙◌, none, some, List, [], ◌∷◌, ◌++◌,
  length, take, replicate, min, arith, length-take, take_all, append-nil, lt→ltb, le→ltb, ne→==,
  take-take_le,
}
use sea.Posix.{Os, ran, undefined}
use sea.Posix.Laws.{malloc_lem}
use sea.Column
use sea.Column.{Info, Column, ColumnPointer, valid, string_of, strlen, open_column}
use sea.Column.Append.{Stored}
use sea.Column.Create.{strlen_lem, create_then_open}
use sea.Word.{kept, word_info, word_path, create, open_word}

abbrev pub NoZero : List ℕ → Type 0
NoZero [] = Unit
NoZero (c ∷ cs) = (c ≢ 0) × NoZero cs

pub string_of-ended : (w rest : List ℕ) → NoZero w → string_of (w ++ 0 ∷ rest) ≡ some w
unfolding string_of
string_of-ended [] rest h = refl
string_of-ended (c ∷ w) rest (ne, h) = rw (ne→== c 0 ne, string_of-ended w rest h) refl

string_of-endless : (w : List ℕ) → NoZero w → string_of w ≡ none
unfolding string_of
string_of-endless [] h = refl
string_of-endless (c ∷ w) (ne, h) = rw (ne→== c 0 ne, string_of-endless w h) refl

pub NoZero-take : (n : ℕ) (w : List ℕ) → NoZero w → NoZero (take n w)
NoZero-take zero w h = tt
NoZero-take (suc n) [] h = tt
NoZero-take (suc n) (c ∷ w) (ne, h) = (ne, NoZero-take n w h)

replicate_positive : (n : ℕ) → 0 < n → (rest : List ℕ) × (replicate n 0 ≡ 0 ∷ rest)
replicate_positive zero lt = absurd (omega arith)
replicate_positive (suc n) lt = (replicate n 0, refl)

kept_short : (word : List ℕ) → length word ≤ 32 → kept word ≡ length word
kept_short word le = rw (le→ltb 32 (length word) le) refl

kept_long : (word : List ℕ) → 32 < length word → kept word ≡ 31
kept_long word lt = rw (lt→ltb 32 (length word) lt) refl

-- What the name in the column's description reads as, for a word of fewer than 32 characters.
pub info-name :
    (word : List ℕ)
    → length word < 32
    → NoZero word
    → string_of (word_info word).col_name ≡ some word
info-name word lt h =
    let padding = replicate_positive (32 - length word) (omega arith) in
    ap (λ n. string_of (take n word ++ replicate (32 - n) 0)) (kept_short word (omega arith))
    ∙ ap₂ (λ a b. string_of (a ++ b)) (take_all (length word) word (omega arith)) padding.1
    ∙ string_of-ended word padding.0 h

strlen-none : (cs : List ℕ) (os : Os) → string_of cs ≡ none → strlen cs os ≡ undefined
unfolding strlen
strlen-none cs os e = rw (strlen, e) refl

-- The file is named by what the name in the description reads as.
create-named :
    (md5 : List ℕ → List ℕ) (dir word name : List ℕ) (os : Os)
    → string_of (word_info word).col_name ≡ some name
    → create md5 dir word os ≡ Column.create (word_path md5 dir name) (some (word_info word)) os
unfolding create
create-named md5 dir word name os found =
    rw (strlen_lem (word_info word).col_name name os found) refl

module _ (md5 : List ℕ → List ℕ) (dir word : List ℕ) (os : Os) where
  pub create-eq :
      length word < 32
      → NoZero word
      → create md5 dir word os ≡ Column.create (word_path md5 dir word) (some (word_info word)) os
  create-eq lt h = create-named md5 dir word word os (info-name word lt h)

  -- A word of 32 characters fills the buffer of the name, which then has no end: `create` reads on
  -- behind it.
  pub create-unended : length word ≡ 32 → NoZero word → create md5 dir word os ≡ undefined
  unfolding create
  create-unended eq h = rw (strlen-none (word_info word).col_name os endless) refl
    where
      endless : string_of (word_info word).col_name ≡ none
      endless =
          ap (λ n. string_of (take n word ++ replicate (32 - n) 0))
            (kept_short word (omega (arith, eq)) ∙ eq)
          ∙ ap string_of (append-nil (take 32 word) ∙ take_all 32 word (omega (arith, eq)))
          ∙ string_of-endless word h

  same_info : 32 < length word → word_info (take 31 word) ≡ word_info word
  same_info lt i = record {
    record_type = 7;
    col_name =
        (ap (λ n. take n (take 31 word) ++ replicate (32 - n) 0)
              (kept_short (take 31 word) (omega (arith, length-take 31 word))
                ∙ length-take 31 word
                ∙ shorter)
            ∙ ap (λ l. l ++ replicate 1 0) (take-take_le 31 31 word (omega arith))
            ∙ sym (ap (λ n. take n word ++ replicate (32 - n) 0) (kept_long word lt)))
          i;
  }
    where
      shorter : min 31 (length word) ≡ 31
      shorter = omega arith

  -- A word of more than 32 characters is created as the word of its first 31, in that word's file;
  -- `open_word` looks under the digest of all its characters.
  pub create-long :
      32 < length word
      → NoZero word
      → (create md5 dir word os ≡ create md5 dir (take 31 word) os)
        × (create md5 dir word os
            ≡ Column.create (word_path md5 dir (take 31 word)) (some (word_info word)) os)
  create-long lt h =
      let len : length (take 31 word) ≡ 31 = omega (arith, length-take 31 word) in
      let found : string_of (word_info (take 31 word)).col_name ≡ some (take 31 word) =
        info-name (take 31 word) (omega (arith, len)) (NoZero-take 31 word h) in
      let by_info : create md5 dir word os
          ≡ Column.create (word_path md5 dir (take 31 word)) (some (word_info word)) os =
        create-named md5 dir word (take 31 word) os
          (ap (λ i. string_of i.col_name) (sym (same_info lt)) ∙ found) in
      (
        by_info
            ∙ ap (λ i. Column.create (word_path md5 dir (take 31 word)) (some i) os)
                (sym (same_info lt))
            ∙ sym (create-named md5 dir (take 31 word) (take 31 word) os found),
        by_info,
      )

  pub open_word_lem :
      (ret : ℕ) (array : ColumnPointer) (os' : Os)
      → os.faults ≡ []
      → open_column (word_path md5 dir word) os ≡ ran (ret, array) os'
      → open_word md5 dir word os ≡ ran (some (record { array = array }), some ret) os'
  unfolding open_word
  open_word_lem ret array os' quiet e = rw (malloc_lem 8 os quiet (omega arith), e) refl

-- The environment letting every call succeed, a word of fewer than 32 characters that has no file
-- yet is created, the code being 37, and opened as a column of 64-bit numbers with no documents.
pub create_then_open_word :
    (md5 : List ℕ → List ℕ) (dir word : List ℕ) (os : Os)
    → length word < 32
    → NoZero word
    → os.faults ≡ []
    → os.names (word_path md5 dir word) ≡ none
    → 0 < os.next_fd
    → (c : Column) × (os' : Os) × (os'' : Os) × (create md5 dir word os ≡ ran 37 os')
      × (os'.faults ≡ [])
      × (open_word md5 dir word os' ≡ ran (some (record { array = valid c }), some 0) os'')
      × Stored os'' c []
      × (c.header.record_type ≡ 7)
create_then_open_word md5 dir word os lt h quiet absent positive =
    let (c, os', os'', created, calm, opened, stored, type, _) =
      create_then_open os (word_path md5 dir word) (word_info word) word quiet absent
        (info-name word lt h) (omega arith) (omega arith) positive in
    (
      c,
      os',
      os'',
      create-eq md5 dir word os lt h ∙ created,
      calm,
      open_word_lem md5 dir word os' 0 (valid c) os'' calm opened,
      stored,
      type,
    )
