-- ===== src/Word/Tests.antt =====
-- The theorems on words at concrete inputs. The digest of the tests is the word itself, in front of
-- a letter.
use sea.Prelude.{
  ℕ, zero, suc, ◌≡◌, ◌≢◌, refl, none, some, List, [], ◌∷◌, ◌++◌, take, replicate, arith, false,
  if◌then◌else◌, ◌==◌,
}
use sea.Posix.{Os, ran, undefined}
use sea.Column
use sea.Column.{Header, Column, header_bytes, valid, type_size, string_of}
use sea.Column.Append.{Stored}
use sea.Word.{
  SeaWord, create, open_word, word_path, word_info, insert_doc, find_doc_by_words_forward,
}
use sea.Word.Names.{NoZero, create-unended, create-long, create_then_open_word}
use sea.Word.Documents.{handle, insert_then_find}

abbrev digest : List ℕ → List ℕ
digest w = b'x' ∷ w

abbrev empty : Os
empty = record {
  names = λ p. none;
  dirs = λ p. false;
  bytes = λ i. [];
  fds = λ fd. none;
  next_inode = 11;
  next_fd = 3;
  errno = 0;
  faults = [];
  clock = λ n. n;
  ticks = 0;
  uninit = λ n. 170;
}

abbrev sea_letters : List ℕ
sea_letters = b's' ∷ b'e' ∷ b'a' ∷ []

letter_nonzero : ◌≢◌ {A = ℕ} 97 0
letter_nonzero = omega arith

many-NoZero : (n : ℕ) → NoZero (replicate n 97)
many-NoZero zero = tt
many-NoZero (suc n) = (letter_nonzero, many-NoZero n)

create_then_open_word_example :
    (c : Column) × (os' : Os) × (os'' : Os) × (create digest (b'd' ∷ []) sea_letters empty
      ≡ ran 37 os')
    × (os'.faults ≡ [])
    × (open_word digest (b'd' ∷ []) sea_letters os'
        ≡ ran (some (record { array = valid c }), some 0) os'')
    × Stored os'' c []
    × (c.header.record_type ≡ 7)
create_then_open_word_example =
    create_then_open_word digest (b'd' ∷ []) sea_letters empty (omega arith)
      (omega arith, (omega arith, (omega arith, tt))) refl refl (omega arith)

create-unended_example : create digest (b'd' ∷ []) (replicate 32 97) empty ≡ undefined
create-unended_example =
    create-unended digest (b'd' ∷ []) (replicate 32 97) empty refl (many-NoZero 32)

create-long_example :
    (create digest (b'd' ∷ []) (replicate 40 97) empty
      ≡ create digest (b'd' ∷ []) (take 31 (replicate 40 97)) empty)
    × (create digest (b'd' ∷ []) (replicate 40 97) empty
        ≡ Column.create
            (word_path digest (b'd' ∷ []) (take 31 (replicate 40 97)))
            (some (word_info (replicate 40 97)))
            empty)
create-long_example =
    create-long digest (b'd' ∷ []) (replicate 40 97) empty (omega arith) (many-NoZero 40)

abbrev header : Header
header = record { count = 1; record_type = 7; col_name = sea_letters ++ replicate 29 0 }

abbrev column : Column
column = record { fd = 3; header = header }

abbrev document : ℕ → List ℕ
document n = n ∷ replicate 7 0

abbrev system : Os
system = record empty {
  bytes = λ i. if i == 10 then header_bytes header ++ document 5 else [];
  fds = λ fd. if fd == 3 then some (record { inode = 10; pos = 0 }) else none;
  next_fd = 4;
}

stored : Stored system column (document 5)
unfolding type_size
stored = record {
  inode = 10;
  pos = 0;
  file = record { opened = refl; content = refl; quiet = refl };
  named = refl;
  total = refl;
}

insert_then_find_example :
    (w' : SeaWord) × (os' : Os) × (os'' : Os) × (insert_doc (handle column) (document 6) 8 system
      ≡ ran (0, w') os')
    × (find_doc_by_words_forward w' 2 80 os'
        ≡ ran
            (record { ret = 0; bytes = some (document 5 ++ document 6); real_count = some 2 })
            os'')
unfolding type_size
insert_then_find_example =
    insert_then_find stored (document 6) 8 80 (omega arith) (omega arith) (omega arith)
      (omega arith) (omega arith)
