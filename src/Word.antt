-- ===== src/Word.antt =====
-- src/block/word/word.c: the documents of a word, a column of numbers of 64 bits whose file is named
-- by the digest of the word. `md5` stands for the text that the library's `md5` leaves in a buffer.
-- A word is given by its characters, none of them zero.
pub mod Names
pub mod Documents
mod Tests
use sea.Prelude.{
  ℕ, ◌-◌, ◌≢◌, Option, none, some, List, [], ◌∷◌, ◌++◌, ltb, if◌then◌else◌, length, take, replicate,
}
use sea.Posix
use sea.Posix.{M, pure, undef, ◌>>=◌, ◌>>◌}
use sea.Time.Utils.{snprintf, path_max}
use sea.Column
use sea.Column.{
  Info, Column, ColumnPointer, Values, null, freed, unset, valid, strlen, open_column, close_column,
  read_values,
}

-- struct sea_word
pub record SeaWord : Type 0 where
  pub array : ColumnPointer

-- Follows the pointer to the column.
pub with_column {ℓ} : {A : Type ℓ} → ColumnPointer → (Column → M A) → M A
with_column (valid c) k = k c
with_column null k = undef
with_column freed k = undef
with_column unset k = undef

-- The number of characters that are kept of a word.
abbrev pub kept : List ℕ → ℕ
kept word = if ltb 32 (length word) then 31 else length word

abbrev pub word_info : List ℕ → Info
word_info word = record {
  record_type = 7;
  col_name = take (kept word) word ++ replicate (32 - kept word) 0;
}

module _ (md5 : List ℕ → List ℕ) where
  -- "%s/%s"
  abbrev pub word_path : List ℕ → List ℕ → List ℕ
  word_path dir name = snprintf path_max (dir ++ (b'/' ∷ md5 name))

  unfoldable pub create : List ℕ → List ℕ → M ℕ
  create dir word = do
    name ← strlen (word_info word).col_name
    Column.create (word_path dir name) (some (word_info word))

  unfoldable pub destroy : List ℕ → List ℕ → M ℕ
  destroy dir word = do Column.destroy (word_path dir word); pure 0

  -- The handle, and `*error` where it is set.
  unfoldable pub open_word : List ℕ → List ℕ → M (Option SeaWord × Option ℕ)
  open_word dir word = do
    got ← Posix.malloc 8
    if got
        then (do
          opened ← open_column (word_path dir word)
          pure (some (record { array = opened.1 }), some opened.0))
        else pure (none, none)

unfoldable pub close_word : SeaWord → M (Unit {0})
unfolding with_column
close_word w = with_column w.array (λ c. close_column c)

-- `limit` and the length of the list are the bit patterns of the numbers of type `int`.
unfoldable pub find_doc_by_words_forward : SeaWord → ℕ → ℕ → M Values
unfolding with_column
find_doc_by_words_forward w limit doc_id_list_len =
    with_column w.array (λ c. read_values c 0 limit doc_id_list_len)

unfoldable pub find_doc_by_words_backward : SeaWord → ℕ → ℕ → M ℕ
find_doc_by_words_backward w limit doc_id_list_len = pure 0

unfoldable pub insert_doc : SeaWord → List ℕ → ℕ → M (ℕ × SeaWord)
unfolding with_column
insert_doc w doc_id doc_id_len =
    with_column w.array (λ c.
      ◌>>=◌ (Column.append c doc_id doc_id_len) (λ r. pure (r.0, record { array = valid r.1 })))
