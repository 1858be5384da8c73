-- ===== src/Server/Uri.antt =====
-- src/rest/server.c: the numbers of a record in a request's uri, and the parts of the C library that
-- find them there. `strtok` ends the tokens inside the uri itself, which is not read again.
pub mod RoundTrip
use sea.Prelude.{
  ℕ, zero, suc, ◌+◌, ◌-◌, ◌*◌, ◌%◌, ◌^◌, Bool, true, false, ◌&&◌, ◌||◌, Option, none, some, List,
  [], ◌∷◌, ◌++◌, ltb, leb, ◌==◌, if◌then◌else◌,
}
use sea.Posix.{M, decimal, pure, undef, einval, ◌>>=◌}

-- The characters up to the first delimiter, and those behind it.
pub split_at : ℕ → List ℕ → List ℕ × List ℕ
split_at d [] = ([], [])
split_at d (c ∷ cs) = let rest = split_at d cs in if c == d then ([], cs) else (c ∷ rest.0, rest.1)

pub skip : ℕ → List ℕ → List ℕ
skip d [] = []
skip d (c ∷ cs) = let rest = skip d cs in if c == d then rest else c ∷ cs

token_in : ℕ → List ℕ → Option (List ℕ × List ℕ)
token_in d [] = none
token_in d (c ∷ cs) = some (split_at d (c ∷ cs))

-- A call of `strtok` with one delimiter: the token, and where the next call goes on.
unfoldable pub strtok : ℕ → List ℕ → Option (List ℕ × List ℕ)
unfolding split_at skip token_in
strtok d cs = token_in d (skip d cs)

abbrev pub is_digit : ℕ → Bool
is_digit c = leb b'0' c && leb c b'9'

abbrev is_space : ℕ → Bool
is_space c = c == 32 || (leb 9 c && leb c 13)

-- The digits that a text begins with, behind those that are worth `acc`.
pub digits_value : ℕ → List ℕ → ℕ
digits_value acc [] = acc
digits_value acc (c ∷ cs) =
    let rest = digits_value (acc * 10 + (c - b'0')) cs in if is_digit c then rest else acc

-- The bit pattern of a `long`; a number that does not fit is undefined.
positive_long : ℕ → M ℕ
positive_long n = if ltb n (2 ^ 63) then pure n else undef

negative_long : ℕ → M ℕ
negative_long n = if leb n (2 ^ 63) then pure ((2 ^ 64 - n) % 2 ^ 64) else undef

signed_value : List ℕ → M ℕ
signed_value [] = pure 0
signed_value (c ∷ cs) =
    if c == b'-'
    then negative_long (digits_value 0 cs)
    else if c == b'+'
    then positive_long (digits_value 0 cs)
    else positive_long (digits_value 0 (c ∷ cs))

pub skip_spaces : List ℕ → List ℕ
skip_spaces [] = []
skip_spaces (c ∷ cs) = let rest = skip_spaces cs in if is_space c then rest else c ∷ cs

unfoldable pub atol : List ℕ → M ℕ
unfolding digits_value positive_long negative_long signed_value skip_spaces
atol cs = signed_value (skip_spaces cs)

-- The two texts, if they are all there.
unfoldable pub id_texts : List ℕ → Option (List ℕ × List ℕ)
id_texts uri = elim (strtok b'=' uri) [
  | none ↦ none
  | some (path, behind) ↦ elim (strtok b'=' behind) [
    | none ↦ none
    | some (id_str, more) ↦ elim (strtok b'_' id_str) [
      | none ↦ none
      | some (block_str, left) ↦ elim (strtok b'_' left) [
        | none ↦ none
        | some (record_id_str, last) ↦ some (block_str, record_id_str)
      ]
    ]
  ]
]

-- The code, and the numbers where they are set.
unfoldable pub get_block_id_and_record_id : List ℕ → M (ℕ × Option (ℕ × ℕ))
get_block_id_and_record_id uri = elim (id_texts uri) [
  | none ↦ pure (einval, none)
  | some (block_str, record_id_str) ↦ (do
    record_id ← atol record_id_str
    block_id ← atol block_str
    pure (0, some (block_id, record_id % 2 ^ 32)))
]

-- "%llu_%u"
abbrev pub id_text : ℕ → ℕ → List ℕ
id_text block_id record_id = decimal block_id ++ b'_' ∷ decimal record_id
