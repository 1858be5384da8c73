-- ===== src/Time/Record.antt =====
-- src/block/time/sea_block_record.c: a queue of records in memory. A record's `length` field is
-- the length of its list of bytes.
use sea.Prelude.{ℕ, ◌+◌, Option, none, some, List, [], ◌∷◌, ◌++◌, if◌then◌else◌, length}
use sea.Posix
use sea.Posix.{M, pure, undef, einval, memcpy, ◌>>=◌}

abbrev pub RecordList : Type 0
RecordList = List (List ℕ)

-- sizeof(struct sea_block_record) and sizeof(struct sea_block_record_data)
abbrev pub header_size : ℕ
header_size = 24

unfoldable pub malloc : M (Option RecordList)
malloc = do got ← Posix.malloc header_size; pure (if got then some [] else none)

insert_tail : Option RecordList → List ℕ → M (ℕ × Option RecordList)
insert_tail none r = undef
insert_tail (some rs) r = pure (0, some (rs ++ r ∷ []))

unfoldable pub append : Option RecordList → List ℕ → ℕ → M (ℕ × Option RecordList)
unfolding insert_tail
append header buf len = do
  got ← Posix.malloc (len + header_size)
  if got then (do r ← memcpy buf len; insert_tail header r) else pure (einval, header)

-- Calls `func` with each record, its length and the caller's state, from the first to the last.
unfoldable pub foreach {ℓ} : {S : Type ℓ} → RecordList → (List ℕ → ℕ → S → S) → S → S
foreach [] func args = args
foreach (r ∷ rs) func args = foreach rs func (func r (length r) args)

unfoldable pub get_first : RecordList → Option (List ℕ)
get_first [] = none
get_first (r ∷ rs) = some r
