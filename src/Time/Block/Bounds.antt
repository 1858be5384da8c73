-- ===== src/Time/Block/Bounds.antt =====
-- No query copies more than its buffer has room for.
use sea.Prelude.{
  ℕ, ◌≤◌, Option, some, none, List, length, arith, lt_or_ge, inl, inr, lt→ltb, le→ltb,
}
use sea.Posix.Returns.{Always, Returns-then_run}
use sea.Time.Record.{RecordList}
use sea.Time.Record
use sea.Time.Index
use sea.Time.Block.{Block, Answer, first_bytes, query_by_record_id, answer, copy, records_at}

abbrev pub FitsBuffer : ℕ → Answer → Type 0
FitsBuffer n a = length (first_bytes a.copied) ≤ n

copy-FitsBuffer : (n : ℕ) (r : List ℕ) → FitsBuffer n (copy n r)
unfolding copy
copy-FitsBuffer n r = elim (lt_or_ge n (length r)) [
  | inl long ↦ rw (lt→ltb n (length r) long) (omega arith)
  | inr short ↦ rw (le→ltb n (length r) short) short
]

answer-FitsBuffer : (n : ℕ) (list : Option RecordList) → FitsBuffer n (answer n list)
unfolding answer
answer-FitsBuffer n none = omega arith
answer-FitsBuffer n (some list) = copy-FitsBuffer n (first_bytes (Record.get_first list))

pub query-FitsBuffer :
    (block : Block) (record_id n : ℕ) → Always (FitsBuffer n) (query_by_record_id block record_id n)
unfolding query_by_record_id
query-FitsBuffer block record_id n os =
    Returns-then_run (FitsBuffer n) _
      (λ found. λ os1.
        Returns-then_run (FitsBuffer n) _ (λ list. λ os2. answer-FitsBuffer n list)
          (records_at block found os1))
      (Index.query_by_record_id block.index record_id os)
