-- ===== src/Time/Block/Reuse.antt =====
-- A handle that has appended a record and is then asked for one.
use sea.Prelude.{
  ℕ, ◌+◌, ◌^◌, ◌<◌, ◌≡◌, some, List, [], ◌∷◌, ◌++◌, length, get_elem?, arith, length-append,
}
use sea.Posix.{Os, ran}
use sea.Time.Block.{Block, Appended, append, query_by_record_id}
use sea.Time.Block.Log.{Stored}
use sea.Time.Block.Append.{HasSpace, append_refines}
use sea.Time.Block.Read.{query_after_append}

-- The environment letting every call succeed, and the types having room for one more record, an
-- append leaves a handle on which the query for any record of the log, the new one among them,
-- reports success and copies no bytes.
pub append_then_query :
    {os : Os} {block : Block} {rs : List (List ℕ)} (s : Stored os block rs) (payload : List ℕ)
    (record_id over_limit k buf_len : ℕ) (r : List ℕ)
    → HasSpace os block rs s (length payload)
    → length s.b + (16 + length payload) < 2 ^ 62
    → get_elem? (rs ++ payload ∷ []) k ≡ some r
    → (a : Appended) × (block' : Block) × (os' : Os) × (os'' : Os) × (append
          (some block)
          (some payload)
          (length payload)
          record_id
          over_limit
          os
        ≡ ran a os')
      × (a.ret ≡ 0)
      × (a.block ≡ some block')
      × (query_by_record_id block' k buf_len os' ≡ ran (record { ret = 0; copied = some [] }) os'')
append_then_query {rs = rs} s payload record_id over_limit k buf_len r space small nth =
    let (a, block', os', runs, zero, _, _, handle, s', end, grown) =
      append_refines s payload record_id over_limit space in
    let (os'', answered, _) =
      query_after_append s' k buf_len r end (omega (arith, grown, small))
        (omega (arith, length-append rs (payload ∷ []), space.records)) nth in
    (a, block', os', os'', runs, zero, handle, answered)
