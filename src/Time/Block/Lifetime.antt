-- ===== src/Time/Block/Lifetime.antt =====
-- A block from its creation on: records appended in turn, and a query through another handle.
use sea.Prelude.{
  ℕ, ◌+◌, ◌^◌, ◌≤◌, ◌<◌, ◌≡◌, ◌≢◌, refl, sym, ap, ◌∙◌, Option, some, none, List, [], ◌∷◌, ◌++◌,
  length, arith, get_elem?, length-append, append-nil, append_assoc,
}
use sea.Posix.{Os, M, ran, pure, ◌>>=◌}
use sea.Posix.Kept.{Kept}
use sea.Posix.Laws.{with_fd, on_file}
use sea.Time.Data
use sea.Time.Index
use sea.Time.Block.{Block, append, create, open_block, query_by_record_id}
use sea.Time.Block.Log.{same_total}
use sea.Time.Block.Append.{HasSpace, append-eq}
use sea.Time.Block.Create.{create_empty}
use sea.Time.Block.Open.{
  OnDisk, opened_block, state_opened, opened-Stored, open_block-eq, open_then_query,
}
use sea.Time.Block.Afresh.{opened-Kept}
use sea.Time.Block.Live.{Live, Live-OnDisk, append-Live, append-size}

-- The appends that a caller makes in turn, with the code and the number that each returns.
unfoldable pub append_each : Option Block → List (List ℕ) → M (List (ℕ × ℕ))
append_each block [] = pure []
append_each block (w ∷ ws) = do
  a ← append block (some w) (length w) 0 0
  rest ← append_each a.block ws
  pure ((a.ret, a.record_id) ∷ rest)

-- Success each time, and the numbers from `n` on.
unfoldable pub numbered : ℕ → List (List ℕ) → List (ℕ × ℕ)
numbered n [] = []
numbered n (w ∷ ws) = (0, n) ∷ numbered (n + 1) ws

-- The bytes that the records take in the data file.
unfoldable pub stored_size : List (List ℕ) → ℕ
stored_size [] = 0
stored_size (w ∷ ws) = 16 + length w + stored_size ws

abbrev pub Writable : List (List ℕ) → Type 0
Writable [] = Unit
Writable (w ∷ ws) = (length w ≢ 0) × (16 + length w < 2 ^ 31) × Writable ws

append_each-eq :
    (ws : List (List ℕ)) {os : Os} {block : Block} {rs : List (List ℕ)} (l : Live os block rs)
    → Writable ws
    → length rs + length ws < 2 ^ 32
    → length l.stored.b + stored_size ws < 2 ^ 63
    → (all : List (List ℕ)) × (os' : Os) × (d : OnDisk os' block.dir block.block_id all)
      × (append_each (some block) ws os ≡ ran (numbered (length rs) ws) os')
      × (all ≡ rs ++ ws)
      × (length d.b ≡ length l.stored.b + stored_size ws)
unfolding append_each numbered stored_size Live-OnDisk
append_each-eq [] {os} {block} {rs} l fit few small =
    (rs, os, Live-OnDisk l, refl, sym (append-nil rs), omega arith)
append_each-eq (w ∷ ws) {os} {block} {rs} l (ne, le, fit) few small =
    let space : HasSpace os block rs l.stored (length w) = record {
      nonempty = ne;
      frame_size = le;
      file_size = omega (arith, small);
      records = omega (arith, few);
    } in
    let longer : length (rs ++ w ∷ []) ≡ length rs + 1 = length-append rs (w ∷ []) in
    let size = append-size l w space in
    let (all, os', d, rest, eq, total) =
      append_each-eq ws (append-Live l w space) fit (omega (arith, longer, few))
        (omega (arith, size, small)) in
    (
      all,
      os',
      d,
      rw (append-eq l.stored w space 0 0, rest, longer, same_total l.stored) refl,
      eq ∙ append_assoc rs (w ∷ []) ws,
      omega (arith, total, size),
    )

opened-Live :
    {os : Os} {dir : List ℕ} {id : ℕ} {rs : List (List ℕ)} (d : OnDisk os dir id rs)
    → 0 < os.next_fd
    → (l : Live (state_opened d) (opened_block d) rs) × (l.stored.b ≡ d.b)
unfolding opened-Stored with_fd on_file
opened-Live {dir = dir} {id = id} d positive =
    let k : Kept _ (state_opened d) = opened-Kept d positive in
    (
      record {
        stored = opened-Stored d;
        index_name = k.names (Index.filename dir id) ∙ d.index_name;
        data_name = k.names (Data.filename dir id) ∙ d.data_name;
        index_open = omega arith;
        data_open = omega arith;
      },
      refl,
    )

-- The environment letting every call succeed, the descriptor 0 being in use and neither file of the
-- block being there, in a directory with a name of at most 4000 characters, the number and the limit
-- fitting 64 bits and the limit not being 0, for records of between 1 and 2^31 - 17 bytes each, fewer
-- than 2^32, that take fewer than 2^63 bytes with 16 for each: `create` returns 0, the block is opened,
-- appends of the records in turn return 0 and the numbers from 0 on, also behind the limit, and a
-- second handle then answers the query for each number with the record of that number, where it
-- fits the buffer.
pub create_append_query :
    (os : Os) (dir : List ℕ) (id max_size max_count : ℕ) (ws : List (List ℕ)) (k buf_len : ℕ)
    (w : List ℕ)
    → length dir ≤ 4000
    → os.faults ≡ []
    → 0 < os.next_fd
    → os.names (Data.filename dir id) ≡ none
    → os.names (Index.filename dir id) ≡ none
    → max_count ≢ 0
    → max_count < 2 ^ 64
    → id < 2 ^ 64
    → Writable ws
    → length ws < 2 ^ 32
    → stored_size ws < 2 ^ 63
    → get_elem? ws k ≡ some w
    → length w ≤ buf_len
    → (os1 : Os) × (os2 : Os) × (os3 : Os) × (os4 : Os) × (os5 : Os) × (block : Block)
      × (other : Block) × (create dir id max_size max_count os ≡ ran 0 os1)
      × (open_block dir id os1 ≡ ran (some block) os2)
      × (append_each (some block) ws os2 ≡ ran (numbered 0 ws) os3)
      × (open_block dir id os3 ≡ ran (some other) os4)
      × (query_by_record_id other k buf_len os4 ≡ ran (record { ret = 0; copied = some w }) os5)
create_append_query os dir id max_size max_count ws k buf_len w short quiet positive no_data
      no_index ne lm li fit few small there le =
    let (os1, created, made, d, index_at, data_at, empty, limit) =
      create_empty os dir id max_size max_count short quiet no_data no_index ne lm li in
    let (l, same) = opened-Live d (omega (arith, positive, made.next)) in
    let none_yet : length l.stored.b ≡ 0 = ap length same ∙ ap length empty in
    let (all, os3, d', appended, eq, total) =
      append_each-eq ws l fit (omega (arith, few)) (omega (arith, none_yet, small)) in
    let (other, os4, os5, opened, answered) =
      open_then_query d' k buf_len w (omega (arith, short)) (omega (arith, total, none_yet, small))
        (omega (arith, ap length eq, few)) (ap (λ rs. get_elem? rs k) eq ∙ there) le in
    (
      os1,
      state_opened d,
      os3,
      os4,
      os5,
      opened_block d,
      other,
      created,
      open_block-eq d (omega (arith, short)),
      appended,
      opened,
      answered,
    )
