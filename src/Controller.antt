-- ===== src/Controller.antt =====
-- src/controller/controller.c: a node of the store. What it is asked to keep goes into the block in
-- use, and what it is asked for is read from its own blocks or from another node's. The table of
-- khash.h, with which phone_list.c keeps the nodes that hold a block, is a parameter.
pub mod SuperBlock
pub mod PhoneList
pub mod DhtList
pub mod Data
pub mod Reads
pub mod Local
pub mod Store
pub mod Bounds
pub mod Sample
mod Tests
use Prim.Native.Char.{code}
use Prim.Native.String.{String}
use sea.Prelude.{
  ℕ, ◌+◌, ◌-◌, ◌*◌, Option, none, some, List, [], ◌∷◌, ltb, ◌==◌, if◌then◌else◌, length,
}
use sea.Bytes.{of_le_bytes}
use sea.Posix
use sea.Posix.{M, pure, undef, einval, enoent, uninit_bytes, ◌>>=◌, ◌>>◌}
use sea.Time.Block
use sea.Time.Block.{Block, Answer}

-- The code points of a text.
abbrev pub codes : String → List ℕ
codes String.[] = []
codes (String.◌∷◌ c s) = code c ∷ codes s

abbrev pub data_dir : List ℕ
data_dir = codes "/Users/zhangxinlong/tmp/controller"

put_at :
    {T : Type 0}
    → PhoneList.Khash T
    → Option (PhoneList.PhoneList T)
    → ℕ
    → List ℕ
    → ℕ
    → M (ℕ × Option (PhoneList.PhoneList T))
put_at kh none block_id node node_len = undef
put_at kh (some list) block_id node node_len = do
  r ← PhoneList.put kh list block_id node node_len
  pure (r.0, some r.1)

-- `none` is a null pointer to a list.
pub record Controller (T : Type 0) : Type 0 where
  pub super_block : SuperBlock.SuperBlock
  pub block : Option Block
  pub phone_list : Option (PhoneList.PhoneList T)

-- The code, the controller, and the numbers of the record.
pub record Written (T : Type 0) : Type 0 where
  pub ret : ℕ
  pub controller : Controller T
  pub block_id : ℕ
  pub record_id : ℕ

abbrev pub local_node : ℕ
local_node = 0

answer_of : Option Block → ℕ → ℕ → M Answer
answer_of none record_id buf_len = pure (record { ret = einval; copied = none })
answer_of (some block) record_id buf_len = do
  a ← Block.query_by_record_id block record_id buf_len
  Block.close_block block
  pure a

unfoldable pub read_from_local : ℕ → ℕ → ℕ → M Answer
unfolding answer_of
read_from_local block_id record_id buf_len = do
  block ← Block.open_block data_dir block_id
  answer_of block record_id buf_len

module _ {T : Type 0} (kh : PhoneList.Khash T) (md5 : List ℕ → List ℕ) where
  unfoldable pub create : List ℕ → M (Option (Controller T))
  create dir = do
    got ← Posix.malloc 24
    if got
        then (do
          list ← PhoneList.create kh 3
          sb ← SuperBlock.open_or_create md5 dir (codes "controller")
          pure (elim sb [
            | none ↦ none
            | some sb ↦ some (record { super_block = sb; block = none; phone_list = list })
          ]))
        else pure none

  -- The block in use: `open_created` tries to open the block, creates it, and opens it again, also
  -- where it was open already.
  block_in_use : Option Block → ℕ → M (Option Block)
  block_in_use (some block) block_id = pure (some block)
  block_in_use none block_id = SuperBlock.open_created data_dir block_id

  -- Where the block is full, the next one is written from now on.
  close_full : Controller T → Option Block → M (Controller T)
  close_full c none = undef
  close_full c (some block) = do
    sb ← SuperBlock.expire_block_id md5 c.super_block
    Block.close_block block
    pure (record c { super_block = sb.1; block = none })

  note_record : Controller T → Block.Appended → ℕ → M (Written T)
  unfolding close_full put_at
  note_record c a block_id = do
    noted ← put_at kh c.phone_list block_id (local_node ∷ []) 1
    let c' : Controller T = record c { phone_list = noted.1 }
    c'' ← (if a.over_limit == 0 then pure c' else close_full c' a.block)
    pure (record { ret = 0; controller = c''; block_id = block_id; record_id = a.record_id })

  append_local : Controller T → Option (List ℕ) → ℕ → ℕ → ℕ → M (Written T)
  unfolding note_record
  append_local c buf buf_len block_id record_id = do
    a ← Block.append c.block buf buf_len record_id 0
    let c' : Controller T = record c { block = a.block }
    (if a.ret == 0
        then note_record c' a block_id
        else pure
            (record { ret = a.ret; controller = c'; block_id = block_id; record_id = a.record_id }))

  unfoldable pub write_local : Controller T → Option (List ℕ) → ℕ → ℕ → M (Written T)
  unfolding block_in_use append_local
  write_local c buf buf_len record_id = do
    id ← SuperBlock.get_block_id c.super_block
    block ← block_in_use c.block id.1
    let c' : Controller T = record c { block = block }
    elim block [
      | none ↦
          pure (record { ret = enoent; controller = c'; block_id = id.1; record_id = record_id })
      | some b ↦ append_local c' buf buf_len id.1 record_id
    ]

unfoldable pub destroy : {T : Type 0} → Controller T → M (Unit {0})
destroy c = do SuperBlock.close_super_block c.super_block; pure tt

module _ (dht : DhtList.Dht) (nng : Data.Nng) where
  remote_answer : ℕ → ℕ → ℕ → ℕ → M Answer
  remote_answer ip block_id record_id buf_len = do
    r ← Data.controller_data_get nng ip block_id record_id buf_len
    pure (record { ret = r.0; copied = r.1 })

  -- The address is 0 when it is handed on, should the question have been answered.
  unfoldable pub read : ℕ → ℕ → ℕ → M Answer
  unfolding remote_answer
  read block_id record_id buf_len = do
    a ← read_from_local block_id record_id buf_len
    if a.ret == 0 then pure a else (do
      ret ← DhtList.dht_list_get_node dht block_id record_id
      if ret == 0
          then remote_answer 0 block_id record_id buf_len
          else pure (record { ret = ret; copied = none }))

  abbrev source : Option (List ℕ) → List ℕ
  source none = []
  source (some bs) = bs

  remote_numbers : {T : Type 0} → Written T → Option (ℕ × ℕ) → ℕ → Written T
  remote_numbers w none ret = record w { ret = ret }
  remote_numbers w (some ids) ret = record w { ret = ret; block_id = ids.0; record_id = ids.1 }

  -- The address of the free node is never set.
  write_remote : {T : Type 0} → Written T → Option (List ℕ) → ℕ → M (Written T)
  unfolding remote_numbers
  write_remote w buf buf_len = do
    ret ← DhtList.dht_list_get_free_node dht
    ip ← uninit_bytes 0 4
    if ret == 0
        then (do
          r ← Data.controller_data_send nng (source buf) buf_len (of_le_bytes ip)
          pure (remote_numbers w r.1 r.0))
        else pure (record w { ret = ret })

  unfoldable pub write :
      {T : Type 0} (kh : PhoneList.Khash T)
      → (List ℕ → List ℕ)
      → Controller T
      → Option (List ℕ)
      → ℕ
      → ℕ
      → M (Written T)
  unfolding write_remote
  write kh md5 c buf buf_len record_id = do
    w ← write_local kh md5 c buf buf_len record_id
    if w.ret == 0 then pure w else write_remote w buf buf_len
