-- ===== src/Graph/Db.antt =====
-- src/block/graph/graph.c: a connection to a graph, with a block that has an entry for each node and
-- a block with the nodes. `md5` stands for the text that the library's `md5` leaves in a buffer.
pub mod Find
pub mod InsertFind
mod Tests
use sea.Prelude.{
  ℕ, ◌+◌, ◌-◌, ◌*◌, Bool, true, false, Option, none, some, List, [], ◌∷◌, ◌++◌, ltb, ◌==◌,
  if◌then◌else◌, length, take, replicate,
}
use sea.Bytes.{le_bytes, of_le_bytes, field_at}
use sea.Posix
use sea.Posix.{M, pure, undef, einval, uninit_bytes, ◌>>=◌, ◌>>◌}
use sea.Column.{strlen}
use sea.Time.Data
use sea.Time.Block
use sea.Time.Block.{Block, Answer, first_bytes}
use sea.Graph.NodeData.{NodeInfo, AttrInfo, EdgeInfo, Created, create_node_data}

-- struct graph_db_conn, with the 128 bytes of its array.
pub record Conn : Type 0 where
  pub dir : List ℕ
  pub index_block_id : ℕ
  pub index_block : Option Block
  pub data_block : Option Block

abbrev pub dir_size : ℕ
dir_size = 128

-- struct graph_db_index_node_data, of 16 bytes; `pad` is 0 wherever it is set.
pub record IndexNodeData : Type 0 where
  pub block_id : ℕ
  pub record_id : ℕ

abbrev pub index_node_data_size : ℕ
index_node_data_size = 16

unfoldable pub index_node_bytes : IndexNodeData → List ℕ
index_node_bytes d = le_bytes 8 d.block_id ++ (le_bytes 4 d.record_id ++ le_bytes 4 0)

unfoldable pub index_node_of : List ℕ → IndexNodeData
index_node_of bs = record { block_id = field_at 0 8 bs; record_id = field_at 8 4 bs }

abbrev pub max_size : ℕ
max_size = 128 * 1024 * 1024

abbrev pub max_count : ℕ
max_count = 128 * 1024

close_if : Option Block → M (Unit {0})
close_if none = pure tt
close_if (some block) = do Block.close_block block; pure tt

module _ (md5 : List ℕ → List ℕ) where
  -- The first characters of the digest, read as a number.
  abbrev pub graph_db_get_block_id : List ℕ → ℕ
  graph_db_get_block_id db_name = of_le_bytes (take 8 (md5 db_name))

  unfoldable pub graph_db_create : List ℕ → List ℕ → M ℕ
  graph_db_create dir db_name = Block.create dir (graph_db_get_block_id db_name) max_size max_count

  -- The index file of the block stays.
  unfoldable pub graph_db_destroy : List ℕ → List ℕ → M ℕ
  graph_db_destroy dir db_name = Data.destroy dir (graph_db_get_block_id db_name)

  -- The connection is had also where its block cannot be opened. `none` is a null pointer.
  unfoldable pub graph_db_open : List ℕ → List ℕ → M (Option Conn)
  graph_db_open dir db_name = do
    got ← Posix.malloc 152
    if got
        then (do
          block ← Block.open_block dir (graph_db_get_block_id db_name)
          if ltb dir_size (length dir)
              then undef
              else pure (
                  some (record {
                    dir = dir ++ replicate (dir_size - length dir) 0;
                    index_block_id = graph_db_get_block_id db_name;
                    index_block = block;
                    data_block = none;
                  })))
        else pure none

unfoldable pub graph_db_close : Conn → M (Unit {0})
unfolding close_if
graph_db_close conn = do close_if conn.index_block; close_if conn.data_block

-- The code, the connection and the caller's node after the call, and its two numbers.
pub record Inserted : Type 0 where
  pub ret : ℕ
  pub conn : Conn
  pub node : NodeInfo
  pub node_block_id : ℕ
  pub node_record_id : ℕ

create_and_open : Conn → ℕ → M (Option Block)
create_and_open conn id = do
  dir ← strlen conn.dir
  Block.create dir id max_size max_count
  Block.open_block dir id

data_block_in_use : Conn → Option Block → ℕ → M (Option Block)
unfolding create_and_open
data_block_in_use conn (some block) id = pure (some block)
data_block_in_use conn none id = create_and_open conn id

number_or : ℕ → Option ℕ → ℕ
number_or d none = d
number_or d (some n) = n

append_index : Conn → NodeInfo → ℕ → ℕ → ℕ → ℕ → M Inserted
append_index conn node data_id data_record_id node_block_id node_record_id = do
  let entry = index_node_bytes (record { block_id = data_id; record_id = data_record_id })
  a ← Block.append conn.index_block (some entry) index_node_data_size 0 0
  let c : Conn = record conn { index_block = a.block }
  pure (
      if a.ret == 0
      then record {
        ret = 0;
        conn = c;
        node = node;
        node_block_id = conn.index_block_id;
        node_record_id = a.record_id;
      }
      else record {
        ret = a.ret;
        conn = c;
        node = node;
        node_block_id = node_block_id;
        node_record_id = node_record_id;
      })

-- The entry is overwritten with the numbers that name the entry itself.
update_index : Conn → Option Block → NodeInfo → ℕ → ℕ → M Inserted
update_index conn none node node_block_id node_record_id = undef
update_index conn (some block) node node_block_id node_record_id = do
  let entry = index_node_bytes (record { block_id = node_block_id; record_id = node_record_id })
  ret ← Block.update block node_record_id entry index_node_data_size
  pure (record {
    ret = ret;
    conn = conn;
    node = node;
    node_block_id = node_block_id;
    node_record_id = node_record_id;
  })

write_index : Conn → Created → ℕ → Bool → ℕ → ℕ → M Inserted
unfolding append_index update_index number_or
write_index conn made data_id exist node_block_id node_record_id =
    if made.ret == 0
    then (if exist
        then update_index conn conn.index_block made.node node_block_id node_record_id
        else append_index conn made.node data_id (number_or 0 made.node_id) node_block_id
            node_record_id)
    else pure (record {
      ret = made.ret;
      conn = conn;
      node = made.node;
      node_block_id = node_block_id;
      node_record_id = node_record_id;
    })

-- A new node goes to the block 2, one that exists to the block of its number; but a block that
-- the connection has in use is taken for either.
unfoldable pub graph_db_insert_internal :
    Conn → NodeInfo → List AttrInfo → ℕ → List EdgeInfo → ℕ → ℕ → ℕ → Bool → M Inserted
unfolding data_block_in_use write_index
graph_db_insert_internal conn node attr_info attr_count edge_info edge_count node_block_id
      node_record_id exist =
    do
      let data_id : ℕ = if exist then node_block_id else 2
      block ← data_block_in_use conn conn.data_block data_id
      let c : Conn = record conn { data_block = block }
      elim block [
        | none ↦ pure (record {
          ret = einval;
          conn = c;
          node = node;
          node_block_id = node_block_id;
          node_record_id = node_record_id;
        })
        | some b ↦ (do
          made ← create_node_data (some b) node attr_info attr_count edge_info edge_count
          let c' : Conn = record conn { data_block = made.block }
          write_index c' made data_id exist node_block_id node_record_id)
      ]

unfoldable pub graph_db_insert :
    Conn → NodeInfo → List AttrInfo → ℕ → List EdgeInfo → ℕ → ℕ → ℕ → M Inserted
graph_db_insert conn node attr_info attr_count edge_info edge_count node_block_id node_record_id =
    graph_db_insert_internal conn node attr_info attr_count edge_info edge_count node_block_id
      node_record_id false

-- What of the struct on the stack the query sets, and what it holds else.
entry_read : Answer → M IndexNodeData
entry_read a = do
  rest ←
      uninit_bytes (length (first_bytes a.copied))
        (index_node_data_size - length (first_bytes a.copied))
  pure (index_node_of (first_bytes a.copied ++ rest))

-- What was copied into the node's memory, or null.
read_node : Option Block → ℕ → M (Option (List ℕ))
read_node none record_id = pure none
read_node (some block) record_id = do
  got ← Posix.malloc (1024 * 1024)
  if got
      then (do
        a ← Block.query_by_record_id block record_id (1024 * 1024)
        if a.ret == 0
            then pure (some (first_bytes a.copied))
            else (do Block.close_block block; pure none))
      else pure none

follow : Conn → Answer → M (Option (List ℕ))
unfolding entry_read read_node
follow conn a =
    if a.ret == 0
    then (do
      entry ← entry_read a
      dir ← strlen conn.dir
      block ← Block.open_block dir entry.block_id
      read_node block entry.record_id)
    else pure none

find_in : Conn → Option Block → ℕ → M (Option (List ℕ))
unfolding follow
find_in conn none node_record_id = undef
find_in conn (some block) node_record_id = do
  a ← Block.query_by_record_id block node_record_id index_node_data_size
  follow conn a

-- The number of the block is not read.
unfoldable pub graph_db_find : Conn → ℕ → M (Option (List ℕ))
unfolding find_in
graph_db_find conn node_record_id = find_in conn conn.index_block node_record_id

unfoldable pub graph_db_remove : Conn → ℕ → ℕ → M ℕ
graph_db_remove conn node_block_id node_record_id = pure 0

unfoldable pub graph_db_check_update : NodeInfo → ℕ → ℕ → Bool
graph_db_check_update node attr_count edge_count = false

-- The node that is found is not used, as no update in place is made.
unfoldable pub graph_db_update :
    Conn → ℕ → ℕ → NodeInfo → List AttrInfo → ℕ → List EdgeInfo → ℕ → M Inserted
graph_db_update conn node_block_id node_record_id node attr_info attr_count edge_info edge_count =
    do
      graph_db_find conn node_record_id
      graph_db_remove conn node_block_id node_record_id
      graph_db_insert_internal conn node attr_info attr_count edge_info edge_count node_block_id
          node_record_id true
