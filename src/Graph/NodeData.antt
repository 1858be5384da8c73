-- ===== src/Graph/NodeData.antt =====
-- src/block/graph/graph_data.c: a node with its edges and attributes as one record of a block. The
-- sizes kept free are not used by the code, and are left out. Counts are of 16 bits.
pub mod Log
use sea.Prelude.{ℕ, ◌+◌, ◌*◌, Option, none, some, List, [], ◌∷◌, ◌++◌, ◌==◌, if◌then◌else◌}
use sea.Bytes.{le_bytes, field_at}
use sea.Posix
use sea.Posix.{M, pure, enomem, memcpy, ◌>>=◌, ◌>>◌}
use sea.Time.Block
use sea.Time.Block.{Block}

pub record NodeInfo : Type 0 where
  pub next_record_id : ℕ
  pub prev_record_id : ℕ
  pub edge_count : ℕ
  pub attr_count : ℕ

-- A name and a value of 16 bytes each.
pub record AttrInfo : Type 0 where
  pub attr_name : List ℕ
  pub attr_value : List ℕ

pub record EdgeInfo : Type 0 where
  pub direction : ℕ
  pub node_id : ℕ

unfoldable pub node_bytes : NodeInfo → List ℕ
node_bytes n =
    le_bytes 4 n.next_record_id
    ++ (le_bytes 4 n.prev_record_id ++ (le_bytes 4 n.edge_count ++ le_bytes 4 n.attr_count))

-- The node that a buffer begins with.
unfoldable pub node_of : List ℕ → NodeInfo
node_of bs = record {
  next_record_id = field_at 0 4 bs;
  prev_record_id = field_at 4 4 bs;
  edge_count = field_at 8 4 bs;
  attr_count = field_at 12 4 bs;
}

-- The arrays of edges and attributes as they lie in memory.
unfoldable pub edge_bytes : List EdgeInfo → List ℕ
edge_bytes [] = []
edge_bytes (e ∷ es) = (le_bytes 1 e.direction ++ le_bytes 4 e.node_id) ++ edge_bytes es

unfoldable pub attr_bytes : List AttrInfo → List ℕ
attr_bytes [] = []
attr_bytes (a ∷ attrs) = (a.attr_name ++ a.attr_value) ++ attr_bytes attrs

-- The result code, the caller's node and the block, and `*node_id` where it is set.
pub record Created : Type 0 where
  pub ret : ℕ
  pub node : NodeInfo
  pub block : Option Block
  pub node_id : Option ℕ

abbrev pub buf_size : ℕ → ℕ → ℕ
buf_size attr_count edge_count = 16 + edge_count * 5 + attr_count * 32

abbrev pub with_counts : NodeInfo → ℕ → ℕ → NodeInfo
with_counts node attrs edges = record node { edge_count = edges; attr_count = attrs }

store : Option Block → NodeInfo → List ℕ → ℕ → M Created
store block node buf size = do
  r ← Block.append block (some buf) size 0 0
  pure (
      if r.ret == 0
      then record { ret = 0; node = node; block = r.block; node_id = some r.record_id }
      else record { ret = r.ret; node = node; block = r.block; node_id = none })

unfoldable pub create_node_data :
    Option Block → NodeInfo → List AttrInfo → ℕ → List EdgeInfo → ℕ → M Created
unfolding store
create_node_data block node attr_info attr_count edge_info edge_count = do
  got ← Posix.malloc (buf_size attr_count edge_count)
  if got
      then (do
        let node' = with_counts node attr_count edge_count
        edges ← memcpy (edge_bytes edge_info) (edge_count * 5)
        attrs ← memcpy (attr_bytes attr_info) (attr_count * 32)
        store block node' (node_bytes node' ++ (edges ++ attrs)) (buf_size attr_count edge_count))
      else pure (record { ret = enomem; node = node; block = block; node_id = none })

-- What was copied into the node's memory, of which the rest is not set; or null.
unfoldable pub find_node_data : Block → ℕ → M (Option (List ℕ))
find_node_data block node_id = do
  got ← Posix.malloc (1024 * 1024)
  if got
      then (do
        a ← Block.query_by_record_id block node_id (1024 * 1024)
        pure (if a.ret == 0 then a.copied else none))
      else pure none
