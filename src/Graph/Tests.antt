-- ===== src/Graph/Tests.antt =====
-- The theorems on nodes at concrete inputs.
use sea.Prelude.{ℕ, ◌≡◌, refl, some, List, [], ◌∷◌, replicate, arith, if◌then◌else◌, ◌==◌}
use sea.Bytes.{le_bytes, of_le_bytes}
use sea.Posix.{Os, ran}
use sea.Time.Data.Frame.{RecordAt}
use sea.Time.Index.{Header, Entry}
use sea.Time.Index.Layout.{index_bytes}
use sea.Time.Block.{Block}
use sea.Time.Block.Log.{Stored}
use sea.Time.Sample
use sea.Time.Sample.{abc, xy, block, system, framed_sample}
use sea.Graph.NodeData.{
  NodeInfo, AttrInfo, EdgeInfo, node_bytes, edge_bytes, attr_bytes, node_of, with_counts,
  create_node_data, find_node_data,
}
use sea.Graph.NodeData.Log.{stored_node, create_node_data_refines, find_node_data_fresh}

abbrev node : NodeInfo
node = record { next_record_id = 0; prev_record_id = 0; edge_count = 0; attr_count = 0 }

abbrev attrs : List AttrInfo
attrs = record { attr_name = replicate 16 1; attr_value = replicate 16 2 } ∷ []

abbrev edges : List EdgeInfo
edges = record { direction = 1; node_id = 7 } ∷ record { direction = 2; node_id = 8 } ∷ []

create_node_data_refines_example :
    (block' : Block) × (os' : Os) × (create_node_data
        (some block)
        node
        attrs
        1
        edges
        2
        (system 0 [])
      ≡ ran
          (record { ret = 0; node = with_counts node 1 2; block = some block'; node_id = some 2 })
          os')
    × Stored os' block' (abc ∷ xy ∷ stored_node node attrs edges ∷ [])
unfolding Sample.stored le_bytes
create_node_data_refines_example =
    create_node_data_refines (Sample.stored 0) node attrs edges (refl, refl, tt) (omega arith)
      (omega arith) (omega arith) (omega arith)

-- A block with a node for its one record.
abbrev header : Header
header = record Sample.header { count = 1 }

abbrev entries : List Entry
entries = record { timestamp = 7; offset = 0 } ∷ []

abbrev node_block : Block
node_block = record block { index = record { fd = 4; header = header } }

abbrev contents : List ℕ
contents = framed_sample (stored_node node attrs edges)

abbrev node_system : Os
node_system = record (system 0 []) {
  bytes = λ i. if i == 10 then contents else if i == 11 then index_bytes header entries else [];
}

node_at : RecordAt contents 0 (stored_node node attrs edges)
unfolding le_bytes of_le_bytes node_bytes edge_bytes attr_bytes
node_at = record {
  whole = refl;
  sized = refl;
  body = refl;
  fits = omega arith;
  small = omega arith;
}

node_stored : Stored node_system node_block (stored_node node attrs edges ∷ [])
node_stored = record {
  es = entries;
  b = contents;
  index_inode = 11;
  data_inode = 10;
  index_pos = 40;
  data_pos = 0;
  log = record {
    total = refl;
    header = omega arith;
    entries = omega arith;
    records = (omega arith, node_at, tt);
  };
  index = record { opened = refl; content = refl; quiet = refl };
  handle = record { opened = refl; content = refl; quiet = refl };
  other_fd = omega arith;
  other_inode = omega arith;
}

find_node_data_fresh_example :
    (os' : Os) × (buf : List ℕ) × (find_node_data node_block 0 node_system ≡ ran (some buf) os')
    × (node_of buf ≡ with_counts node 1 2)
    × Stored os' node_block (stored_node node attrs edges ∷ [])
unfolding node_stored le_bytes node_bytes edge_bytes attr_bytes
find_node_data_fresh_example =
    find_node_data_fresh node_stored 0 node attrs edges refl (omega arith) (omega arith) refl
      (refl, refl, tt) (omega arith) (omega arith)
