-- ===== src/Graph/NodeData/Log.antt =====
-- Nodes as records of a block's log.
use sea.Prelude.{
  ℕ, ◌+◌, ◌*◌, ◌^◌, ◌<◌, ◌≡◌, refl, sym, ap, ◌∙◌, some, List, [], ◌∷◌, ◌++◌, length, get_elem?,
  arith, length-append, take_all,
}
use sea.Bytes.{le_bytes}
use sea.Bytes.Laws.{of_le_bytes-le_bytes}
use sea.Posix.{Os, ran}
use sea.Posix.Laws.{malloc_lem, memcpy_lem}
use sea.Time.Block.{Block, append}
use sea.Time.Block.Log.{Stored, same_total}
use sea.Time.Block.Append.{HasSpace, append-eq, append-Stored, block_after, state_after}
use sea.Time.Block.Read.{query_fresh}
use sea.Graph.NodeData.{
  NodeInfo, AttrInfo, EdgeInfo, node_bytes, node_of, edge_bytes, attr_bytes, buf_size, with_counts,
  create_node_data, find_node_data,
}

-- The sizes of the fields.
pub record FitsNode (n : NodeInfo) : Type 0 where
  pub next_record_id : n.next_record_id < 2 ^ 32
  pub prev_record_id : n.prev_record_id < 2 ^ 32
  pub edge_count : n.edge_count < 2 ^ 32
  pub attr_count : n.attr_count < 2 ^ 32

abbrev pub Attrs : List AttrInfo → Type 0
Attrs [] = Unit
Attrs (a ∷ attrs) = (length a.attr_name ≡ 16) × (length a.attr_value ≡ 16) × Attrs attrs

length-edge_bytes : (es : List EdgeInfo) → length (edge_bytes es) ≡ length es * 5
unfolding edge_bytes le_bytes
length-edge_bytes [] = omega arith
length-edge_bytes (e ∷ es) = omega (arith, length-edge_bytes es)

length-attr_bytes :
    (attrs : List AttrInfo) → Attrs attrs → length (attr_bytes attrs) ≡ length attrs * 32
unfolding attr_bytes
length-attr_bytes [] h = omega arith
length-attr_bytes (a ∷ attrs) (n, v, h) = omega (
  arith,
  length-append (a.attr_name ++ a.attr_value) (attr_bytes attrs),
  length-append a.attr_name a.attr_value,
  length-attr_bytes attrs h,
)

-- The record of a node.
abbrev pub stored_node : NodeInfo → List AttrInfo → List EdgeInfo → List ℕ
stored_node node attrs edges =
    node_bytes (with_counts node (length attrs) (length edges))
    ++ (edge_bytes edges ++ attr_bytes attrs)

length-node_bytes : (n : NodeInfo) → length (node_bytes n) ≡ 16
unfolding node_bytes le_bytes
length-node_bytes n = refl

pub length-stored_node :
    (node : NodeInfo) (attrs : List AttrInfo) (edges : List EdgeInfo)
    → Attrs attrs
    → length (stored_node node attrs edges) ≡ buf_size (length attrs) (length edges)
length-stored_node node attrs edges h = omega (
  arith,
  length-append (node_bytes (with_counts node (length attrs) (length edges)))
      (edge_bytes edges ++ attr_bytes attrs),
  length-node_bytes (with_counts node (length attrs) (length edges)),
  length-append (edge_bytes edges) (attr_bytes attrs),
  length-edge_bytes edges,
  length-attr_bytes attrs h,
)

-- The fields of a node are read back from the record that begins with it.
pub node_of-node_bytes :
    (n : NodeInfo) (rest : List ℕ) → FitsNode n → node_of (node_bytes n ++ rest) ≡ n
unfolding node_of node_bytes le_bytes
node_of-node_bytes n rest f i = record {
  next_record_id = of_le_bytes-le_bytes 4 n.next_record_id f.next_record_id i;
  prev_record_id = of_le_bytes-le_bytes 4 n.prev_record_id f.prev_record_id i;
  edge_count = of_le_bytes-le_bytes 4 n.edge_count f.edge_count i;
  attr_count = of_le_bytes-le_bytes 4 n.attr_count f.attr_count i;
}

module _ {os : Os} {block : Block} {rs : List (List ℕ)} (s : Stored os block rs) (node : NodeInfo)
    (attrs : List AttrInfo) (edges : List EdgeInfo) (sized : Attrs attrs)
    (few_attrs : length attrs < 2 ^ 16) (few_edges : length edges < 2 ^ 16)
    (small : length s.b < 2 ^ 63) (few : length rs + 1 < 2 ^ 32) where
  -- The room for the record of a node.
  pub node_space : HasSpace os block rs s (length (stored_node node attrs edges))
  node_space = record {
    nonempty = omega (arith, length-stored_node node attrs edges sized);
    frame_size = omega (arith, length-stored_node node attrs edges sized);
    file_size = small;
    records = few;
  }

  pub create_node_data-eq :
      create_node_data (some block) node attrs (length attrs) edges (length edges) os
      ≡ ran
          (record {
            ret = 0;
            node = with_counts node (length attrs) (length edges);
            block = some (block_after os block);
            node_id = some (length rs);
          })
          (state_after s (stored_node node attrs edges) node_space)
  unfolding create_node_data
  create_node_data-eq =
      let size : ℕ = buf_size (length attrs) (length edges) in
      let edges_len : length (edge_bytes edges) ≡ length edges * 5 = length-edge_bytes edges in
      let attrs_len : length (attr_bytes attrs) ≡ length attrs * 32 =
        length-attr_bytes attrs sized in
      let appended =
        ap (λ n. append (some block) (some (stored_node node attrs edges)) n 0 0 os)
          (sym (length-stored_node node attrs edges sized))
        ∙ append-eq s (stored_node node attrs edges) node_space 0 0 in
      rw
        (
          malloc_lem size os s.handle.quiet (omega arith),
          memcpy_lem (edge_bytes edges) (length edges * 5) os (omega (arith, edges_len)),
          take_all (length edges * 5) (edge_bytes edges) (omega (arith, edges_len)),
          memcpy_lem (attr_bytes attrs) (length attrs * 32) os (omega (arith, attrs_len)),
          take_all (length attrs * 32) (attr_bytes attrs) (omega (arith, attrs_len)),
          appended,
          same_total s,
        )
        refl

-- The environment letting every call succeed, a node with fewer than 2 ^ 16 edges and attributes is
-- appended to the log of a block as one record: the node with its counts set, the edges, and the
-- attributes. The code is 0 and the node's id the number of records before.
pub create_node_data_refines :
    {os : Os} {block : Block} {rs : List (List ℕ)} (s : Stored os block rs) (node : NodeInfo)
    (attrs : List AttrInfo) (edges : List EdgeInfo)
    → Attrs attrs
    → length attrs < 2 ^ 16
    → length edges < 2 ^ 16
    → length s.b < 2 ^ 63
    → length rs + 1 < 2 ^ 32
    → (block' : Block) × (os' : Os) × (create_node_data
          (some block)
          node
          attrs
          (length attrs)
          edges
          (length edges)
          os
        ≡ ran
            (record {
              ret = 0;
              node = with_counts node (length attrs) (length edges);
              block = some block';
              node_id = some (length rs);
            })
            os')
      × Stored os' block' (rs ++ stored_node node attrs edges ∷ [])
create_node_data_refines {os} {block} s node attrs edges sized few_attrs few_edges small few =
    let space = node_space s node attrs edges sized few_attrs few_edges small few in
    (
      block_after os block,
      state_after s (stored_node node attrs edges) space,
      create_node_data-eq s node attrs edges sized few_attrs few_edges small few,
      append-Stored s (stored_node node attrs edges) space,
    )

-- On a handle whose data file is at position 0, the node of a record that was stored as a node, and
-- has fewer than 2 ^ 20 bytes, is found: the memory begins with its fields, the counts being those of
-- its edges and attributes, and the log stays.
pub find_node_data_fresh :
    {os : Os} {block : Block} {rs : List (List ℕ)} (s : Stored os block rs) (k : ℕ)
    (node : NodeInfo) (attrs : List AttrInfo) (edges : List EdgeInfo)
    → s.data_pos ≡ 0
    → length s.b < 2 ^ 63
    → length rs < 2 ^ 32
    → get_elem? rs k ≡ some (stored_node node attrs edges)
    → Attrs attrs
    → buf_size (length attrs) (length edges) < 2 ^ 20
    → FitsNode node
    → (os' : Os) × (buf : List ℕ) × (find_node_data block k os ≡ ran (some buf) os')
      × (node_of buf ≡ with_counts node (length attrs) (length edges))
      × Stored os' block rs
unfolding find_node_data
find_node_data_fresh {os} {block} s k node attrs edges start small few nth sized lt fits =
    let (os', answer, stays) =
      query_fresh s k (1024 * 1024) (stored_node node attrs edges) start small few nth
        (omega (arith, length-stored_node node attrs edges sized)) in
    (
      os',
      stored_node node attrs edges,
      rw (malloc_lem (1024 * 1024) os s.handle.quiet (omega arith), answer) refl,
      node_of-node_bytes (with_counts node (length attrs) (length edges))
          (edge_bytes edges ++ attr_bytes attrs)
          (record {
            next_record_id = fits.next_record_id;
            prev_record_id = fits.prev_record_id;
            edge_count = omega arith;
            attr_count = omega arith;
          }),
      stays,
    )
