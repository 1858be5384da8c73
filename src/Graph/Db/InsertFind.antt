-- ===== src/Graph/Db/InsertFind.antt =====
-- A node that is inserted through one connection, and sought through another.
pub mod Again
use sea.Prelude.{
  ℕ, ◌+◌, ◌-◌, ◌*◌, ◌^◌, ◌≤◌, ◌<◌, ◌≡◌, ◌≢◌, refl, sym, ap, ◌∙◌, some, none, List, [], ◌∷◌, ◌++◌,
  length, get_elem?, arith, length-append, get_elem?-append_self,
}
use sea.Posix.{Os, ran}
use sea.Column.{string_of}
use sea.Time.Data.{Data}
use sea.Time.Index.{Index}
use sea.Time.Block
use sea.Time.Block.{Block}
use sea.Time.Block.Log.{Stored, same_total}
use sea.Time.Block.Append.{
  HasSpace, success, append-eq, append-Stored, state_after, block_after, state_after-next,
}
use sea.Time.Block.Open.{OnDisk, state_opened}
use sea.Time.Block.Live.{Live, Live-OnDisk, append-Live, append-size}
use sea.Time.Block.Apart.{Apart, Apart-Live}
use sea.Graph.NodeData.{
  NodeInfo, AttrInfo, EdgeInfo, node_of, with_counts, buf_size, edge_bytes, attr_bytes,
}
use sea.Graph.NodeData.Log.{
  Attrs, FitsNode, stored_node, length-stored_node, node_space, create_node_data-eq,
  node_of-node_bytes,
}
use sea.Graph.Db.{
  Conn, dir_size, index_node_data_size, IndexNodeData, index_node_bytes, graph_db_get_block_id,
  graph_db_open, graph_db_insert_internal, graph_db_insert, graph_db_find, Inserted,
}
use sea.Graph.Db.Find.{padded, length-index_node_bytes, fresh_conn, open-eq, find-eq}

abbrev pub named_block : List ℕ → ℕ → Data → Index → Block
named_block dir id d i = record { dir = dir; block_id = id; handle = d; index = i }

-- Both blocks of a connection are open, in the directory `dir`: the one with the entries `es`, and
-- the block 2 with the nodes `rs`.
pub record Connected (os : Os) (conn : Conn) (dir : List ℕ) (es rs : List (List ℕ)) : Type 0 where
  pub entries_data : Data
  pub entries_index : Index
  pub nodes_data : Data
  pub nodes_index : Index
  pub has_entries :
      conn.index_block ≡ some (named_block dir conn.index_block_id entries_data entries_index)
  pub has_nodes : conn.data_block ≡ some (named_block dir 2 nodes_data nodes_index)
  pub entries : Live os (named_block dir conn.index_block_id entries_data entries_index) es
  pub nodes : Live os (named_block dir 2 nodes_data nodes_index) rs
  pub apart : Apart nodes.stored entries.stored
  pub positive : 0 < os.next_fd

-- The room for one more node in both blocks.
pub record NodeRoom {os : Os} {conn : Conn} {dir : List ℕ} {es rs : List (List ℕ)}
    (c : Connected os conn dir es rs) (attrs : List AttrInfo) (edges : List EdgeInfo) : Type 0 where
  pub sized : Attrs attrs
  pub few_attrs : length attrs < 2 ^ 16
  pub few_edges : length edges < 2 ^ 16
  pub nodes_file : length c.nodes.stored.b < 2 ^ 62
  pub entries_file : length c.entries.stored.b < 2 ^ 61
  pub nodes : length rs + 1 < 2 ^ 32
  pub entries : length es + 1 < 2 ^ 32

module _ {os : Os} {conn : Conn} {dir : List ℕ} {es rs : List (List ℕ)}
    (c : Connected os conn dir es rs) (node : NodeInfo) (attrs : List AttrInfo)
    (edges : List EdgeInfo) (room : NodeRoom c attrs edges) where
  abbrev bytes : List ℕ
  bytes = stored_node node attrs edges

  space : HasSpace os _ rs c.nodes.stored (length (stored_node node attrs edges))
  space =
      node_space c.nodes.stored node attrs edges room.sized room.few_attrs room.few_edges
        (omega (arith, room.nodes_file)) room.nodes

  abbrev node_written : Os
  node_written = state_after c.nodes.stored bytes space

  abbrev entry : List ℕ
  entry = index_node_bytes (record { block_id = 2; record_id = length rs })

  entries_then :
      Live node_written (named_block dir conn.index_block_id c.entries_data c.entries_index) es
  entries_then = Apart-Live c.nodes.stored bytes space c.entries c.apart

  nodes_then :
      Live node_written
        (block_after os (named_block dir 2 c.nodes_data c.nodes_index))
        (rs ++ bytes ∷ [])
  nodes_then = append-Live c.nodes bytes space

  entry_space : HasSpace node_written _ es entries_then.stored (length entry)
  unfolding entries_then Apart-Live
  entry_space = record {
    nonempty =
        omega (arith, length-index_node_bytes (record { block_id = 2; record_id = length rs }));
    frame_size =
        omega (arith, length-index_node_bytes (record { block_id = 2; record_id = length rs }));
    file_size = omega (arith, room.entries_file);
    records = room.entries;
  }

  parted : Apart entries_then.stored nodes_then.stored
  unfolding entries_then nodes_then Apart-Live append-Live append-Stored
  parted = record {
    data_data_fd = λ e. c.apart.data_data_fd (sym e);
    data_index_fd = λ e. c.apart.index_data_fd (sym e);
    index_data_fd = λ e. c.apart.data_index_fd (sym e);
    index_index_fd = λ e. c.apart.index_index_fd (sym e);
    data_data = λ e. c.apart.data_data (sym e);
    data_index = λ e. c.apart.index_data (sym e);
    index_data = λ e. c.apart.data_index (sym e);
    index_index = λ e. c.apart.index_index (sym e);
  }

  abbrev both_written : Os
  both_written = state_after entries_then.stored entry entry_space

  abbrev conn_after : Conn
  conn_after = record conn {
    index_block = some (
        block_after node_written
          (named_block dir conn.index_block_id c.entries_data c.entries_index));
    data_block = some (block_after os (named_block dir 2 c.nodes_data c.nodes_index));
  }

  entry_appended :
      Block.append
        (some (named_block dir conn.index_block_id c.entries_data c.entries_index))
        (some entry)
        index_node_data_size
        0
        0
        node_written
      ≡ ran
          (success node_written
            (named_block dir conn.index_block_id c.entries_data c.entries_index))
          both_written
  entry_appended =
      ap
        (λ n.
          Block.append (some (named_block dir conn.index_block_id c.entries_data c.entries_index))
            (some entry) n 0 0 node_written)
        (sym (length-index_node_bytes (record { block_id = 2; record_id = length rs })))
      ∙ append-eq entries_then.stored entry entry_space 0 0

  insert-eq :
      (node_block_id node_record_id : ℕ)
      → graph_db_insert conn node attrs
          (length attrs)
          edges
          (length edges)
          node_block_id
          node_record_id
          os
        ≡ ran
            (record {
              ret = 0;
              conn = conn_after;
              node = with_counts node (length attrs) (length edges);
              node_block_id = conn.index_block_id;
              node_record_id = length es;
            })
            both_written
  unfolding graph_db_insert graph_db_insert_internal
  insert-eq node_block_id node_record_id =
      rw
        (
          c.has_nodes,
          create_node_data-eq c.nodes.stored node attrs edges room.sized room.few_attrs
              room.few_edges (omega (arith, room.nodes_file)) room.nodes,
          c.has_entries,
          entry_appended,
          same_total entries_then.stored,
        )
        refl

  entries_disk : OnDisk both_written dir conn.index_block_id (es ++ entry ∷ [])
  entries_disk = Live-OnDisk (append-Live entries_then entry entry_space)

  nodes_disk : OnDisk both_written dir 2 (rs ++ bytes ∷ [])
  nodes_disk = Live-OnDisk (Apart-Live entries_then.stored entry entry_space nodes_then parted)

  entries_small : length entries_disk.b < 2 ^ 63
  unfolding entries_disk Live-OnDisk entries_then Apart-Live
  entries_small = omega (
    arith,
    append-size entries_then entry entry_space,
    room.entries_file,
    length-index_node_bytes (record { block_id = 2; record_id = length rs }),
  )

  nodes_small : length nodes_disk.b < 2 ^ 63
  unfolding nodes_disk Live-OnDisk nodes_then Apart-Live
  nodes_small = omega (arith, append-size c.nodes bytes space, room.nodes_file, space.frame_size)

  -- The environment letting every call succeed, both blocks of a connection being open, apart and not
  -- full, and a node having fewer than 2 ^ 20 bytes: an insert returns 0 and the number of the
  -- entries before; and a connection that is opened then to the same graph, in a directory whose
  -- name is a string of at most 128 bytes in its array, finds by that number memory that begins
  -- with the node's fields and its counts.
  pub insert_then_find_node :
      (md5 : List ℕ → List ℕ) (name : List ℕ) (node_block_id node_record_id : ℕ)
      → conn.index_block_id ≡ graph_db_get_block_id md5 name
      → string_of (padded dir) ≡ some dir
      → length dir ≤ dir_size
      → buf_size (length attrs) (length edges) < 2 ^ 20
      → FitsNode node
      → (conn' : Conn) × (other : Conn) × (os1 : Os) × (os2 : Os) × (os3 : Os) × (buf : List ℕ)
        × (graph_db_insert conn node attrs
              (length attrs)
              edges
              (length edges)
              node_block_id
              node_record_id
              os
            ≡ ran
                (record {
                  ret = 0;
                  conn = conn';
                  node = with_counts node (length attrs) (length edges);
                  node_block_id = conn.index_block_id;
                  node_record_id = length es;
                })
                os1)
        × (graph_db_open md5 dir name os1 ≡ ran (some other) os2)
        × (graph_db_find other (length es) os2 ≡ ran (some buf) os3)
        × (node_of buf ≡ with_counts node (length attrs) (length edges))
  insert_then_find_node md5 name node_block_id node_record_id same named short lt fits =
      let positive : 0 < both_written.next_fd = omega (
        arith,
        c.positive,
        state_after-next c.nodes.stored bytes space,
        state_after-next entries_then.stored entry entry_space,
      ) in
      let (os3, found) =
        find-eq entries_disk nodes_disk positive named short (length es) (length rs) bytes
          entries_small nodes_small (omega (arith, length-append es (entry ∷ []), room.entries))
          (omega (arith, length-append rs (bytes ∷ []), room.nodes)) (omega (arith, room.nodes))
          (get_elem?-append_self es [] entry) (get_elem?-append_self rs [] bytes)
          (omega (arith, length-stored_node node attrs edges room.sized)) in
      (
        conn_after,
        fresh_conn entries_disk nodes_disk positive named short,
        both_written,
        state_opened entries_disk,
        os3,
        bytes,
        insert-eq node_block_id node_record_id,
        open-eq entries_disk nodes_disk positive named short md5 name same,
        found,
        node_of-node_bytes (with_counts node (length attrs) (length edges))
            (edge_bytes edges ++ attr_bytes attrs)
            (record {
              next_record_id = fits.next_record_id;
              prev_record_id = fits.prev_record_id;
              edge_count = omega (arith, room.few_edges);
              attr_count = omega (arith, room.few_attrs);
            }),
      )
