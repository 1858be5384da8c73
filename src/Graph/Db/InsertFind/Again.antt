-- ===== src/Graph/Db/InsertFind/Again.antt =====
-- A node that is sought through the connection that has inserted it.
use sea.Prelude.{
  ℕ, ◌+◌, ◌^◌, ◌≤◌, ◌<◌, ◌≡◌, refl, sym, some, none, List, [], ◌∷◌, ◌++◌, length, arith,
  length-append, get_elem?-append_self,
}
use sea.Posix.{Os, ran, enoent, junk, uninit_bytes}
use sea.Posix.Laws.{on_file, tick}
use sea.Column.{string_of}
use sea.Column.Create.{strlen_lem}
use sea.Time.Data
use sea.Time.Block.{Block}
use sea.Time.Block.Open.{open_missing}
use sea.Time.Block.Append.{append-Stored, block_after}
use sea.Time.Block.Log.{Stored}
use sea.Time.Block.Read
use sea.Time.Block.Live.{append-Live, append-size}
use sea.Time.Block.Apart.{Apart-Live}
use sea.Graph.NodeData.{NodeInfo, AttrInfo, EdgeInfo, with_counts}
use sea.Graph.Db.{
  Conn, dir_size, IndexNodeData, index_node_of, graph_db_insert, graph_db_find, follow, entry_read,
  read_node,
}
use sea.Graph.Db.Find.{length-index_node_bytes}
use sea.Graph.Db.InsertFind.{
  Connected, NodeRoom, named_block, entries_then, entry, entry_space, both_written, conn_after,
  insert-eq, node_written,
}

-- Where the query for an entry has read nothing, the entry is what the memory held.
unset_entry : (os : Os) → IndexNodeData
unset_entry os = index_node_of (junk os.uninit 0 16)

follow_unset :
    (conn : Conn) (dir : List ℕ) (os : Os)
    → os.faults ≡ []
    → string_of conn.dir ≡ some dir
    → length dir ≤ dir_size
    → os.names (Data.filename dir (index_node_of (junk os.uninit 0 16)).block_id) ≡ none
    → follow conn (record { ret = 0; copied = some [] }) os
      ≡ ran none (record os { errno = enoent })
unfolding follow read_node entry_read uninit_bytes
follow_unset conn dir os quiet named short absent =
    rw
      (
        strlen_lem conn.dir dir os named,
        open_missing dir (index_node_of (junk os.uninit 0 16)).block_id os quiet (omega arith)
            absent,
      )
      refl

module _ {os : Os} {conn : Conn} {dir : List ℕ} {es rs : List (List ℕ)}
    (c : Connected os conn dir es rs) (node : NodeInfo) (attrs : List AttrInfo)
    (edges : List EdgeInfo) (room : NodeRoom c attrs edges) where
  abbrev block_then : Block
  block_then =
      block_after (node_written c node attrs edges room)
        (named_block dir conn.index_block_id c.entries_data c.entries_index)

  stored_then :
      Stored
        (both_written c node attrs edges room)
        block_then
        (es ++ entry c node attrs edges room ∷ [])
  stored_then =
      (append-Live (entries_then c node attrs edges room) (entry c node attrs edges room)
        (entry_space c node attrs edges room)).stored

  at_end : stored_then.data_pos ≡ length stored_then.b
  unfolding stored_then append-Live append-Stored
  at_end = sym (
      append-size (entries_then c node attrs edges room) (entry c node attrs edges room)
        (entry_space c node attrs edges room))

  in_range : stored_then.data_pos + length stored_then.b < 2 ^ 63
  unfolding stored_then entries_then Apart-Live
  in_range = omega (
    arith,
    at_end,
    room.entries_file,
    append-size (entries_then c node attrs edges room) (entry c node attrs edges room)
        (entry_space c node attrs edges room),
    length-index_node_bytes (record { block_id = 2; record_id = length rs }),
  )

  -- The environment letting every call succeed, both blocks of a connection being open, apart and not
  -- full: the same connection does not find the node that it has inserted. The query for the entry
  -- reads nothing, and where the memory for the entry holds the number of a block with no data
  -- file, the answer is a null pointer.
  pub insert_then_find_again :
      (node_block_id node_record_id : ℕ)
      → string_of conn.dir ≡ some dir
      → length dir ≤ dir_size
      → os.names (Data.filename dir (index_node_of (junk os.uninit 0 16)).block_id) ≡ none
      → (conn' : Conn) × (os1 : Os) × (os2 : Os) × (graph_db_insert conn node attrs
            (length attrs)
            edges
            (length edges)
            node_block_id
            node_record_id
            os
          ≡ ran
              (record {
                ret = 0;
                conn = conn';
                node = with_counts node (length attrs) (length edges);
                node_block_id = conn.index_block_id;
                node_record_id = length es;
              })
              os1)
        × (graph_db_find conn' (length es) os1 ≡ ran none os2)
  unfolding graph_db_find on_file tick
  insert_then_find_again node_block_id node_record_id named short absent =
      let nth = get_elem?-append_self es [] (entry c node attrs edges room) in
      let few : length (es ++ entry c node attrs edges room ∷ []) < 2 ^ 32 =
        omega (arith, length-append es (entry c node attrs edges room ∷ []), room.entries) in
      let read : Os =
        Read.at_position stored_then (length es) (entry c node attrs edges room) nth few (
          stored_then.data_pos
          + (Read.placed stored_then (length es) (entry c node attrs edges room) nth
              few).entry.offset) in
      (
        conn_after c node attrs edges room,
        both_written c node attrs edges room,
        record read { errno = enoent },
        insert-eq c node attrs edges room node_block_id node_record_id,
        rw
            (
              Read.query_missed-eq stored_then (length es) (entry c node attrs edges room) nth few
                  16 (omega (arith, at_end)) in_range,
              follow_unset (conn_after c node attrs edges room) dir read refl named short absent,
            )
            refl,
      )
