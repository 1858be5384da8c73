-- ===== src/Graph/Db/Tests.antt =====
-- A node inserted into an empty graph and found.
use sea.Prelude.{ℕ, ◌≡◌, refl, some, none, List, [], ◌∷◌, arith, if◌then◌else◌, ◌==◌}
use sea.Bytes.{of_le_bytes}
use sea.Posix
use sea.Posix.{Os, ran}
use sea.Column.{string_of}
use sea.Time.Data
use sea.Time.Index
use sea.Time.Index.{Header}
use sea.Time.Index.Layout.{index_bytes}
use sea.Time.Block.{Block}
use sea.Time.Block.Log.{IsLog}
use sea.Time.Block.Live.{Live}
use sea.Time.Sample.{system}
use sea.Graph.NodeData.{NodeInfo, EdgeInfo, node_of}
use sea.Graph.Db.InsertFind.Again.{insert_then_find_again}
use sea.Graph.Db.{Conn, index_node_of, graph_db_open, graph_db_insert, graph_db_find}
use sea.Graph.Db.Find.{padded}
use sea.Graph.Db.InsertFind.{Connected, NodeRoom, named_block, insert_then_find_node}

-- A digest whose first eight characters are worth 9.
abbrev digest : List ℕ → List ℕ
digest _ = 9 ∷ 0 ∷ 0 ∷ 0 ∷ 0 ∷ 0 ∷ 0 ∷ 0 ∷ []

abbrev empty_header : ℕ → Header
empty_header id = record {
  block_id = id;
  max_count = 100;
  start_timestamp = 5;
  stop_timestamp = 5;
  count = 0;
  unused = 0;
}

abbrev dir : List ℕ
dir = b'd' ∷ []

-- The blocks 9 and 2 with no records.
abbrev empty_graph : Os
empty_graph = record (system 0 []) {
  names = λ p.
      if Posix.path_eq (Index.filename dir 9) p
      then some 11
      else if Posix.path_eq (Data.filename dir 9) p
      then some 10
      else if Posix.path_eq (Index.filename dir 2) p
      then some 13
      else if Posix.path_eq (Data.filename dir 2) p
      then some 12
      else none;
  bytes = λ i.
      if i == 11
      then index_bytes (empty_header 9) []
      else if i == 13
      then index_bytes (empty_header 2) []
      else [];
  fds = λ fd.
      if fd == 3
      then some (record { inode = 10; pos = 0 })
      else if fd == 4
      then some (record { inode = 11; pos = 40 })
      else if fd == 5
      then some (record { inode = 12; pos = 0 })
      else if fd == 6
      then some (record { inode = 13; pos = 40 })
      else none;
  next_fd = 7;
}

entries-IsLog : IsLog (empty_header 9) [] [] []
entries-IsLog = record { total = refl; header = omega arith; entries = tt; records = tt }

nodes-IsLog : IsLog (empty_header 2) [] [] []
nodes-IsLog = record { total = refl; header = omega arith; entries = tt; records = tt }

abbrev entries_block : Block
entries_block = named_block dir 9 (record { fd = 3 }) (record { fd = 4; header = empty_header 9 })

abbrev nodes_block : Block
nodes_block = named_block dir 2 (record { fd = 5 }) (record { fd = 6; header = empty_header 2 })

entries-Live : Live empty_graph entries_block []
unfolding Index.filename Data.filename Posix.decimal Posix.path_eq
entries-Live = record {
  stored = record {
    es = [];
    b = [];
    index_inode = 11;
    data_inode = 10;
    index_pos = 40;
    data_pos = 0;
    log = entries-IsLog;
    index = record { opened = refl; content = refl; quiet = refl };
    handle = record { opened = refl; content = refl; quiet = refl };
    other_fd = omega arith;
    other_inode = omega arith;
  };
  index_name = refl;
  data_name = refl;
  index_open = omega arith;
  data_open = omega arith;
}

nodes-Live : Live empty_graph nodes_block []
unfolding Index.filename Data.filename Posix.decimal Posix.path_eq
nodes-Live = record {
  stored = record {
    es = [];
    b = [];
    index_inode = 13;
    data_inode = 12;
    index_pos = 40;
    data_pos = 0;
    log = nodes-IsLog;
    index = record { opened = refl; content = refl; quiet = refl };
    handle = record { opened = refl; content = refl; quiet = refl };
    other_fd = omega arith;
    other_inode = omega arith;
  };
  index_name = refl;
  data_name = refl;
  index_open = omega arith;
  data_open = omega arith;
}

abbrev conn : Conn
conn = record {
  dir = padded dir;
  index_block_id = 9;
  index_block = some entries_block;
  data_block = some nodes_block;
}

connected : Connected empty_graph conn dir [] []
unfolding entries-Live nodes-Live
connected = record {
  entries_data = record { fd = 3 };
  entries_index = record { fd = 4; header = empty_header 9 };
  nodes_data = record { fd = 5 };
  nodes_index = record { fd = 6; header = empty_header 2 };
  has_entries = refl;
  has_nodes = refl;
  entries = entries-Live;
  nodes = nodes-Live;
  apart = record {
    data_data_fd = omega arith;
    data_index_fd = omega arith;
    index_data_fd = omega arith;
    index_index_fd = omega arith;
    data_data = omega arith;
    data_index = omega arith;
    index_data = omega arith;
    index_index = omega arith;
  };
  positive = omega arith;
}

abbrev one_edge : List EdgeInfo
one_edge = record { direction = 1; node_id = 7 } ∷ []

abbrev start_node : NodeInfo
start_node = record { next_record_id = 1; prev_record_id = 0; edge_count = 0; attr_count = 0 }

node_room : NodeRoom connected [] one_edge
unfolding connected entries-Live nodes-Live
node_room = record {
  sized = tt;
  few_attrs = omega arith;
  few_edges = omega arith;
  nodes_file = omega arith;
  entries_file = omega arith;
  nodes = omega arith;
  entries = omega arith;
}

insert_then_find_node_example :
    (conn' : Conn) × (other : Conn) × (os1 : Os) × (os2 : Os) × (os3 : Os) × (buf : List ℕ)
    × (graph_db_insert conn start_node [] 0 one_edge 1 0 0 empty_graph
        ≡ ran
            (record {
              ret = 0;
              conn = conn';
              node = record start_node { edge_count = 1 };
              node_block_id = 9;
              node_record_id = 0;
            })
            os1)
    × (graph_db_open digest dir (b'g' ∷ []) os1 ≡ ran (some other) os2)
    × (graph_db_find other 0 os2 ≡ ran (some buf) os3)
    × (node_of buf ≡ record start_node { edge_count = 1 })
unfolding string_of of_le_bytes
insert_then_find_node_example =
    insert_then_find_node connected start_node [] one_edge node_room digest (b'g' ∷ []) 0 0 refl
      refl (omega arith) (omega arith) (omega arith)

insert_then_find_again_example :
    (conn' : Conn) × (os1 : Os) × (os2 : Os) × (graph_db_insert conn start_node [] 0 one_edge 1 0 0
        empty_graph
      ≡ ran
          (record {
            ret = 0;
            conn = conn';
            node = record start_node { edge_count = 1 };
            node_block_id = 9;
            node_record_id = 0;
          })
          os1)
    × (graph_db_find conn' 0 os1 ≡ ran none os2)
unfolding string_of of_le_bytes Index.filename Data.filename Posix.decimal Posix.path_eq Posix.junk
    index_node_of
insert_then_find_again_example =
    insert_then_find_again connected start_node [] one_edge node_room 0 0 refl (omega arith) refl
