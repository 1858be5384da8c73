-- ===== src/Graph/Db/Find.antt =====
-- A node that was inserted through one connection and is sought through another.
use sea.Prelude.{
  ℕ, ◌-◌, ◌*◌, ◌^◌, ◌≤◌, ◌<◌, ◌≡◌, refl, sym, some, none, List, [], ◌++◌, length, get_elem?, arith,
  replicate, le→ltb,
}
use sea.Bytes.{le_bytes}
use sea.Bytes.Laws.{of_le_bytes-le_bytes}
use sea.Posix.{Os, ran, junk}
use sea.Posix.Laws.{malloc_lem}
use sea.Posix.Names.{uninit_bytes_lem}
use sea.Column.{string_of}
use sea.Column.Create.{strlen_lem}
use sea.Time.Block.Read
use sea.Time.Block.Open.{OnDisk, opened_block, state_opened, opened-Stored, open_block-eq}
use sea.Time.Block.Afresh.{read-Kept}
use sea.Time.Block.Live.{Kept-OnDisk}
use sea.Graph.Db.{
  Conn, dir_size, entry_read, follow, read_node, IndexNodeData, index_node_bytes, index_node_of,
  graph_db_get_block_id, graph_db_open, graph_db_find,
}

pub length-index_node_bytes : (d : IndexNodeData) → length (index_node_bytes d) ≡ 16
unfolding index_node_bytes le_bytes
length-index_node_bytes d = refl

-- An entry is read back as it was written.
index_node_of-append :
    (d : IndexNodeData) (rest : List ℕ)
    → d.block_id < 2 ^ 64
    → d.record_id < 2 ^ 32
    → index_node_of (index_node_bytes d ++ rest) ≡ d
unfolding index_node_of index_node_bytes le_bytes
index_node_of-append d rest lb lr i = record {
  block_id = of_le_bytes-le_bytes 8 d.block_id lb i;
  record_id = of_le_bytes-le_bytes 4 d.record_id lr i;
}

abbrev pub padded : List ℕ → List ℕ
padded dir = dir ++ replicate (dir_size - length dir) 0

entry_read-eq :
    (d : IndexNodeData) (os : Os)
    → d.block_id < 2 ^ 64
    → d.record_id < 2 ^ 32
    → entry_read (record { ret = 0; copied = some (index_node_bytes d) }) os ≡ ran d os
unfolding entry_read junk
entry_read-eq d os lb lr =
    rw (length-index_node_bytes d, uninit_bytes_lem 16 0 os, index_node_of-append d [] lb lr) refl

-- The node that an entry leads to.
follow-eq :
    {os : Os} {dir : List ℕ} {rs : List (List ℕ)} (conn : Conn) (n : OnDisk os dir 2 rs) (j : ℕ)
    (r : List ℕ)
    → string_of conn.dir ≡ some dir
    → length dir ≤ dir_size
    → length n.b < 2 ^ 63
    → length rs < 2 ^ 32
    → j < 2 ^ 32
    → get_elem? rs j ≡ some r
    → length r ≤ 1024 * 1024
    → (os' : Os) × (follow conn
          (record {
            ret = 0;
            copied = some (index_node_bytes (record { block_id = 2; record_id = j }));
          })
          os
        ≡ ran (some r) os')
unfolding follow read_node opened-Stored
follow-eq {os} {dir} conn n j r named short small few lt nth le = (
  Read.state_read (opened-Stored n) j r nth few,
  rw
      (
        entry_read-eq (record { block_id = 2; record_id = j }) os (omega arith) lt,
        strlen_lem conn.dir dir os named,
        open_block-eq n (omega arith),
        malloc_lem (1024 * 1024) (state_opened n) (opened-Stored n).handle.quiet (omega arith),
        Read.query_fresh-eq (opened-Stored n) j r nth few (1024 * 1024) refl small le,
      )
      refl,
)

-- Both blocks of the graph on disk, the one of the entries and the block 2 of the nodes.
module _ {os : Os} {dir : List ℕ} {id : ℕ} {es rs : List (List ℕ)} (d : OnDisk os dir id es)
    (n : OnDisk os dir 2 rs) (positive : 0 < os.next_fd) (named : string_of (padded dir) ≡ some dir)
    (short : length dir ≤ dir_size) where
  abbrev pub fresh_conn : Conn
  fresh_conn = record {
    dir = padded dir;
    index_block_id = id;
    index_block = some (opened_block d);
    data_block = none;
  }

  pub open-eq :
      (md5 : List ℕ → List ℕ) (name : List ℕ)
      → id ≡ graph_db_get_block_id md5 name
      → graph_db_open md5 dir name os ≡ ran (some fresh_conn) (state_opened d)
  unfolding graph_db_open
  open-eq md5 name e =
      rw
        (
          sym e,
          malloc_lem 152 os d.quiet (omega arith),
          open_block-eq d (omega arith),
          le→ltb dir_size (length dir) short,
        )
        refl

  pub find-eq :
      (k j : ℕ) (r : List ℕ)
      → length d.b < 2 ^ 63
      → length n.b < 2 ^ 63
      → length es < 2 ^ 32
      → length rs < 2 ^ 32
      → j < 2 ^ 32
      → get_elem? es k ≡ some (index_node_bytes (record { block_id = 2; record_id = j }))
      → get_elem? rs j ≡ some r
      → length r ≤ 1024 * 1024
      → (os' : Os) × (graph_db_find fresh_conn k (state_opened d) ≡ ran (some r) os')
  unfolding graph_db_find opened-Stored Kept-OnDisk
  find-eq k j r small small_n few few_n lt nth nth_n le =
      let entry : List ℕ = index_node_bytes (record { block_id = 2; record_id = j }) in
      let (os', found) =
        follow-eq fresh_conn (Kept-OnDisk (read-Kept d positive k entry nth few) n) j r named short
          small_n few_n lt nth_n le in
      (
        os',
        rw
            (
              Read.query_fresh-eq (opened-Stored d) k entry nth few 16 refl small
                  (omega (arith, length-index_node_bytes (record { block_id = 2; record_id = j }))),
              found,
            )
            refl,
      )
