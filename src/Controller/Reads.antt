-- ===== src/Controller/Reads.antt =====
-- Reads of blocks that are in the controller's directory, and of blocks that are not.
use sea.Prelude.{ℕ, ◌^◌, ◌≤◌, ◌<◌, ◌≡◌, refl, some, none, List, [], length, get_elem?, arith}
use sea.Posix.{Os, ran, einval, enoent}
use sea.Posix.Kept.{Kept, Kept-refl, Kept-errno}
use sea.Time.Data
use sea.Time.Block.Open.{OnDisk, open_missing}
use sea.Time.Block.Afresh.{fetch_present, fetch_absent}
use sea.Controller.{data_dir, read, read_from_local}
use sea.Controller.DhtList
use sea.Controller.DhtList.{Dht}
use sea.Controller.Data.{Nng}

module _ {os : Os} {id : ℕ} {rs : List (List ℕ)} (d : OnDisk os data_dir id rs)
    (positive : 0 < os.next_fd) (dht : Dht) (nng : Nng) (k buf_len : ℕ) where
  pub read-OnDisk :
      (r : List ℕ)
      → length d.b < 2 ^ 63
      → length rs < 2 ^ 32
      → get_elem? rs k ≡ some r
      → length r ≤ buf_len
      → (os' : Os) × (read dht nng id k buf_len os ≡ ran (record { ret = 0; copied = some r }) os')
        × Kept os os'
  unfolding read read_from_local
  read-OnDisk r small few nth le =
      let (block, os1, os2, os3, opened, answered, closed_eq, kept) =
        fetch_present d positive k buf_len r (omega arith) small few nth le in
      (os3, rw (opened, answered, closed_eq) refl, kept)

  -- For a record that the block does not have, another node is never asked: the question for one
  -- ends in an error, whatever the table does.
  pub read_beyond :
      ((os' : Os) → os'.faults ≡ [] → dht.search os' ≡ ran tt os')
      → length rs ≤ k
      → (os' : Os) × (read dht nng id k buf_len os
          ≡ ran (record { ret = einval; copied = none }) os')
        × Kept os os'
  unfolding read read_from_local DhtList.dht_list_get_node
  read_beyond calm le =
      let (block, os1, os2, os3, opened, answered, closed_eq, kept) =
        fetch_absent d positive k buf_len (omega arith) le in
      (os3, rw (opened, answered, closed_eq, calm os3 kept.quiet) refl, kept)

-- The same for a block with no data file.
pub read_missing :
    (os : Os) (dht : Dht) (nng : Nng) (id k buf_len : ℕ)
    → os.faults ≡ []
    → ((os' : Os) → os'.faults ≡ [] → dht.search os' ≡ ran tt os')
    → os.names (Data.filename data_dir id) ≡ none
    → (os' : Os) × (read dht nng id k buf_len os ≡ ran (record { ret = einval; copied = none }) os')
      × Kept os os'
unfolding read read_from_local DhtList.dht_list_get_node
read_missing os dht nng id k buf_len quiet calm absent =
    let missed : Os = record os { errno = enoent } in
    (
      missed,
      rw (open_missing data_dir id os quiet (omega arith) absent, calm missed quiet) refl,
      Kept-errno (Kept-refl os quiet) enoent,
    )
