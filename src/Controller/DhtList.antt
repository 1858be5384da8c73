-- ===== src/Controller/DhtList.antt =====
-- src/controller/dht_list.c: the two questions that the controller asks of the distributed hash
-- table. The calls of dht.c are parameters; what they write is not read here, as one address comes
-- back later, through a callback, and the other is assigned to the pointer and not through it.
pub mod Identity
mod Tests
use sea.Posix.{M, pure, einval, ◌>>◌}
use sea.Prelude.{ℕ}

pub record Dht : Type 0 where
  pub get_nodes : M (Unit {0})
  pub search : M (Unit {0})

module _ (dht : Dht) where
  dht_list_get_nodes : M ℕ
  dht_list_get_nodes = do dht.get_nodes; pure 0

  unfoldable pub dht_list_get_free_node : M ℕ
  unfolding dht_list_get_nodes
  dht_list_get_free_node = dht_list_get_nodes

  unfoldable pub dht_list_get_node : ℕ → ℕ → M ℕ
  dht_list_get_node block_id record_id = do dht.search; pure einval
