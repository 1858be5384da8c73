-- ===== src/Controller/Store/FirstWrite.antt =====
-- The first write to a node, with the list of phone_list.c as `create` makes it.
use sea.Prelude.{
  ℕ, ◌+◌, ◌%◌, ◌^◌, ◌<◌, ◌≡◌, ◌≢◌, refl, sym, subst, ◌∙◌, some, List, [], length, arith,
}
use native.Mathlib.Nat.{mod-eq_of_lt}
use sea.Posix.{Os, ran, undefined}
use sea.Posix.Kept.{Kept}
use sea.Posix.Laws.{with_fd, on_file}
use sea.Time.Data
use sea.Time.Index
use sea.Time.Block.Open.{opened_block, state_opened, opened-Stored}
use sea.Time.Block.Afresh.{opened-Kept}
use sea.Controller.{Controller, data_dir, create, write, write_local}
use sea.Controller.PhoneList.{Khash}
use sea.Controller.SuperBlock
use sea.Controller.SuperBlock.{controller_get_block_id}
use sea.Controller.SuperBlock.Fresh.{NewBlock, open_created_new}
use sea.Controller.DhtList.{Dht}
use sea.Controller.Data.{Nng}
use sea.Controller.Local.{Serving, HasRoom}
use sea.Controller.Local.NodeList.{write_overreads}
use sea.Controller.Store.{Absent}
use sea.Controller.Store.Memory.{own_name, fresh_controller}
use sea.Controller.Store.Start.{Blank, start_blank}

module _ {T : Type 0} {os os' : Os} (c : Controller T)
    (n : NewBlock os os' data_dir c.super_block.block_id) (positive : 0 < os.next_fd) where
  -- The controller with the new block in use.
  opened : Controller T
  opened = record c { block = some (opened_block n.on_disk) }

  opened-Serving : Serving (state_opened n.on_disk) opened []
  unfolding opened opened-Stored with_fd on_file
  opened-Serving =
      let k : Kept os' (state_opened n.on_disk) =
        opened-Kept n.on_disk (omega (arith, positive, n.made.next)) in
      record {
        block = opened_block n.on_disk;
        in_use = refl;
        live = record {
          stored = opened-Stored n.on_disk;
          index_name =
              k.names (Index.filename data_dir c.super_block.block_id) ∙ n.on_disk.index_name;
          data_name = k.names (Data.filename data_dir c.super_block.block_id) ∙ n.on_disk.data_name;
          index_open = omega arith;
          data_open = omega arith;
        };
        dir = refl;
        number = refl;
        positive = omega (arith, positive, n.made.next, k.next);
      }

  opened-HasRoom :
      (w : List ℕ) → length w ≢ 0 → 16 + length w < 2 ^ 31 → HasRoom opened-Serving (length w)
  unfolding opened-Serving opened-Stored
  opened-HasRoom w nonempty frame = record {
    nonempty = nonempty;
    frame_size = frame;
    file_size = subst (λ b. length b < 2 ^ 63) (sym n.empty) (omega arith);
    records = omega arith;
    below_limit = omega (arith, n.limit);
  }

-- The environment letting every call succeed, in a directory with no block file, memory happening to
-- have a zero behind the two names that are copied to it, and the digest's number not being the last
-- one: `create` gives a controller with the list of phone_list.c, and its first write of a
-- record of between 1 and 2^31 - 17 bytes reads behind the variable that holds the one node,
-- whatever the hash table does.
pub first_write_overreads :
    {T : Type 0} (kh : Khash T) (dht : Dht) (nng : Nng) (md5 : List ℕ → List ℕ) (os : Os)
    (blank : Blank os) (w : List ℕ)
    → length w ≢ 0
    → 16 + length w < 2 ^ 31
    → controller_get_block_id md5 own_name + 1 < 2 ^ 64
    → (c : Controller T) × (os' : Os) × (create kh md5 data_dir os ≡ ran (some c) os')
      × (write dht nng kh md5 c (some w) (length w) 0 os' ≡ undefined)
unfolding write write_local SuperBlock.get_block_id opened
first_write_overreads kh dht nng md5 os blank w nonempty frame small =
    let (os1, made, quiet, positive, absent) = start_blank os blank md5 small kh in
    let c = fresh_controller os blank.ends md5 kh in
    let own_id : ℕ = controller_get_block_id md5 own_name in
    let next : (own_id + 1) % 2 ^ 64 ≡ own_id + 1 =
      mod-eq_of_lt {n = own_id + 1} {m = 2 ^ 64} small in
    let gone : Absent os1 c.super_block.block_id =
      absent c.super_block.block_id (omega (arith, next)) (omega arith) in
    let (os2, n, open_eq) =
      open_created_new os1 data_dir c.super_block.block_id (omega arith) quiet gone.data_name
        gone.index_name (omega arith) in
    (
      c,
      os1,
      made,
      rw open_eq (
          write_overreads kh md5 dht nng (opened-Serving c n positive) w 0
            (record { node_cap = 3; header = kh.init })
            (opened-HasRoom c n positive w nonempty frame) refl (omega arith) (omega arith)),
    )
