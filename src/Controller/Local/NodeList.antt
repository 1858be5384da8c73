-- ===== src/Controller/Local/NodeList.antt =====
-- A write with the list of phone_list.c.
use sea.Prelude.{ℕ, ◌+◌, ◌*◌, ◌^◌, ◌<◌, ◌≡◌, refl, some, List, [], ◌∷◌, length, arith}
use sea.Posix.{Os, undefined}
use sea.Time.Block.Append.{HasSpace, append-eq, append-Stored, state_after}
use sea.Controller.SuperBlock
use sea.Controller.PhoneList
use sea.Controller.PhoneList.{Khash, PhoneEntry}
use sea.Controller.PhoneList.Table.{put_overread}
use sea.Controller.{Controller, local_node, write, write_local}
use sea.Controller.DhtList.{Dht}
use sea.Controller.Data.{Nng}
use sea.Controller.Local.{Serving, HasRoom}

-- With the list of phone_list.c, of a capacity above 1 such as the 3 that `create` gives it, a write
-- that has appended its record reads behind the variable that holds the one node.
pub write_overreads :
    {T : Type 0} (kh : Khash T) (md5 : List ℕ → List ℕ) (dht : Dht) (nng : Nng) {os : Os}
    {c : Controller T} {rs : List (List ℕ)} (s : Serving os c rs) (payload : List ℕ) (record_id : ℕ)
    (list : PhoneList.PhoneList T)
    → HasRoom s (length payload)
    → c.phone_list ≡ some list
    → 1 < list.node_cap
    → 16 + 4 * list.node_cap < 2 ^ 63
    → write dht nng kh md5 c (some payload) (length payload) record_id os ≡ undefined
unfolding write write_local SuperBlock.get_block_id append-Stored
write_overreads kh md5 dht nng {os} {c} s payload record_id list room its_list above small =
    let space : HasSpace os s.block _ s.live.stored (length payload) = record {
      nonempty = room.nonempty;
      frame_size = room.frame_size;
      file_size = room.file_size;
      records = room.records;
    } in
    rw
      (
        s.in_use,
        append-eq s.live.stored payload space record_id 0,
        its_list,
        put_overread kh list c.super_block.block_id (local_node ∷ [])
            (state_after s.live.stored payload space)
            (append-Stored s.live.stored payload space).handle.quiet (omega arith) above small,
      )
      refl
