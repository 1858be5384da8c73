-- ===== src/Controller/Store/Reads.antt =====
-- A node that is started in a directory with blocks, and any sequence of reads from it.
use sea.Prelude.{
  ℕ, ◌^◌, ◌≤◌, ◌<◌, ◌≡◌, refl, Option, some, none, List, [], ◌∷◌, length, if◌then◌else◌, ◌==◌,
}
use sea.Posix.{Os, ran, M, pure, einval, ◌>>=◌}
use sea.Posix.Kept.{Kept, Kept-refl, Kept-trans}
use sea.Time.Block.{Answer, first_bytes}
use sea.Controller.{Controller, data_dir, create, read}
use sea.Controller.PhoneList.{Khash}
use sea.Controller.SuperBlock.{controller_get_block_id}
use sea.Controller.DhtList.{Dht}
use sea.Controller.Data.{Nng}
use sea.Controller.Store.{Shelf, Shelf-Kept}
use sea.Controller.Store.Get.{shelf_get, answer_for, get_step}
use sea.Controller.Store.Memory.{own_name, Ends}
use sea.Controller.Store.Start.{start_there}

-- The bytes of a record, or a code.
pub data Reply : Type 0 where
  found : List ℕ → Reply
  failed : ℕ → Reply

-- The numbers of a block and of a record.
pub record Wanted : Type 0 where
  pub block_id : ℕ
  pub record_id : ℕ

abbrev pub look_up : Option (List ℕ) → Reply
look_up none = failed einval
look_up (some r) = found r

-- What is promised: each read gives the record in its place.
unfoldable pub promised : ℕ → List (List (List ℕ)) → List Wanted → List Reply
promised own_id blocks [] = []
promised own_id blocks (w ∷ ws) =
    look_up (shelf_get own_id blocks w.block_id w.record_id) ∷ promised own_id blocks ws

read_reply : Answer → Reply
read_reply a = if a.ret == 0 then found (first_bytes a.copied) else failed a.ret

-- What the node does.
unfoldable pub read_all : Dht → Nng → ℕ → List Wanted → M (List Reply)
unfolding read_reply
read_all dht nng buf_len [] = pure []
read_all dht nng buf_len (w ∷ ws) = do
  a ← read dht nng w.block_id w.record_id buf_len
  rest ← read_all dht nng buf_len ws
  pure (read_reply a ∷ rest)

-- The blocks that are asked for are the node's, or higher, and what is found fits the buffer.
abbrev pub Askable : ℕ → List (List (List ℕ)) → ℕ → List Wanted → Type 0
Askable own_id blocks buf_len [] = Unit
Askable own_id blocks buf_len (w ∷ ws) =
    (own_id ≤ w.block_id)
    × (w.block_id < 2 ^ 64)
    × ((r : List ℕ) → shelf_get own_id blocks w.block_id w.record_id ≡ some r → length r ≤ buf_len)
    × Askable own_id blocks buf_len ws

reply_for : (r : Option (List ℕ)) → read_reply (answer_for r) ≡ look_up r
unfolding read_reply answer_for
reply_for none = refl
reply_for (some r) = refl

read_all-eq :
    (dht : Dht) (nng : Nng) (buf_len : ℕ)
    (calm : (os : Os) → os.faults ≡ [] → dht.search os ≡ ran tt os) {own_id : ℕ}
    {blocks : List (List (List ℕ))} (ws : List Wanted) {os : Os} (s : Shelf os own_id blocks)
    → Askable own_id blocks buf_len ws
    → (os' : Os) × (read_all dht nng buf_len ws os ≡ ran (promised own_id blocks ws) os')
      × Kept os os'
unfolding read_all promised
read_all-eq dht nng buf_len calm [] {os} s asks = (os, refl, Kept-refl os s.quiet)
read_all-eq dht nng buf_len calm {own_id} {blocks} (w ∷ ws) s (from, small, fits, asks) =
    let (os1, answer, kept) =
      get_step s dht nng buf_len w.block_id w.record_id calm from small fits in
    let (os', rest, kept') = read_all-eq dht nng buf_len calm ws (Shelf-Kept kept s) asks in
    (
      os',
      rw (answer, rest, reply_for (shelf_get own_id blocks w.block_id w.record_id)) refl,
      Kept-trans kept kept',
    )

-- The environment letting every call succeed and the descriptor 0 being in use, in a directory that
-- holds the super block's own block with no record, any blocks of the numbers behind it, each with
-- fewer than 2^32 records and a data file below 2^63 bytes, and none of higher numbers, memory
-- happening to have a zero behind the two names that are copied to it, the question to the hash table
-- leaving the files alone, each block that is asked for having a number from the super block's own on
-- and below 2^64, and the records that are there fitting the buffer: `create` gives a controller, and
-- any sequence of reads then gives for each the record of that number in the block of that number,
-- and EINVAL where there is none; and all blocks are kept.
pub start_then_reads :
    {T : Type 0} (kh : Khash T) (dht : Dht) (nng : Nng) (md5 : List ℕ → List ℕ) (buf_len : ℕ)
    (calm : (os : Os) → os.faults ≡ [] → dht.search os ≡ ran tt os) {blocks : List (List (List ℕ))}
    {os : Os} (s : Shelf os (controller_get_block_id md5 own_name) ([] ∷ blocks)) (ends : Ends os)
    (ws : List Wanted)
    → Askable (controller_get_block_id md5 own_name) ([] ∷ blocks) buf_len ws
    → (c : Controller T) × (os' : Os) × (os'' : Os) × (create kh md5 data_dir os ≡ ran (some c) os')
      × (read_all dht nng buf_len ws os'
          ≡ ran (promised (controller_get_block_id md5 own_name) ([] ∷ blocks) ws) os'')
      × Shelf os'' (controller_get_block_id md5 own_name) ([] ∷ blocks)
start_then_reads kh dht nng md5 buf_len calm s ends ws asks =
    let (c, os', made, kept) = start_there kh md5 s ends in
    let s' = Shelf-Kept kept s in
    let (os'', answers, kept') = read_all-eq dht nng buf_len calm ws s' asks in
    (c, os', os'', made, answers, Shelf-Kept kept' s')
