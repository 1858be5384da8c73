-- ===== src/Controller/Bounds.antt =====
-- However the calls of a read end, no more is copied than the caller's buffer has room for.
use sea.Prelude.{ℕ, Option, some, none, arith, ◌==◌}
use sea.Posix.{Os}
use sea.Posix.Returns.{Always, Returns, Returns-then_run, Returns-then_run_if, if-Always}
use sea.Time.Block
use sea.Time.Block.{Block, Answer, query_by_record_id}
use sea.Time.Block.Bounds.{FitsBuffer, query-FitsBuffer}
use sea.Controller.{read, read_from_local, answer_of, remote_answer, data_dir}
use sea.Controller.DhtList
use sea.Controller.DhtList.{Dht}
use sea.Controller.Data
use sea.Controller.Data.{Nng}
use sea.Controller.Data.Bounds.{ReplyFits, controller_data_get-ReplyFits}

answer_of-FitsBuffer :
    (block : Option Block) (record_id n : ℕ) → Always (FitsBuffer n) (answer_of block record_id n)
unfolding answer_of
answer_of-FitsBuffer none record_id n os = omega arith
answer_of-FitsBuffer (some block) record_id n os =
    Returns-then_run_if (FitsBuffer n) (FitsBuffer n) _
      (λ a le. λ os1.
        Returns-then_run (FitsBuffer n) _ (λ closed. λ os2. le) (Block.close_block block os1))
      (query_by_record_id block record_id n os) (query-FitsBuffer block record_id n os)

read_from_local-FitsBuffer :
    (block_id record_id n : ℕ) → Always (FitsBuffer n) (read_from_local block_id record_id n)
unfolding read_from_local
read_from_local-FitsBuffer block_id record_id n os =
    Returns-then_run (FitsBuffer n) _ (λ block. answer_of-FitsBuffer block record_id n)
      (Block.open_block data_dir block_id os)

remote_answer-FitsBuffer :
    (dht : Dht) (nng : Nng) (ip block_id record_id n : ℕ)
    → Always (FitsBuffer n) (remote_answer dht nng ip block_id record_id n)
unfolding remote_answer
remote_answer-FitsBuffer dht nng ip block_id record_id n os =
    Returns-then_run_if (ReplyFits n) (FitsBuffer n) _ (λ r le. λ os1. le)
      (Data.controller_data_get nng ip block_id record_id n os)
      (controller_data_get-ReplyFits nng ip block_id record_id n os)

-- Whatever the environment does, the hash table, the other node and the files included: a read that
-- returns has copied no more bytes than the caller's buffer has room for.
pub read-FitsBuffer :
    (dht : Dht) (nng : Nng) (block_id record_id n : ℕ) (os : Os)
    → Returns (FitsBuffer n) (read dht nng block_id record_id n os)
unfolding read
read-FitsBuffer dht nng block_id record_id n os =
    Returns-then_run_if (FitsBuffer n) (FitsBuffer n) _
      (λ a le.
        if-Always (FitsBuffer n) (a.ret == 0) _ _ (λ os1. le)
          (λ os1.
            Returns-then_run (FitsBuffer n) _
              (λ ret.
                if-Always (FitsBuffer n) (ret == 0) _ _
                  (remote_answer-FitsBuffer dht nng 0 block_id record_id n) (λ os2. omega arith))
              (DhtList.dht_list_get_node dht block_id record_id os1)))
      (read_from_local block_id record_id n os) (read_from_local-FitsBuffer block_id record_id n os)
