-- ===== src/Server/DataServer/Loop.antt =====
-- src/rest/server.c: the loop that receives the requests of other nodes, answers them, and sends.
pub mod Once
mod Tests
use Prim.Native.String.{String}
use sea.Prelude.{Bool, ℕ, zero, suc, ◌*◌, Option, none, some, List, ◌==◌, if◌then◌else◌}
use sea.Posix
use sea.Posix.{M, pure, undef, uninit_bytes, ◌>>=◌, ◌>>◌}
use sea.Controller.{Controller, codes}
use sea.Controller.PhoneList.{Khash}
use sea.Controller.DhtList.{Dht}
use sea.Controller.Data.{Nng, DataServerHdr, hdr_of, hdr_size}
use sea.Server.DataServer.{Processed, data_server_process}

-- A message in memory, and whether the program is the one to free it.
pub record Message : Type 0 where
  pub bytes : List ℕ
  pub owned : Bool

-- The socket that replies: the code of each call, 0 for success, the message that came, and the
-- message as it is left by a call to send it; and the call that frees a message.
pub record Rep : Type 0 where
  pub rep0_open : M ℕ
  pub listen : List ℕ → M ℕ
  pub recv : M (ℕ × Message)
  pub send : Message → M (ℕ × Message)
  pub free : Message → M (Unit {0})

abbrev pub data_server_url : List ℕ
data_server_url = codes "tcp://0.0.0.0:8889"

abbrev pub reply_size : ℕ
reply_size = 1024 * 1024 * 10

-- The process ended by `fatal`, or the loop goes on, with the header in the buffer for replies.
pub data Round (T : Type 0) : Type 0 where
  fatal : ℕ → Round T
  again : Controller T → DataServerHdr → Round T

-- How the loop ends: by `fatal`, or with more rounds to go than the count of them.
pub data Ended : Type 0 where
  exited : ℕ → Ended
  unfinished : Ended

module _ {T : Type 0} (dht : Dht) (nng : Nng) (kh : Khash T) (md5 : List ℕ → List ℕ)
    (rep : Rep) where
  -- The message is freed, whatever was done with it.
  freed : Processed T → Message → M (Round T)
  freed r m = do rep.free m; pure (again r.controller r.send_hdr)

  -- What is sent is the request.
  send_back : Processed T → Message → M (Round T)
  unfolding freed
  send_back r m = do sent ← rep.send m; if sent.0 == 0 then freed r sent.1 else pure (fatal sent.0)

  answered : Controller T → DataServerHdr → Message → M (Round T)
  unfolding send_back freed
  answered c send_hdr m = do
    r ← data_server_process dht nng kh md5 c m.bytes send_hdr reply_size
    if r.send_buf_size == 0 then freed r m else send_back r m

  -- `none` is a null pointer for the reply, whose header each answer sets.
  round : Controller T → Option DataServerHdr → M (Round T)
  unfolding answered
  round c send_hdr = do
    got ← rep.recv
    if got.0 == 0
        then elim send_hdr [ none ↦ undef | some h ↦ answered c h got.1 ]
        else pure (fatal got.0)

  rounds : ℕ → Controller T → Option DataServerHdr → M Ended
  unfolding round
  rounds zero c send_hdr = pure unfinished
  rounds (suc n) c send_hdr = do
    r ← round c send_hdr
    elim r [ fatal rv ↦ pure (exited rv) | again c' h ↦ rounds n c' (some h) ]

  reply_memory : M (Option DataServerHdr)
  reply_memory = do
    got ← Posix.malloc reply_size
    bytes ← uninit_bytes 0 hdr_size
    pure (if got then some (hdr_of bytes) else none)

  listening : (Controller T → Option DataServerHdr → M Ended) → Controller T → M Ended
  unfolding reply_memory
  listening loop c = do h ← reply_memory; loop c h

  -- The socket on which the requests come.
  on_socket : (Controller T → Option DataServerHdr → M Ended) → Controller T → M Ended
  unfolding listening
  on_socket loop c = do
    rv ← rep.rep0_open
    if rv == 0
        then (do
          rv ← rep.listen data_server_url
          if rv == 0 then listening loop c else pure (exited rv))
        else pure (exited rv)

  -- The loop for `n` rounds.
  unfoldable pub data_server_handle : ℕ → Controller T → M Ended
  unfolding rounds on_socket
  data_server_handle n = on_socket (rounds n)
