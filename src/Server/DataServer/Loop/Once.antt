-- ===== src/Server/DataServer/Loop/Once.antt =====
-- What becomes of a message that the loop sends back.
use sea.Prelude.{
  false, [], ℕ, suc, ◌+◌, ◌-◌, ◌%◌, ◌^◌, ◌≡◌, ◌≢◌, refl, Bool-cases, inl, inr, some, List, length,
  drop, ltb, arith, ◌==◌, if◌then◌else◌, ne→==,
}
use sea.Posix.{Os, Run, ran, undefined, then_run, junk, uninit_bytes}
use sea.Posix.Laws.{malloc_lem}
use sea.Posix.Returns.{Always, Returns, Returns-then_run, Returns-then_run_if, if-Always}
use sea.Time.Block.{Answer, first_bytes}
use sea.Time.Block.Bounds.{FitsBuffer}
use sea.Controller
use sea.Controller.{Controller}
use sea.Controller.PhoneList.{Khash}
use sea.Controller.Bounds.{read-FitsBuffer}
use sea.Controller.DhtList.{Dht}
use sea.Controller.Data.{Nng, DataServerHdr, hdr_of, hdr_size, method_get, method_put}
use sea.Server.DataServer.{
  Processed, data_server_process, process_method, process_get, process_put, refused, error_none,
  error_get,
}
use sea.Server.DataServer.Loop.{
  Message, Rep, freed, send_back, answered, round, rounds, reply_memory, listening, on_socket,
  data_server_handle, data_server_url, reply_size,
}

-- A reply is never empty.
abbrev Sized : {T : Type 0} → Processed T → Type 0
Sized r = r.send_buf_size ≢ 0

module _ {T : Type 0} (dht : Dht) (nng : Nng) (kh : Khash T) (md5 : List ℕ → List ℕ) where
  got_reply : Answer → DataServerHdr → Controller T → Processed T
  got_reply a h c =
      if a.ret == 0
      then record {
        ret = 0;
        controller = c;
        send_hdr = h;
        copied = a.copied;
        send_buf_size = (hdr_size + length (first_bytes a.copied)) % 2 ^ 32;
      }
      else record {
        ret = a.ret;
        controller = c;
        send_hdr = record h { error = error_get };
        copied = a.copied;
        send_buf_size = hdr_size;
      }

  got-Sized :
      (a : Answer) (h : DataServerHdr) (c : Controller T)
      → FitsBuffer (reply_size - hdr_size) a
      → Sized (got_reply a h c)
  unfolding got_reply
  got-Sized a h c le = elim (Bool-cases (a.ret == 0)) [
    | inl is_zero ↦ rw is_zero (omega (arith, le))
    | inr not_zero ↦ rw not_zero (omega arith)
  ]

  get-Sized :
      (c : Controller T) (hdr h : DataServerHdr)
      → Always Sized (process_get dht nng kh md5 c hdr h reply_size)
  unfolding process_get got_reply
  get-Sized c hdr h os =
      Returns-then_run_if (FitsBuffer (reply_size - hdr_size)) Sized _
        (λ a le.
          λ os1. got-Sized a (record h { block_id = hdr.block_id; record_id = hdr.record_id }) c le)
        (Controller.read dht nng hdr.block_id (hdr.record_id % 2 ^ 32) (reply_size - hdr_size) os)
        (read-FitsBuffer dht nng hdr.block_id (hdr.record_id % 2 ^ 32) (reply_size - hdr_size) os)

  put-Sized :
      (c : Controller T) (hdr h : DataServerHdr) (payload : List ℕ)
      → Always Sized (process_put dht nng kh md5 c hdr payload h)
  unfolding process_put
  put-Sized c hdr h payload os =
      Returns-then_run Sized _ (λ w. λ os1. omega arith)
        (Controller.write dht nng kh md5 c (some payload) hdr.len (h.record_id % 2 ^ 32) os)

  refused-Sized : (c : Controller T) (h : DataServerHdr) → Sized (refused dht nng kh md5 c h)
  unfolding refused
  refused-Sized c h = omega arith

  process-Sized :
      (c : Controller T) (buf : List ℕ) (h : DataServerHdr)
      → Always Sized (data_server_process dht nng kh md5 c buf h reply_size)
  unfolding data_server_process process_method
  process-Sized c buf h =
      if-Always Sized (ltb (length buf) 8) _ _ (λ os. tt)
        (if-Always Sized ((hdr_of buf).len == length buf % 2 ^ 32) _ _
          (if-Always Sized ((hdr_of buf).method == method_get) _ _
            (if-Always Sized (ltb (length buf) hdr_size) _ _ (λ os. tt)
              (get-Sized c (hdr_of buf)
                (record h { method = (hdr_of buf).method; error = error_none })))
            (if-Always Sized ((hdr_of buf).method == method_put) _ _
              (put-Sized c (hdr_of buf)
                (record h { method = (hdr_of buf).method; error = error_none }) (drop hdr_size buf))
              (λ os.
                refused-Sized c (record h { method = (hdr_of buf).method; error = error_none }))))
          (λ os. refused-Sized c h))

-- The library's documented behaviour: a message that was sent is the library's, and the program is
-- then not to free it.
pub record RepLaws (rep : Rep) : Type 0 where
  pub send-taken :
      (m m' : Message) (os os' : Os) → rep.send m os ≡ ran (0, m') os' → m'.owned ≡ false
  pub free-taken : (m : Message) (os : Os) → m.owned ≡ false → rep.free m os ≡ undefined

module _ {T : Type 0} (dht : Dht) (nng : Nng) (kh : Khash T) (md5 : List ℕ → List ℕ) {rep : Rep}
    (laws : RepLaws rep) (m : Message)
    (sends : (os : Os) → (m' : Message) × (os' : Os) × (rep.send m os ≡ ran (0, m') os')) where
  send_back-undefined :
      (r : Processed T) (os : Os) → send_back dht nng kh md5 rep r m os ≡ undefined
  unfolding send_back freed
  send_back-undefined r os =
      let (m', os', sent) = sends os in
      rw (sent, laws.free-taken m' os' (laws.send-taken m m' os os' sent)) refl

  processed-undefined :
      (p : Run (Processed T))
      → Returns Sized p
      → then_run p (λ r.
        if r.send_buf_size == 0
        then freed dht nng kh md5 rep r m
        else send_back dht nng kh md5 rep r m)
        ≡ undefined
  processed-undefined (ran r os) sized =
      rw (ne→== r.send_buf_size 0 sized) (send_back-undefined r os)
  processed-undefined undefined sized = refl

  answered-undefined :
      (c : Controller T) (h : DataServerHdr) (os : Os)
      → answered dht nng kh md5 rep c h m os ≡ undefined
  unfolding answered
  answered-undefined c h os =
      processed-undefined (data_server_process dht nng kh md5 c m.bytes h reply_size os)
        (process-Sized dht nng kh md5 c m.bytes h os)

-- The socket being opened and listening, memory for the reply being had, and a message, whatever is
-- in it, coming and being sent back: the loop that answers other nodes, run for one round or more,
-- is undefined, since every answer has a size, so the message is sent and is freed after it.
pub sent_then_freed :
    {T : Type 0} (dht : Dht) (nng : Nng) (kh : Khash T) (md5 : List ℕ → List ℕ) {rep : Rep}
    (laws : RepLaws rep) (m : Message)
    (sends : (os : Os) → (m' : Message) × (os' : Os) × (rep.send m os ≡ ran (0, m') os')) (n : ℕ)
    (c : Controller T) {os os1 os2 os3 : Os}
    → rep.rep0_open os ≡ ran 0 os1
    → rep.listen data_server_url os1 ≡ ran 0 os2
    → os2.faults ≡ []
    → rep.recv os2 ≡ ran (0, m) os3
    → data_server_handle dht nng kh md5 rep (suc n) c os ≡ undefined
unfolding data_server_handle on_socket listening reply_memory rounds round uninit_bytes
sent_then_freed dht nng kh md5 laws m sends n c {os2 = os2} {os3 = os3} opened listens quiet came =
    rw
      (
        opened,
        listens,
        malloc_lem reply_size os2 quiet (omega arith),
        came,
        answered-undefined dht nng kh md5 laws m sends c (hdr_of (junk os2.uninit 0 hdr_size)) os3,
      )
      refl
