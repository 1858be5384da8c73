-- ===== src/Server/DataServer.antt =====
-- src/rest/server.c: what is answered to another node. The loop that receives the requests is left
-- out.
pub mod Requests
pub mod Loop
use sea.Prelude.{
  ℕ, ◌+◌, ◌-◌, ◌*◌, ◌/◌, ◌%◌, ◌^◌, Option, none, some, List, [], ◌∷◌, ltb, ◌==◌, if◌then◌else◌,
  length, drop,
}
use sea.Posix.{M, pure, undef, einval, ◌>>=◌}
use sea.Time.Block.{first_bytes}
use sea.Controller
use sea.Controller.{Controller}
use sea.Controller.PhoneList.{Khash}
use sea.Controller.DhtList.{Dht}
use sea.Controller.Data.{Nng, DataServerHdr, hdr_of, hdr_size, method_get, method_put}

abbrev pub error_none : ℕ
error_none = 0

abbrev pub error_get : ℕ
error_get = 1

abbrev pub error_put : ℕ
error_put = 2

abbrev pub error_unknown : ℕ
error_unknown = 3

-- The code, the header in the buffer for the reply, what was copied behind it, and the size.
pub record Processed (T : Type 0) : Type 0 where
  pub ret : ℕ
  pub controller : Controller T
  pub send_hdr : DataServerHdr
  pub copied : Option (List ℕ)
  pub send_buf_size : ℕ

-- A number of 64 bits, of which the lower 32 are written.
low_word : ℕ → ℕ → ℕ
low_word old new = old / 2 ^ 32 * 2 ^ 32 + new

module _ {T : Type 0} (dht : Dht) (nng : Nng) (kh : Khash T) (md5 : List ℕ → List ℕ) where
  process_get : Controller T → DataServerHdr → DataServerHdr → ℕ → M (Processed T)
  process_get c hdr send_hdr send_buf_size = do
    let h = record send_hdr { block_id = hdr.block_id; record_id = hdr.record_id }
    let buf_len = (send_buf_size + (2 ^ 32 - hdr_size)) % 2 ^ 32
    a ← Controller.read dht nng hdr.block_id (hdr.record_id % 2 ^ 32) buf_len
    pure (
        if a.ret == 0
        then record {
          ret = 0;
          controller = c;
          send_hdr = h;
          copied = a.copied;
          send_buf_size = (hdr_size + length (first_bytes a.copied)) % 2 ^ 32;
        }
        else record {
          ret = a.ret;
          controller = c;
          send_hdr = record h { error = error_get };
          copied = a.copied;
          send_buf_size = hdr_size;
        })

  -- The length that is handed on is the request's, with its header.
  process_put : Controller T → DataServerHdr → List ℕ → DataServerHdr → M (Processed T)
  unfolding low_word
  process_put c hdr payload send_hdr = do
    w ← Controller.write dht nng kh md5 c (some payload) hdr.len (send_hdr.record_id % 2 ^ 32)
    let h = record send_hdr {
      error = if w.ret == 0 then send_hdr.error else error_put;
      block_id = w.block_id;
      record_id = low_word send_hdr.record_id w.record_id;
    }
    pure (record {
      ret = w.ret;
      controller = w.controller;
      send_hdr = h;
      copied = none;
      send_buf_size = hdr_size;
    })

  unfoldable pub refused : Controller T → DataServerHdr → Processed T
  refused c send_hdr = record {
    ret = einval;
    controller = c;
    send_hdr = record send_hdr { error = error_unknown };
    copied = none;
    send_buf_size = hdr_size;
  }

  process_method : Controller T → List ℕ → DataServerHdr → ℕ → M (Processed T)
  unfolding process_get process_put refused
  process_method c buf send_hdr send_buf_size =
      if (hdr_of buf).method == method_get
      then (if ltb (length buf) hdr_size
          then undef
          else process_get c (hdr_of buf) send_hdr send_buf_size)
      else if (hdr_of buf).method == method_put
      then process_put c (hdr_of buf) (drop hdr_size buf) send_hdr
      else pure (refused c send_hdr)

  -- `buf` is the request, of `size` bytes, an `int`; `send_hdr` is what the buffer for the reply
  -- begins with before.
  unfoldable pub data_server_process : Controller T → List ℕ → DataServerHdr → ℕ → M (Processed T)
  unfolding process_method refused
  data_server_process c buf send_hdr send_buf_size =
      if ltb (length buf) 8
      then undef
      else if (hdr_of buf).len == length buf % 2 ^ 32
      then process_method c buf
          (record send_hdr { method = (hdr_of buf).method; error = error_none }) send_buf_size
      else pure (refused c send_hdr)
