-- ===== src/Server/DataServer/Requests/Put.antt =====
-- The request to store a record, as another node sends it.
use sea.Prelude.{
  ℕ, ◌+◌, ◌%◌, ◌^◌, ◌<◌, ◌≡◌, refl, some, List, [], ◌++◌, length, arith, le→ltb, lt→ltb, ne→==,
  ==_refl,
}
use sea.Posix.{Os, undefined, uninit_bytes}
use sea.Posix.Laws.{malloc_lem}
use sea.Time.Data
use sea.Time.Block
use sea.Controller.{Controller, write, write_local}
use sea.Controller.SuperBlock
use sea.Controller.PhoneList.Table.{memcpy_over}
use sea.Controller.PhoneList.{Khash}
use sea.Controller.DhtList.{Dht}
use sea.Controller.Data.{Nng, DataServerHdr, hdr_bytes, hdr_size, method_put}
use sea.Controller.Local.{Serving}
use sea.Server.DataServer.{data_server_process}
use native.Mathlib.Nat.{mod-eq_of_lt}
use sea.Server.DataServer.Requests.{hdr_of-append, drop-hdr, length-hdr}

module _ {T : Type 0} (dht : Dht) (nng : Nng) (kh : Khash T) (md5 : List ℕ → List ℕ) where
  abbrev put_request : ℕ → DataServerHdr
  put_request n = record {
    method = method_put;
    error = 0;
    len = hdr_size + n;
    block_id = 0;
    record_id = 0;
  }

  -- Memory for a frame is had, and then more is copied than there is.
  build_over :
      (payload : List ℕ) (len : ℕ) (os : Os)
      → os.faults ≡ []
      → length payload < len
      → 16 + len < 2 ^ 31
      → Data.build payload len os ≡ undefined
  unfolding Data.build uninit_bytes
  build_over payload len os quiet lt small =
      rw
        (
          mod-eq_of_lt {n = 16 + len} {m = 2 ^ 32} (omega arith),
          lt→ltb (16 + len) (2 ^ 31) small,
          malloc_lem (16 + len) os quiet (omega arith),
          memcpy_over payload len os lt,
        )
        refl

  append_over :
      (block : Block.Block) (payload : List ℕ) (len record_id : ℕ) (os : Os)
      → os.faults ≡ []
      → length payload < len
      → 16 + len < 2 ^ 31
      → Block.append (some block) (some payload) len record_id 0 os ≡ undefined
  unfolding Block.append Data.append
  append_over block payload len record_id os quiet lt small =
      rw (ne→== len 0 (omega arith), build_over payload len os quiet lt small) refl

  write_over :
      {os : Os} {c : Controller T} {rs : List (List ℕ)} (s : Serving os c rs) (payload : List ℕ)
      (len record_id : ℕ)
      → length payload < len
      → 16 + len < 2 ^ 31
      → write dht nng kh md5 c (some payload) len record_id os ≡ undefined
  unfolding write write_local SuperBlock.get_block_id
  write_over {os} s payload len record_id lt small =
      rw
        (s.in_use, append_over s.block payload len record_id os s.live.stored.handle.quiet lt small)
        refl

  -- The environment letting every call succeed and the controller's block being open, the request
  -- that controller_data_send sends for a record makes the other node read behind the end of the
  -- request: it appends as many bytes as the whole request has, from behind the header.
  pub process-put_overread :
      {os : Os} {c : Controller T} {rs : List (List ℕ)} (s : Serving os c rs)
      (send_hdr : DataServerHdr) (size : ℕ) (payload : List ℕ)
      → 40 + length payload < 2 ^ 31
      → data_server_process dht nng kh md5 c
          (hdr_bytes (put_request (length payload)) ++ payload)
          send_hdr
          size
          os
        ≡ undefined
  unfolding data_server_process
  process-put_overread {os} {c} s send_hdr size payload small =
      let h : DataServerHdr = put_request (length payload) in
      rw
        (
          length-hdr h payload,
          hdr_of-append h payload (record {
            method = omega arith;
            error = omega arith;
            len = omega arith;
            block_id = omega arith;
            record_id = omega arith;
          }),
          le→ltb (24 + length payload) 8 (omega arith),
          mod-eq_of_lt {n = 24 + length payload} {m = 2 ^ 32} (omega arith),
          ==_refl (24 + length payload),
          drop-hdr h payload,
          write_over s payload (24 + length payload) (send_hdr.record_id % 2 ^ 32) (omega arith)
              (omega arith),
        )
        refl
