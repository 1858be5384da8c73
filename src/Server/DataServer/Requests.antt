-- ===== src/Server/DataServer/Requests.antt =====
-- The replies to requests as another node sends them.
pub mod Put
use sea.Prelude.{
  ℕ, ◌+◌, ◌-◌, ◌%◌, ◌^◌, ◌≤◌, ◌<◌, ◌≡◌, ◌≢◌, ◌⊎◌, inl, inr, refl, sym, ap, ◌∙◌, some, List, [],
  ◌++◌, append-nil, Bool-cases, length, drop, arith, get_elem?, le→ltb, lt→ltb, ne→==, ==_refl,
  ◌==◌,
}
use sea.Bytes.{le_bytes}
use sea.Bytes.Laws.{of_le_bytes-le_bytes}
use sea.Posix.{Os, ran, undefined, einval, uninit_bytes}
use sea.Posix.Laws.{malloc_lem}
use sea.Time.Data
use sea.Time.Block
use sea.Controller.{Controller, write, write_local}
use sea.Controller.SuperBlock
use sea.Controller.PhoneList.Table.{memcpy_over}
use sea.Controller.PhoneList.{Khash}
use sea.Controller.DhtList.{Dht}
use sea.Controller.Data.{Nng, DataServerHdr, hdr_of, hdr_bytes, hdr_size, method_get, method_put}
use sea.Controller.Local.{Serving, Serving-Kept, read_present}
use sea.Server.DataServer.{Processed, refused, data_server_process, error_none, error_unknown}
use native.Mathlib.Nat.{mod-eq_of_lt}

pub record FitsHdr (h : DataServerHdr) : Type 0 where
  pub method : h.method < 2 ^ 8
  pub error : h.error < 2 ^ 16
  pub len : h.len < 2 ^ 32
  pub block_id : h.block_id < 2 ^ 64
  pub record_id : h.record_id < 2 ^ 64

-- The header is found before whatever follows it, and that behind it.
pub hdr_of-append :
    (h : DataServerHdr) (rest : List ℕ) → FitsHdr h → hdr_of (hdr_bytes h ++ rest) ≡ h
unfolding hdr_of hdr_bytes le_bytes
hdr_of-append h rest f i = record {
  method = of_le_bytes-le_bytes 1 h.method f.method i;
  error = of_le_bytes-le_bytes 2 h.error f.error i;
  len = of_le_bytes-le_bytes 4 h.len f.len i;
  block_id = of_le_bytes-le_bytes 8 h.block_id f.block_id i;
  record_id = of_le_bytes-le_bytes 8 h.record_id f.record_id i;
}

hdr_of-hdr_bytes : (h : DataServerHdr) → FitsHdr h → hdr_of (hdr_bytes h) ≡ h
hdr_of-hdr_bytes h f = ap hdr_of (sym (append-nil (hdr_bytes h))) ∙ hdr_of-append h [] f

length-hdr_bytes : (h : DataServerHdr) → length (hdr_bytes h) ≡ 24
unfolding hdr_bytes le_bytes
length-hdr_bytes h = refl

pub drop-hdr : (h : DataServerHdr) (rest : List ℕ) → drop hdr_size (hdr_bytes h ++ rest) ≡ rest
unfolding hdr_bytes le_bytes
drop-hdr h rest = refl

pub length-hdr :
    (h : DataServerHdr) (rest : List ℕ) → length (hdr_bytes h ++ rest) ≡ 24 + length rest
unfolding hdr_bytes le_bytes
length-hdr h rest = omega arith

module _ {T : Type 0} (dht : Dht) (nng : Nng) (kh : Khash T) (md5 : List ℕ → List ℕ) where
  abbrev get_request : ℕ → ℕ → DataServerHdr
  get_request block_id record_id = record {
    method = method_get;
    error = 0;
    len = hdr_size;
    block_id = block_id;
    record_id = record_id;
  }

  -- The environment letting every call succeed: the request that controller_data_get sends for a
  -- record of the block in use, where the record fits the buffer for the reply, is answered with
  -- the record behind a header that names it and no error, and the size of both.
  pub process-get :
      {os : Os} {c : Controller T} {rs : List (List ℕ)} (s : Serving os c rs)
      (send_hdr : DataServerHdr) (k size : ℕ) (r : List ℕ)
      → c.super_block.block_id < 2 ^ 64
      → length s.live.stored.b < 2 ^ 63
      → length rs < 2 ^ 32
      → k < 2 ^ 32
      → get_elem? rs k ≡ some r
      → 24 + length r ≤ size
      → size < 2 ^ 32
      → (os' : Os) × (reply : Processed T) × (data_server_process dht nng kh md5 c
            (hdr_bytes (get_request c.super_block.block_id k))
            send_hdr
            size
            os
          ≡ ran reply os')
        × (reply.ret ≡ 0)
        × (reply.copied ≡ some r)
        × (reply.send_buf_size ≡ 24 + length r)
        × (reply.send_hdr ≡ record (get_request c.super_block.block_id k) { len = send_hdr.len })
        × Serving os' reply.controller rs
  unfolding data_server_process
  process-get {os} {c} {rs} s send_hdr k size r small fits few k_small there le size_small =
      let h : DataServerHdr = get_request c.super_block.block_id k in
      let buf_len : ℕ = (size + (2 ^ 32 - hdr_size)) % 2 ^ 32 in
      let (os', answered, kept) = read_present s dht nng k buf_len r fits few there (omega arith) in
      (
        os',
        record {
          ret = 0;
          controller = c;
          send_hdr = record h { len = send_hdr.len };
          copied = some r;
          send_buf_size = 24 + length r;
        },
        rw
            (
              length-hdr_bytes h,
              hdr_of-hdr_bytes h (record {
                method = omega arith;
                error = omega arith;
                len = omega arith;
                block_id = small;
                record_id = omega arith;
              }),
              mod-eq_of_lt {n = k} {m = 2 ^ 32} k_small,
              answered,
              mod-eq_of_lt {n = 24 + length r} {m = 2 ^ 32} (omega arith),
            )
            refl,
        refl,
        refl,
        refl,
        refl,
        Serving-Kept kept s,
      )
