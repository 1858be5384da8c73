-- ===== src/Controller/Data.antt =====
-- src/controller/controller_data.c and src/include/protocol.h: a request to another node. The
-- messaging library is a parameter: the result of each call, 0 for success. A pointer is passed
-- where `nng_recv` wants the place of one, and a number where it wants that of a length, so a message
-- that is received is stored in memory that is not the program's.
pub mod Bounds
use sea.Prelude.{
  ℕ, ◌+◌, ◌-◌, ◌*◌, ◌/◌, ◌%◌, ◌^◌, Option, none, some, List, ◌∷◌, ◌++◌, ltb, ◌==◌, if◌then◌else◌,
  drop,
}
use sea.Bytes.{le_bytes, field_at}
use sea.Posix
use sea.Posix.{M, pure, undef, einval, memcpy, uninit_bytes, decimal, ◌>>=◌, ◌>>◌}
use sea.Time.Utils.{snprintf}

-- struct data_server_hdr, of 24 bytes, of which the second is not used.
pub record DataServerHdr : Type 0 where
  pub method : ℕ
  pub error : ℕ
  pub len : ℕ
  pub block_id : ℕ
  pub record_id : ℕ

abbrev pub hdr_size : ℕ
hdr_size = 24

abbrev pub method_get : ℕ
method_get = 1

abbrev pub method_put : ℕ
method_put = 2

unfoldable pub hdr_bytes : DataServerHdr → List ℕ
hdr_bytes h =
    le_bytes 1 h.method
    ++ (0
        ∷ (le_bytes 2 h.error
            ++ (le_bytes 4 h.len ++ (le_bytes 8 h.block_id ++ le_bytes 8 h.record_id))))

unfoldable pub hdr_of : List ℕ → DataServerHdr
hdr_of bs = record {
  method = field_at 0 1 bs;
  error = field_at 2 2 bs;
  len = field_at 4 4 bs;
  block_id = field_at 8 8 bs;
  record_id = field_at 16 8 bs;
}

pub record Nng : Type 0 where
  pub req_open : M ℕ
  pub dial : List ℕ → M ℕ
  pub send : List ℕ → M ℕ
  pub recv : M ℕ
  pub close : M (Unit {0})

-- "tcp://%u.%u.%u.%u:%u", the bytes of the address as they lie in memory
unfoldable pub url : ℕ → List ℕ
url ip =
    b't'
    ∷ b'c'
    ∷ b'p'
    ∷ b':'
    ∷ b'/'
    ∷ b'/'
    ∷ (decimal (ip % 256)
        ++ (b'.'
            ∷ (decimal (ip / 256 % 256)
                ++ (b'.'
                    ∷ (decimal (ip / 65536 % 256)
                        ++ (b'.' ∷ (decimal (ip / 16777216 % 256) ++ (b':' ∷ decimal 8889))))))))

module _ (nng : Nng) where
  -- Every failure is only printed. What comes back is what is in the memory for it.
  unfoldable pub client : ℕ → List ℕ → M ℕ
  client ip msg = do
    nng.req_open
    nng.dial (snprintf 256 (url ip))
    nng.send msg
    rv ← nng.recv
    if rv == 0 then undef else (do nng.close; pure 0)

  -- The code, and what is copied, with its length.
  got_reply : ℕ → List ℕ → M (ℕ × Option (List ℕ))
  got_reply buf_len recv_hdr =
      if (hdr_of recv_hdr).error == 0
      then (do
        let size = ((hdr_of recv_hdr).len + (2 ^ 32 - hdr_size)) % 2 ^ 32
        bs ← memcpy (drop hdr_size recv_hdr) (if ltb buf_len size then buf_len else size)
        pure (0, some bs))
      else pure (0, none)

  ask : ℕ → List ℕ → ℕ → M (ℕ × Option (List ℕ))
  unfolding got_reply
  ask ip msg buf_len = do
    ret ← client ip msg
    recv_hdr ← uninit_bytes 0 (1024 * 1024 * 10)
    (if ret == 0 then got_reply buf_len recv_hdr else pure (ret, none))

  -- Where the first block of memory is not had, the code goes on to free a pointer that it has not
  -- set.
  unfoldable pub controller_data_get : ℕ → ℕ → ℕ → ℕ → M (ℕ × Option (List ℕ))
  unfolding ask
  controller_data_get ip block_id record_id buf_len = do
    got ← Posix.malloc hdr_size
    if got
        then (do
          got_reply_memory ← Posix.malloc (1024 * 1024 * 10)
          if got_reply_memory
              then ask ip
                  (hdr_bytes (record {
                    method = method_get;
                    error = 0;
                    len = hdr_size;
                    block_id = block_id;
                    record_id = record_id;
                  }))
                  buf_len
              else pure (0, none))
        else undef

  -- The code, and the numbers that the reply gives the record.
  tell : ℕ → List ℕ → M (ℕ × Option (ℕ × ℕ))
  tell ip msg = do
    ret ← client ip msg
    recv_hdr ← uninit_bytes 0 hdr_size
    pure (
        if ret == 0
        then (if (hdr_of recv_hdr).error == 0
            then (0, some ((hdr_of recv_hdr).block_id, (hdr_of recv_hdr).record_id % 2 ^ 32))
            else (0, none))
        else (ret, none))

  send_request : ℕ → List ℕ → M (ℕ × Option (ℕ × ℕ))
  unfolding tell
  send_request ip msg = do got ← Posix.malloc hdr_size; if got then tell ip msg else pure (0, none)

  unfoldable pub controller_data_send : List ℕ → ℕ → ℕ → M (ℕ × Option (ℕ × ℕ))
  unfolding send_request
  controller_data_send buf buf_len ip = do
    got ← Posix.malloc (buf_len + hdr_size)
    if got
        then (do
          bytes ← memcpy buf buf_len
          send_request ip (
              hdr_bytes (record {
                method = method_put;
                error = 0;
                len = (buf_len + hdr_size) % 2 ^ 32;
                block_id = 0;
                record_id = 0;
              })
              ++ bytes))
        else undef
