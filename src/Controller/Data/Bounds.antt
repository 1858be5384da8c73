-- ===== src/Controller/Data/Bounds.antt =====
-- No reply of another node is copied behind the buffer for it.
use sea.Prelude.{
  ℕ, ◌≤◌, Option, List, length, arith, length-take, if◌then◌else◌, ltb, inl, inr, ◌==◌, Bool-cases,
  ◌+◌, ◌-◌, ◌%◌, ◌^◌, drop, leb, ◌*◌,
}
use sea.Posix
use sea.Posix.{Os, M, memcpy, uninit_bytes}
use sea.Posix.Returns.{Always, Returns-then_run, Returns-then_run_if, if-Always}
use sea.Time.Block.{first_bytes}
use sea.Controller.Data.{Nng, hdr_of, hdr_size, got_reply, ask, client, controller_data_get}

abbrev pub ReplyFits : ℕ → ℕ × Option (List ℕ) → Type 0
ReplyFits n r = length (first_bytes r.1) ≤ n

memcpy-Always : (w : List ℕ) (n : ℕ) → Always (λ bs. length bs ≤ n) (memcpy w n)
unfolding memcpy
memcpy-Always w n os = elim (Bool-cases (leb n (length w))) [
  | inl enough ↦ rw enough (omega (arith, length-take n w))
  | inr over ↦ rw over tt
]

smaller : (a b : ℕ) → (if ltb a b then a else b) ≤ a
smaller a b = ground arith

got_reply-ReplyFits :
    (nng : Nng) (n : ℕ) (recv_hdr : List ℕ) → Always (ReplyFits n) (got_reply nng n recv_hdr)
unfolding got_reply
got_reply-ReplyFits nng n recv_hdr =
    let size : ℕ = ((hdr_of recv_hdr).len + (2 ^ 32 - hdr_size)) % 2 ^ 32 in
    let count : ℕ = if ltb n size then n else size in
    if-Always (ReplyFits n) ((hdr_of recv_hdr).error == 0) _ _
      (λ os.
        Returns-then_run_if (λ bs. length bs ≤ count) (ReplyFits n) _
          (λ bs le. λ os1. omega (arith, smaller n size)) (memcpy (drop hdr_size recv_hdr) count os)
          (memcpy-Always (drop hdr_size recv_hdr) count os))
      (λ os. omega arith)

ask-ReplyFits :
    (nng : Nng) (ip : ℕ) (msg : List ℕ) (n : ℕ) → Always (ReplyFits n) (ask nng ip msg n)
unfolding ask
ask-ReplyFits nng ip msg n os =
    Returns-then_run (ReplyFits n) _
      (λ ret. λ os1.
        Returns-then_run (ReplyFits n) _
          (λ recv_hdr.
            if-Always (ReplyFits n) (ret == 0) _ _ (got_reply-ReplyFits nng n recv_hdr)
              (λ os2. omega arith))
          (uninit_bytes 0 (1024 * 1024 * 10) os1))
      (client nng ip msg os)

pub controller_data_get-ReplyFits :
    (nng : Nng) (ip block_id record_id n : ℕ)
    → Always (ReplyFits n) (controller_data_get nng ip block_id record_id n)
unfolding controller_data_get
controller_data_get-ReplyFits nng ip block_id record_id n os =
    Returns-then_run (ReplyFits n) _
      (λ got.
        if-Always (ReplyFits n) got _ _
          (λ os1.
            Returns-then_run (ReplyFits n) _
              (λ room.
                if-Always (ReplyFits n) room _ _ (ask-ReplyFits nng ip _ n) (λ os2. omega arith))
              (Posix.malloc (1024 * 1024 * 10) os1))
          (λ os1. tt))
      (Posix.malloc hdr_size os)
