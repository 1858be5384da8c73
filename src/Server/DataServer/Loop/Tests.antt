-- ===== src/Server/DataServer/Loop/Tests.antt =====
-- A node that answers one request.
use sea.Prelude.{ℕ, Bool, true, false, ◌≡◌, refl, ap, sym}
use sea.Posix.{M, Run, pure, ran, undef, undefined}
use sea.Controller.Data.{hdr_bytes}
use sea.Controller.Sample.{digest, direct, disk, node, one_node, idle_dht, idle_nng}
use sea.Server.DataServer.Loop.{Message, Rep, data_server_handle}
use sea.Server.DataServer.Loop.Once.{RepLaws, sent_then_freed}

-- A request for the second record of the block 9.
abbrev request : Message
request = record {
  bytes = hdr_bytes (record { method = 1; error = 0; len = 24; block_id = 9; record_id = 1 });
  owned = true;
}

abbrev taken : Message → Message
taken m = record m { owned = false }

abbrev free_owned : Bool → M (Unit {0})
free_owned true = pure tt
free_owned false = undef

-- A socket on which the request comes, and on which every message is sent.
abbrev socket : Rep
socket = record {
  rep0_open = pure 0;
  listen = λ url. pure 0;
  recv = pure (0, request);
  send = λ m. pure (0, taken m);
  free = λ m. free_owned m.owned;
}

message_of : Message → Run (ℕ × Message) → Message
message_of m (ran r os) = r.1
message_of m undefined = m

socket-RepLaws : RepLaws socket
unfolding message_of
socket-RepLaws = record {
  send-taken = λ m m' os os' e. ap (λ r. (message_of m r).owned) (sym e);
  free-taken = λ m os e. ap (λ b. free_owned b os) e;
}

sent_then_freed_example :
    data_server_handle idle_dht idle_nng direct digest socket 5 (node one_node) disk ≡ undefined
sent_then_freed_example =
    sent_then_freed idle_dht idle_nng direct digest socket-RepLaws request
      (λ os. (taken request, os, refl)) 4 (node one_node) refl refl refl refl
