-- ===== src/Examples/Wakeups.antt =====
-- A wakeup of a queue on concrete packets.
use net_policy.Common.{ℕ, true, none, List, [], ◌∷◌, Text, ◌≡◌, refl, nat_eq}
use net_policy.Common.Maps.{lookup}
use net_policy.Callback.{NfqVerdict, accept}
use net_policy.Queues.{
  Recv, ok, would_block, NfqCrate, NfqQueue, describe, Queues, rcv_direction, nfqueue_rcv_data,
}
use net_policy.Queues.Batches.{taken}
use net_policy.Queues.Served.{wakeup, nfqueue_rcv_data-wakeup}
use net_policy.Examples.{host, http, microseg, daemon, syn_packet, data_packet}

record Packet : Type 0 where
  id : ℕ
  mark : ℕ
  bytes : Text
  verdict : NfqVerdict

-- A queue is its descriptor, what waits in it and what was given back, the latest first.
record Socket : Type 0 where
  fd : ℕ
  waiting : List Packet
  given : List Packet

next_packet : Socket → Socket × Recv Packet
next_packet s = elim s.waiting [
  | [] ↦ (s, would_block)
  | p ∷ rest ↦ (record s { waiting = rest }, ok p)
]

abbrev crate : NfqCrate
crate = record {
  Queue = Socket;
  Message = Packet;
  as_raw_fd = λ s. s.fd;
  recv = next_packet;
  verdict = λ s p. (record s { given = p ∷ s.given }, true);
  get_packet_id = λ p. p.id;
  get_payload = λ p. p.bytes;
  get_nfmark = λ p. p.mark;
  set_nfmark = λ p m. record p { mark = m };
  set_payload = λ p t. record p { bytes = t };
  set_verdict = λ p v. record p { verdict = v };
}

abbrev packet : ℕ → Text → Packet
packet id bytes = record { id = id; mark = 0; bytes = bytes; verdict = accept }

abbrev socket : ℕ → List Packet → NfqQueue crate
socket fd waiting = record {
  inner = record { fd = fd; waiting = waiting; given = [] };
  pending = [];
}

-- Two packets wait in the queue of incoming packets, descriptor 5.
abbrev queues : Queues crate
queues = record {
  input_queue = socket 5 (packet 1 syn_packet ∷ packet 2 data_packet ∷ []);
  output_queue = socket 6 [];
}

nfqueue_rcv_data-wakeup_example :
    nfqueue_rcv_data crate http host (λ i. i) 5 (daemon microseg) queues
    ≡ wakeup crate http host (λ i. i) 5 (daemon microseg) queues
unfolding rcv_direction taken next_packet lookup describe
nfqueue_rcv_data-wakeup_example =
    nfqueue_rcv_data-wakeup crate http host (λ i. i) 5 (daemon microseg) queues
      (refl {a = none}, (refl {a = none}, tt))
