-- ===== src/Queues.antt =====
-- The NFQUEUE queues: crates/net_nfq/src/queue.rs (NfqQueue, drain_batch) and NfqueueRcvData of
-- net-policy.cpp, which has a batch of packets judged by the callbacks. The nfq crate is a parameter.
pub mod Batches
pub mod Served
use net_policy.Common.Maps.{lookup, insert, erase}
use net_policy.Common.{
  ℕ, zero, suc, Bool, false, Option, none, some, List, [], ◌∷◌, ◌++◌, ◌==◌, nat_eq, if◌then◌else◌,
  Text, Map,
}
use net_policy.Http.{HttpConnection}
use net_policy.Policy.{FlowDir, ingress, egress}
use net_policy.Microseg.{Host}
use net_policy.Callback.{NfqMessage, NfqVerdict, Verdict, Daemon}
use net_policy.Callback.Directions.{nfq_cb}

-- What a non-blocking `recv` ends with.
pub data Recv (M : Type 0) : Type 0 where
  ok : M → Recv M
  would_block failed : Recv M

-- The nfq crate: a queue, the messages that it gives, and the verdicts that it takes; `false` is an
-- error.
pub record NfqCrate : Type 1 where
  pub Queue : Type 0
  pub Message : Type 0
  pub as_raw_fd : Queue → ℕ
  pub recv : Queue → Queue × Recv Message
  pub verdict : Queue → Message → Queue × Bool
  pub get_packet_id : Message → ℕ
  pub get_payload : Message → Text
  pub get_nfmark : Message → ℕ
  pub set_nfmark : Message → ℕ → Message
  pub set_payload : Message → Text → Message
  pub set_verdict : Message → NfqVerdict → Message

abbrev pub max_batch : ℕ
max_batch = 64

-- The loop, with the room that is left under MAX_BATCH.
module _ {S M : Type 0} (recv_one : S → S × Recv M) (describe : M → NfqMessage) where
  unfoldable pub drain_loop :
      ℕ → S → Map ℕ M → List NfqMessage → S × Map ℕ M × Option (List NfqMessage)
  drain_loop zero s pending out = (s, pending, some out)
  drain_loop (suc room) s pending out =
      let (s', received) = recv_one s in
      elim received [
        | ok msg ↦
            let ffi_msg = describe msg in
            drain_loop room s' (insert ffi_msg.id msg pending) (out ++ ffi_msg ∷ [])
        | would_block ↦ (s', pending, some out)
        | failed ↦ (s', pending, none)
      ]

  -- What an earlier call has left in `pending` is dropped.
  unfoldable pub drain_batch : S → Map ℕ M → S × Map ℕ M × Option (List NfqMessage)
  drain_batch s pending = drain_loop max_batch s [] []

module _ (crate : NfqCrate) where
  pub record NfqQueue : Type 0 where
    pub inner : crate.Queue
    pub pending : Map ℕ crate.Message

  unfoldable pub describe : crate.Message → NfqMessage
  describe msg = record {
    id = crate.get_packet_id msg;
    nfmark = crate.get_nfmark msg;
    payload = crate.get_payload msg;
  }

  unfoldable pub recv_batch : NfqQueue → NfqQueue × Option (List NfqMessage)
  recv_batch q =
      let (inner, pending, out) = drain_batch crate.recv describe q.inner q.pending in
      (record { inner = inner; pending = pending }, out)

  -- The message with its mark, its payload (an empty one is none) and its verdict.
  unfoldable pub answered : crate.Message → NfqVerdict → Option ℕ → Text → crate.Message
  answered msg v mark payload =
      let marked : crate.Message = elim mark [ none ↦ msg | some m ↦ crate.set_nfmark msg m ] in
      let filled : crate.Message = elim payload [
        | [] ↦ marked
        | byte ∷ bytes ↦ crate.set_payload marked (byte ∷ bytes)
      ] in
      crate.set_verdict filled v

  -- `false` is an error: there is no such message, or the crate reports one.
  unfoldable pub verdict_impl : NfqQueue → ℕ → NfqVerdict → Option ℕ → Text → NfqQueue × Bool
  verdict_impl q id v mark payload = elim (lookup id q.pending) [
    | none ↦ (q, false)
    | some msg ↦
        let (inner, sent) = crate.verdict q.inner (answered msg v mark payload) in
        (record { inner = inner; pending = erase id q.pending }, sent)
  ]

  -- A callback's call of `verdict` or `verdict_with_mark`.
  abbrev pub payload_or_empty : Option Text → Text
  payload_or_empty none = []
  payload_or_empty (some payload) = payload

  abbrev pub issue : NfqQueue → ℕ → Verdict → NfqQueue
  issue q id v = (verdict_impl q id v.verdict v.mark (payload_or_empty v.payload)).0

  -- The queues of `NFQ_RES_INFO`.
  pub record Queues : Type 0 where
    pub input_queue : NfqQueue
    pub output_queue : NfqQueue

  abbrev pub queue_of : FlowDir → Queues → NfqQueue
  queue_of ingress queues = queues.input_queue
  queue_of egress queues = queues.output_queue

  abbrev pub put_queue : FlowDir → Queues → NfqQueue → Queues
  put_queue ingress queues q = record queues { input_queue = q }
  put_queue egress queues q = record queues { output_queue = q }

  -- The direction whose queue has the descriptor.
  unfoldable pub rcv_direction : ℕ → Queues → FlowDir
  rcv_direction fd queues =
      if fd == crate.as_raw_fd queues.input_queue.inner then ingress else egress

  module _ (http : HttpConnection) (host : Host) (clock : ℕ → ℕ) where
    -- The loop over a batch; an error of a verdict is caught and logged. The clock's argument counts
    -- the packets of the batch.
    unfoldable pub serve :
        FlowDir → ℕ → List NfqMessage → Daemon http → NfqQueue → Daemon http × NfqQueue
    serve dir i [] d q = (d, q)
    serve dir i (msg ∷ batch) d q =
        let (d', v) = nfq_cb http host dir d msg (clock i) in
        serve dir (suc i) batch d' (issue q msg.id v)

    -- It returns 0 on every path.
    unfoldable pub nfqueue_rcv_data : ℕ → Daemon http → Queues → Daemon http × Queues
    nfqueue_rcv_data fd d queues =
        let dir = rcv_direction fd queues in
        let (q, batch) = recv_batch (queue_of dir queues) in
        elim batch [
          | none ↦ (d, put_queue dir queues q)
          | some msgs ↦ let (d', q') = serve dir 0 msgs d q in (d', put_queue dir queues q')
        ]
