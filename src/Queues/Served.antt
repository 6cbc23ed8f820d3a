-- ===== src/Queues/Served.antt =====
-- A wakeup of a queue: NfqueueRcvData of net-policy.cpp over crates/net_nfq/src/queue.rs.
use net_policy.Common.Maps.{lookup, erase}
use net_policy.Common.{
  ℕ, suc, ◌≡◌, refl, Bool-cases, inl, inr, none, some, List, [], ◌∷◌, nat_eq, if◌then◌else◌, Map,
  Unique, map,
}
use net_policy.Http.{HttpConnection}
use net_policy.Policy.{FlowDir}
use net_policy.Microseg.{Host}
use net_policy.Callback.{Daemon, Verdict}
use net_policy.Callback.Directions.{nfq_cb}
use net_policy.Queues.{
  NfqCrate, NfqQueue, max_batch, describe, recv_batch, answered, verdict_impl, payload_or_empty,
  issue, Queues, queue_of, put_queue, serve, rcv_direction, nfqueue_rcv_data,
}
use net_policy.Queues.Batches.{by_id, lookup-first, erase-first, taken, drain_batch-taken}

module _ (crate : NfqCrate) where
  -- A message with the answer of a callback.
  abbrev pub judged : crate.Message → Verdict → crate.Message
  judged msg v = answered crate msg v.verdict v.mark (payload_or_empty crate v.payload)

  issue-found :
      (q : NfqQueue crate) (id : ℕ) (v : Verdict) (msg : crate.Message) (rest : Map ℕ crate.Message)
      → lookup id q.pending ≡ some msg
      → erase id q.pending ≡ rest
      → issue crate q id v
        ≡ record { inner = (crate.verdict q.inner (judged msg v)).0; pending = rest }
  unfolding verdict_impl
  issue-found q id v msg rest found left = rw (found, left, issue, verdict_impl)

  -- A batch is in the table under its ids.
  recv_batch-taken :
      (q : NfqQueue crate)
      → let (inner, msgs, bad) = taken crate.recv max_batch q.inner in
        Unique (by_id (describe crate) msgs)
        → recv_batch crate q ≡ (
          record { inner = inner; pending = by_id (describe crate) msgs },
          if bad then none else some (map (describe crate) msgs),
        )
  unfolding recv_batch
  recv_batch-taken q u =
      rw (recv_batch, drain_batch-taken crate.recv (describe crate) q.inner q.pending u)

  module _ (http : HttpConnection) (host : Host) (clock : ℕ → ℕ) where
    -- Messages judged one after the other, each given back to the crate at once.
    unfoldable pub judge_all :
        FlowDir → ℕ → List crate.Message → Daemon http → crate.Queue → Daemon http × crate.Queue
    judge_all dir i [] d inner = (d, inner)
    judge_all dir i (msg ∷ msgs) d inner =
        let (d', v) = nfq_cb http host dir d (describe crate msg) (clock i) in
        judge_all dir (suc i) msgs d' (crate.verdict inner (judged msg v)).0

    serve-judge_all :
        (dir : FlowDir) (i : ℕ) (msgs : List crate.Message) (d : Daemon http) (inner : crate.Queue)
        → Unique (by_id (describe crate) msgs)
        → let (d', inner') = judge_all dir i msgs d inner in
          serve crate http host clock dir i
            (map (describe crate) msgs)
            d
            (record { inner = inner; pending = by_id (describe crate) msgs })
          ≡ (d', record { inner = inner'; pending = [] })
    unfolding serve judge_all
    serve-judge_all dir i [] d inner u = refl
    serve-judge_all dir i (msg ∷ msgs) d inner u =
        let r = nfq_cb http host dir d (describe crate msg) (clock i) in
        rw
          (
            serve,
            issue-found (record { inner = inner; pending = by_id (describe crate) (msg ∷ msgs) })
                (describe crate msg).id r.1 msg (by_id (describe crate) msgs)
                (lookup-first (describe crate msg).id msg (by_id (describe crate) msgs))
                (erase-first (describe crate msg).id msg (by_id (describe crate) msgs) u.0),
          )
          (serve-judge_all dir (suc i) msgs r.0 (crate.verdict inner (judged msg r.1)).0 u.1)

    -- A wakeup without ids and without a table of pending messages: of at most 64 messages each is
    -- judged and given back in its turn; if `recv` fails, none of them is.
    unfoldable pub wakeup : ℕ → Daemon http → Queues crate → Daemon http × Queues crate
    wakeup fd d queues =
        let dir = rcv_direction crate fd queues in
        let (inner, msgs, bad) = taken crate.recv max_batch (queue_of crate dir queues).inner in
        if bad
        then (
          d,
          put_queue crate dir queues
              (record { inner = inner; pending = by_id (describe crate) msgs }),
        )
        else let (d', inner') = judge_all dir 0 msgs d inner in
          (d', put_queue crate dir queues (record { inner = inner'; pending = [] }))

    -- If no two messages that one wakeup takes have the same id, NfqueueRcvData does what `wakeup`
    -- does: every message taken before the queue is empty, at most 64, is judged by its direction's
    -- callback and given back with that verdict, in order, and none stays pending; if `recv` fails,
    -- the messages taken so far get no verdict, and the daemon stays as it is.
    pub nfqueue_rcv_data-wakeup :
        (fd : ℕ) (d : Daemon http) (queues : Queues crate)
        → Unique (
            by_id
              (describe crate)
              (taken crate.recv max_batch
                (queue_of crate (rcv_direction crate fd queues) queues).inner).1)
        → nfqueue_rcv_data crate http host clock fd d queues ≡ wakeup fd d queues
    unfolding nfqueue_rcv_data wakeup
    nfqueue_rcv_data-wakeup fd d queues u =
        let dir = rcv_direction crate fd queues in
        let q = queue_of crate dir queues in
        let (inner, msgs, bad) = taken crate.recv max_batch q.inner in
        let e = recv_batch-taken q u in
        elim (Bool-cases bad) [
          | inl b ↦ rw (nfqueue_rcv_data, e, b, wakeup) (rw e)
          | inr b ↦
              rw (nfqueue_rcv_data, e, b, wakeup) (rw (e, serve-judge_all dir 0 msgs d inner u))
        ]
