-- ===== src/Dispatch.antt =====
-- The queue between the gRPC threads and the event loop: grpc/control_dispatch.h,
-- grpc/control_dispatch.cc (GrpcDispatchQueue) and DispatchGrpcRustQueueEvent of net-policy.cpp. The
-- threads and the loop take turns: each step is a call under the queue's lock, a system call on the
-- wake descriptor, or the run of one item. The descriptor's counter has no bound here; the caller of
-- an item is free once its promise is set.
pub mod Order
pub mod Wake
use net_policy.Common.{ℕ, zero, suc, ◌+◌, ◌<◌, ◌≡◌, Bool, List, [], ◌∷◌, ◌++◌}

-- A closure acts on the daemon, and tells whether it ended by an exception.
pub record GrpcDispatchItem (D : Type 0) : Type 0 where
  pub work : D → D × Bool

-- Where the loop is: in `epoll_wait`; told of the descriptor; after a `read` that succeeded; after
-- the `read` that failed; in the loop over the drained items.
pub data Phase : Type 0 where
  waiting woken reading draining running : Phase

-- `pushing` counts the threads between `push_back` and `write`, `failed` the writes that failed.
-- `pushed` and `done` record the items that were pushed and those whose promise is set, in order.
pub record Queue (D : Type 0) : Type 0 where
  pub daemon : D
  pub queue : List (GrpcDispatchItem D)
  pub counter : ℕ
  pub pushing : ℕ
  pub failed : ℕ
  pub phase : Phase
  pub drained : List (GrpcDispatchItem D)
  pub pushed : List (GrpcDispatchItem D)
  pub done : List (GrpcDispatchItem D)

module _ {D : Type 0} where
  abbrev pub new_queue : D → Queue D
  new_queue daemon = record {
    daemon = daemon;
    queue = [];
    counter = 0;
    pushing = 0;
    failed = 0;
    phase = waiting;
    drained = [];
    pushed = [];
    done = [];
  }

  -- `Push`, under the lock.
  unfoldable pub push : Queue D → GrpcDispatchItem D → Queue D
  push s item = record s {
    queue = s.queue ++ (item ∷ []);
    pushed = s.pushed ++ (item ∷ []);
    pushing = suc s.pushing;
  }

  -- `DrainAll`.
  unfoldable pub drain_all : Queue D → Queue D
  drain_all s = record s { drained = s.queue; queue = []; phase = running }

  -- The body of the loop over the drained items: an exception is caught, and the promise is set
  -- either way.
  unfoldable pub run_item : Queue D → GrpcDispatchItem D → List (GrpcDispatchItem D) → Queue D
  run_item s item rest = record s {
    daemon = (item.work s.daemon).0;
    drained = rest;
    done = s.done ++ (item ∷ []);
  }

  -- The steps but for `Push`: of the threads that write, and of the loop.
  pub data Step : Queue D → Queue D → Type 0 where
    write_ok :
        {s : Queue D} {n : ℕ}
        → s.pushing ≡ suc n
        → Step s (record s { pushing = n; counter = suc s.counter })
    write_failed :
        {s : Queue D} {n : ℕ}
        → s.pushing ≡ suc n
        → Step s (record s { pushing = n; failed = suc s.failed })
    wake : {s : Queue D} → s.phase ≡ waiting → 0 < s.counter → Step s (record s { phase = woken })
    read_first :
        {s : Queue D}
        → s.phase ≡ woken
        → 0 < s.counter
        → Step s (record s { phase = reading; counter = 0 })
    read_more :
        {s : Queue D} → s.phase ≡ reading → 0 < s.counter → Step s (record s { counter = 0 })
    read_none :
        {s : Queue D} → s.phase ≡ reading → s.counter ≡ 0 → Step s (record s { phase = draining })
    drain : {s : Queue D} → s.phase ≡ draining → Step s (drain_all s)
    run :
        {s : Queue D} {item : GrpcDispatchItem D} {rest : List (GrpcDispatchItem D)}
        → s.phase ≡ running
        → s.drained ≡ (item ∷ rest)
        → Step s (run_item s item rest)
    leave :
        {s : Queue D} → s.phase ≡ running → s.drained ≡ [] → Step s (record s { phase = waiting })

  -- The states after any pushes and steps from an empty queue.
  pub data Reach (start : D) : Queue D → Type 0 where
    begin : Reach start (new_queue start)
    by_push : {s : Queue D} (item : GrpcDispatchItem D) → Reach start s → Reach start (push s item)
    by_step : {s t : Queue D} → Reach start s → Step s t → Reach start t

  -- The effect of items one after the other.
  unfoldable pub run_items : List (GrpcDispatchItem D) → D → D
  run_items [] d = d
  run_items (item ∷ items) d = run_items items (item.work d).0
