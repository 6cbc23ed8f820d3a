-- ===== src/Examples/Pods.antt =====
-- The queues of a pod on a kernel with two descriptors.
use net_policy.Common.{
  ℕ, true, false, Option, none, some, List, [], ◌∷◌, ◌≡◌, if◌then◌else◌, arith, nat_eq,
}
use net_policy.Nfq.{mem, Kernel, System, init_nfqueue}
use net_policy.Nfq.PodUp.{IsAllOrNothing, init_nfqueue-IsAllOrNothing}

abbrev two_queues : List ℕ → Option ℕ
two_queues fds = if mem 5 fds then (if mem 6 fds then none else some 6) else some 5

two_queues_fresh : (fds : List ℕ) (fd : ℕ) → two_queues fds ≡ some fd → mem fd fds ≡ false
two_queues_fresh fds fd e = ground arith

abbrev kernel : Kernel
kernel = record {
  open_queue = λ dir fds. two_queues fds;
  epoll_add = λ fd. true;
  open_session = true;
  open_queue_fresh = λ dir fds fd e. two_queues_fresh fds fd e;
}

abbrev idle : System
idle = record { open_fds = 3 ∷ []; epoll_fds = 3 ∷ []; cbs = 0; sessions = 0 }

init_nfqueue-IsAllOrNothing_example :
    IsAllOrNothing kernel [] 7 idle (init_nfqueue kernel [] idle 4 100 7)
init_nfqueue-IsAllOrNothing_example =
    init_nfqueue-IsAllOrNothing kernel [] 7 idle 100 4 (λ fd closed. closed)
