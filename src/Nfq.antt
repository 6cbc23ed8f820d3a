-- ===== src/Nfq.antt =====
-- The NFQUEUE resources of a pod: net-policy.h and rule-detail.cpp (NFQ_RES_INFO, NfQueData) and
-- net-policy.cpp (OpenNfque, AddEpollEvent, InitNfqueue). The queues, the conntrack sessions and
-- epoll are a kernel, a parameter; what is allocated and not yet released is counted.
pub mod Release
pub mod PodUp
use net_policy.Common.Maps.{lookup, insert, erase}
use net_policy.Common.{
  ℕ, zero, suc, ◌+◌, ◌-◌, ◌≡◌, Bool, true, false, ◌&&◌, ◌||◌, not, Option, none, some, List, [],
  ◌∷◌, ◌==◌, nat_eq, if◌then◌else◌, Map,
}
use net_policy.Policy.{FlowDir, ingress, egress, ℤ, pos, negsuc}

abbrev pub mem : ℕ → List ℕ → Bool
mem fd [] = false
mem fd (first ∷ fds) = first == fd || mem fd fds

abbrev pub remove : ℕ → List ℕ → List ℕ
remove fd [] = []
remove fd (first ∷ fds) = let rest = remove fd fds in if first == fd then rest else first ∷ rest

-- The descriptors that are open, those that epoll watches, and the numbers of callback records and
-- of conntrack sessions.
pub record System : Type 0 where
  pub open_fds : List ℕ
  pub epoll_fds : List ℕ
  pub cbs : ℕ
  pub sessions : ℕ

-- `net_nfq::open_queue`, which gives a descriptor that is not open, or throws; whether epoll takes a
-- descriptor; whether a conntrack session can be opened.
pub record Kernel : Type 0 where
  pub open_queue : FlowDir → List ℕ → Option ℕ
  pub epoll_add : ℕ → Bool
  pub open_session : Bool
  pub open_queue_fresh :
      (dir : FlowDir) (fds : List ℕ) (fd : ℕ) → open_queue dir fds ≡ some fd → mem fd fds ≡ false

-- `NFQ_RES_INFO`; a queue is its descriptor, a callback record is there or not.
pub record NfqRes : Type 0 where
  pub pid : ℕ
  pub poll_fd : ℕ
  pub pod_id : ℕ
  pub input_queue : Option ℕ
  pub output_queue : Option ℕ
  pub input_cb : Bool
  pub output_cb : Bool
  pub conntrack : Bool

unfoldable pub init_res : ℕ → ℕ → ℕ → NfqRes
init_res pid pod epoll_fd = record {
  pid = pid;
  poll_fd = epoll_fd;
  pod_id = pod;
  input_queue = none;
  output_queue = none;
  input_cb = false;
  output_cb = false;
  conntrack = false;
}

-- Removing from epoll, and dropping the queue, which closes its socket.
unfoldable pub close_queue : Option ℕ → System → System
close_queue none s = s
close_queue (some fd) s = record s {
  open_fds = remove fd s.open_fds;
  epoll_fds = remove fd s.epoll_fds;
}

abbrev one_if : Bool → ℕ
one_if true = 1
one_if false = 0

-- `NFQ_RES_INFO::FreeResource`.
unfoldable pub free_resource : NfqRes → System → System
free_resource res s =
    let closed = close_queue res.output_queue (close_queue res.input_queue s) in
    record closed {
      cbs = closed.cbs - one_if res.input_cb - one_if res.output_cb;
      sessions = closed.sessions - one_if res.conntrack;
    }

-- `NfQueData`.
abbrev pub NfQueData : Type 0
NfQueData = Map ℕ NfqRes

unfoldable pub get_nfq_res : NfQueData → ℕ → Option NfqRes
get_nfq_res resources pod = lookup pod resources

unfoldable pub new_nfque_res : NfQueData → ℕ → NfqRes → NfQueData × ℤ
new_nfque_res resources pod res = elim (lookup pod resources) [
  | some old ↦ (resources, negsuc 1)
  | none ↦ (insert pod res resources, pos 0)
]

unfoldable pub delete_nfque_res : NfQueData → System → ℕ → NfQueData × System
delete_nfque_res resources s pod = elim (lookup pod resources) [
  | none ↦ (resources, s)
  | some res ↦ (erase pod resources, free_resource res s)
]

abbrev set_queue : FlowDir → ℕ → NfqRes → NfqRes
set_queue ingress fd res = record res { input_queue = some fd }
set_queue egress fd res = record res { output_queue = some fd }

abbrev fd_of : Option ℕ → ℕ
fd_of none = 0
fd_of (some fd) = fd

module _ (kernel : Kernel) where
  open kernel use {open_queue, epoll_add, open_session}

  abbrev pub queue_opened : FlowDir → System → NfqRes → Option ℕ → System × NfqRes × Bool
  queue_opened dir s res none = (s, res, false)
  queue_opened dir s res (some fd) =
      (record s { open_fds = fd ∷ s.open_fds }, set_queue dir fd res, true)

  unfoldable pub open_nfque : FlowDir → System → NfqRes → System × NfqRes × Bool
  open_nfque dir s res = queue_opened dir s res (open_queue dir s.open_fds)

  -- Both queues are open. On an error the callback records are deleted; what epoll has taken stays.
  unfoldable pub add_epoll_event : System → NfqRes → System × NfqRes × Bool
  add_epoll_event s res =
      let input_fd = fd_of res.input_queue in
      let output_fd = fd_of res.output_queue in
      let watched = record s { epoll_fds = input_fd ∷ s.epoll_fds } in
      if not (epoll_add input_fd)
      then (s, res, false)
      else if not (epoll_add output_fd)
      then (watched, res, false)
      else (
        record s { epoll_fds = output_fd ∷ (input_fd ∷ s.epoll_fds); cbs = s.cbs + 2 },
        record res { input_cb = true; output_cb = true },
        true,
      )

  abbrev pub failed : NfQueData → System → NfqRes → NfQueData × System × ℤ
  failed resources s res = (resources, free_resource res s, negsuc 5)

  -- An insertion that fails destroys the resource without `FreeResource`: the records are not deleted.
  abbrev pub inserted : System → NfqRes → NfQueData × ℤ → NfQueData × System × ℤ
  inserted s res (resources, pos n) = (resources, s, pos 0)
  inserted s res (resources, negsuc n) =
      (resources, free_resource (record res { input_cb = false; output_cb = false }) s, negsuc 5)

  unfoldable pub insert_resource : NfQueData → ℕ → System → NfqRes → NfQueData × System × ℤ
  insert_resource resources pod s res = inserted s res (new_nfque_res resources pod res)

  -- From `AddEpollEvent` on.
  unfoldable pub watch_queues : NfQueData → ℕ → System → NfqRes → NfQueData × System × ℤ
  watch_queues resources pod s res =
      let (s', res', ok) = add_epoll_event s res in
      if not ok then failed resources s' res' else insert_resource resources pod s' res'

  unfoldable pub open_conntrack : NfQueData → ℕ → System → NfqRes → NfQueData × System × ℤ
  open_conntrack resources pod s res =
      if open_session
      then watch_queues resources pod (record s { sessions = s.sessions + 1 })
          (record res { conntrack = true })
      else failed resources s res

  unfoldable pub open_queues : NfQueData → ℕ → System → NfqRes → NfQueData × System × ℤ
  open_queues resources pod s res =
      let (s1, res1, first) = open_nfque ingress s res in
      let (s2, res2, second) = open_nfque egress s1 res1 in
      if not first
      then failed resources s1 res1
      else if not second
      then failed resources s2 res2
      else open_conntrack resources pod s2 res2

  -- `InitNfqueue`; a pod that has its resource is no error.
  unfoldable pub init_nfqueue : NfQueData → System → ℕ → ℕ → ℕ → NfQueData × System × ℤ
  init_nfqueue resources s epoll_fd pid pod = elim (get_nfq_res resources pod) [
    | some res ↦ (resources, s, pos 0)
    | none ↦ open_queues resources pod s (init_res pid pod epoll_fd)
  ]
