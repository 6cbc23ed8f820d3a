-- ===== src/Nfq/Release.antt =====
-- What InitNfqueue allocates is released, by InitNfqueue itself on an error, and otherwise when the
-- pod goes down (net-policy.cpp, rule-detail.cpp).
use net_policy.Common.Maps.{lookup, insert}
use net_policy.Common.{
  ℕ, ◌+◌, ◌≡◌, ◌⊎◌, inl, inr, refl, ap, Bool, true, false, Option, none, some, List, [], ◌∷◌,
  nat_eq, Bool-cases, Option-cases, arith,
}
use net_policy.Policy.{FlowDir, ingress, egress, ℤ, pos, negsuc}
use net_policy.Nfq.{
  mem, remove, System, Kernel, NfqRes, init_res, close_queue, free_resource, NfQueData,
  new_nfque_res, open_nfque, add_epoll_event, insert_resource, watch_queues, open_conntrack,
  inserted, queue_opened, open_queues,
}

remove_absent : (fd : ℕ) (fds : List ℕ) → mem fd fds ≡ false → remove fd fds ≡ fds
remove_absent fd [] h = refl
remove_absent fd (first ∷ fds) h = ground (arith, remove_absent fd fds)

pub remove_first : (fd : ℕ) (fds : List ℕ) → mem fd fds ≡ false → remove fd (fd ∷ fds) ≡ fds
remove_first fd fds h = ground (arith, remove_absent fd fds h)

-- The first of two is removed and then the second.
pub remove_both :
    (a b : ℕ) (fds : List ℕ)
    → mem a fds ≡ false
    → mem b (a ∷ fds) ≡ false
    → remove b (remove a (b ∷ (a ∷ fds))) ≡ fds
remove_both a b fds h k = ground (arith, remove_absent a fds h, remove_absent b fds)

-- A descriptor that is not open is not watched.
abbrev pub IsWatching : System → Type 0
IsWatching s = (fd : ℕ) → mem fd s.open_fds ≡ false → mem fd s.epoll_fds ≡ false

system_eq :
    (a b : System)
    → a.open_fds ≡ b.open_fds
    → a.epoll_fds ≡ b.epoll_fds
    → a.cbs ≡ b.cbs
    → a.sessions ≡ b.sessions
    → a ≡ b
system_eq a b h k l m = cc

-- Nothing is left of the resource: the state is the one before, or the resource is stored and
-- freeing it gives that state.
abbrev pub IsReleased : NfQueData → ℕ → System → NfQueData × System × ℤ → Type 0
IsReleased resources pod s r =
    (r ≡ (resources, s, negsuc 5))
    ⊎ ((res : NfqRes) × (r ≡ (insert pod res resources, r.1, pos 0)) × (free_resource res r.1 ≡ s))

-- Freeing a resource with both queues.
free_both :
    (s t : System) (res : NfqRes) (a b : ℕ)
    → mem a s.open_fds ≡ false
    → mem b (a ∷ s.open_fds) ≡ false
    → res.input_queue ≡ some a
    → res.output_queue ≡ some b
    → t.open_fds ≡ (b ∷ (a ∷ s.open_fds))
    → remove b (remove a t.epoll_fds) ≡ s.epoll_fds
    → (free_resource res t).cbs ≡ s.cbs
    → (free_resource res t).sessions ≡ s.sessions
    → free_resource res t ≡ s
unfolding free_resource close_queue
free_both s t res a b fresh_a fresh_b input output opened epoll cbs sessions =
    system_eq (free_resource res t) s
      (rw (input, output, opened) (remove_both a b s.open_fds fresh_a fresh_b))
      (rw (input, output) epoll) cbs sessions

remove_unwatched :
    (s : System) (a b : ℕ)
    → IsWatching s
    → mem a s.open_fds ≡ false
    → mem b (a ∷ s.open_fds) ≡ false
    → (mem a s.epoll_fds ≡ false) × (mem b s.epoll_fds ≡ false) × (mem b (a ∷ s.epoll_fds) ≡ false)
remove_unwatched s a b w fresh_a fresh_b = (w a fresh_a, w b (ground arith), ground (arith, w b))

module _ (kernel : Kernel) (resources : NfQueData) (pod : ℕ) where
  open kernel use {open_queue, epoll_add, open_session, open_queue_fresh}

  module _ (s : System) (w : IsWatching s) (new : lookup pod resources ≡ none) (a b : ℕ)
      (fresh_a : mem a s.open_fds ≡ false) (fresh_b : mem b (a ∷ s.open_fds) ≡ false) where
    -- The resource with both queues.
    abbrev opened : ℕ → ℕ → Bool → Bool → NfqRes
    opened pid epoll_fd cbs session = record {
      pid = pid;
      poll_fd = epoll_fd;
      pod_id = pod;
      input_queue = some a;
      output_queue = some b;
      input_cb = cbs;
      output_cb = cbs;
      conntrack = session;
    }

    -- The state with both queues and a session.
    abbrev allocated : List ℕ → ℕ → System
    allocated epoll_fds cbs = record {
      open_fds = b ∷ (a ∷ s.open_fds);
      epoll_fds = epoll_fds;
      cbs = cbs;
      sessions = s.sessions + 1;
    }

    new_nfque_res-new :
        (res : NfqRes) → new_nfque_res resources pod res ≡ (insert pod res resources, pos 0)
    unfolding new_nfque_res
    new_nfque_res-new res = rw (new, new_nfque_res) refl

    insert_resource-new :
        (t : System) (res : NfqRes)
        → insert_resource kernel resources pod t res ≡ (insert pod res resources, t, pos 0)
    unfolding insert_resource
    insert_resource-new t res = ap (inserted kernel t res) (new_nfque_res-new res)

    watch_queues-IsReleased :
        (pid epoll_fd : ℕ)
        → IsReleased resources pod s (
            watch_queues kernel resources pod
              (allocated s.epoll_fds s.cbs)
              (opened pid epoll_fd false true))
    unfolding watch_queues add_epoll_event free_resource close_queue
    watch_queues-IsReleased pid epoll_fd =
        let (a_off, b_off, b_rest) = remove_unwatched s a b w fresh_a fresh_b in
        let res = opened pid epoll_fd false true in
        let free : (epoll_fds : List ℕ)
            → remove b (remove a epoll_fds) ≡ s.epoll_fds
            → free_resource res (allocated epoll_fds s.cbs) ≡ s =
          λ epoll_fds e.
            free_both s (allocated epoll_fds s.cbs) res a b fresh_a fresh_b refl refl refl e
              (omega arith) (omega arith) in
        elim (Bool-cases (epoll_add a)) [
          | inr refused ↦ inl (
              rw (refused) (
                ap (λ t. (resources, t, negsuc 5))
                  (free s.epoll_fds (
                    ground (
                      arith,
                      remove_absent a s.epoll_fds a_off,
                      remove_absent b s.epoll_fds b_off,
                    )))))
          | inl taken ↦ elim (Bool-cases (epoll_add b)) [
            | inr refused ↦ inl (
                rw (taken, refused)
                  (ap (λ t. (resources, t, negsuc 5))
                    (free (a ∷ s.epoll_fds) (
                      ground (
                        arith,
                        remove_first a s.epoll_fds a_off,
                        remove_absent b s.epoll_fds b_off,
                      )))))
            | inl both ↦ inr (
                rw
                  (
                    taken,
                    both,
                    insert_resource-new (allocated (b ∷ (a ∷ s.epoll_fds)) (s.cbs + 2))
                        (opened pid epoll_fd true true),
                  )
                  (
                    opened pid epoll_fd true true,
                    refl,
                    free_both s (allocated (b ∷ (a ∷ s.epoll_fds)) (s.cbs + 2))
                        (opened pid epoll_fd true true) a b fresh_a fresh_b refl refl refl
                        (remove_both a b s.epoll_fds a_off b_rest) (omega arith) (omega arith),
                  ))
          ]
        ]

    open_conntrack-IsReleased :
        (pid epoll_fd : ℕ)
        → IsReleased resources pod s (
            open_conntrack kernel resources pod
              (record s { open_fds = b ∷ (a ∷ s.open_fds) })
              (opened pid epoll_fd false false))
    unfolding open_conntrack watch_queues add_epoll_event insert_resource
    open_conntrack-IsReleased pid epoll_fd =
        let (a_off, b_off, b_rest) = remove_unwatched s a b w fresh_a fresh_b in
        elim (Bool-cases open_session) [
          | inl granted ↦ rw (granted) (watch_queues-IsReleased pid epoll_fd)
          | inr refused ↦ inl (
              rw (refused) (
                ap (λ t. (resources, t, negsuc 5))
                  (free_both s (record s { open_fds = b ∷ (a ∷ s.open_fds) })
                    (opened pid epoll_fd false false) a b fresh_a fresh_b refl refl refl
                    (ground
                      (arith, remove_absent a s.epoll_fds a_off, remove_absent b s.epoll_fds b_off))
                    (unfold free_resource close_queue in omega arith)
                    (unfold free_resource close_queue in omega arith))))
        ]

  open_nfque-queue_opened :
      (dir : FlowDir) (s : System) (res : NfqRes) {o : Option ℕ}
      → open_queue dir s.open_fds ≡ o
      → open_nfque kernel dir s res ≡ queue_opened kernel dir s res o
  unfolding open_nfque
  open_nfque-queue_opened dir s res e = ap (queue_opened kernel dir s res) e

  -- With one queue alone.
  free_input :
      (s : System) (pid epoll_fd a : ℕ)
      → IsWatching s
      → mem a s.open_fds ≡ false
      → free_resource
          (record (init_res pid pod epoll_fd) { input_queue = some a })
          (record s { open_fds = a ∷ s.open_fds })
        ≡ s
  unfolding free_resource close_queue init_res
  free_input s pid epoll_fd a w fresh =
      system_eq _ s (remove_first a s.open_fds fresh) (remove_absent a s.epoll_fds (w a fresh))
        (omega arith) (omega arith)

  free_none : (s : System) (pid epoll_fd : ℕ) → free_resource (init_res pid pod epoll_fd) s ≡ s
  unfolding free_resource close_queue init_res
  free_none s pid epoll_fd = system_eq _ s refl refl (omega arith) (omega arith)

  pub open_queues-IsReleased :
      (s : System) (pid epoll_fd : ℕ)
      → IsWatching s
      → lookup pod resources ≡ none
      → IsReleased resources pod s (open_queues kernel resources pod s (init_res pid pod epoll_fd))
  unfolding open_queues init_res
  open_queues-IsReleased s pid epoll_fd w new =
      elim (Option-cases (open_queue ingress s.open_fds)) [
        | inl e ↦ inl (
            rw (open_queues, open_nfque-queue_opened ingress s (init_res pid pod epoll_fd) e)
              (ap (λ t. (resources, t, negsuc 5)) (free_none s pid epoll_fd)))
        | inr (a, e) ↦
            let one : NfqRes = record (init_res pid pod epoll_fd) { input_queue = some a } in
            let s1 : System = record s { open_fds = a ∷ s.open_fds } in
            elim (Option-cases (open_queue egress (a ∷ s.open_fds))) [
              | inl f ↦ inl (
                  rw
                    (
                      open_queues,
                      open_nfque-queue_opened ingress s (init_res pid pod epoll_fd) e,
                      open_nfque-queue_opened egress s1 one f,
                    )
                    (ap (λ t. (resources, t, negsuc 5))
                      (free_input s pid epoll_fd a w (open_queue_fresh ingress s.open_fds a e))))
              | inr (b, f) ↦
                  rw
                    (
                      open_queues,
                      open_nfque-queue_opened ingress s (init_res pid pod epoll_fd) e,
                      open_nfque-queue_opened egress s1 one f,
                    )
                    (open_conntrack-IsReleased s w new a b (open_queue_fresh ingress s.open_fds a e)
                      (open_queue_fresh egress (a ∷ s.open_fds) b f) pid epoll_fd)
            ]
      ]
