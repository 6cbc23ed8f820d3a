-- ===== src/Nfq/PodUp.antt =====
-- A pod goes up and down: InitNfqueue of net-policy.cpp and NfQueData of rule-detail.cpp.
use net_policy.Common.Maps.{lookup, insert, erase, lookup-insert, lookup-erase}
use net_policy.Common.{
  ℕ, ◌≡◌, ◌≢◌, ◌⊎◌, inl, inr, refl, sym, subst, none, some, nat_eq, Option-cases, arith,
}
use net_policy.Policy.{ℤ, pos, negsuc}
use net_policy.Nfq.{
  System, Kernel, NfqRes, free_resource, NfQueData, get_nfq_res, delete_nfque_res, init_nfqueue,
}
use net_policy.Nfq.Release.{IsWatching, IsReleased, open_queues-IsReleased}

module _ (kernel : Kernel) (resources : NfQueData) (pod : ℕ) where
  -- What a call of `InitNfqueue` leaves: all as it was, with −6, or with 0 for a pod that has its
  -- resource; or a resource that the pod's going down releases to the last.
  abbrev pub IsAllOrNothing : System → NfQueData × System × ℤ → Type 0
  IsAllOrNothing s r =
      (r ≡ (resources, s, negsuc 5))
      ⊎ (((lookup pod resources ≢ none) × (r ≡ (resources, s, pos 0)))
          ⊎ ((lookup pod r.0 ≢ none)
              × (r.2 ≡ pos 0)
              × ((delete_nfque_res r.0 r.1 pod).1 ≡ s)
              × (lookup pod (delete_nfque_res r.0 r.1 pod).0 ≡ none)))

  lookup-stored : (res : NfqRes) → lookup pod (insert pod res resources) ≡ some res
  lookup-stored res = ground (arith, lookup-insert pod pod res resources)

  delete_nfque_res-stored :
      (t : System) (res : NfqRes)
      → delete_nfque_res (insert pod res resources) t pod
        ≡ (erase pod (insert pod res resources), free_resource res t)
  unfolding delete_nfque_res
  delete_nfque_res-stored t res = rw (lookup-stored res, delete_nfque_res) refl

  stored-IsAllOrNothing :
      (s t : System) (res : NfqRes)
      → free_resource res t ≡ s
      → IsAllOrNothing s (insert pod res resources, t, pos 0)
  stored-IsAllOrNothing s t res freed = inr (
      inr (
        rw (delete_nfque_res-stored t res, lookup-stored res)
          (λ h. cc, refl, freed, ground (arith, lookup-erase pod pod (insert pod res resources)))))

  released-IsAllOrNothing :
      (s : System) (r : NfQueData × System × ℤ) → IsReleased resources pod s r → IsAllOrNothing s r
  released-IsAllOrNothing s r (inl e) = inl e
  released-IsAllOrNothing s r (inr (res, e, freed)) =
      subst (IsAllOrNothing s) (sym e) (stored-IsAllOrNothing s r.1 res freed)

  -- In a system that watches open descriptors alone, a call of `InitNfqueue` either leaves everything as it was, with −6, or with 0 for a pod that has
  -- its resource; or it stores a resource with 0, and then the pod's going down restores the state of
  -- the system before the call and leaves the pod without a resource.
  pub init_nfqueue-IsAllOrNothing :
      (s : System) (pid epoll_fd : ℕ)
      → IsWatching s
      → IsAllOrNothing s (init_nfqueue kernel resources s epoll_fd pid pod)
  unfolding init_nfqueue get_nfq_res
  init_nfqueue-IsAllOrNothing s pid epoll_fd w = elim (Option-cases (lookup pod resources)) [
    | inl new ↦
        released-IsAllOrNothing s _ (
          rw (new, init_nfqueue) (open_queues-IsReleased kernel resources pod s pid epoll_fd w new))
    | inr (res, e) ↦ inr (inl (rw (e, init_nfqueue) (λ h. cc, refl)))
  ]
