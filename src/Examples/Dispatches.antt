-- ===== src/Examples/Dispatches.antt =====
-- One item on the dispatch queue.
use net_policy.Common.{ℕ, ◌+◌, true, [], ◌∷◌, refl, arith}
use net_policy.Dispatch.{
  GrpcDispatchItem, running, Queue, new_queue, push, drain_all, run_item, write_ok, wake,
  read_first, read_none, drain, run, begin, by_push, by_step,
}
use net_policy.Dispatch.Order.{IsInOrder, Reach-IsInOrder}
use net_policy.Dispatch.Wake.{Inevitable, IsServed, Reach-Inevitable}

-- An item that counts up and throws.
abbrev counting : GrpcDispatchItem ℕ
counting = record { work = λ n. (n + 1, true) }

abbrev served : Queue ℕ
served = record {
  daemon = 1;
  queue = [];
  counter = 0;
  pushing = 0;
  failed = 0;
  phase = running;
  drained = [];
  pushed = counting ∷ [];
  done = counting ∷ [];
}

Reach-IsInOrder_example : IsInOrder 0 served
unfolding push drain_all run_item
Reach-IsInOrder_example = Reach-IsInOrder 0 (
    by_step
      (by_step
        (by_step
          (by_step
            (by_step (by_step (by_push counting begin) (write_ok refl)) (wake refl (omega arith)))
            (read_first refl (omega arith)))
          (read_none refl refl))
        (drain refl))
      (run refl refl))

Reach-Inevitable_example : Inevitable (IsServed (counting ∷ [])) (push (new_queue 0) counting)
unfolding push
Reach-Inevitable_example = Reach-Inevitable 0 (by_push counting begin)
