-- ===== src/Dispatch/Order.antt =====
-- Every pushed item runs once, in the order of the pushes.
use net_policy.Common.{ℕ, ◌≡◌, refl, sym, ap, ◌∙◌, Bool, true, false, arith, List, [], ◌∷◌, ◌++◌}
use mathlib.Core.List.{append-nil, append_assoc}
use net_policy.Dispatch.{
  GrpcDispatchItem, Phase, waiting, woken, reading, draining, running, Queue, push, drain_all,
  run_item, Step, write_ok, write_failed, wake, read_first, read_more, read_none, drain, run, leave,
  Reach, begin, by_push, by_step, run_items,
}

abbrev pub is_running : Phase → Bool
is_running waiting = false
is_running woken = false
is_running reading = false
is_running draining = false
is_running running = true

module _ {D : Type 0} where
  -- What was pushed is what is done, what the loop has drained and what waits, in this order; drained
  -- items are there in the loop over them alone; and the daemon is what the items that are done make
  -- of the first one, one after the other.
  pub record IsInOrder (start : D) (s : Queue D) : Type 0 where
    pub order : s.pushed ≡ s.done ++ (s.drained ++ s.queue)
    pub idle : is_running s.phase ≡ false → s.drained ≡ []
    pub effect : s.daemon ≡ run_items s.done start

  run_items-append :
      (items : List (GrpcDispatchItem D)) (item : GrpcDispatchItem D) (d : D)
      → run_items (items ++ (item ∷ [])) d ≡ (item.work (run_items items d)).0
  unfolding run_items
  run_items-append [] item d = refl
  run_items-append (first ∷ items) item d = run_items-append items item (first.work d).0

  push-IsInOrder :
      (start : D) (s : Queue D) (item : GrpcDispatchItem D)
      → IsInOrder start s
      → IsInOrder start (push s item)
  unfolding push
  push-IsInOrder start s item h = record {
    order =
        ap (λ items. items ++ (item ∷ [])) h.order
        ∙ append_assoc s.done (s.drained ++ s.queue) (item ∷ [])
        ∙ ap (λ items. s.done ++ items) (append_assoc s.drained s.queue (item ∷ []));
    idle = h.idle;
    effect = h.effect;
  }

  -- Steps that leave the lists and the daemon alone.
  same-IsInOrder :
      (start : D) (s : Queue D) (counter pushing failed : ℕ) (phase : Phase)
      → IsInOrder start s
      → s.drained ≡ []
      → IsInOrder start
          (record s { counter = counter; pushing = pushing; failed = failed; phase = phase })
  same-IsInOrder start s counter pushing failed phase h empty = record {
    order = h.order;
    idle = λ not_running. empty;
    effect = h.effect;
  }

  pub Step-IsInOrder :
      (start : D) {s t : Queue D} → Step s t → IsInOrder start s → IsInOrder start t
  unfolding drain_all run_item
  Step-IsInOrder start (write_ok e) h = record { order = h.order; idle = h.idle; effect = h.effect }
  Step-IsInOrder start (write_failed e) h = record {
    order = h.order;
    idle = h.idle;
    effect = h.effect;
  }
  Step-IsInOrder start {s = s} (wake e more) h =
      same-IsInOrder start s _ _ _ woken h (h.idle (ap is_running e))
  Step-IsInOrder start {s = s} (read_first e more) h =
      same-IsInOrder start s 0 _ _ reading h (h.idle (ap is_running e))
  Step-IsInOrder start {s = s} (read_more e more) h =
      same-IsInOrder start s 0 _ _ _ h (h.idle (ap is_running e))
  Step-IsInOrder start {s = s} (read_none e none_left) h =
      same-IsInOrder start s _ _ _ draining h (h.idle (ap is_running e))
  Step-IsInOrder start {s = s} (drain e) h = record {
    order =
        h.order
        ∙ ap (λ items. s.done ++ (items ++ s.queue)) (h.idle (ap is_running e))
        ∙ ap (λ items. s.done ++ items) (sym (append-nil s.queue));
    idle = λ not_running. cc;
    effect = h.effect;
  }
  Step-IsInOrder start {s = s} (run {item = item} {rest = rest} e taken) h = record {
    order =
        h.order
        ∙ ap (λ items. s.done ++ (items ++ s.queue)) taken
        ∙ sym (append_assoc s.done (item ∷ []) (rest ++ s.queue));
    idle = λ not_running. absurd (ground (arith, ap is_running e));
    effect = ap (λ d. (item.work d).0) h.effect ∙ sym (run_items-append s.done item start);
  }
  Step-IsInOrder start {s = s} (leave e empty) h = same-IsInOrder start s _ _ _ waiting h empty

  -- In every state that pushes and steps reach, the items that were pushed are those that are done,
  -- those that the loop has drained and those that wait, in this order, and the daemon is what the
  -- items that are done make of its first state, one after the other: each runs once, in turn.
  pub Reach-IsInOrder : (start : D) {s : Queue D} → Reach start s → IsInOrder start s
  unfolding run_items
  Reach-IsInOrder start begin = record { order = refl; idle = λ not_running. refl; effect = refl }
  Reach-IsInOrder start (by_push {s = s} item r) =
      push-IsInOrder start s item (Reach-IsInOrder start r)
  Reach-IsInOrder start (by_step r step) = Step-IsInOrder start step (Reach-IsInOrder start r)
