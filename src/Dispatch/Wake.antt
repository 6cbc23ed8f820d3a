-- ===== src/Dispatch/Wake.antt =====
-- No wake-up is lost: every schedule of the threads' writes and the loop's steps comes to the end of
-- all pushed items, unless a write to the wake descriptor fails.
use net_policy.Common.{
  ℕ, zero, suc, ◌+◌, ◌*◌, ◌<◌, ◌≡◌, refl, sym, ap, subst, ◌∙◌, ◌⊎◌, inl, inr, Bool, true, false,
  List, [], ◌∷◌, ◌++◌, length, arith,
}
use mathlib.Core.List.{append-nil}
use net_policy.Dispatch.{
  GrpcDispatchItem, Phase, waiting, woken, reading, draining, running, Queue, push, drain_all,
  run_item, Step, write_ok, write_failed, wake, read_first, read_more, read_none, drain, run, leave,
  Reach, begin, by_push, by_step,
}
use net_policy.Dispatch.Order.{is_running, IsInOrder, Reach-IsInOrder, Step-IsInOrder}

-- The loop will drain the queue before it waits again.
abbrev is_reading : Phase → Bool
is_reading waiting = false
is_reading woken = false
is_reading reading = true
is_reading draining = true
is_reading running = false

abbrev is_woken : Phase → Bool
is_woken waiting = false
is_woken woken = true
is_woken reading = false
is_woken draining = false
is_woken running = false

abbrev rank : Phase → ℕ
rank waiting = 1
rank woken = 0
rank reading = 4
rank draining = 3
rank running = 2

module _ {D : Type 0} where
  -- An item waits only while the loop is about to drain the queue, or the descriptor is set, or a
  -- thread is about to set it, or a write has failed.
  record IsAwake (s : Queue D) : Type 0 where
    heard : is_woken s.phase ≡ true → 0 < s.counter
    told : is_reading s.phase ≡ false → (s.queue ≡ []) ⊎ (0 < s.counter + (s.pushing + s.failed))

  push-IsAwake : (s : Queue D) (item : GrpcDispatchItem D) → IsAwake s → IsAwake (push s item)
  unfolding push
  push-IsAwake s item h = record { heard = h.heard; told = λ e. inr (omega arith) }

  Step-IsAwake : {s t : Queue D} → Step s t → IsAwake s → IsAwake t
  unfolding drain_all run_item
  Step-IsAwake {s = s} (write_ok e) h = record {
    heard = λ w. omega arith;
    told = λ r. inr (omega arith);
  }
  Step-IsAwake {s = s} (write_failed e) h = record {
    heard = h.heard;
    told = λ r. inr (omega arith);
  }
  Step-IsAwake {s = s} (wake e more) h = record { heard = λ w. more; told = λ r. inr (omega arith) }
  Step-IsAwake {s = s} (read_first e more) h = record {
    heard = λ w. ground arith;
    told = λ r. ground arith;
  }
  Step-IsAwake {s = s} (read_more e more) h = record {
    heard = λ w. ground (arith, ap is_woken e);
    told = λ r. ground (arith, ap is_reading e);
  }
  Step-IsAwake {s = s} (read_none e none_left) h = record {
    heard = λ w. ground arith;
    told = λ r. ground arith;
  }
  Step-IsAwake {s = s} (drain e) h = record { heard = λ w. ground arith; told = λ r. inl refl }
  Step-IsAwake {s = s} (run e taken) h = record { heard = h.heard; told = h.told }
  Step-IsAwake {s = s} (leave e empty) h = record {
    heard = λ w. ground arith;
    told = λ r. h.told (ap is_reading e);
  }

  Reach-IsAwake : (start : D) {s : Queue D} → Reach start s → IsAwake s
  Reach-IsAwake start begin = record { heard = λ w. ground arith; told = λ r. inl refl }
  Reach-IsAwake start (by_push {s = s} item r) = push-IsAwake s item (Reach-IsAwake start r)
  Reach-IsAwake start (by_step r step) = Step-IsAwake step (Reach-IsAwake start r)

  -- A bound on the steps that are left when no item is pushed.
  abbrev pub potential : Queue D → ℕ
  potential s =
      6 * s.pushing + (5 * s.counter + (2 * length s.queue + (length s.drained + rank s.phase)))

  Step-potential : {s t : Queue D} → Step s t → potential t < potential s
  unfolding drain_all run_item
  Step-potential {s = s} (write_ok e) = omega arith
  Step-potential {s = s} (write_failed e) = omega arith
  Step-potential {s = s} (wake e more) = omega (arith, ap rank e)
  Step-potential {s = s} (read_first e more) = omega (arith, ap rank e)
  Step-potential {s = s} (read_more e more) = omega (arith, ap rank e)
  Step-potential {s = s} (read_none e none_left) = omega (arith, ap rank e)
  Step-potential {s = s} (drain e) = omega (arith, ap rank e)
  Step-potential {s = s} (run e taken) = omega (arith, ap length taken)
  Step-potential {s = s} (leave e empty) = omega (arith, ap rank e)

  Step-pushed : {s t : Queue D} → Step s t → t.pushed ≡ s.pushed
  unfolding drain_all run_item
  Step-pushed (write_ok e) = refl
  Step-pushed (write_failed e) = refl
  Step-pushed (wake e more) = refl
  Step-pushed (read_first e more) = refl
  Step-pushed (read_more e more) = refl
  Step-pushed (read_none e none_left) = refl
  Step-pushed (drain e) = refl
  Step-pushed (run e taken) = refl
  Step-pushed (leave e empty) = refl

  -- Nothing is under way.
  abbrev IsQuiet : Queue D → Type 0
  IsQuiet s = (s.phase ≡ waiting) × (s.counter ≡ 0) × (s.pushing ≡ 0)

  abbrev HasStep : Queue D → Type 0
  HasStep s = (t : Queue D) × Step s t

  progress : (s : Queue D) → IsAwake s → HasStep s ⊎ IsQuiet s
  progress s h = by_phase s.phase refl
    where
      wait : (n m : ℕ) → s.phase ≡ waiting → s.counter ≡ n → s.pushing ≡ m → HasStep s ⊎ IsQuiet s
      wait zero zero e c p = inr (e, c, p)
      wait zero (suc m) e c p = inl (_, write_ok p)
      wait (suc n) m e c p = inl (_, wake e (omega arith))

      read : (n : ℕ) → s.phase ≡ reading → s.counter ≡ n → HasStep s
      read zero e c = (_, read_none e c)
      read (suc n) e c = (_, read_more e (omega arith))

      work : (items : List (GrpcDispatchItem D)) → s.phase ≡ running → s.drained ≡ items → HasStep s
      work [] e d = (_, leave e d)
      work (item ∷ rest) e d = (_, run e d)

      by_phase : (phase : Phase) → s.phase ≡ phase → HasStep s ⊎ IsQuiet s
      by_phase waiting e = wait s.counter s.pushing e refl refl
      by_phase woken e = inl (_, read_first e (h.heard (ap is_woken e)))
      by_phase reading e = inl (read s.counter e refl)
      by_phase draining e = inl (_, drain e)
      by_phase running e = inl (work s.drained e refl)

  -- On every schedule of the steps a property comes to hold: it holds, or there is a step, and it
  -- comes to hold after each that there is.
  pub data Inevitable (P : Queue D → Type 0) : Queue D → Type 0 where
    now : {s : Queue D} → P s → Inevitable P s
    later : {s : Queue D} → HasStep s → ((t : Queue D) → Step s t → Inevitable P t) → Inevitable P s

  -- All items of a list are done, or a write has failed.
  abbrev pub IsServed : List (GrpcDispatchItem D) → Queue D → Type 0
  IsServed items s = (s.done ≡ items) ⊎ (0 < s.failed)

  quiet-IsServed :
      (start : D) (s : Queue D) → IsInOrder start s → IsAwake s → IsQuiet s → IsServed s.pushed s
  quiet-IsServed start s order awake (phase, counter, pushing) =
      elim (awake.told (ap is_reading phase)) [
        | inl empty ↦ inl (
            sym (
              order.order
              ∙ ap (λ items. s.done ++ (items ++ s.queue)) (order.idle (ap is_running phase))
              ∙ ap (λ items. s.done ++ items) empty
              ∙ append-nil s.done))
        | inr some_left ↦ inr (omega arith)
      ]

  settle :
      (start : D) (n : ℕ) (s : Queue D)
      → potential s < n
      → IsInOrder start s
      → IsAwake s
      → (items : List (GrpcDispatchItem D)) → s.pushed ≡ items
      → Inevitable (IsServed items) s
  settle start zero s bound order awake items e = absurd (ground arith)
  settle start (suc n) s bound order awake items e = elim (progress s awake) [
    | inl has ↦ later has λ t step.
        settle start n t (omega (arith, Step-potential step)) (Step-IsInOrder start step order)
          (Step-IsAwake step awake) items (Step-pushed step ∙ e)
    | inr quiet ↦ now (subst (λ l. IsServed l s) e (quiet-IsServed start s order awake quiet))
  ]

  -- From every state that pushes and steps reach, every schedule of the writes and the loop's steps
  -- comes to a state in which all items pushed so far are done, or a write to the descriptor has
  -- failed.
  pub Reach-Inevitable :
      (start : D) {s : Queue D} → Reach start s → Inevitable (IsServed s.pushed) s
  Reach-Inevitable start {s = s} r =
      settle start (suc (potential s)) s (omega arith) (Reach-IsInOrder start r)
        (Reach-IsAwake start r) s.pushed refl
