-- ===== src/Control/Toggled.antt =====
-- The profiler behind GrpcDispatchDumpHeapProfile of net-policy.cpp.
use net_policy.Common.{◌≡◌, refl, Bool, true, false, some, text_beq, if◌then◌else◌, codes}
use net_policy.Policy.{ℤ, pos}
use net_policy.Config.{Json, returned}
use net_policy.Profile.{start_profiler, stop_profiler, switch, read_enable, handle_heap_profile}
use net_policy.Control.Closures.{
  ControlState, result_of, dispatched, heap_request, heap_status, dump_heap_profile,
}

-- A call changes the profiler's state, or reports 1 because it is the requested one.
abbrev pub toggled : Bool → Bool → ℤ
toggled true true = pos 1
toggled false false = pos 1
toggled true false = pos 0
toggled false true = pos 0

switched :
    (enable running : Bool)
    → ((switch (if enable then codes "y" else codes "n") running).0 ≡ enable)
      × (result_of
            (heap_status (returned (switch (if enable then codes "y" else codes "n") running).1))
          ≡ returned (toggled enable running))
unfolding switch text_beq start_profiler stop_profiler heap_status result_of
switched true true = (refl, refl)
switched true false = (refl, refl)
switched false true = (refl, refl)
switched false false = (refl, refl)

-- The profiler is as requested: for a request whose member `enable` reads as y or n the call leaves
-- the profiler running exactly if it was enabled, changes nothing else, and returns 0 if that was a
-- change and 1 if not.
pub dump_heap_profile_lem :
    (json : Json) (enable : Bool) (d : ControlState)
    → read_enable json (heap_request enable) ≡ some (if enable then codes "y" else codes "n")
    → dispatched (dump_heap_profile json enable) d
      ≡ (record d { profiling = enable }, returned (toggled enable d.profiling))
unfolding dispatched dump_heap_profile handle_heap_profile
dump_heap_profile_lem json enable d read =
    let (state, status) = switched enable d.profiling in
    rw (read, handle_heap_profile, state, status)
