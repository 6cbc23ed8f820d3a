-- ===== src/Profile.antt =====
-- The heap profiler's switch: admin/profile.h and admin/profile.cc (Heap). Whether the profiler of
-- gperftools runs is the state.
use net_policy.Common.{
  Bool, true, false, ◌&&◌, not, Option, none, some, ◌==◌, text_eq, if◌then◌else◌, Text, codes,
}
use net_policy.Config.{Json, Outcome, returned, undefined}

pub data Status : Type 0 where
  status_ok err_already_started err_not_started err_invalid_param : Status

unfoldable pub start_profiler : Bool → Bool × Bool
start_profiler running = (true, true)

-- The dump is written and the profiler stops, if it runs.
unfoldable pub stop_profiler : Bool → Bool × Bool
stop_profiler running = if not running then (running, false) else (false, true)

unfoldable pub switch : Text → Bool → Bool × Status
switch value running =
    if not (value == codes "y") && not (value == codes "n")
    then (running, err_invalid_param)
    else if value == codes "y"
    then (if running
        then (running, err_already_started)
        else ((start_profiler running).0, status_ok))
    else if running
    then ((stop_profiler running).0, status_ok)
    else (running, err_not_started)

module _ (json : Json) where
  open json use {parse, get_object_item, valuestring}

  -- The pointers are not checked: without a tree, a member or a string there is undefined behaviour.
  unfoldable pub read_enable : Text → Option Text
  read_enable request = elim (parse request) [
    | none ↦ none
    | some root ↦ elim (get_object_item root (codes "enable")) [
      | none ↦ none
      | some item ↦ valuestring item
    ]
  ]

  unfoldable pub handle_heap_profile : Text → Bool → Bool × Outcome Status
  handle_heap_profile request running = elim (read_enable request) [
    | none ↦ (running, undefined)
    | some value ↦ ((switch value running).0, returned (switch value running).1)
  ]
