-- ===== src/Identity/Device/Once.antt =====
-- What holds over any sequence of calls of the device store.
use instacloud_oss.Base.{
  ℕ, ◌+◌, ◌≡◌, ◌≤◌, String, true, false, List, [], ◌∷◌, none, get, string_instance, list_instance,
  ◌||◌, arith,
}
use instacloud_oss.Identity.Device.{Text, approved, DeviceCodeStore, gc, start, approve, deny, poll}
use instacloud_oss.Identity.Device.Laws.{IsSound}
use instacloud_oss.Identity.Device.Invariant.{
  start-IsSound, approve-IsSound, deny-IsSound, poll-IsSound,
}
use instacloud_oss.Identity.Device.History.{
  DeviceEvent, issuing, approving, denying, polling, is_marked, step, run, collects, collected,
  approves, was_approved, draws_code, drawn, present,
}
use instacloud_oss.Identity.Device.Steps.{
  start-present, start-is_marked, poll-collects, poll-is_marked, approve-is_marked, deny-is_marked,
  approve-present, deny-present, poll-approved,
}

module _ (tr : Text → Text) (code : String) where
  step-collects :
      (now : ℕ) (e : DeviceEvent) (d : DeviceCodeStore)
      → collects tr code now e d + present code (step tr now e d)
        ≤ present code d + draws_code code e
  unfolding step
  step-collects now (issuing ip c draws) d = omega (arith, start-present now ip c code draws d)
  step-collects now (approving u) d = omega (arith, approve-present tr now u code d)
  step-collects now (denying u) d = omega (arith, deny-present tr now u code d)
  step-collects now (polling c) d = omega (arith, poll-collects now c code d)

  -- Over any calls at any times, a device code is answered with approved at most once for each
  -- time it was drawn, and for the record of it that the store had at first; a record that is still
  -- there at the end counts as one more.
  pub collected_once :
      (es : List (ℕ × DeviceEvent)) (d : DeviceCodeStore)
      → collected tr code es d + present code (run tr es d) ≤ present code d + drawn code es
  unfolding collected run drawn
  collected_once [] d = omega arith
  collected_once ((now, e) ∷ es) d =
      omega (arith, step-collects now e d, collected_once es (step tr now e d))

  step-is_marked :
      (now : ℕ) (e : DeviceEvent) (d : DeviceCodeStore)
      → is_marked code (step tr now e d) ≡ true
      → (is_marked code d || approves tr code now e d) ≡ true
  unfolding step
  step-is_marked now (issuing ip c draws) d h =
      ground (arith, start-is_marked now ip c code draws d h)
  step-is_marked now (approving u) d h = approve-is_marked tr now u code d h
  step-is_marked now (denying u) d h = ground (arith, deny-is_marked tr now u code d h)
  step-is_marked now (polling c) d h = ground (arith, poll-is_marked now c code d h)

  run-is_marked :
      (es : List (ℕ × DeviceEvent)) (d : DeviceCodeStore)
      → is_marked code (run tr es d) ≡ true
      → (is_marked code d || was_approved tr code es d) ≡ true
  unfolding run was_approved
  run-is_marked [] d h = ground (arith, h)
  run-is_marked ((now, e) ∷ es) d h =
      ground (arith, run-is_marked es (step tr now e d) h, step-is_marked now e d)

-- A poll is answered with approved only if a call before it approved the user code of that device
-- code and was answered with ok, unless the store had an approval of it at first.
pub approved_by_console :
    (tr : Text → Text) (code : String) (es : List (ℕ × DeviceEvent)) (d : DeviceCodeStore) (now : ℕ)
    → is_marked code d ≡ false
    → (poll now code (run tr es d)).0 ≡ approved
    → was_approved tr code es d ≡ true
approved_by_console tr code es d now n h =
    ground (arith, n, run-is_marked tr code es d (poll-approved now code (run tr es d) h))

-- Every device code that is drawn is new to the store at that time.
abbrev pub FreshDraws : (Text → Text) → List (ℕ × DeviceEvent) → DeviceCodeStore → Type 0
FreshDraws tr [] d = Unit
FreshDraws tr ((now, issuing ip c draws) ∷ es) d =
    (get c (gc now d).by_device ≡ none) × FreshDraws tr es (step tr now (issuing ip c draws) d)
FreshDraws tr ((now, e) ∷ es) d = FreshDraws tr es (step tr now e d)

-- The store stays sound over any calls at any times, if no device code is drawn that is in use:
-- its two maps are each other's inverse, it has at most 2000 codes, and at most 20 of one address.
pub run-IsSound :
    (tr : Text → Text) (es : List (ℕ × DeviceEvent)) (d : DeviceCodeStore)
    → FreshDraws tr es d
    → IsSound d
    → IsSound (run tr es d)
unfolding run step
run-IsSound tr [] d f s = s
run-IsSound tr ((now, issuing ip c draws) ∷ es) d f s =
    run-IsSound tr es (start now ip c draws d).1 f.1 (start-IsSound now ip c draws d f.0 s)
run-IsSound tr ((now, approving u) ∷ es) d f s =
    run-IsSound tr es (approve tr now u d).1 f (approve-IsSound tr now u d s)
run-IsSound tr ((now, denying u) ∷ es) d f s =
    run-IsSound tr es (deny tr now u d).1 f (deny-IsSound tr now u d s)
run-IsSound tr ((now, polling c) ∷ es) d f s =
    run-IsSound tr es (poll now c d).1 f (poll-IsSound now c d s)
