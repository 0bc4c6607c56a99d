-- ===== src/Identity/Device/History.antt =====
-- Sequences of calls of the device store, at any times, and what is counted in them.
use instacloud_oss.Base.{
  ℕ, ◌+◌, String, Bool, true, false, List, [], ◌∷◌, Option, none, some, get, has, string_instance,
  list_instance, ◌==◌, ◌&&◌, ◌||◌, if◌then◌else◌,
}
use instacloud_oss.Identity.Device.{
  Text, DeviceStatus, approved, DeviceRecord, DeviceCodeStore, DevicePoll, DeviceApprove, ok, start,
  find_code, approve, deny, poll,
}

-- A call with the random codes that it draws.
pub data DeviceEvent : Type 0 where
  issuing : (ip device_code : String) (draws : List Text) → DeviceEvent
  approving denying : (user_code : Text) → DeviceEvent
  polling : (device_code : String) → DeviceEvent

abbrev pub is_marked_status : DeviceStatus → Bool
is_marked_status approved = true
is_marked_status _ = false

-- The store has an approval of the code that nobody has collected.
abbrev pub is_marked : String → DeviceCodeStore → Bool
is_marked code d = elim (get code d.by_device) [ none ↦ false | some r ↦ is_marked_status r.status ]

abbrev pub is_approved : DevicePoll → Bool
is_approved approved = true
is_approved _ = false

abbrev pub is_ok : DeviceApprove → Bool
is_ok ok = true
is_ok _ = false

abbrev pub names : String → Option (String × DeviceRecord) → Bool
names code none = false
names code (some (c, r)) = c == code

module _ (to_upper_case : Text → Text) where
  unfoldable pub step : ℕ → DeviceEvent → DeviceCodeStore → DeviceCodeStore
  step now (issuing ip code draws) d = (start now ip code draws d).1
  step now (approving u) d = (approve to_upper_case now u d).1
  step now (denying u) d = (deny to_upper_case now u d).1
  step now (polling code) d = (poll now code d).1

  unfoldable pub run : List (ℕ × DeviceEvent) → DeviceCodeStore → DeviceCodeStore
  run [] d = d
  run ((now, e) ∷ es) d = run es (step now e d)

  -- One for a poll of the code that is answered with approved.
  abbrev pub collects : String → ℕ → DeviceEvent → DeviceCodeStore → ℕ
  collects code now (polling c) d =
      if c == code then (if is_approved (poll now c d).0 then 1 else 0) else 0
  collects code now _ d = 0

  unfoldable pub collected : String → List (ℕ × DeviceEvent) → DeviceCodeStore → ℕ
  collected code [] d = 0
  collected code ((now, e) ∷ es) d = collects code now e d + collected code es (step now e d)

  -- Whether the call is an approval, answered with ok, of the user code of a device code.
  abbrev pub approves : String → ℕ → DeviceEvent → DeviceCodeStore → Bool
  approves code now (approving u) d =
      is_ok (approve to_upper_case now u d).0 && names code (find_code to_upper_case u d)
  approves code now _ d = false

  unfoldable pub was_approved : String → List (ℕ × DeviceEvent) → DeviceCodeStore → Bool
  was_approved code [] d = false
  was_approved code ((now, e) ∷ es) d = approves code now e d || was_approved code es (step now e d)

-- One for a draw of the device code.
abbrev pub draws_code : String → DeviceEvent → ℕ
draws_code code (issuing ip c draws) = if c == code then 1 else 0
draws_code code _ = 0

unfoldable pub drawn : String → List (ℕ × DeviceEvent) → ℕ
drawn code [] = 0
drawn code ((now, e) ∷ es) = draws_code code e + drawn code es

abbrev pub present : String → DeviceCodeStore → ℕ
present code d = if has code d.by_device then 1 else 0
