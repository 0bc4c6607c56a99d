-- ===== src/Identity/Device.antt =====
-- `DeviceCodeStore` of src/identity.ts: the codes of `insta login --device`. The random codes that a
-- call draws are arguments, and so is the time at which it is made.
pub mod Laws
pub mod Invariant
pub mod History
pub mod Steps
pub mod Once
pub mod Login
pub mod Issue
mod Tests
use instacloud_oss.Base.{
  ℕ, suc, ◌+◌, ◌*◌, String, Bool, true, false, List, [], ◌∷◌, ◌++◌, Option, none, some, Map, get,
  put, del, has, string_instance, nat_instance, list_instance, ◌==◌, ◌&&◌, ◌||◌, if◌then◌else◌, leb,
  filter, length, take, drop,
}

-- A user code is a list of code units.
abbrev pub Text : Type 0
Text = List ℕ

pub data DeviceStatus : Type 0 where
  pending approved denied : DeviceStatus

pub record DeviceRecord : Type 0 where
  pub user_code : Text
  pub ip : String
  pub status : DeviceStatus
  pub expires_at : ℕ

pub record DeviceCodeStore : Type 0 where
  pub by_device : Map String DeviceRecord
  pub by_user : Map Text String

-- `out_of_draws` is no outcome of the code: the model's bound on the loop that draws user codes.
pub data DeviceStart : Type 0 where
  refused out_of_draws : DeviceStart
  issued : (device_code : String) (user_code : Text) → DeviceStart

pub data DeviceApprove : Type 0 where
  ok not_found expired already : DeviceApprove

-- The status that a poll answers.
pub data DevicePoll : Type 0 where
  approved pending denied expired unknown : DevicePoll

abbrev pub device_code_ttl_sec : ℕ
device_code_ttl_sec = 15 * 60

abbrev pub device_max_codes : ℕ
device_max_codes = 2000

abbrev pub device_max_per_ip : ℕ
device_max_per_ip = 20

abbrev pub is_pending : DeviceStatus → Bool
is_pending pending = true
is_pending _ = false

-- `/[A-Z0-9]/`
abbrev pub is_code_unit : ℕ → Bool
is_code_unit c = (leb b'A' c && leb c b'Z') || (leb b'0' c && leb c b'9')

unfoldable pub consume : String → DeviceRecord → DeviceCodeStore → DeviceCodeStore
consume device_code r d = record {
  by_device = del device_code d.by_device;
  by_user = del r.user_code d.by_user;
}

unfoldable pub gc_loop : ℕ → List (String × DeviceRecord) → DeviceCodeStore → DeviceCodeStore
gc_loop now [] d = d
gc_loop now ((code, r) ∷ rest) d =
    gc_loop now rest (if leb r.expires_at now then consume code r d else d)

unfoldable pub gc : ℕ → DeviceCodeStore → DeviceCodeStore
gc now d = gc_loop now d.by_device d

-- The count of live codes of one address, which `start` gives up at its bound.
unfoldable pub at_ip_cap : String → ℕ → List (String × DeviceRecord) → Bool
at_ip_cap ip per_ip [] = false
at_ip_cap ip per_ip ((code, r) ∷ rest) =
    let counted = if r.ip == ip then suc per_ip else per_ip in
    let later = at_ip_cap ip counted rest in (r.ip == ip && leb device_max_per_ip counted) || later

-- The first of the drawn user codes that is not in use.
unfoldable pub free_code : List Text → Map Text String → Option Text
free_code [] m = none
free_code (c ∷ cs) m = let rest = free_code cs m in if has c m then rest else some c

-- `ABCD-EFGH`, as the answer of `start` shows a code.
abbrev pub grouped : Text → Text
grouped c = take 4 c ++ (b'-' ∷ drop 4 c)

abbrev pub fresh_record : ℕ → String → Text → DeviceRecord
fresh_record now ip c = record {
  user_code = c;
  ip = ip;
  status = pending;
  expires_at = now + device_code_ttl_sec * 1000;
}

unfoldable pub add_code :
    ℕ → String → String → Option Text → DeviceCodeStore → DeviceStart × DeviceCodeStore
add_code now ip device_code none d = (out_of_draws, d)
add_code now ip device_code (some c) d = (
  issued device_code (grouped c),
  record {
    by_device = put device_code (fresh_record now ip c) d.by_device;
    by_user = put c device_code d.by_user;
  },
)

unfoldable pub start_clean :
    ℕ → String → String → List Text → DeviceCodeStore → DeviceStart × DeviceCodeStore
start_clean now ip device_code draws d =
    if leb device_max_codes (length d.by_device)
    then (refused, d)
    else (if at_ip_cap ip 0 d.by_device
        then (refused, d)
        else add_code now ip device_code (free_code draws d.by_user) d)

unfoldable pub start :
    ℕ → String → String → List Text → DeviceCodeStore → DeviceStart × DeviceCodeStore
start now ip device_code draws d = start_clean now ip device_code draws (gc now d)

-- The record is changed where the store has it.
abbrev pub mark : DeviceStatus → String → DeviceRecord → DeviceCodeStore → DeviceCodeStore
mark s code r d = record d { by_device = put code (record r { status = s }) d.by_device }

module _ (to_upper_case : Text → Text) where
  unfoldable pub normalize : Text → Text
  normalize user_code = filter is_code_unit (to_upper_case user_code)

  -- The device code of a user code, and its record.
  unfoldable pub find_code : Text → DeviceCodeStore → Option (String × DeviceRecord)
  find_code user_code d = elim (get (normalize user_code) d.by_user) [
    | none ↦ none
    | some code ↦
        if code == ""
        then none
        else elim (get code d.by_device) [ none ↦ none | some r ↦ some (code, r) ]
  ]

  unfoldable pub approve_found :
      ℕ → Option (String × DeviceRecord) → DeviceCodeStore → DeviceApprove × DeviceCodeStore
  approve_found now none d = (not_found, d)
  approve_found now (some (code, r)) d =
      if leb r.expires_at now
      then (expired, d)
      else (if is_pending r.status then (ok, mark approved code r d) else (already, d))

  unfoldable pub approve : ℕ → Text → DeviceCodeStore → DeviceApprove × DeviceCodeStore
  approve now user_code d = approve_found now (find_code user_code d) d

  unfoldable pub deny_found :
      ℕ → Option (String × DeviceRecord) → DeviceCodeStore → Bool × DeviceCodeStore
  deny_found now none d = (false, d)
  deny_found now (some (code, r)) d =
      if leb r.expires_at now
      then (false, d)
      else (if is_pending r.status then (true, mark denied code r d) else (false, d))

  unfoldable pub deny : ℕ → Text → DeviceCodeStore → Bool × DeviceCodeStore
  deny now user_code d = deny_found now (find_code user_code d) d

unfoldable pub poll_live :
    DeviceStatus → String → DeviceRecord → DeviceCodeStore → DevicePoll × DeviceCodeStore
poll_live approved code r d = (approved, consume code r d)
poll_live denied code r d = (denied, consume code r d)
poll_live pending code r d = (pending, d)

unfoldable pub poll_found :
    ℕ → String → Option DeviceRecord → DeviceCodeStore → DevicePoll × DeviceCodeStore
poll_found now code none d = (unknown, d)
poll_found now code (some r) d =
    if leb r.expires_at now then (expired, consume code r d) else poll_live r.status code r d

unfoldable pub poll : ℕ → String → DeviceCodeStore → DevicePoll × DeviceCodeStore
poll now code d = poll_found now code (get code d.by_device) d
