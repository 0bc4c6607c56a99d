-- ===== src/Identity/Device/Tests.antt =====
-- Runs of the device store, and the theorems at concrete inputs.
use instacloud_oss.Base.{
  ℕ, ◌+◌, ◌-◌, ◌≡◌, ◌≤◌, refl, true, List, [], ◌∷◌, string_instance, nat_instance, list_instance,
  arith, get, put, del, if◌then◌else◌, leb, ◌&&◌,
}
use instacloud_oss.GitDeploy.{units}
use instacloud_oss.Identity.Device.{
  Text, DeviceCodeStore, approved, unknown, ok, start, approve, poll, normalize, consume, gc,
  gc_loop, at_ip_cap, free_code, add_code, start_clean, find_code, approve_found, poll_found,
  poll_live,
}
use instacloud_oss.Identity.Device.History.{
  DeviceEvent, issuing, approving, polling, run, collected, drawn, present, step, was_approved,
}
use instacloud_oss.Identity.Device.Laws.{IsSound}
use instacloud_oss.Identity.Device.Once.{collected_once, approved_by_console, run-IsSound}
use instacloud_oss.Identity.Device.Login.{login_completes}

-- A conversion to upper case of the letters a to z.
abbrev upper : Text → Text
upper [] = []
upper (c ∷ cs) = let rest = upper cs in (if leb b'a' c && leb c b'z' then c - 32 else c) ∷ rest

abbrev no_codes : DeviceCodeStore
no_codes = record { by_device = []; by_user = [] }

abbrev code : Text
code = units "ABCDEFGH"

abbrev typed : Text
typed = units "abcd-efgh"

-- A login that is approved with a code in lower case and polled twice.
abbrev logins : List (ℕ × DeviceEvent)
logins =
    (10, issuing "::1" "dev" (code ∷ []))
    ∷ (20, polling "dev")
    ∷ (30, approving typed)
    ∷ (40, polling "dev")
    ∷ (50, polling "dev")
    ∷ []

one_collection : collected upper "dev" logins no_codes ≡ 1
unfolding collected step start start_clean gc gc_loop at_ip_cap free_code add_code approve
    approve_found find_code normalize poll poll_found poll_live consume get put del
one_collection = refl

no_codes-IsSound : IsSound no_codes
unfolding get
no_codes-IsSound = record {
  linked = record {
    unique = tt;
    to_device = λ u c h. ground (arith, h);
    to_user = λ c r h. ground (arith, h);
  };
  bounded = record { codes = omega arith; of_ip = λ ip. omega arith };
}

collected_once_example :
    collected upper "dev" logins no_codes + present "dev" (run upper logins no_codes)
    ≤ present "dev" no_codes + drawn "dev" logins
collected_once_example = collected_once upper "dev" logins no_codes

abbrev before_collection : List (ℕ × DeviceEvent)
before_collection = (10, issuing "::1" "dev" (code ∷ [])) ∷ (30, approving typed) ∷ []

approved_by_console_example : was_approved upper "dev" before_collection no_codes ≡ true
unfolding run step start start_clean gc gc_loop at_ip_cap free_code add_code approve approve_found
    find_code normalize poll poll_found poll_live consume get put del
approved_by_console_example =
    approved_by_console upper "dev" before_collection no_codes 40 refl refl

run-IsSound_example : IsSound (run upper logins no_codes)
unfolding gc gc_loop get
run-IsSound_example = run-IsSound upper logins no_codes (refl, tt) no_codes-IsSound

login_completes_example :
    let answer =
      approve upper 30 (units "ABCD-EFGH") (start 10 "::1" "dev" (code ∷ []) no_codes).1 in
    let taken = poll 40 "dev" answer.1 in
    (answer.0 ≡ ok) × (taken.0 ≡ approved) × ((poll 50 "dev" taken.1).0 ≡ unknown)
unfolding start start_clean gc gc_loop at_ip_cap free_code add_code get
login_completes_example =
    login_completes upper 10 30 40 50 "::1" "dev" "dev" (units "ABCD-EFGH") (code ∷ []) no_codes
      refl (λ e. cc) (refl, tt) refl (omega arith) (omega arith)
