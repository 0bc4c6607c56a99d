-- ===== src/Router/Lane.antt =====
-- The step that every lane shares: resolve the upstream, wake the service where it is down, and dial
-- (src/router/wake.ts). The state `W` is that of all parties: the address cache, the scheduler, the
-- sockets and the clock.
pub mod Laws
use instacloud_oss.Base.{
  ℕ, zero, suc, ◌+◌, Bool, true, false, Option, none, some, ◌||◌, not, if◌then◌else◌, ltb, String,
  ◌==◌, string_instance,
}

pub data WakeFailure : Type 0 where
  timeout stopped no_container shutdown other : WakeFailure

-- A thrown value, as far as the code looks at it: the daemon's own shutdown error, or the name of
-- its class with what the patterns find in its message.
pub record Thrown : Type 0 where
  pub is_shutdown : Bool
  pub class_name : String
  pub says_timed_out : Bool
  pub says_stopped : Bool
  pub says_no_container : Bool

unfoldable pub classify_wake_error : Thrown → WakeFailure
classify_wake_error e =
    if e.is_shutdown
    then shutdown
    else (if e.class_name == "WakeTimeoutError" || e.says_timed_out
        then timeout
        else (if e.class_name == "ServiceStoppedError" || e.says_stopped
            then stopped
            else (if e.class_name == "NoContainerError" || e.says_no_container
                then no_container
                else other)))

-- How a promise raced against the abort signal settles.
pub data Settled : Type 0 where
  resolved : Settled
  rejected : Thrown → Settled
  abort_first : Settled

pub data LaneError : Type 0 where
  shutting_down not_woken not_ready dial_failed : LaneError
  wake_failed : Thrown → LaneError

pub data Result (A : Type 0) : Type 0 where
  ok : A → Result A
  threw : LaneError → Result A

-- The parties that a lane calls, with the state that each call leaves. `wake` is the scheduler's,
-- raced against the abort signal; without a signal, `aborted` is false and no abort comes first.
pub record WakeDeps (W Addr Socket : Type 0) : Type 0 where
  pub resolve : W → Option Addr × W
  pub forget : W → W
  pub is_running : W → Bool
  pub wake : W → Settled × W
  pub probe : Addr → W → Bool × W
  pub aborted : W → Bool
  -- `none` for a refusal or a timeout
  pub connect : Addr → W → Option Socket × W

abbrev pub is_none {ℓ} : {A : Type ℓ} → Option A → Bool
is_none none = true
is_none (some a) = false

module _ {W Addr Socket : Type 0} (deps : WakeDeps W Addr Socket) where
  unfoldable pub probed : Addr → Bool × W → Result (Addr × Bool) × W
  probed up (true, w) = (ok (up, true), w)
  probed up (false, w) = (threw not_ready, deps.forget w)

  unfoldable pub resolved_again : Option Addr × W → Result (Addr × Bool) × W
  resolved_again (none, w) = (threw not_woken, w)
  resolved_again (some up, w) = probed up (deps.probe up w)

  -- The address is resolved again after the wake, never before.
  unfoldable pub after_wake : Settled × W → Result (Addr × Bool) × W
  after_wake (resolved, w) = resolved_again (deps.resolve (deps.forget w))
  after_wake (rejected e, w) = (threw (wake_failed e), w)
  after_wake (abort_first, w) = (threw shutting_down, w)

  unfoldable pub wake_first : W → Result (Addr × Bool) × W
  wake_first w = if deps.aborted w then (threw shutting_down, w) else after_wake (deps.wake w)

  unfoldable pub use_address : Option Addr × W → Result (Addr × Bool) × W
  use_address (none, w) = wake_first w
  use_address (some up, w) = if deps.is_running w then (ok (up, false), w) else wake_first w

  -- The address, with whether the service was woken for it.
  unfoldable pub resolve_or_wake : Bool → W → Result (Addr × Bool) × W
  unfolding probed resolved_again after_wake wake_first use_address
  resolve_or_wake force_wake w = use_address (if force_wake then (none, w) else deps.resolve w)

  dialled : Option Socket × W → Result (Socket × Bool) × W
  dialled (none, w) = (threw dial_failed, w)
  dialled (some sock, w) = (ok (sock, true), w)

  dial_again : Result (Addr × Bool) × W → Result (Socket × Bool) × W
  dial_again (threw e, w) = (threw e, w)
  dial_again (ok (up, woke), w) = dialled (deps.connect up w)

  -- A refused address that was not just woken is forgotten and retried once, with a wake.
  after_dial : Bool → Option Socket × W → Result (Socket × Bool) × W
  after_dial woke (some sock, w) = (ok (sock, woke), w)
  after_dial woke (none, w) =
      if woke then (threw dial_failed, w) else dial_again (resolve_or_wake true (deps.forget w))

  dial : Result (Addr × Bool) × W → Result (Socket × Bool) × W
  dial (threw e, w) = (threw e, w)
  dial (ok (up, woke), w) = after_dial woke (deps.connect up w)

  unfoldable pub connect_upstream : W → Result (Socket × Bool) × W
  unfolding dialled dial_again after_dial dial
  connect_upstream w = dial (resolve_or_wake false w)

-- The three probes are one loop: until `exchange` finds the port ready, the signal is aborted, or
-- the window has passed; the pause between two rounds is that of the protocol.
module _ {W : Type 0} (aborted : W → Bool) (exchange : W → Bool × W) (pause : W → W)
    (now : W → ℕ) where
  -- `none` where the rounds run out, which is no outcome of the code.
  unfoldable pub probe_until : ℕ → ℕ → W → Option Bool × W
  probe_until deadline zero w = (none, w)
  probe_until deadline (suc rounds) w =
      let (ready, u) = exchange w in
      let v = pause u in
      let again = probe_until deadline rounds v in
      if aborted w
      then (some false, w)
      else (if ready
          then (some true, u)
          else (if ltb (now v) deadline then again else (some false, v)))

  unfoldable pub probe_port : ℕ → ℕ → W → Option Bool × W
  probe_port rounds window_ms w = probe_until (now w + window_ms) rounds w
