-- ===== src/Router/Lane/Laws.antt =====
-- What a lane's step guarantees of the address that it answers, of the wakes that it asks for, and
-- of the end of the probes.
use instacloud_oss.Base.{
  ℕ, zero, suc, ◌+◌, ◌*◌, ◌≡◌, ◌≢◌, ◌≤◌, ◌<◌, refl, Bool, true, false, Option, none, some, arith,
  Bool-cases, inl, inr, ltb, if◌then◌else◌,
}
use native.Mathlib.Nat.{suc-mul}
use instacloud_oss.Router.Lane.{
  WakeDeps, Settled, resolved, rejected, abort_first, Result, ok, threw, probed, resolved_again,
  after_wake, wake_first, use_address, resolve_or_wake, dialled, dial_again, after_dial, dial,
  connect_upstream, probe_until, probe_port,
}

module _ {W Addr Socket : Type 0} (deps : WakeDeps W Addr Socket) where
  -- A settled wake, and the address that was resolved and probed after it.
  pub record IsProven (w : W) (up : Addr) (v : W) : Type 0 where
    pub woken : W
    pub wakes : deps.wake w ≡ (resolved, woken)
    pub found : W
    pub resolves : deps.resolve (deps.forget woken) ≡ (some up, found)
    pub probes : deps.probe up found ≡ (true, v)

  probed-woke :
      (up a : Addr) (answer : Bool × W) (v : W)
      → probed deps up answer ≡ (ok (a, true), v)
      → (answer ≡ (true, v)) × (up ≡ a)
  unfolding probed
  probed-woke up a (true, w) v h = (ground arith, ground arith)
  probed-woke up a (false, w) v h = absurd (ground arith)

  resolved_again-woke :
      (answer : Option Addr × W) (a : Addr) (v : W)
      → resolved_again deps answer ≡ (ok (a, true), v)
      → (found : W) × (answer ≡ (some a, found)) × (deps.probe a found ≡ (true, v))
  unfolding resolved_again
  resolved_again-woke (none, w) a v h = absurd (ground arith)
  resolved_again-woke (some up, w) a v h =
      let (p, e) = probed-woke up a (deps.probe up w) v h in
      (w, ground (arith, e), ground (arith, p, e))

  after_wake-woke :
      (w : W) (answer : Settled × W) (a : Addr) (v : W)
      → deps.wake w ≡ answer
      → after_wake deps answer ≡ (ok (a, true), v)
      → IsProven w a v
  unfolding after_wake
  after_wake-woke w (resolved, u) a v e h =
      let (found, r, p) = resolved_again-woke (deps.resolve (deps.forget u)) a v h in
      record { woken = u; wakes = e; found = found; resolves = r; probes = p }
  after_wake-woke w (rejected t, u) a v e h = absurd (ground arith)
  after_wake-woke w (abort_first, u) a v e h = absurd (ground arith)

  wake_first-woke :
      (w : W) (a : Addr) (v : W)
      → wake_first deps w ≡ (ok (a, true), v)
      → (deps.aborted w ≡ false) × IsProven w a v
  unfolding wake_first
  wake_first-woke w a v h = elim (Bool-cases (deps.aborted w)) [
    | inl e ↦ absurd (ground arith)
    | inr e ↦ (e, after_wake-woke w (deps.wake w) a v refl (ground arith))
  ]

  use_address-woke :
      (answer : Option Addr × W) (a : Addr) (v : W)
      → use_address deps answer ≡ (ok (a, true), v)
      → (u : W) × (deps.aborted u ≡ false) × IsProven u a v
  unfolding use_address
  use_address-woke (none, w) a v h = let (e, p) = wake_first-woke w a v h in (w, e, p)
  use_address-woke (some up, w) a v h = elim (Bool-cases (deps.is_running w)) [
    | inl e ↦ absurd (ground arith)
    | inr e ↦ let (f, p) = wake_first-woke w a v (ground arith) in (w, f, p)
  ]

  -- An address that is answered with a wake was resolved after that wake settled and the cached
  -- address was forgotten, a probe of it succeeded last, and no shutdown was under way before it.
  pub resolve_or_wake-woke :
      (force_wake : Bool) (w : W) (a : Addr) (v : W)
      → resolve_or_wake deps force_wake w ≡ (ok (a, true), v)
      → (u : W) × (deps.aborted u ≡ false) × IsProven u a v
  unfolding resolve_or_wake
  resolve_or_wake-woke force_wake w a v h =
      use_address-woke (if force_wake then (none, w) else deps.resolve w) a v h

-- A count of the wakes that were asked for: a wake adds one, and nothing else that a lane calls does.
pub record CountsWakes {W Addr Socket : Type 0} (deps : WakeDeps W Addr Socket) (count : W → ℕ)
    : Type 0 where
  pub by_wake : (w : W) → count (deps.wake w).1 ≡ suc (count w)
  pub by_resolve : (w : W) → count (deps.resolve w).1 ≡ count w
  pub by_forget : (w : W) → count (deps.forget w) ≡ count w
  pub by_probe : (a : Addr) (w : W) → count (deps.probe a w).1 ≡ count w
  pub by_connect : (a : Addr) (w : W) → count (deps.connect a w).1 ≡ count w

module _ {W Addr Socket : Type 0} (deps : WakeDeps W Addr Socket) (count : W → ℕ)
    (c : CountsWakes deps count) where
  -- At most one wake, and none where the address is answered without one.
  abbrev AtMostOne : ℕ → Result (Addr × Bool) × W → Type 0
  AtMostOne n (threw e, v) = count v ≤ suc n
  AtMostOne n (ok (up, true), v) = count v ≤ suc n
  AtMostOne n (ok (up, false), v) = count v ≤ n

  probed_one :
      (n : ℕ) (up : Addr) (p : Bool × W) → count p.1 ≤ suc n → AtMostOne n (probed deps up p)
  unfolding probed
  probed_one n up (true, w) h = h
  probed_one n up (false, w) h = omega (arith, c.by_forget w)

  resolved_again_one :
      (n : ℕ) (p : Option Addr × W) → count p.1 ≤ suc n → AtMostOne n (resolved_again deps p)
  unfolding resolved_again
  resolved_again_one n (none, w) h = h
  resolved_again_one n (some up, w) h =
      probed_one n up (deps.probe up w) (omega (arith, c.by_probe up w))

  after_wake_one : (n : ℕ) (p : Settled × W) → count p.1 ≤ suc n → AtMostOne n (after_wake deps p)
  unfolding after_wake
  after_wake_one n (resolved, w) h =
      let less : count (deps.resolve (deps.forget w)).1 ≤ suc n =
        omega (arith, c.by_resolve (deps.forget w), c.by_forget w) in
      resolved_again_one n (deps.resolve (deps.forget w)) less
  after_wake_one n (rejected e, w) h = h
  after_wake_one n (abort_first, w) h = h

  wake_first_one : (n : ℕ) (w : W) → count w ≤ n → AtMostOne n (wake_first deps w)
  unfolding wake_first
  wake_first_one n w h = elim (Bool-cases (deps.aborted w)) [
    | inl e ↦ rw e (omega arith)
    | inr e ↦ rw e (after_wake_one n (deps.wake w) (omega (arith, c.by_wake w)))
  ]

  use_address_one : (n : ℕ) (p : Option Addr × W) → count p.1 ≤ n → AtMostOne n (use_address deps p)
  unfolding use_address
  use_address_one n (none, w) h = wake_first_one n w h
  use_address_one n (some up, w) h = elim (Bool-cases (deps.is_running w)) [
    | inl e ↦ rw e h
    | inr e ↦ rw e (wake_first_one n w h)
  ]

  resolve_or_wake_one :
      (force_wake : Bool) (n : ℕ) (w : W)
      → count w ≤ n
      → AtMostOne n (resolve_or_wake deps force_wake w)
  unfolding resolve_or_wake
  resolve_or_wake_one true n w h = use_address_one n (none, w) h
  resolve_or_wake_one false n w h =
      use_address_one n (deps.resolve w) (omega (arith, c.by_resolve w))

  dialled_one :
      (n : ℕ) (p : Option Socket × W) → count p.1 ≤ suc n → count (dialled deps p).1 ≤ suc n
  unfolding dialled
  dialled_one n (none, w) h = h
  dialled_one n (some sock, w) h = h

  dial_again_one :
      (n : ℕ) (p : Result (Addr × Bool) × W) → AtMostOne n p → count (dial_again deps p).1 ≤ suc n
  unfolding dial_again
  dial_again_one n (threw e, w) h = h
  dial_again_one n (ok (up, true), w) h =
      dialled_one n (deps.connect up w) (omega (arith, c.by_connect up w))
  dial_again_one n (ok (up, false), w) h =
      dialled_one n (deps.connect up w) (omega (arith, c.by_connect up w))

  after_dial_woken :
      (n : ℕ) (p : Option Socket × W) → count p.1 ≤ suc n → count (after_dial deps true p).1 ≤ suc n
  unfolding after_dial
  after_dial_woken n (none, w) h = h
  after_dial_woken n (some sock, w) h = h

  after_dial_cached :
      (n : ℕ) (p : Option Socket × W) → count p.1 ≤ n → count (after_dial deps false p).1 ≤ suc n
  unfolding after_dial
  after_dial_cached n (none, w) h =
      dial_again_one n (resolve_or_wake deps true (deps.forget w))
        (resolve_or_wake_one true n (deps.forget w) (omega (arith, c.by_forget w)))
  after_dial_cached n (some sock, w) h = omega arith

  dial_one : (n : ℕ) (p : Result (Addr × Bool) × W) → AtMostOne n p → count (dial deps p).1 ≤ suc n
  unfolding dial
  dial_one n (threw e, w) h = h
  dial_one n (ok (up, true), w) h =
      after_dial_woken n (deps.connect up w) (omega (arith, c.by_connect up w))
  dial_one n (ok (up, false), w) h =
      after_dial_cached n (deps.connect up w) (omega (arith, c.by_connect up w))

  -- One connection of a lane asks for at most one wake, whether it succeeds or fails and although a
  -- refused address is tried again.
  pub connect_upstream_wakes : (w : W) → count (connect_upstream deps w).1 ≤ suc (count w)
  unfolding connect_upstream
  connect_upstream_wakes w =
      dial_one (count w) (resolve_or_wake deps false w)
        (resolve_or_wake_one false (count w) w (omega arith))

module _ {W : Type 0} (aborted : W → Bool) (exchange : W → Bool × W) (pause : W → W) (now : W → ℕ)
    (interval : ℕ) (forward : (u : W) → now u ≤ now (exchange u).1)
    (pauses : (u : W) → now u + interval ≤ now (pause u)) where
  probe_until_ends :
      (deadline n : ℕ) (u : W)
      → now u ≤ deadline
      → deadline < now u + n * interval
      → (probe_until aborted exchange pause now deadline n u).0 ≢ none
  unfolding probe_until
  probe_until_ends deadline zero u early h = absurd (omega arith)
  probe_until_ends deadline (suc n) u early h =
      let v = pause (exchange u).1 in
      let later : now u + interval ≤ now v = omega (arith, forward u, pauses (exchange u).1) in
      elim (Bool-cases (ltb (now v) deadline)) [
        | inl e ↦
            let fuel : deadline < now v + n * interval =
              omega (arith, later, h, suc-mul n interval) in
            ground (arith, probe_until_ends deadline n v (ground arith) fuel, e)
        | inr e ↦ ground (arith, e)
      ]

  -- A probe ends by an outcome of the code: as many rounds as pauses more than fill its window are
  -- enough, if an exchange does not turn time back and each pause lasts the interval.
  pub probe_port_ends :
      (rounds window_ms : ℕ) (w : W)
      → window_ms < rounds * interval
      → (probe_port aborted exchange pause now rounds window_ms w).0 ≢ none
  unfolding probe_port
  probe_port_ends rounds window_ms w enough =
      probe_until_ends (now w + window_ms) rounds w (omega arith) (omega (arith, enough))
