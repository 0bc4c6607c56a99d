-- ===== src/Scheduler/Evict/Laws.antt =====
-- A whole eviction pass: it ends by one of its returns, and it stops nothing but eligible services.
use instacloud_oss.Base.{
  ℕ, zero, suc, ◌+◌, ◌*◌, ◌≡◌, ◌≢◌, ◌≤◌, ◌<◌, refl, String, Bool, true, false, List, [], ◌∷◌, none,
  some, string_instance, eq_iff, arith, contains, length, subst, sym, Option-cases, inl, inr, All,
  Bool-cases, ◌⊎◌, head?, leb, Map,
}
use instacloud_oss.Scheduler.{
  Scheduler, ServiceTarget, Config, Memory, memory, seen, LedgerEntry, Effect, warn_gave_up,
}
use instacloud_oss.Scheduler.Laws.{entry-seen}
use instacloud_oss.Scheduler.Runtime.{Runtime, Outcome-cases}
use instacloud_oss.Scheduler.Sleep.{sleep}
use instacloud_oss.Scheduler.Sleep.Keeps.{Keeps, sleep-keeps}
use instacloud_oss.Scheduler.Evict.{
  victims, sort, PassEnd, unmeasured, enough_room, no_victim, gave_up, failed, evict_loop,
  evict_for_room, eviction_ceiling, has_room, warn_no_victim,
}
use instacloud_oss.Scheduler.Evict.Choice.{Looked, with_ledger, Chosen, Chosen-of_head, victims_lem}

abbrev one_unless : Bool → ℕ
one_unless true = 0
one_unless false = 1

-- How many of the keys a pass has not tried.
remaining : List String → List String → ℕ
remaining [] tried = 0
remaining (k ∷ keys) tried = one_unless (contains k tried) + remaining keys tried

remaining-le :
    (keys tried : List String) (v : String) → remaining keys (v ∷ tried) ≤ remaining keys tried
unfolding remaining contains
remaining-le [] tried v = omega arith
remaining-le (k ∷ keys) tried v = ground (arith, remaining-le keys tried v)

remaining-lt :
    (keys tried : List String) (v : String)
    → contains v keys ≡ true
    → contains v tried ≡ false
    → remaining keys (v ∷ tried) < remaining keys tried
unfolding remaining contains
remaining-lt [] tried v h k = ground arith
remaining-lt (j ∷ keys) tried v h k =
    ground (arith, remaining-lt keys tried v, remaining-le keys tried v, eq_iff j v, eq_iff v j)

remaining-le-length : (keys tried : List String) → remaining keys tried ≤ length keys
unfolding remaining
remaining-le-length [] tried = omega arith
remaining-le-length (k ∷ keys) tried = ground (arith, remaining-le-length keys tried)

-- All services have one of the keys.
abbrev pub KeysIn : List String → List ServiceTarget → Type 0
KeysIn keys ts = All (λ t. contains t.key keys ≡ true) ts

module _ (docker : Runtime) (cfg : Config) (need : ℕ) (owned exclude : List String) where
  module _ (Q : ServiceTarget → Type 0) (first : Memory) where
    -- One round, by cases: what a statement about a pass has to show.
    evict_round :
        (C : PassEnd × Scheduler → Type 0) (rounds : ℕ) (tried : List String) (freed : ℕ)
        (s : Scheduler)
        → All Q s.targets
        → C (unmeasured, s)
        → C (enough_room, s)
        → let t = (victims cfg exclude tried s.clock s.targets s).1 in
          C (no_victim, warn_no_victim docker cfg need owned exclude first s.clock t)
          → ((v : ServiceTarget)
              → Chosen Q cfg exclude tried s t v
              → let u = (sleep docker cfg v.key memory owned t).1 in
                C (failed, u)
                × ((freed' : ℕ)
                    → C (
                        evict_loop docker cfg need owned exclude first rounds
                          (v.key ∷ tried)
                          freed'
                          u))
                × ((freed' : ℕ)
                    → C (
                        evict_loop docker cfg need owned exclude first rounds
                          (v.key ∷ tried)
                          freed'
                          (seen v.key u))))
          → C (evict_loop docker cfg need owned exclude first (suc rounds) tried freed s)
    unfolding evict_loop
    evict_round C rounds tried freed s q unmeasured_ok room_ok none_ok some_ok =
        elim (Option-cases (docker.memory s)) [
          | inl e ↦ rw (e, evict_loop) unmeasured_ok
          | inr (now, e) ↦
              elim (Bool-cases (has_room docker cfg need owned exclude first now freed)) [
                | inl room ↦ rw (e, room, evict_loop) room_ok
                | inr low ↦
                    let (pool, t) = victims cfg exclude tried s.clock s.targets s in
                    elim (Option-cases (head? (sort t pool))) [
                      | inl h ↦ rw (e, low, h, evict_loop) none_ok
                      | inr (v, h) ↦
                          let (failed_ok, kept_ok, slept_ok) =
                            some_ok v (Chosen-of_head Q cfg exclude tried s v q h) in
                          elim (Outcome-cases (sleep docker cfg v.key memory owned t).0) [
                            | inl k ↦ rw (e, low, h, k, evict_loop) failed_ok
                            | inr (true, k) ↦ rw (e, low, h, k, evict_loop) (slept_ok _)
                            | inr (false, k) ↦ rw (e, low, h, k, evict_loop) (kept_ok _)
                          ]
                    ]
              ]
        ]

  module _ (keys : List String) (keeps : Keeps (KeysIn keys) docker) (first : Memory) where
    evict_loop_ends :
        (rounds : ℕ) (tried : List String) (freed : ℕ) (s : Scheduler)
        → KeysIn keys s.targets
        → remaining keys tried < rounds
        → (evict_loop docker cfg need owned exclude first rounds tried freed s).0 ≢ gave_up
    evict_loop_ends zero tried freed s h lt = absurd (omega arith)
    evict_loop_ends (suc rounds) tried freed s h lt =
        evict_round (λ t. contains t.key keys ≡ true) first (λ r. r.0 ≢ gave_up) rounds tried freed
          s h (cc) (cc) (cc)
          (λ v c.
            let next : KeysIn keys
                (sleep docker cfg v.key memory owned
                  (victims cfg exclude tried s.clock s.targets s).1).1.targets =
              sleep-keeps (KeysIn keys) docker keeps cfg v.key memory owned _ (rw c.looks h) in
            let fewer = remaining-lt keys tried v.key c.holds_of_all c.eligible.untried in
            (
              cc,
              λ freed'. evict_loop_ends rounds (v.key ∷ tried) freed' _ next (omega arith),
              λ freed'.
                  evict_loop_ends rounds (v.key ∷ tried) freed' _ (unfold seen in next)
                    (omega arith),
            ))

  -- A pass ends by one of its returns and never by its counter, as long as the services that come
  -- and go while it waits have fewer keys between them than the counter has rounds.
  pub evict_for_room_ends :
      (keys : List String) (s : Scheduler)
      → Keeps (KeysIn keys) docker
      → KeysIn keys s.targets
      → length keys < eviction_ceiling
      → (evict_for_room docker cfg need owned exclude s).0 ≢ gave_up
  unfolding evict_for_room
  evict_for_room_ends keys s keeps h lt = elim (Bool-cases (leb cfg.ram_floor_pct 0)) [
    | inl off ↦ rw (off, evict_for_room) (cc)
    | inr on ↦ elim (Option-cases (docker.memory s)) [
      | inl e ↦ rw (on, e, evict_for_room) (cc)
      | inr (first, e) ↦
          rw (on, e, evict_for_room)
            (evict_loop_ends keys keeps first eviction_ceiling [] 0 s h
              (omega (arith, remaining-le-length keys [])))
    ]
  ]

  -- What survives looks at the ledger, warnings, and the stop
  -- of a service that is eligible in the state that its round found and first in its pool.
  pub record KeptByStops (I : Scheduler → Type 0) : Type 0 where
    pub look : (s : Scheduler) (m : Map String LedgerEntry) → Looked s m → I s → I (with_ledger s m)
    pub warning :
        (s : Scheduler) (logged : Bool) (log : List Effect)
        → I s
        → I (record s { eviction_logged = logged; log = log })
    pub stop :
        (tried : List String) (s t : Scheduler) (v : ServiceTarget)
        → Chosen (λ u. Unit {0}) cfg exclude tried s t v
        → I s
        → I (sleep docker cfg v.key memory owned t).1

  All-unit : (ts : List ServiceTarget) → All (λ u. Unit {0}) ts
  All-unit [] = tt
  All-unit (t ∷ ts) = (tt, All-unit ts)

  module _ (I : Scheduler → Type 0) (kept : KeptByStops I) (first : Memory) where
    look_filter :
        (tried : List String) (s : Scheduler)
        → I s
        → I (victims cfg exclude tried s.clock s.targets s).1
    look_filter tried s i =
        let (_, (m, looks, looked)) =
          victims_lem s cfg exclude tried s.clock s.targets s.ledger (λ j. refl) in
        subst I (sym looks) (kept.look s m looked i)

    seen_keeps : (key : String) (s : Scheduler) → I s → I (seen key s)
    unfolding seen
    seen_keeps key s i = kept.look s (seen key s).ledger (λ j. entry-seen key j s) i

    warn_keeps :
        (now : ℕ) (s : Scheduler)
        → I s
        → I (warn_no_victim docker cfg need owned exclude first now s)
    unfolding warn_no_victim
    warn_keeps now s i = elim (Bool-cases s.eviction_logged) [
      | inl e ↦ simp (e, warn_no_victim) i
      | inr e ↦ simp (e, warn_no_victim) (kept.warning s true _ i)
    ]

    evict_loop_keeps :
        (rounds : ℕ) (tried : List String) (freed : ℕ) (s : Scheduler)
        → I s
        → I (evict_loop docker cfg need owned exclude first rounds tried freed s).1
    unfolding evict_loop
    evict_loop_keeps zero tried freed s i =
        kept.warning s s.eviction_logged (warn_gave_up ∷ s.log) i
    evict_loop_keeps (suc rounds) tried freed s i =
        evict_round (λ u. Unit {0}) first (λ r. I r.1) rounds tried freed s (All-unit s.targets) i i
          (warn_keeps s.clock _ (look_filter tried s i))
          (λ v c.
            let slept = kept.stop tried s _ v c i in
            (
              slept,
              λ freed'. evict_loop_keeps rounds (v.key ∷ tried) freed' _ slept,
              λ freed'. evict_loop_keeps rounds (v.key ∷ tried) freed' _ (seen_keeps v.key _ slept),
            ))

  -- Whatever is kept by the stop of an eligible, least recently active service, by looks at the
  -- ledger and by warnings, is kept by a whole eviction pass: a pass does nothing else.
  pub evict_for_room_keeps :
      (I : Scheduler → Type 0)
      → KeptByStops I
      → (s : Scheduler) → I s
      → I (evict_for_room docker cfg need owned exclude s).1
  unfolding evict_for_room
  evict_for_room_keeps I kept s i = elim (Bool-cases (leb cfg.ram_floor_pct 0)) [
    | inl off ↦ rw (off, evict_for_room) i
    | inr on ↦ elim (Option-cases (docker.memory s)) [
      | inl e ↦ rw (on, e, evict_for_room) i
      | inr (first, e) ↦
          rw (on, e, evict_for_room) (evict_loop_keeps I kept first eviction_ceiling [] 0 s i)
    ]
  ]

  evict_loop_room :
      (first : Memory) (rounds : ℕ) (s : Scheduler)
      → docker.memory s ≡ some first
      → first.total_bytes * cfg.ram_floor_pct + need * 100 ≤ first.available_bytes * 100
      → (evict_loop docker cfg need owned exclude first (suc rounds) [] 0 s).1 ≡ s
  unfolding evict_loop
  evict_loop_room first rounds s e room =
      let free : has_room docker cfg need owned exclude first first 0 ≡ true = ground arith in
      rw (e, free, evict_loop) refl

  -- Nothing happens where the floor is off, where memory cannot be measured, or where the first
  -- measure leaves the floor free.
  pub evict_for_room_inert :
      (s : Scheduler)
      → (cfg.ram_floor_pct ≡ 0)
        ⊎ ((docker.memory s ≡ none)
            ⊎ ((m : Memory) × (docker.memory s ≡ some m)
                × (m.total_bytes * cfg.ram_floor_pct + need * 100 ≤ m.available_bytes * 100)))
      → (evict_for_room docker cfg need owned exclude s).1 ≡ s
  unfolding evict_for_room
  evict_for_room_inert s (inl off) = rw (off, evict_for_room) refl
  evict_for_room_inert s (inr (inl e)) = elim (Bool-cases (leb cfg.ram_floor_pct 0)) [
    | inl off ↦ rw (off, evict_for_room) refl
    | inr on ↦ rw (on, e, evict_for_room) refl
  ]
  evict_for_room_inert s (inr (inr (m, e, room))) = elim (Bool-cases (leb cfg.ram_floor_pct 0)) [
    | inl off ↦ rw (off, evict_for_room) refl
    | inr on ↦ rw (on, e, evict_for_room) (evict_loop_room m 9999 s e room)
  ]
