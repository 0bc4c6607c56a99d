-- ===== src/Scheduler/Snapshot/Freshness.antt =====
-- Which observations may still stop a container.
use instacloud_oss.Base.{
  ℕ, ◌+◌, ◌≡◌, ◌≤◌, refl, String, true, false, [], ◌∷◌, none, some, Map, get, string_instance,
  arith, Option-cases, inl, inr,
}
use instacloud_oss.Scheduler.{Scheduler, Config, Observed, Container}
use instacloud_oss.Scheduler.Snapshot.{
  Listing, absorb, is_fresh, observed_running, any_fresh, states_stale, max_state_age_ms,
}
use instacloud_oss.Scheduler.Snapshot.Laws.{get-absorb}

-- Every entry was observed at `limit` or before.
abbrev pub NoneAfter : ℕ → Map String Observed → Type 0
NoneAfter limit [] = Unit
NoneAfter limit ((name, o) ∷ rest) = (o.at ≤ limit) × NoneAfter limit rest

any_fresh-NoneAfter :
    (cfg : Config) (limit now : ℕ) (m : Map String Observed)
    → NoneAfter limit m
    → limit + max_state_age_ms cfg ≤ now
    → any_fresh cfg now m ≡ false
unfolding any_fresh
any_fresh-NoneAfter cfg limit now [] h le = refl
any_fresh-NoneAfter cfg limit now ((name, o) ∷ rest) h le =
    ground (arith, any_fresh-NoneAfter cfg limit now rest h.1 le)

get_fresh :
    (cfg : Config) (now : ℕ) (name : String) (m : Map String Observed) (o : Observed)
    → get name m ≡ some o
    → is_fresh cfg now o ≡ true
    → any_fresh cfg now m ≡ true
unfolding get any_fresh
get_fresh cfg now name [] o h f = ground arith
get_fresh cfg now name ((j, p) ∷ rest) o h f = ground (arith, get_fresh cfg now name rest o)

-- A snapshot called stale stops nothing: no container counts as observed running.
observed_running-stale :
    (cfg : Config) (now : ℕ) (s : Scheduler) (container : String)
    → states_stale cfg now s ≡ true
    → observed_running cfg container now s ≡ false
unfolding observed_running states_stale
observed_running-stale cfg now s container h = elim (Option-cases (get container s.state_cache)) [
  | inl e ↦ rw (e, observed_running) refl
  | inr (o, e) ↦
      rw (e, observed_running) (ground (arith, get_fresh cfg now container s.state_cache o e))
]

-- If docker has told nothing since `limit`, then from two sweep intervals later (thirty seconds at
-- least) the snapshot is called stale, and no container counts as observed running.
pub unreadable_stops_nothing :
    (cfg : Config) (limit now : ℕ) (s : Scheduler)
    → NoneAfter limit s.state_cache
    → limit + max_state_age_ms cfg ≤ now
    → (states_stale cfg now s ≡ true)
      × ((container : String) → observed_running cfg container now s ≡ false)
unfolding states_stale
unreadable_stops_nothing cfg limit now s h le =
    let stale = any_fresh-NoneAfter cfg limit now s.state_cache h le in
    (rw stale refl, λ c. observed_running-stale cfg now s c (rw (stale, states_stale) refl))

-- A listing that was issued earlier and answered later brings a removed container back. If the
-- newer listing lacks a name that the older one has, and nothing was observed of it later, then the
-- snapshot has the name again once the older listing is folded in, with what that listing says.
pub absorb_revives :
    (older newer : Listing) (at later : ℕ) (cache : Map String Observed) (name : String)
    (c : Container)
    → get name older ≡ some c
    → get name newer ≡ none
    → ((o : Observed) → get name cache ≡ some o → o.at ≤ later)
    → get name (absorb older at (absorb newer later cache))
      ≡ some (record { state = c.state; id = c.id; at = at })
absorb_revives older newer at later cache name c old new quiet =
    rw
      (
        get-absorb older at name (absorb newer later cache),
        get-absorb newer later name cache,
        old,
        new,
      )
      (elim (Option-cases (get name cache)) [
        | inl e ↦ rw e refl
        | inr (o, e) ↦ rw e (ground (arith, quiet o e))
      ])
