-- ===== src/Scheduler/Evict/Choice.antt =====
-- Which service an eviction pass stops.
use instacloud_oss.Base.{
  ℕ, ◌+◌, ◌*◌, ◌≡◌, ◌≤◌, ◌<◌, get_or, refl, String, true, false, List, [], ◌∷◌, some,
  string_instance, arith, contains, inl, inr, All, ◌↔◌, ◌⊎◌, Bool-cases, head?, Map, ◌∙◌, ◌≢◌,
  subst, sym,
}
use instacloud_oss.Scheduler.{
  Scheduler, ServiceTarget, LedgerEntry, Config, entry, seen, desires_running, busy, holds,
}
use instacloud_oss.Scheduler.Laws.{entry-seen}
use instacloud_oss.Scheduler.Snapshot.{observed_running}
use instacloud_oss.Scheduler.Evict.{
  just_woken, may_evict, is_quiet, is_victim, victims, precedes, insert, sort,
}

-- Every condition under which a service may be evicted.
pub record IsVictim (cfg : Config) (exclude tried : List String) (t : ServiceTarget) (now : ℕ)
    (s : Scheduler) : Type 0 where
  pub included : contains t.key exclude ≡ false
  pub untried : contains t.key tried ≡ false
  pub observed : observed_running cfg t.container now s ≡ true
  pub may_sleep : t.always_on ≡ false
  pub wanted : desires_running t.desired_state ≡ true
  pub free : busy t.key s ≡ false
  pub unheld : holds t.key s ≡ 0
  pub quiet : (entry t.key s).last_active_at + 2 * cfg.touch_debounce_ms ≤ now
  pub settled : just_woken cfg now (entry t.key s).woke_at ≡ false

-- A service is eligible exactly when all conditions hold: not excluded, not tried in this pass,
-- seen running lately, not always-on and wanted running, with no operation and no held request,
-- and neither active nor woken a moment ago.
pub is_victim_iff :
    (cfg : Config) (exclude tried : List String) (t : ServiceTarget) (now : ℕ) (s : Scheduler)
    → ((is_victim cfg exclude tried t now s).0 ≡ true) ↔ IsVictim cfg exclude tried t now s
unfolding is_victim may_evict is_quiet
is_victim_iff cfg exclude tried t now s = ground arith

module _ (s : Scheduler) where
  abbrev pub with_ledger : Map String LedgerEntry → Scheduler
  with_ledger l = record s { ledger = l }

  -- Looks at the ledger, which at most record first sights, leave what every later look sees.
  abbrev pub Looked : Map String LedgerEntry → Type 0
  Looked l = (j : String) → entry j (with_ledger l) ≡ entry j s

  Looked-seen :
      (key : String) (l : Map String LedgerEntry)
      → Looked l
      → Looked (seen key (with_ledger l)).ledger
  unfolding seen
  Looked-seen key l h j = entry-seen key j (with_ledger l) ∙ h j

  module _ (cfg : Config) (exclude tried : List String) (now : ℕ) where
    is_victim-Looked :
        (t : ServiceTarget) (l : Map String LedgerEntry)
        → Looked l
        → (is_victim cfg exclude tried t now (with_ledger l)).0 ≡ true
        → IsVictim cfg exclude tried t now s
    unfolding is_victim may_evict is_quiet observed_running busy
    is_victim-Looked t l h e = ground (arith, h t.key)

    is_victim-state :
        (t : ServiceTarget) (l : Map String LedgerEntry)
        → Looked l
        → (m : Map String LedgerEntry) × ((is_victim cfg exclude tried t now (with_ledger l)).1
            ≡ with_ledger m)
          × Looked m
    unfolding is_victim
    is_victim-state t l h = elim (Bool-cases (may_evict cfg exclude tried t now (with_ledger l))) [
      | inl e ↦ (
        (seen t.key (with_ledger l)).ledger,
        rw (e, is_victim) (unfold seen in refl),
        Looked-seen t.key l h,
      )
      | inr e ↦ (l, rw (e, is_victim) refl, h)
    ]

    -- The filter of one pass keeps eligible services of the list only.
    pub victims_lem :
        (ts : List ServiceTarget) (l : Map String LedgerEntry)
        → Looked l
        → let (pool, u) = victims cfg exclude tried now ts (with_ledger l) in
          All (λ t. IsVictim cfg exclude tried t now s) pool
          × ((m : Map String LedgerEntry) × (u ≡ with_ledger m) × Looked m)
    unfolding victims
    victims_lem [] l h = (tt, (l, refl, h))
    victims_lem (t ∷ ts) l h =
        let (m, e, hm) = is_victim-state t l h in
        let ih = victims_lem ts m hm in
        elim (Bool-cases (is_victim cfg exclude tried t now (with_ledger l)).0) [
          | inl fits ↦ rw (fits, e) ((is_victim-Looked t l h fits, ih.0), ih.1)
          | inr not_fits ↦ rw (not_fits, e) ih
        ]

module _ (cfg : Config) (exclude tried : List String) (now : ℕ) (Q : ServiceTarget → Type 0) where
  All-victims :
      (ts : List ServiceTarget) (s : Scheduler)
      → All Q ts
      → All Q (victims cfg exclude tried now ts s).0
  unfolding victims
  All-victims [] s h = tt
  All-victims (t ∷ ts) s (q, qs) =
      let ih = All-victims ts (is_victim cfg exclude tried t now s).1 qs in
      elim (Bool-cases (is_victim cfg exclude tried t now s).0) [
        | inl e ↦ rw e (q, ih)
        | inr e ↦ rw e ih
      ]

-- The sort

-- `a` is the less recently active of the two, or as recently active and at least as large.
abbrev pub GoesFirst : LedgerEntry → LedgerEntry → Type 0
GoesFirst a b =
    (a.last_active_at < b.last_active_at)
    ⊎ (a.last_active_at ≡ b.last_active_at)
      × (get_or b.last_rss_bytes 0 ≤ get_or a.last_rss_bytes 0)

GoesFirst-trans : (a b c : LedgerEntry) → GoesFirst a b → GoesFirst b c → GoesFirst a c
GoesFirst-trans a b c h k = ground arith

GoesFirst-refl : (a : LedgerEntry) → GoesFirst a a
GoesFirst-refl a = inr (refl, omega arith)

precedes-GoesFirst : (a b : LedgerEntry) → precedes a b ≡ true → GoesFirst a b
unfolding precedes
precedes-GoesFirst a b h = ground arith

precedes_total : (a b : LedgerEntry) → precedes a b ≡ false → GoesFirst b a
unfolding precedes
precedes_total a b h = ground arith

-- `v` goes before every service of the list.
abbrev pub IsFirst : Scheduler → ServiceTarget → List ServiceTarget → Type 0
IsFirst s v ts = All (λ u. GoesFirst (entry v.key s) (entry u.key s)) ts

module _ (s : Scheduler) where
  IsFirst-trans :
      (t u : ServiceTarget) (ts : List ServiceTarget)
      → GoesFirst (entry t.key s) (entry u.key s)
      → IsFirst s u ts
      → IsFirst s t ts
  IsFirst-trans t u [] h k = tt
  IsFirst-trans t u (w ∷ ts) h (k, ks) = (
    GoesFirst-trans (entry t.key s) (entry u.key s) (entry w.key s) h k,
    IsFirst-trans t u ts h ks,
  )

  insert-head :
      (t : ServiceTarget) (us : List ServiceTarget) (v : ServiceTarget)
      → head? (insert s t us) ≡ some v
      → (v ≡ t) × (us ≡ [])
        ⊎ ((u : ServiceTarget) × (head? us ≡ some u)
            × ((v ≡ t) × (precedes (entry t.key s) (entry u.key s) ≡ true)
                ⊎ (v ≡ u) × (precedes (entry t.key s) (entry u.key s) ≡ false)))
  unfolding insert
  insert-head t [] v h = inl (ground arith, refl)
  insert-head t (u ∷ us) v h = inr (u, refl, ground arith)

  insert-ne-nil : (t : ServiceTarget) (us : List ServiceTarget) → insert s t us ≢ []
  unfolding insert
  insert-ne-nil t [] h = cc
  insert-ne-nil t (u ∷ us) h = ground arith

  sort-nil : (ts : List ServiceTarget) → sort s ts ≡ [] → ts ≡ []
  unfolding sort
  sort-nil [] h = refl
  sort-nil (t ∷ ts) h = absurd (insert-ne-nil t (sort s ts) h)

  -- The head of the sorted pool is of the pool, and no other service of it comes before: it is the
  -- least recently active, and of those the largest.
  pub sort-head :
      (P : ServiceTarget → Type 0) (ts : List ServiceTarget) (v : ServiceTarget)
      → head? (sort s ts) ≡ some v
      → All P ts
      → P v × IsFirst s v ts
  unfolding sort
  sort-head P [] v h all = ground arith
  sort-head P (t ∷ ts) v h (p, ps) = elim (insert-head t (sort s ts) v h) [
    | inl (e, none_left) ↦
        subst good (sym e) (rw (sort-nil ts none_left) (p, (GoesFirst-refl (entry t.key s), tt)))
    | inr (u, head, inl (e, first)) ↦
        let (_, rest) = sort-head P ts u head ps in
        let before = precedes-GoesFirst (entry t.key s) (entry u.key s) first in
        subst good (sym e) (p, (GoesFirst-refl (entry t.key s), IsFirst-trans t u ts before rest))
    | inr (u, head, inr (e, second)) ↦
        let (pu, rest) = sort-head P ts u head ps in
        subst good (sym e) (pu, (precedes_total (entry t.key s) (entry u.key s) second, rest))
  ]
    where
      good : ServiceTarget → Type 0
      good w = P w × IsFirst s w (t ∷ ts)

All-both :
    (P Q : ServiceTarget → Type 0) (ts : List ServiceTarget)
    → All P ts
    → All Q ts
    → All (λ t. P t × Q t) ts
All-both P Q [] p q = tt
All-both P Q (t ∷ ts) (p, ps) (q, qs) = ((p, q), All-both P Q ts ps qs)

-- What a round knows of the service that it stops: it is eligible in the state `s` that the round
-- found, `Q` holds of it as of all services, it is first by the state `t` that the filter left, and
-- the filter only looked.
pub record Chosen (Q : ServiceTarget → Type 0) (cfg : Config) (exclude tried : List String)
    (s t : Scheduler) (v : ServiceTarget) : Type 0 where
  pub eligible : IsVictim cfg exclude tried v s.clock s
  pub holds_of_all : Q v
  pub first : IsFirst t v (victims cfg exclude tried s.clock s.targets s).0
  pub ledger : Map String LedgerEntry
  pub looks : t ≡ with_ledger s ledger
  pub looked : Looked s ledger

pub Chosen-of_head :
    (Q : ServiceTarget → Type 0) (cfg : Config) (exclude tried : List String) (s : Scheduler)
    (v : ServiceTarget)
    → All Q s.targets
    → let (pool, t) = victims cfg exclude tried s.clock s.targets s in
      head? (sort t pool) ≡ some v → Chosen Q cfg exclude tried s t v
Chosen-of_head Q cfg exclude tried s v q h =
    let (pool, t) = victims cfg exclude tried s.clock s.targets s in
    let IsGood = λ (u : ServiceTarget). IsVictim cfg exclude tried u s.clock s in
    let (eligible, (m, looks, looked)) =
      victims_lem s cfg exclude tried s.clock s.targets s.ledger (λ j. refl) in
    let of_them = All-victims cfg exclude tried s.clock Q s.targets s q in
    let (good, first) =
      sort-head t (λ u. IsGood u × Q u) pool v h (All-both IsGood Q pool eligible of_them) in
    record {
      eligible = good.0;
      holds_of_all = good.1;
      first = first;
      ledger = m;
      looks = looks;
      looked = looked;
    }
