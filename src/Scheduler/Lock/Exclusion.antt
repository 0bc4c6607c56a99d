-- ===== src/Scheduler/Lock/Exclusion.antt =====
-- Mutual exclusion, turns in order, and no deadlock among acquisitions.
use instacloud_oss.Base.{
  ℕ, ◌<◌, ◌≡◌, inl, inr, refl, subst, String, Bool, true, false, List, [], ◌∷◌, string_instance,
  nat_instance, not, contains, any, all, All, arith, nat_eq_iff, Bool-cases, ltb,
}
use instacloud_oss.Scheduler.Lock.{Gate, OpLock, is_held, outstanding, is_ready, is_admitted}
use instacloud_oss.Scheduler.Lock.Keys.{Distinct}
use instacloud_oss.Scheduler.Lock.Invariant.{In, Older, Older-In}
use instacloud_oss.Scheduler.Lock.Steps.{Reachable, Reachable-IsSound}

outstanding-In :
    (gs : List Gate) (g : Gate) → In g gs → is_held g ≡ true → outstanding g.id gs ≡ true
unfolding outstanding
outstanding-In [] g m h = absurd m
outstanding-In (x ∷ gs) g (inl e) h =
    subst (λ (y : Gate). outstanding g.id (y ∷ gs) ≡ true) e
      (ground (arith, h, nat_eq_iff g.id g.id))
outstanding-In (x ∷ gs) g (inr m) h = ground (arith, outstanding-In gs g m h)

all-contains :
    (p : ℕ → Bool) (w : ℕ) (ws : List ℕ) → all p ws ≡ true → contains w ws ≡ true → p w ≡ true
unfolding contains
all-contains p w [] h c = cc
all-contains p w (v ∷ ws) h c = ground (arith, h, c, nat_eq_iff v w, all-contains p w ws)

all-All :
    (n : ℕ) (p : ℕ → Bool) (ws : List ℕ)
    → All (λ w. w < n) ws
    → ((w : ℕ) → w < n → p w ≡ true)
    → all p ws ≡ true
all-All n p [] h k = refl
all-All n p (w ∷ ws) h k = ground (arith, k w h.0, all-All n p ws h.1 k)

-- The oldest acquisition that has not been released.
abbrev Oldest : List Gate → Type 0
Oldest gs =
    (g : Gate) × In g gs × (is_held g ≡ true) × ((w : ℕ) → w < g.id → outstanding w gs ≡ false)

none_outstanding : (w : ℕ) (gs : List Gate) → any is_held gs ≡ false → outstanding w gs ≡ false
unfolding outstanding
none_outstanding w [] h = refl
none_outstanding w (x ∷ gs) h = ground (arith, h, none_outstanding w gs)

oldest : (n : ℕ) (gs : List Gate) → Older n gs → any is_held gs ≡ true → Oldest gs
unfolding outstanding
oldest n [] o h = cc
oldest n (x ∷ gs) o h = elim (Bool-cases (any is_held gs)) [
  | inl e ↦
      let (g, m, k, f) = oldest x.id gs o.1 e in
      (g, inr m, k, λ w l. ground (arith, f w l, l, Older-In x.id gs g o.1 m, nat_eq_iff x.id w))
  | inr e ↦ (
    x,
    inl refl,
    ground (arith, h, e),
    λ w l. ground (arith, l, nat_eq_iff x.id w, none_outstanding w gs e),
  )
]

module _ (sort : List String → List String)
    (sorts : (ks : List String) → Distinct ks → Distinct (sort ks)) where
  -- An operation runs only when every earlier one that shares a key with it has been released.
  pub earlier_released :
      (l : OpLock) (g h : Gate) (k : String)
      → Reachable sort sorts l
      → In g l.gates
      → In h l.gates
      → is_admitted h l ≡ true
      → contains k g.keys ≡ true
      → contains k h.keys ≡ true
      → g.id < h.id
      → is_held g ≡ false
  unfolding is_ready
  earlier_released l g h k r m n run a b less = elim (Bool-cases (is_held g)) [
    | inr e ↦ e
    | inl e ↦
        let s = Reachable-IsSound sort sorts l r in
        let waited = s.ordered g h k m n e (ground (arith, run)) a b less in
        absurd (
          ground (
            arith,
            run,
            outstanding-In l.gates g m e,
            all-contains (λ w. not (outstanding w l.gates)) g.id h.waits (ground (arith, run))
                waited,
          ))
  ]

  -- In every state that calls of the lock and ends of operations lead to, two operations that run
  -- and share a key are one: the lock is never held twice.
  pub exclusive :
      (l : OpLock) (g h : Gate) (k : String)
      → Reachable sort sorts l
      → In g l.gates
      → In h l.gates
      → is_admitted g l ≡ true
      → is_admitted h l ≡ true
      → contains k g.keys ≡ true
      → contains k h.keys ≡ true
      → g.id ≡ h.id
  exclusive l g h k r m n a b c d = elim (Bool-cases (ltb g.id h.id)) [
    | inl e ↦ absurd (ground (arith, a, earlier_released l g h k r m n b c d (ground (arith, e))))
    | inr e ↦ elim (Bool-cases (ltb h.id g.id)) [
      | inl f ↦ absurd (ground (arith, b, earlier_released l h g k r n m a d c (ground (arith, f))))
      | inr f ↦ ground (arith, e, f)
    ]
  ]

  -- In every such state in which some acquisition has not been released, one of those has been let
  -- through: acquisitions of several keys never wait for each other in a circle.
  pub progress :
      (l : OpLock)
      → Reachable sort sorts l
      → any is_held l.gates ≡ true
      → (g : Gate) × In g l.gates × (is_admitted g l ≡ true)
  unfolding is_ready
  progress l r h =
      let s = Reachable-IsSound sort sorts l r in
      let (g, m, k, f) = oldest l.next l.gates s.ids h in
      (
        g,
        m,
        ground (
          arith,
          k,
          all-All g.id (λ w. not (outstanding w l.gates)) g.waits (s.waits g m)
              (λ w u. ground (arith, f w u)),
        ),
      )
