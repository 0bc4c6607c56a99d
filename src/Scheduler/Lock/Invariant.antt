-- ===== src/Scheduler/Lock/Invariant.antt =====
-- What holds of the lock in every state, and that entering and leaving it keep it so.
use instacloud_oss.Base.{
  ℕ, suc, ◌+◌, ◌<◌, ◌≤◌, ◌≡◌, ◌⊎◌, inl, inr, refl, ap, sym, subst, String, true, false, List, [],
  ◌∷◌, string_instance, nat_instance, if◌then◌else◌, contains, All, arith, nat_eq_iff, Bool-cases,
  nat_eq,
}
use instacloud_oss.Scheduler.Lock.{
  Gate, OpLock, extend_chains, enqueue_all, release_keys, close, leave, is_held,
}
use instacloud_oss.Scheduler.Lock.Keys.{
  chain_of, count_of, occurrences, Distinct, IsBelow, count-extend, chain-extend, chain-enter,
  waits-extend, waits-below, IsBelow-extend,
}
use instacloud_oss.Scheduler.Lock.Release.{count-release, chain-release, IsBelow-release}

abbrev pub In : Gate → List Gate → Type 0
In g [] = ⊥
In g (x ∷ gs) = (g ≡ x) ⊎ In g gs

-- The ids fall from the newest gate on.
abbrev pub Older : ℕ → List Gate → Type 0
Older n [] = Unit
Older n (g ∷ gs) = (g.id < n) × Older g.id gs

-- How many acquisitions of a key have not been released.
abbrev pub held_count : String → List Gate → ℕ
held_count k [] = 0
held_count k (g ∷ gs) = (if is_held g then occurrences k g.keys else 0) + held_count k gs

pub record IsSound (l : OpLock) : Type 0 where
  pub ids : Older l.next l.gates
  pub below : IsBelow l.next l.ops
  pub waits : (g : Gate) → In g l.gates → All (λ w. w < g.id) g.waits
  pub counts : (k : String) → count_of k l.ops ≡ held_count k l.gates
  pub chained :
      (g : Gate) (k : String)
      → In g l.gates
      → is_held g ≡ true
      → contains k g.keys ≡ true
      → contains g.id (chain_of k l.ops) ≡ true
  pub ordered :
      (g h : Gate) (k : String)
      → In g l.gates
      → In h l.gates
      → is_held g ≡ true
      → is_held h ≡ true
      → contains k g.keys ≡ true
      → contains k h.keys ≡ true
      → g.id < h.id
      → contains g.id h.waits ≡ true

All-raise : (n m : ℕ) (xs : List ℕ) → n ≤ m → All (λ w. w < n) xs → All (λ w. w < m) xs
All-raise n m [] l h = h
All-raise n m (x ∷ xs) l h = (omega (arith, l, h.0), All-raise n m xs l h.1)

pub Older-In : (n : ℕ) (gs : List Gate) (g : Gate) → Older n gs → In g gs → g.id < n
Older-In n [] g o m = absurd m
Older-In n (x ∷ gs) g o (inl e) = rw e o.0
Older-In n (x ∷ gs) g o (inr m) = omega (arith, Older-In x.id gs g o.1 m, o.0)

occurrences-contains : (k : String) (ks : List String) → contains k ks ≡ true → 0 < occurrences k ks
unfolding contains
occurrences-contains k [] h = cc
occurrences-contains k (j ∷ ks) h = ground (arith, h, occurrences-contains k ks)

held_count-In :
    (k : String) (gs : List Gate) (g : Gate)
    → In g gs
    → is_held g ≡ true
    → contains k g.keys ≡ true
    → 0 < held_count k gs
held_count-In k [] g m h c = absurd m
held_count-In k (x ∷ gs) g (inl e) h c =
    subst (λ y. 0 < held_count k (y ∷ gs)) e (ground (arith, h, occurrences-contains k g.keys c))
held_count-In k (x ∷ gs) g (inr m) h c = omega (arith, held_count-In k gs g m h c)

held_count-close_other :
    (k : String) (id n : ℕ) (gs : List Gate)
    → Older n gs
    → n ≤ id
    → held_count k (close id gs) ≡ held_count k gs
unfolding close
held_count-close_other k id n [] o l = refl
held_count-close_other k id n (x ∷ gs) o l =
    ground (arith, o.0, l, held_count-close_other k id x.id gs o.1 (omega (arith, o.0, l)))

-- Leaving takes the keys of the gate off the count.
held_count-close :
    (k : String) (n : ℕ) (gs : List Gate) (g : Gate)
    → Older n gs
    → In g gs
    → is_held g ≡ true
    → held_count k (close g.id gs) + occurrences k g.keys ≡ held_count k gs
unfolding close
held_count-close k n [] g o m h = absurd m
held_count-close k n (x ∷ gs) g o (inl e) h =
    subst (λ y. held_count k (close g.id (y ∷ gs)) + occurrences k g.keys ≡ held_count k (y ∷ gs)) e
      (ground (
        arith,
        h,
        nat_eq_iff g.id g.id,
        held_count-close_other k g.id g.id gs (subst (λ y. Older y.id gs) (sym e) o.1)
            (omega arith),
      ))
held_count-close k n (x ∷ gs) g o (inr m) h =
    ground (
      arith,
      h,
      nat_eq_iff x.id g.id,
      Older-In x.id gs g o.1 m,
      held_count-close k x.id gs g o.1 m h,
    )

-- Where a gate of the closed list comes from.
abbrev Origin : ℕ → List Gate → Gate → Type 0
Origin id gs h =
    (g : Gate) × In g gs
    × (g.id ≡ h.id)
    × (g.keys ≡ h.keys)
    × (g.waits ≡ h.waits)
    × (is_held h ≡ true → is_held g ≡ true)

close-In : (id : ℕ) (gs : List Gate) (h : Gate) → In h (close id gs) → Origin id gs h
unfolding close
close-In id [] h m = absurd m
close-In id (x ∷ gs) h (inl e) = elim (Bool-cases (nat_eq x.id id)) [
  | inl f ↦ (
    x,
    inl refl,
    ground (arith, e, f),
    ground (arith, e, f),
    ground (arith, e, f),
    λ k. ground (arith, e, f, k),
  )
  | inr f ↦ (
    x,
    inl refl,
    ground (arith, e, f),
    ground (arith, e, f),
    ground (arith, e, f),
    λ k. ground (arith, e, f, k),
  )
]
close-In id (x ∷ gs) h (inr m) =
    let (g, n, a, b, c, d) = close-In id gs h m in (g, inr n, a, b, c, d)

close-Older : (id n : ℕ) (gs : List Gate) → Older n gs → Older n (close id gs)
unfolding close
close-Older id n [] o = o
close-Older id n (x ∷ gs) o = elim (Bool-cases (nat_eq x.id id)) [
  | inl f ↦ rw (f, close) (o.0, close-Older id x.id gs o.1)
  | inr f ↦ rw (f, close) (o.0, close-Older id x.id gs o.1)
]

pub enqueue_all-IsSound :
    (keys : List String) (l : OpLock) → Distinct keys → IsSound l → IsSound (enqueue_all keys l)
unfolding enqueue_all
enqueue_all-IsSound keys l d s =
    let fresh : Gate = record {
      id = l.next;
      keys = keys;
      waits = (extend_chains l.next keys l.ops).0;
      released = false;
    } in
    record {
      ids = (omega arith, s.ids);
      below =
          IsBelow-extend (suc l.next) l.next keys l.ops (omega arith)
            (λ j. All-raise l.next (suc l.next) (chain_of j l.ops) (omega arith) (s.below j));
      waits = λ g m. elim m [
        | inl e ↦
            subst (λ (y : Gate). All (λ w. w < y.id) y.waits) (sym e)
              (waits-below l.next l.next keys l.ops d (λ j c. s.below j))
        | inr n ↦ s.waits g n
      ];
      counts = λ k. ground (arith, count-extend k l.next keys l.ops, s.counts k);
      chained = λ g k m h c. elim m [
        | inl e ↦
            subst
              (λ (y : Gate). contains y.id (chain_of k (extend_chains l.next keys l.ops).1) ≡ true)
              (sym e)
              (chain-enter k l.next keys l.ops (subst (λ (y : Gate). contains k y.keys ≡ true) e c))
        | inr n ↦ chain-extend k g.id l.next keys l.ops (s.chained g k n h c)
      ];
      ordered = λ g h k m n a b c e less. elim m [
        | inl f ↦ absurd (elim n [
          | inl p ↦ omega (arith, ap (λ (y : Gate). y.id) f, ap (λ (y : Gate). y.id) p, less)
          | inr p ↦
              omega (arith, ap (λ (y : Gate). y.id) f, Older-In l.next l.gates h s.ids p, less)
        ])
        | inr f ↦ elim n [
          | inl p ↦
              subst (λ (y : Gate). contains g.id y.waits ≡ true) (sym p)
                (waits-extend k g.id l.next keys l.ops
                  (subst (λ (y : Gate). contains k y.keys ≡ true) p e) (s.chained g k f a c))
          | inr p ↦ s.ordered g h k f p a b c e less
        ]
      ];
    }

pub leave-IsSound :
    (l : OpLock) (g : Gate)
    → In g l.gates
    → is_held g ≡ true
    → IsSound l
    → IsSound (leave g.id g.keys l)
unfolding leave
leave-IsSound l g m held s =
    let counts_after : (k : String)
        → count_of k (release_keys g.keys l.ops) ≡ held_count k (close g.id l.gates) =
      λ k. omega (
        arith,
        count-release k g.keys l.ops,
        s.counts k,
        held_count-close k l.next l.gates g s.ids m held,
      ) in
    record {
      ids = close-Older g.id l.next l.gates s.ids;
      below = IsBelow-release l.next g.keys l.ops s.below;
      waits = λ h n.
          let (o, p, i, ks, ws, hh) = close-In g.id l.gates h n in
          subst (All (λ w. w < h.id)) ws (subst (λ y. All (λ w. w < y) o.waits) i (s.waits o p));
      counts = counts_after;
      chained = λ h k n hh c.
          let (o, p, i, ks, ws, oh) = close-In g.id l.gates h n in
          let there = s.chained o k p (oh hh) (subst (λ y. contains k y ≡ true) (sym ks) c) in
          let counted : 0 < count_of k (release_keys g.keys l.ops) =
            omega (arith, counts_after k, held_count-In k (close g.id l.gates) h n hh c) in
          subst (λ y. contains y (chain_of k (release_keys g.keys l.ops)) ≡ true) i
            (subst (λ y. contains o.id y ≡ true) (sym (chain-release k g.keys l.ops counted))
              there);
      ordered = λ h j k n q a b c e less.
          let (o, p, i, ks, ws, oh) = close-In g.id l.gates h n in
          let (u, v, i', ks', ws', uh) = close-In g.id l.gates j q in
          subst (λ y. contains y j.waits ≡ true) i
            (subst (λ y. contains o.id y ≡ true) ws'
              (s.ordered o u k p v (oh a) (uh b) (subst (λ y. contains k y ≡ true) (sym ks) c)
                (subst (λ y. contains k y ≡ true) (sym ks') e) (omega (arith, i, i', less))));
    }
