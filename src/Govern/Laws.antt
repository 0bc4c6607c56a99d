-- ===== src/Govern/Laws.antt =====
-- The behaviour of `gate` and `decide` on each branch.
use instacloud_oss.Base.{
  ℕ, suc, ◌+◌, ◌≡◌, ◌≢◌, refl, String, Bool, true, false, List, [], ◌∷◌, ◌++◌, none, some, find,
  if◌then◌else◌, ◌&&◌, Bool-cases, Option-cases, inl, inr, ◌⊎◌, arith, put, string_instance,
}
use instacloud_oss.Store.{
  Decision, allow, deny, approve, GatedAction, Approval, Document, routing, save_state, mutate,
  pending, ApprovalStatus, action_instance,
}
use instacloud_oss.Govern.{
  GateResult, allowed, blocked, approval_required, effective_policy, gate, is_grant, update_first,
  consume, request, is_named, decide, settle, Verdict, gate_approve, gate_by, decide_in,
  is_grant_verdict, overrides, is_pending,
}

abbrev pub one_if : Bool → ℕ
one_if true = 1
one_if false = 0

module _ (q : Approval → Bool) where
  pub count : List Approval → ℕ
  count [] = 0
  count (a ∷ rest) = one_if (q a) + count rest

module _ (q : Approval → Bool) where
  pub count-append :
      (xs : List Approval) (a : Approval) → count q (xs ++ a ∷ []) ≡ count q xs + one_if (q a)
  unfolding count
  count-append [] a = ground arith
  count-append (x ∷ xs) a = ground (arith, count-append xs a)

  -- Changing the element that a search finds moves a count by that element alone.
  pub count-update_first :
      (p : Approval → Bool) (f : Approval → Approval) (xs : List Approval) (a : Approval)
      → find p xs ≡ some a
      → count q (update_first p f xs) + one_if (q a) ≡ count q xs + one_if (q (f a))
  unfolding count
  count-update_first p f [] a h = ground arith
  count-update_first p f (x ∷ xs) a h = ground (arith, count-update_first p f xs a)

pub find_holds :
    (p : Approval → Bool) (xs : List Approval) (a : Approval) → find p xs ≡ some a → p a ≡ true
find_holds p [] a h = ground arith
find_holds p (x ∷ xs) a h = ground (arith, find_holds p xs a)

pub find-none-count : (p : Approval → Bool) (xs : List Approval) → find p xs ≡ none → count p xs ≡ 0
unfolding count
find-none-count p [] h = refl
find-none-count p (x ∷ xs) h = ground (arith, find-none-count p xs)

pub save_state-approvals : (s : Document) → (save_state routing s).approvals ≡ s.approvals
unfolding save_state
save_state-approvals s = refl

pub save_state-policies : (s : Document) → (save_state routing s).policies ≡ s.policies
unfolding save_state
save_state-policies s = refl

abbrev pub grants : String → GatedAction → Document → ℕ
grants project action s = count (is_grant project action) s.approvals

pub is_grant-consume :
    (project : String) (action : GatedAction) (a : Approval)
    → is_grant project action (consume a) ≡ false
unfolding is_grant
is_grant-consume project action a = ground arith

-- What a gate answers, and what it leaves behind, by the policy in force.
abbrev pub GateEffect :
    Decision → String → GatedAction → String → ℕ → Document → GateResult → Document → Type 0
GateEffect allow project action id now s r t = (r ≡ allowed) × (t ≡ s)
GateEffect deny project action id now s r t = (r ≡ blocked) × (t ≡ s)
GateEffect approve project action id now s r t =
    (t.policies ≡ s.policies)
    × ((r ≡ allowed) × (suc (grants project action t) ≡ grants project action s)
        ⊎ (r ≡ approval_required id)
          × (grants project action s ≡ 0)
          × (t.approvals ≡ s.approvals ++ request project action id now ∷ []))

grants-consume :
    (project : String) (action : GatedAction) (xs : List Approval) (a : Approval)
    → let p = is_grant project action in
      find p xs ≡ some a → suc (count p (update_first p consume xs)) ≡ count p xs
grants-consume project action xs a e = ground (
  arith,
  count-update_first (is_grant project action) (is_grant project action) consume xs a e,
  find_holds (is_grant project action) xs a e,
  is_grant-consume project action a,
)

gate-approve :
    (project : String) (action : GatedAction) (id : String) (now : ℕ) (s : Document)
    → let (r, t) = gate_by approve project action id now s in
      GateEffect approve project action id now s r t
unfolding gate_by gate_approve mutate save_state
gate-approve project action id now s =
    elim (Option-cases (find (is_grant project action) s.approvals)) [
      | inl e ↦ rw (e, gate_approve) (refl, inr (refl, find-none-count _ s.approvals e, refl))
      | inr (a, e) ↦
          rw (e, gate_approve) (refl, inl (refl, grants-consume project action s.approvals a e))
    ]

gate_by_lem :
    (d : Decision) (project : String) (action : GatedAction) (id : String) (now : ℕ) (s : Document)
    → let (r, t) = gate_by d project action id now s in GateEffect d project action id now s r t
unfolding gate_by
gate_by_lem allow project action id now s = (refl, refl)
gate_by_lem deny project action id now s = (refl, refl)
gate_by_lem approve project action id now s = gate-approve project action id now s

-- A gate whose policy is `allow` or `deny` says allowed or blocked and writes nothing. Under
-- `approve` it consumes exactly one grant if there is one, and says allowed; without a grant it
-- appends one pending request under the id that it answers. It never touches the policies.
pub gate_lem :
    (project : String) (action : GatedAction) (id : String) (now : ℕ) (s : Document)
    → let (r, t) = gate project action id now s in
      GateEffect (effective_policy project action s) project action id now s r t
unfolding gate
gate_lem project action id now s =
    gate_by_lem (effective_policy project action s) project action id now s

is_pending-eq : (s : ApprovalStatus) → is_pending s ≡ true → s ≡ pending
is_pending-eq s h = ground (arith, h)

is_pending-ne : (s : ApprovalStatus) → is_pending s ≡ false → s ≢ pending
is_pending-ne s h = ground (arith, h)

-- Nothing to decide: the id names no approval of the project, or one that is not pending.
abbrev pub NothingPending : String → String → Document → Type 0
NothingPending project id s =
    (find (is_named project id) s.approvals ≡ none)
    ⊎ ((a : Approval) × (find (is_named project id) s.approvals ≡ some a) × (a.status ≢ pending))

pub decide_lem :
    (project id : String) (verdict : Verdict) (always : Bool) (now : ℕ) (s : Document)
    → let (r, t) = decide project id verdict always now s in
      NothingPending project id s
        × (r ≡ none)
        × (t.approvals ≡ s.approvals)
        × (t.policies ≡ s.policies)
      ⊎ ((a : Approval) × (find (is_named project id) s.approvals ≡ some a)
          × (a.status ≡ pending)
          × (r ≡ some (settle verdict now a))
          × (t.approvals ≡ update_first (is_named project id) (settle verdict now) s.approvals)
          × (t.policies ≡ (
              if is_grant_verdict verdict && always
              then put project (put a.action allow (overrides project s)) s.policies
              else s.policies)))
unfolding decide mutate save_state
decide_lem project id verdict always now s =
    elim (Option-cases (find (is_named project id) s.approvals)) [
      | inl e ↦ rw (e, decide_in) (inl (inl refl, refl, refl, refl))
      | inr (a, e) ↦ elim (Bool-cases (is_pending a.status)) [
        | inl f ↦
            rw (e, f, decide_in)
              (inr (a, refl, is_pending-eq a.status f, refl, ground arith, ground arith))
        | inr f ↦
            rw (e, f, decide_in) (inl (inr (a, refl, is_pending-ne a.status f), refl, refl, refl))
      ]
    ]
