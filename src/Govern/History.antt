-- ===== src/Govern/History.antt =====
-- Gates and decisions over a whole history of calls: every allowance under the policy `approve` is
-- paid for by a grant of its own.
use instacloud_oss.Base.{
  ℕ, ◌+◌, ◌≡◌, String, Bool, true, false, List, [], ◌∷◌, ◌++◌, Option, none, some, find, ◌==◌, ◌&&◌,
  Option-cases, inl, inr, eq_iff, arith, string_instance,
}
use instacloud_oss.Store.{
  Decision, allow, deny, approve, GatedAction, Approval, Document, routing, save_state, mutate,
  action_eq_iff, pending, action_instance,
}
use instacloud_oss.Govern.{
  GateResult, allowed, effective_policy, set_policy, gate, is_grant, update_first, consume, request,
  is_named, decide, settle, Verdict, grant, refuse, gate_approve, gate_by, is_grant_verdict,
}
use instacloud_oss.Govern.Laws.{
  one_if, count, grants, count-append, count-update_first, find_holds, is_grant-consume, decide_lem,
}

pub data Call : Type 0 where
  gates : String → GatedAction → String → ℕ → Call
  decides : String → String → Verdict → Bool → ℕ → Call
  sets : String → GatedAction → Decision → Call

unfoldable pub step : Call → Document → Document
step (gates project action id now) s = (gate project action id now s).1
step (decides project id verdict always now) s = (decide project id verdict always now s).1
step (sets project action decision) s = set_policy project action decision s

unfoldable pub run : List Call → Document → Document
run [] s = s
run (c ∷ cs) s = run cs (step c s)

abbrev is_allowed : GateResult → Bool
is_allowed allowed = true
is_allowed _ = false

abbrev is_about : String → GatedAction → Option Approval → Bool
is_about project action none = false
is_about project action (some a) = a.project_id == project && a.action == action

module _ (project : String) (action : GatedAction) where
  -- The call lets the action through.
  unfoldable pub spends : Call → Document → Bool
  spends (gates p a id now) s = p == project && (a == action && is_allowed (gate p a id now s).0)
  spends _ s = false

  -- The call grants an approval of the action.
  unfoldable pub earns : Call → Document → Bool
  earns (decides p id verdict always now) s =
      is_grant_verdict verdict && is_about project action (decide p id verdict always now s).0
  earns _ s = false

  unfoldable pub total : (Call → Document → Bool) → List Call → Document → ℕ
  total f [] s = 0
  total f (c ∷ cs) s = one_if (f c s) + total f cs (step c s)

  -- The policy in force before each call is `approve`.
  abbrev pub StaysApprove : List Call → Document → Type 0
  StaysApprove [] s = Unit
  StaysApprove (c ∷ cs) s =
      (effective_policy project action s ≡ approve) × StaysApprove cs (step c s)

  is_grant_other :
      (p : String) (a : GatedAction) (x : Approval)
      → is_grant p a x ≡ true
      → is_grant project action x ≡ (p == project && a == action)
  unfolding is_grant
  is_grant_other p a x h = ground (arith, eq_iff x.project_id p, action_eq_iff x.action a)

  refused_balance :
      (p : String) (a : GatedAction) (id : String) (now : ℕ) (s : Document)
      → one_if (p == project && (a == action && false))
          + count
              (is_grant project action)
              (save_state routing
                (record s { approvals = s.approvals ++ request p a id now ∷ [] })).approvals
        ≡ count (is_grant project action) s.approvals
  unfolding save_state is_grant
  refused_balance p a id now s =
      ground (arith, count-append (is_grant project action) s.approvals (request p a id now))

  consumed_balance :
      (p : String) (a : GatedAction) (s : Document) (x : Approval)
      → find (is_grant p a) s.approvals ≡ some x
      → one_if (p == project && (a == action && true))
          + count (is_grant project action) (
              let t = record s { approvals = update_first (is_grant p a) consume s.approvals } in
              (save_state routing t).approvals)
        ≡ count (is_grant project action) s.approvals
  unfolding save_state
  consumed_balance p a s x e = ground (
    arith,
    count-update_first (is_grant project action) (is_grant p a) consume s.approvals x e,
    is_grant-consume project action x,
    is_grant_other p a x (find_holds _ s.approvals x e),
  )

  settled_balance :
      (p id : String) (verdict : Verdict) (now : ℕ) (s : Document) (a : Approval)
      → find (is_named p id) s.approvals ≡ some a
      → a.status ≡ pending
      → count
          (is_grant project action)
          (update_first (is_named p id) (settle verdict now) s.approvals)
        ≡ grants project action s
          + one_if
              (is_grant_verdict verdict && is_about project action (some (settle verdict now a)))
  unfolding is_grant
  settled_balance p id grant now s a e w = ground (
    arith,
    count-update_first (is_grant project action) (is_named p id) (settle grant now) s.approvals a e,
  )
  settled_balance p id refuse now s a e w = ground (
    arith,
    count-update_first (is_grant project action) (is_named p id) (settle refuse now) s.approvals a
        e,
  )

  gate_by_balance :
      (d : Decision) (p : String) (a : GatedAction) (id : String) (now : ℕ) (s : Document)
      → ((p == project && a == action) ≡ true → d ≡ approve)
      → let (r, t) = gate_by d p a id now s in
        one_if (p == project && (a == action && is_allowed r)) + grants project action t
        ≡ grants project action s
  unfolding gate_by gate_approve mutate
  gate_by_balance allow p a id now s h = ground arith
  gate_by_balance deny p a id now s h = ground arith
  gate_by_balance approve p a id now s h = elim (Option-cases (find (is_grant p a) s.approvals)) [
    | inl e ↦ rw (e, gate_approve) (refused_balance p a id now s)
    | inr (x, e) ↦ rw (e, gate_approve) (consumed_balance p a s x e)
  ]

  gate_balance :
      (p : String) (a : GatedAction) (id : String) (now : ℕ) (s : Document)
      → effective_policy project action s ≡ approve
      → one_if (spends (gates p a id now) s) + grants project action (step (gates p a id now) s)
        ≡ grants project action s
  unfolding spends step gate
  gate_balance p a id now s h =
      gate_by_balance (effective_policy p a s) p a id now s
        (ground (arith, eq_iff p project, action_eq_iff a action))

  decide_balance :
      (p id : String) (verdict : Verdict) (always : Bool) (now : ℕ) (s : Document)
      → let c = decides p id verdict always now in
        grants project action (step c s) ≡ grants project action s + one_if (earns c s)
  unfolding earns step
  decide_balance p id verdict always now s = elim (decide_lem p id verdict always now s) [
    | inl (_, r, same, _) ↦ rw (r, same) (ground arith)
    | inr (a, found, waits, r, new, _) ↦
        rw (r, new) (settled_balance p id verdict now s a found waits)
  ]

  -- While the policy for an action is `approve`, one call lets it through only by using up a grant,
  -- and only a decision that grants an approval of it adds one: what a call spends and leaves over
  -- is what was there and what it earned.
  step_balance :
      (c : Call) (s : Document)
      → effective_policy project action s ≡ approve
      → one_if (spends c s) + grants project action (step c s)
        ≡ grants project action s + one_if (earns c s)
  step_balance (gates p a id now) s h = unfold earns in omega (arith, gate_balance p a id now s h)
  step_balance (decides p id verdict always now) s h =
      unfold spends in omega (arith, decide_balance p id verdict always now s)
  step_balance (sets p a d) s h =
      unfold spends earns step set_policy mutate save_state in omega arith

  -- Over any history during which the policy for an action stays `approve`, the number of times the
  -- action was let through, and the grants left at the end, make up exactly the grants at the start
  -- and those that decisions gave: no grant is used twice, and nothing passes without one.
  pub run_balance :
      (cs : List Call) (s : Document)
      → StaysApprove cs s
      → total spends cs s + grants project action (run cs s)
        ≡ grants project action s + total earns cs s
  unfolding total run
  run_balance [] s h = omega arith
  run_balance (c ∷ cs) s (h, hs) = omega (arith, step_balance c s h, run_balance cs (step c s) hs)
