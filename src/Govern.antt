-- ===== src/Govern.antt =====
-- The circuit breaker for sensitive actions (src/govern.ts): per-project policies, and approvals
-- that are granted once and consumed once. The random id and the time of a call are its arguments.
pub mod Laws
pub mod History
mod Tests
use instacloud_oss.Base.{
  ℕ, String, Bool, true, false, List, [], ◌∷◌, ◌++◌, Option, none, some, Map, get, put, get_or,
  find, filter, string_instance, ◌==◌, ◌&&◌, ◌||◌, if◌then◌else◌,
}
use instacloud_oss.Store.{
  Decision, allow, deny, approve, GatedAction, Approval, ApprovalStatus, pending, granted, denied,
  consumed, Document, routing, mutate, action_instance,
}

-- `DEFAULTS`: every action is allowed.
abbrev pub default_policy : GatedAction → Decision
default_policy a = allow

pub data GateResult : Type 0 where
  allowed blocked : GateResult
  approval_required : String → GateResult

-- `policies[projectId] ?? {}`
abbrev pub overrides : String → Document → Map GatedAction Decision
overrides project s = get_or (get project s.policies) []

unfoldable pub effective_policy : String → GatedAction → Document → Decision
effective_policy project action s =
    get_or (get action (overrides project s)) (default_policy action)

-- `(policies[projectId] ??= {})[action] = decision`
abbrev pub override : String → GatedAction → Decision → Document → Document
override project action decision s = record s {
  policies = put project (put action decision (overrides project s)) s.policies;
}

unfoldable pub set_policy : String → GatedAction → Decision → Document → Document
set_policy project action decision s =
    (mutate {T = Unit {0}} routing (λ d. (tt, override project action decision d)) s).1

abbrev pub is_granted : ApprovalStatus → Bool
is_granted granted = true
is_granted _ = false

abbrev pub is_pending : ApprovalStatus → Bool
is_pending pending = true
is_pending _ = false

-- A grant that a gate of this project and action may consume.
unfoldable pub is_grant : String → GatedAction → Approval → Bool
is_grant project action a = a.project_id == project && (a.action == action && is_granted a.status)

-- Assign the first element that `find` answers: the code mutates the object in the array.
abbrev pub update_first : (Approval → Bool) → (Approval → Approval) → List Approval → List Approval
update_first p f [] = []
update_first p f (a ∷ rest) = if p a then f a ∷ rest else a ∷ update_first p f rest

abbrev pub consume : Approval → Approval
consume a = record a { status = consumed }

abbrev pub request : String → GatedAction → String → ℕ → Approval
request project action id now = record {
  id = id;
  project_id = project;
  action = action;
  status = pending;
  requested_at = now;
  decided_at = none;
}

-- The callback of `gate`, which runs where the policy is `approve`.
gate_approve : String → GatedAction → String → ℕ → Document → GateResult × Document
gate_approve project action id now s = elim (find (is_grant project action) s.approvals) [
  | some grant ↦
      (allowed, record s { approvals = update_first (is_grant project action) consume s.approvals })
  | none ↦ (
    approval_required id,
    record s { approvals = s.approvals ++ request project action id now ∷ [] },
  )
]

gate_by : Decision → String → GatedAction → String → ℕ → Document → GateResult × Document
gate_by allow project action id now s = (allowed, s)
gate_by deny project action id now s = (blocked, s)
gate_by approve project action id now s = mutate routing (gate_approve project action id now) s

unfoldable pub gate : String → GatedAction → String → ℕ → Document → GateResult × Document
unfolding gate_by gate_approve
gate project action id now s = gate_by (effective_policy project action s) project action id now s

abbrev pub status_text : ApprovalStatus → String
status_text pending = "pending"
status_text granted = "granted"
status_text denied = "denied"
status_text consumed = "consumed"

-- `!status || a.status === status`
abbrev pub status_fits : Option String → ApprovalStatus → Bool
status_fits none s = true
status_fits (some t) s = t == "" || status_text s == t

unfoldable pub list_approvals : String → Option String → Document → List Approval
list_approvals project status s =
    filter (λ a. a.project_id == project && status_fits status a.status) s.approvals

unfoldable pub is_named : String → String → Approval → Bool
is_named project id a = a.id == id && a.project_id == project

pub data Verdict : Type 0 where
  grant refuse : Verdict

abbrev pub status_of : Verdict → ApprovalStatus
status_of grant = granted
status_of refuse = denied

abbrev pub is_grant_verdict : Verdict → Bool
is_grant_verdict grant = true
is_grant_verdict refuse = false

abbrev pub settle : Verdict → ℕ → Approval → Approval
settle verdict now a = record a { status = status_of verdict; decided_at = some now }

-- What the callback of `decide` does to a pending approval, the one that it finds.
settled : String → String → Verdict → Bool → ℕ → Approval → Document → Document
settled project id verdict always now a s =
    let decided = record s {
      approvals = update_first (is_named project id) (settle verdict now) s.approvals;
    } in
    if is_grant_verdict verdict && always then override project a.action allow decided else decided

-- The callback of `decide`.
decide_in : String → String → Verdict → Bool → ℕ → Document → Option Approval × Document
decide_in project id verdict always now s = elim (find (is_named project id) s.approvals) [
  | none ↦ (none, s)
  | some a ↦
      if is_pending a.status
      then (some (settle verdict now a), settled project id verdict always now a s)
      else (none, s)
]

unfoldable pub decide : String → String → Verdict → Bool → ℕ → Document → Option Approval × Document
unfolding decide_in settled
decide project id verdict always now s = mutate routing (decide_in project id verdict always now) s
