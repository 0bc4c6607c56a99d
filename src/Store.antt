-- ===== src/Store.antt =====
-- The state document (src/state.ts) as far as the modelled components use it, its two write
-- classes, and `mutate`. The file and the parse cache are left out: a load answers the document
-- that the last save wrote.
pub mod Laws
pub mod Reservations
pub mod Migrate
use instacloud_oss.Base.{
  ℕ, ◌+◌, ◌-◌, String, Bool, List, Map, Option, Eq, nat_eq, length, drop, ltb, ◌≡◌, refl, ◌↔◌, true,
  if◌then◌else◌, arith,
}

pub data Decision : Type 0 where
  allow deny approve : Decision

-- `GATED_ACTIONS`, in its order
pub data GatedAction : Type 0 where
  secrets_read secrets_write storage_read storage_write storage_delete : GatedAction
  db_read db_query deploy project_delete branch_delete : GatedAction
  service_add service_remove service_set_access service_rename service_upgrade : GatedAction

pub data ApprovalStatus : Type 0 where
  pending granted denied consumed : ApprovalStatus

pub record Approval : Type 0 where
  pub id : String
  pub project_id : String
  pub action : GatedAction
  pub status : ApprovalStatus
  pub requested_at : ℕ
  pub decided_at : Option ℕ

pub data EventSource : Type 0 where
  agent resource govern : EventSource

pub record AuditEvent : Type 0 where
  pub id : String
  pub project_id : String
  pub branch : Option String
  pub source : EventSource
  pub kind : String
  pub dedup_key : Option String
  pub created_at : ℕ

pub record Document : Type 0 where
  pub policies : Map String (Map GatedAction Decision)
  pub approvals : List Approval
  pub events : List AuditEvent
  pub rev : ℕ
  pub audit_rev : ℕ

abbrev pub events_cap : ℕ
events_cap = 5000

pub data SaveKind : Type 0 where
  routing audit : SaveKind

abbrev bump : SaveKind → Document → Document
bump routing s = record s { rev = s.rev + 1 }
bump audit s = record s { audit_rev = s.audit_rev + 1 }

-- `events.slice(-EVENTS_CAP)`
abbrev trim : List AuditEvent → List AuditEvent
trim es = if ltb events_cap (length es) then drop (length es - events_cap) es else es

unfoldable pub save_state : SaveKind → Document → Document
save_state kind s = record (bump kind s) { events = trim s.events }

-- Read, change, write. The callback answers a value beside the changed document.
unfoldable pub mutate {ℓ} :
    {T : Type ℓ} → SaveKind → (Document → T × Document) → Document → T × Document
mutate kind fn s = let (out, changed) = fn s in (out, save_state kind changed)

-- The place of an action in `GATED_ACTIONS` tells the actions apart.
action_index : GatedAction → ℕ
action_index secrets_read = 0
action_index secrets_write = 1
action_index storage_read = 2
action_index storage_write = 3
action_index storage_delete = 4
action_index db_read = 5
action_index db_query = 6
action_index deploy = 7
action_index project_delete = 8
action_index branch_delete = 9
action_index service_add = 10
action_index service_remove = 11
action_index service_set_access = 12
action_index service_rename = 13
action_index service_upgrade = 14

unfoldable pub action_eq : GatedAction → GatedAction → Bool
unfolding action_index
action_eq a b = nat_eq (action_index a) (action_index b)

pub action_eq_iff : (a b : GatedAction) → (action_eq a b ≡ true) ↔ (a ≡ b)
unfolding action_eq
action_eq_iff a b = ground arith

instance abbrev pub action_instance : Eq GatedAction
action_instance = record { same = action_eq; same_iff = action_eq_iff }
