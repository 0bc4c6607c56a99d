-- ===== src/Govern/Tests.antt =====
-- The governance theorems at concrete documents, and runs of the code.
use instacloud_oss.Base.{
  ◌+◌, ◌≡◌, refl, false, List, [], ◌∷◌, none, some, get, string_instance, Option,
}
use instacloud_oss.Store.{
  Document, Approval, approve, deploy, granted, save_state, action_eq, mutate, action_instance,
}
use instacloud_oss.Govern.{
  allowed, approval_required, effective_policy, gate, decide, grant, is_named, is_grant,
}
use instacloud_oss.Govern.Laws.{grants}
use instacloud_oss.Govern.History.{
  Call, gates, decides, step, run, spends, earns, total, StaysApprove, run_balance,
}

abbrev granted_deploy : Approval
granted_deploy = record {
  id = "a1";
  project_id = "p";
  action = deploy;
  status = granted;
  requested_at = 1;
  decided_at = some 2;
}

-- A project whose deploys want approval, with one grant at hand.
abbrev guarded : Document
guarded = record {
  policies = ("p", (deploy, approve) ∷ []) ∷ [];
  approvals = granted_deploy ∷ [];
  events = [];
  rev = 4;
  audit_rev = 9;
}

gate_consumes : (gate "p" deploy "a2" 7 guarded).0 ≡ allowed
unfolding gate effective_policy is_grant get action_eq mutate
gate_consumes = refl

gate_again : (gate "p" deploy "a3" 8 (gate "p" deploy "a2" 7 guarded).1).0 ≡ approval_required "a3"
unfolding gate effective_policy is_grant save_state get action_eq mutate
gate_again = refl

-- A history: one gate uses the grant, the next asks, the request is granted, and the third passes.
abbrev history : List Call
history =
    gates "p" deploy "a2" 7
    ∷ gates "p" deploy "a3" 8
    ∷ decides "p" "a3" grant false 9
    ∷ gates "p" deploy "a4" 10
    ∷ []

history-spends : total "p" deploy (spends "p" deploy) history guarded ≡ 2
unfolding total spends step gate decide effective_policy is_grant is_named save_state get action_eq
    mutate
history-spends = refl

history_stays : StaysApprove "p" deploy history guarded
unfolding step gate decide effective_policy is_grant is_named save_state get action_eq mutate
history_stays = (refl, (refl, (refl, (refl, tt))))

run_balance_example :
    total "p" deploy (spends "p" deploy) history guarded + grants "p" deploy (run history guarded)
    ≡ grants "p" deploy guarded + total "p" deploy (earns "p" deploy) history guarded
run_balance_example = run_balance "p" deploy history guarded history_stays

-- `decide` with these arguments
abbrev decided : Option Approval × Document
decided = decide "p" "a1" grant false 9 guarded

decide_twice : decided.0 ≡ none
unfolding decide is_named mutate
decide_twice = refl
