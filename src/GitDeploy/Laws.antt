-- ===== src/GitDeploy/Laws.antt =====
-- Where a token can be read, and which pushes are acted on.
use instacloud_oss.Base.{
  ℕ, ◌≡◌, ◌≤◌, ◌⊎◌, refl, subst, true, false, ◌∷◌, ◌++◌, some, get_or, ◌&&◌, ◌||◌, not, nat_eq,
  length, take, drop, all, arith, Bool-cases, Option-cases, inl, inr, list_instance, nat_instance,
  ◌==◌, list_same_iff, take-append-drop,
}
use instacloud_oss.GitDeploy.{
  Text, GitBinding, docker_build_spec, units, Stamp, before, since, clamp, PushBody, Push, heads,
  is_commit, is_hex, push_of, push_ref,
}

-- Two bindings of one repository that both have a token, whatever the tokens are, run the very same
-- command line: it shows that there is a token and nothing else of it.
pub args_hide_token :
    (b : GitBinding) (tag fragment : Text) (c d : ℕ) (cs ds : Text)
    → (docker_build_spec (record b { token = c ∷ cs }) tag fragment).args
      ≡ (docker_build_spec (record b { token = d ∷ ds }) tag fragment).args
unfolding docker_build_spec
args_hide_token b tag fragment c d cs ds = refl

-- A time that is no later than another.
abbrev pub IsBy : Stamp → ℕ → Type 0
IsBy (before n) now = Unit
IsBy (since n) now = n ≤ now

clamp-IsBy : (t : Stamp) (now : ℕ) → IsBy (clamp t now) now
clamp-IsBy (before n) now = tt
clamp-IsBy (since n) now = omega arith

-- What a push that is acted on is: a branch that was not deleted, at a full commit id other than
-- the all-zero one, with an ordering key that is not in the future.
pub record IsPush (body : PushBody) (now : ℕ) (p : Push) : Type 0 where
  pub kept : body.deleted ≡ false
  pub branch_of : body.ref ≡ some (heads ++ p.branch)
  pub commit_of : body.after ≡ some p.sha
  pub full : (length p.sha ≡ 40) ⊎ (length p.sha ≡ 64)
  pub hex : all is_hex p.sha ≡ true
  pub nonzero : all (λ c. nat_eq c b'0') p.sha ≡ false
  pub by_now : IsBy p.ts now

module _ (body : PushBody) (now : ℕ) (p : Push) where
  push_of-IsPush :
      (ref sha : Text)
      → body.deleted ≡ false
      → body.ref ≡ some ref
      → body.after ≡ some sha
      → push_of ref sha body.timestamp now ≡ some p
      → IsPush body now p
  unfolding push_of is_commit
  push_of-IsPush ref sha kept e f h = elim (Bool-cases (take 11 ref == heads && is_commit sha)) [
    | inr g ↦ absurd (ground arith)
    | inl g ↦
        let starts : take 11 ref ≡ heads = (list_same_iff (take 11 ref) heads).0 (ground arith) in
        let whole : heads ++ drop 11 ref ≡ ref =
          subst (λ x. x ++ drop 11 ref ≡ ref) starts (take-append-drop 11 ref) in
        let made : record {
          branch = drop 11 ref;
          sha = sha;
          ts = clamp (get_or body.timestamp (since now)) now;
        }
            ≡ p =
          ground arith in
        subst (IsPush body now) made (record {
          kept = kept;
          branch_of = rw whole e;
          commit_of = f;
          full = ground arith;
          hex = ground arith;
          nonzero = ground arith;
          by_now = clamp-IsBy (get_or body.timestamp (since now)) now;
        })
  ]

  -- A webhook that is acted on is a push event for a branch that was not deleted, at a full commit
  -- id other than the all-zero one, and its ordering key is not in the future, whatever timestamp
  -- the client sent.
  pub push_ref-IsPush :
      (event : Text) → push_ref event body now ≡ some p → (event ≡ units "push") × IsPush body now p
  unfolding push_ref
  push_ref-IsPush event h = elim (Bool-cases (not (event == units "push") || body.deleted)) [
    | inl e ↦ absurd (ground arith)
    | inr e ↦
        let push : event ≡ units "push" = (list_same_iff event (units "push")).0 (ground arith) in
        elim (Option-cases body.ref) [
          | inl f ↦ absurd (ground arith)
          | inr (ref, f) ↦ elim (Option-cases body.after) [
            | inl g ↦ absurd (ground arith)
            | inr (sha, g) ↦ (push, push_of-IsPush ref sha (ground arith) f g (ground arith))
          ]
        ]
  ]
