-- ===== src/GitDeploy/Tests.antt =====
-- A build and a push on concrete inputs.
use instacloud_oss.Base.{ℕ, ◌≡◌, refl, false, List, [], some}
use instacloud_oss.GitDeploy.{
  GitBinding, units, PushBody, Push, since, push_ref, push_of, is_commit, image_tag,
}
use instacloud_oss.GitDeploy.Laws.{IsPush, push_ref-IsPush}

abbrev shop : GitBinding
shop = record { owner = units "acme"; repo = units "shop"; token = [] }

tags : image_tag (units "a-b") (some (units "0123456789abcdef")) ≡ units "io-git-ab:0123456789ab"
unfolding image_tag
tags = refl

abbrev head_sha : List ℕ
head_sha = units "0123456789abcdef0123456789abcdef01234567"

-- A commit dated long after the webhook came in.
abbrev from_the_future : PushBody
from_the_future = record {
  deleted = false;
  ref = some (units "refs/heads/main");
  after = some head_sha;
  timestamp = some (since 9999);
}

abbrev clamped : Push
clamped = record { branch = units "main"; sha = head_sha; ts = since 500 }

pushes : push_ref (units "push") from_the_future 500 ≡ some clamped
unfolding push_ref push_of is_commit
pushes = refl

push_ref-IsPush_example : (units "push" ≡ units "push") × IsPush from_the_future 500 clamped
push_ref-IsPush_example = push_ref-IsPush from_the_future 500 clamped (units "push") pushes
