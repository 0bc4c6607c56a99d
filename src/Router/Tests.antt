-- ===== src/Router/Tests.antt =====
-- Runs of the router's parts and of the address cache on concrete inputs.
use instacloud_oss.Base.{
  ◌↔◌, ℕ, suc, ◌≡◌, ◌≤◌, refl, String, true, false, List, [], ◌∷◌, ◌++◌, none, some, arith, ltb,
  if◌then◌else◌, get, pair_instance, string_instance, nat_instance, list_instance, contains, find,
}
use instacloud_oss.Upstream.{Upstream, UpstreamAddr, Docker}
use instacloud_oss.Router.Lane.{
  WakeDeps, resolved, ok, resolve_or_wake, connect_upstream, probed, resolved_again, after_wake,
  wake_first, use_address,
}
use instacloud_oss.Router.Lane.Laws.{
  IsProven, resolve_or_wake-woke, CountsWakes, connect_upstream_wakes,
}
use instacloud_oss.Router.Wire.{
  error_response_code, error_response_code_fields, write_fields, first_code,
}
use instacloud_oss.Router.Table.{Text, Route, compute, http, running, service, add_all, empty_table}
use instacloud_oss.Router.Table.Laws.{lookup_is_first, answers}
use instacloud_oss.Router.Table.Names.{dot}
use instacloud_oss.Router.Table.Build.{ManagedTypes, Config, State, api_text}
use instacloud_oss.Metrics.Window.{trim_start, trim_end}
use instacloud_oss.Router.Table.Names.{split_dots, is_hostname, is_label}
use instacloud_oss.Router.Attach.{
  normalize_hostname, check_hostname, accepted, strip_dot, is_ip_literal, ends_with,
}
use instacloud_oss.Router.Attach.Laws.{IsAttachable, normalize_hostname-IsAttachable}
use instacloud_oss.Router.Domains.{Resolver, records, failed, domain_result, check_dns, dns_status}

-- The address cache

abbrev web_addr : UpstreamAddr
web_addr = record { host = "10.0.0.5"; port = 80; container_id = "a1"; started_at = "" }

abbrev one_cached : Upstream
one_cached = record {
  cache = (("io-web", 80), record { addr = web_addr; expires_at = 5000 }) ∷ [];
  clock = 100;
}

abbrev db_name : String
db_name = "io-db"

-- The container has restarted under another id and address.
abbrev restarted : Docker
restarted = record {
  inspect = λ c n s.
      (some (record { ip = "10.0.0.9"; id = "b2"; started_at = ""; is_running = true }), s);
  published_port = λ c p s. (none, s);
}

-- A lane whose state counts the wakes: the cached address refuses until the service is woken.

abbrev refusing : WakeDeps ℕ ℕ ℕ
refusing = record {
  resolve = λ w. (some 7, w);
  forget = λ w. w;
  is_running = λ w. true;
  wake = λ w. (resolved, suc w);
  probe = λ a w. (true, w);
  aborted = λ w. false;
  connect = λ a w. (if ltb 0 w then some 9 else none, w);
}

abbrev counted : CountsWakes refusing (λ w. w)
counted = record {
  by_wake = λ w. refl;
  by_resolve = λ w. refl;
  by_forget = λ w. refl;
  by_probe = λ a w. refl;
  by_connect = λ a w. refl;
}

connect_upstream_wakes_example : (connect_upstream refusing 0).1 ≤ 1
connect_upstream_wakes_example = connect_upstream_wakes refusing (λ w. w) counted 0

forced : resolve_or_wake refusing true 0 ≡ (ok (7, true), 1)
unfolding resolve_or_wake use_address wake_first after_wake resolved_again probed
forced = refl

resolve_or_wake-woke_example : (u : ℕ) × (false ≡ false) × IsProven refusing u 7 1
resolve_or_wake-woke_example = resolve_or_wake-woke refusing true 0 7 1 forced

-- Packets

abbrev user_param : List (List ℕ × List ℕ)
user_param = (b'u' ∷ [], b'p' ∷ []) ∷ []

-- `57P03`, after the severity
abbrev starting_up : List (ℕ × List ℕ)
starting_up =
    (b'S', b'F' ∷ []) ∷ (b'C', b'5' ∷ b'7' ∷ b'P' ∷ b'0' ∷ b'3' ∷ []) ∷ (b'M', b'x' ∷ []) ∷ []

error_response_code_fields_example :
    error_response_code (b'E' ∷ 0 ∷ 0 ∷ 0 ∷ 20 ∷ write_fields starting_up) ≡ first_code starting_up
error_response_code_fields_example = error_response_code_fields b'E' 0 0 0 20 starting_up (
  (λ h. omega arith, (λ h. omega arith, tt)),
  (
    (
      λ h. omega arith,
      (
        λ h. omega arith,
        (λ h. omega arith, (λ h. omega arith, (λ h. omega arith, (λ h. omega arith, tt)))),
      ),
    ),
    ((λ h. omega arith, (λ h. omega arith, tt)), tt),
  ),
)

-- The route table

abbrev no_managed : ManagedTypes
no_managed = record {
  has_sni = λ t. false;
  is_redis = λ t. false;
  port_of = λ t. 0;
  container_name = λ r t n. [];
}

abbrev box_config : Config
box_config = record {
  is_server = true;
  domain = b'i' ∷ b'o' ∷ [];
  port = 8080;
  pg_port = 5432;
  redis_port = 6379;
  mongo_port = 27017;
}

-- An app that claims the daemon's own name.
abbrev greedy : State
greedy = record {
  branches =
      record {
        id = b'b' ∷ [];
        project_id = b'p' ∷ [];
        name = b'm' ∷ [];
        ref = none;
        network = [];
        apps =
            (
              b'w' ∷ [],
              record {
                host = some (api_text ++ dot ∷ b'i' ∷ b'o' ∷ []);
                port = 80;
                desired_state = none;
              },
            )
            ∷ [];
        databases = [];
        has_db_url = false;
        managed = [];
        buckets = [];
        bucket = none;
        lanes = [];
      }
      ∷ [];
  projects =
      (
        b'p' ∷ [],
        record { id = b'p' ∷ []; name = b'p' ∷ []; ref_slug = none; managed_services = [] },
      )
      ∷ [];
  custom_domains = [];
}

abbrev plain_route : Text → Text → Route
plain_route key host = record {
  key = key;
  host = host;
  aliases = [];
  kind = service compute;
  lane = http;
  container = [];
  network = [];
  port = 80;
  listen_port = none;
  tls = false;
  desired_state = running;
}

abbrev two_claims : List Route
two_claims = plain_route (b'a' ∷ []) (b'h' ∷ []) ∷ plain_route (b'b' ∷ []) (b'h' ∷ []) ∷ []

lookup_is_first_example :
    get (b'h' ∷ []) (add_all true two_claims empty_table).by_host
    ≡ find (answers (b'h' ∷ [])) two_claims
lookup_is_first_example = lookup_is_first true two_claims (b'h' ∷ [])

-- A custom domain with an address of the daemon.

abbrev dns : Resolver
dns = record { resolve4 = λ h. records ((1 ∷ []) ∷ []); resolve_cname = λ h. failed "ENODATA" }

configured :
    (domain_result
      (b'x' ∷ [])
      []
      []
      (check_dns (λ x. x) (b'd' ∷ []) none dns (b'x' ∷ []) (some ((1 ∷ []) ∷ [])))
      true).configured
    ≡ true
unfolding domain_result check_dns dns_status contains
configured = refl

-- A name that an operator attaches: ` a.io. `

abbrev given_name : Text
given_name = b' ' ∷ b'a' ∷ dot ∷ b'i' ∷ b'o' ∷ dot ∷ b' ' ∷ []

abbrev kept_name : Text
kept_name = b'a' ∷ dot ∷ b'i' ∷ b'o' ∷ []

accepts : normalize_hostname (λ x. x) (b'd' ∷ []) (some given_name) ≡ accepted kept_name
unfolding normalize_hostname check_hostname trim_start trim_end strip_dot is_ip_literal ends_with
    split_dots is_hostname is_label contains
accepts = refl

normalize_hostname-IsAttachable_example :
    (normalize_hostname (λ x. x) (b'd' ∷ []) (some given_name) ≡ accepted kept_name)
    ↔ IsAttachable (λ x. x) (b'd' ∷ []) given_name kept_name
normalize_hostname-IsAttachable_example =
    normalize_hostname-IsAttachable (λ x. x) (b'd' ∷ []) given_name kept_name
