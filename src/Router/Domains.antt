-- ===== src/Router/Domains.antt =====
-- The verdict on the DNS record of a custom domain (src/router/domains.ts). The resolver is a
-- parameter: each query answers texts or fails with a code.
use instacloud_oss.Base.{
  ◌≡◌, refl, String, Bool, true, false, List, [], ◌∷◌, ◌++◌, Option, none, some, string_instance,
  list_instance, nat_instance, ◌==◌, ◌&&◌, ◌||◌, if◌then◌else◌, contains, any, arith, Bool-cases,
  inl, inr, list_same_iff,
}
use instacloud_oss.Router.Table.{Text}

pub data DnsStatus : Type 0 where
  ok missing mismatch unchecked : DnsStatus

pub data Answer : Type 0 where
  records : List Text → Answer
  failed : String → Answer

pub record Resolver : Type 0 where
  pub resolve4 : Text → Answer
  pub resolve_cname : Text → Answer

abbrev pub is_not_found : String → Bool
is_not_found code = code == "ENOTFOUND" || (code == "NXDOMAIN" || code == "ENODATA")

abbrev pub or_none : Answer → List Text
or_none (records rs) = rs
or_none (failed code) = []

abbrev api_dot : Text
api_dot = b'a' ∷ b'p' ∷ b'i' ∷ b'.' ∷ []

pub record DnsRecordCheck : Type 0 where
  pub name : Text
  pub value : Text
  pub note : Option Text
  pub status : DnsStatus

pub data DomainStatus : Type 0 where
  pending ready not_added : DomainStatus

pub record ComputeDomainResult : Type 0 where
  pub hostname : Text
  pub fly_app : Text
  pub configured : Bool
  pub status : DomainStatus
  pub dns : List DnsRecordCheck
  pub service : Text

-- `normalize` is `toLowerCase` and the removal of a trailing dot.
module _ (normalize : Text → Text) (domain : Text) (public_ip : Option Text) (dns : Resolver) where
  abbrev pub target : Text
  target = api_dot ++ domain

  unfoldable pub our_addresses : List Text
  our_addresses = elim public_ip [ none ↦ [] | some ip ↦ ip ∷ [] ] ++ or_none (dns.resolve4 target)

  -- The verdict from the addresses of the name.
  abbrev address_status : List Text → Answer → DnsStatus
  address_status ours (failed code) = if is_not_found code then missing else unchecked
  address_status ours (records []) = missing
  address_status ours (records (a ∷ more)) =
      if any (λ b. contains b ours) (a ∷ more) then ok else mismatch

  abbrev pub is_cname_hit : Text → Bool
  is_cname_hit hostname = any (λ c. normalize c == target) (or_none (dns.resolve_cname hostname))

  -- `ours` is resolved once by a caller with several names, and here otherwise.
  unfoldable pub dns_status : Text → Option (List Text) → DnsStatus
  dns_status hostname ours =
      if is_cname_hit hostname
      then ok
      else address_status (elim ours [ none ↦ our_addresses | some a ↦ a ]) (dns.resolve4 hostname)

  unfoldable pub check_dns : Text → Option (List Text) → DnsRecordCheck
  check_dns hostname ours = record {
    name = hostname;
    value = target;
    note = public_ip;
    status = dns_status hostname ours;
  }

  -- What makes a verdict of the DNS good: a canonical name that is ours, or an address that is.
  pub data PointsHere (hostname : Text) (ours : List Text) : Type 0 where
    by_name :
        (c : Text) (cs : List Text)
        → dns.resolve_cname hostname ≡ records cs
        → contains c cs ≡ true
        → normalize c ≡ target
        → PointsHere hostname ours
    by_address :
        (a : Text) (rs : List Text)
        → dns.resolve4 hostname ≡ records rs
        → contains a rs ≡ true
        → contains a ours ≡ true
        → PointsHere hostname ours

abbrev pub is_ok : DnsStatus → Bool
is_ok ok = true
is_ok _ = false

unfoldable pub domain_result : Text → Text → Text → DnsRecordCheck → Bool → ComputeDomainResult
domain_result hostname fly_app service dns cert_ok =
    let configured = is_ok dns.status && cert_ok in
    record {
      hostname = hostname;
      fly_app = fly_app;
      configured = configured;
      status = if configured then ready else pending;
      dns = dns ∷ [];
      service = service;
    }

unfoldable pub not_added_result : Text → Text → Text → ComputeDomainResult
not_added_result hostname fly_app service = record {
  hostname = hostname;
  fly_app = fly_app;
  configured = false;
  status = not_added;
  dns = [];
  service = service;
}

any-witness :
    (p : Text → Bool) (xs : List Text)
    → any p xs ≡ true
    → (x : Text) × (contains x xs ≡ true) × (p x ≡ true)
unfolding contains
any-witness p [] h = absurd (ground arith)
any-witness p (x ∷ xs) h = elim (Bool-cases (p x)) [
  | inl e ↦ (x, rw (text_self x) refl, e)
  | inr e ↦ let (y, among, f) = any-witness p xs (ground arith) in (y, ground arith, f)
]
  where
    text_self : (t : Text) → (t == t) ≡ true
    text_self t = (list_same_iff t t).1 refl

module _ (normalize : Text → Text) (domain : Text) (public_ip : Option Text) (dns : Resolver) where
  module _ (hostname : Text) (ours : List Text) where
    by_cname :
        (answer : Answer)
        → dns.resolve_cname hostname ≡ answer
        → any (λ c. normalize c == api_dot ++ domain) (or_none answer) ≡ true
        → PointsHere normalize domain public_ip dns hostname ours
    by_cname (failed code) e h = absurd (ground arith)
    by_cname (records cs) e h =
        let (c, among, same) = any-witness (λ c. normalize c == api_dot ++ domain) cs h in
        by_name c cs e among ((list_same_iff (normalize c) (api_dot ++ domain)).0 same)

    by_addresses :
        (answer : Answer)
        → dns.resolve4 hostname ≡ answer
        → is_ok (address_status normalize domain public_ip dns ours answer) ≡ true
        → PointsHere normalize domain public_ip dns hostname ours
    by_addresses (failed code) e h = absurd (ground arith)
    by_addresses (records []) e h = absurd (ground arith)
    by_addresses (records (r ∷ rs)) e h =
        let (a, among, own) = any-witness (λ b. contains b ours) (r ∷ rs) (ground arith) in
        by_address a (r ∷ rs) e among own

    ok-PointsHere :
        is_ok (dns_status normalize domain public_ip dns hostname (some ours)) ≡ true
        → PointsHere normalize domain public_ip dns hostname ours
    unfolding dns_status
    ok-PointsHere h = elim (Bool-cases (is_cname_hit normalize domain public_ip dns hostname)) [
      | inl e ↦ by_cname (dns.resolve_cname hostname) refl e
      | inr e ↦ by_addresses (dns.resolve4 hostname) refl (ground arith)
    ]

  -- A custom domain is answered as configured only if its certificate is there and a canonical name
  -- of it is the daemon's, or one of its addresses is one of the daemon's.
  pub configured-PointsHere :
      (hostname fly_app service : Text) (ours : List Text) (cert_ok : Bool)
      → (domain_result hostname fly_app service
          (check_dns normalize domain public_ip dns hostname (some ours))
          cert_ok).configured
        ≡ true
      → (cert_ok ≡ true) × PointsHere normalize domain public_ip dns hostname ours
  unfolding domain_result check_dns
  configured-PointsHere hostname fly_app service ours cert_ok h =
      (ground arith, ok-PointsHere hostname ours (ground arith))
