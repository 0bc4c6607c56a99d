-- ===== src/Router/Attach.antt =====
-- The names that come from outside: the Host header of a request (`hostOnly` and `assertHostLabel`
-- of src/router/table.ts) and the hostname of a custom domain (`normalizeHostname` of
-- src/router/domains.ts). The lower case of the language is a parameter.
pub mod Shape
pub mod Trim
pub mod Accepts
pub mod Passes
pub mod Laws
use instacloud_oss.Base.{
  ℕ, suc, ◌≡◌, ◌≢◌, Bool, true, false, [], ◌∷◌, ◌++◌, Option, none, some, ◌&&◌, ◌||◌, not,
  if◌then◌else◌, leb, nat_eq, length, all, contains, nat_instance, list_instance, ◌==◌, arith,
  list_same_iff, subst,
}
use instacloud_oss.Metrics.Window.{trim_start, trim_end, is_digit}
use instacloud_oss.Router.Table.{Text}
use instacloud_oss.Router.Table.Names.{dot, split_dots, is_hostname}

abbrev pub trim : Text → Text
trim t = trim_end (trim_start t)

-- `.replace(/\.$/, '')`
unfoldable pub strip_dot : Text → Text
strip_dot [] = []
strip_dot (c ∷ []) = if nat_eq c dot then [] else c ∷ []
strip_dot (c ∷ d ∷ cs) = c ∷ strip_dot (d ∷ cs)

-- The text before the first such character, if there is one.
unfoldable pub before_char : ℕ → Text → Option Text
before_char b [] = none
before_char b (c ∷ cs) =
    let rest = before_char b cs in
    if nat_eq c b then some [] else elim rest [ none ↦ none | some t ↦ some (c ∷ t) ]

unfoldable pub count_char : ℕ → Text → ℕ
count_char b [] = 0
count_char b (c ∷ cs) = let rest = count_char b cs in if nat_eq c b then suc rest else rest

-- A port goes away where there is one colon; an address in brackets keeps them.
abbrev strip_port : Text → Text
strip_port [] = []
strip_port (c ∷ cs) =
    if nat_eq c b'['
    then elim (before_char b']' (c ∷ cs)) [ none ↦ c ∷ cs | some t ↦ t ++ b']' ∷ [] ]
    else elim (before_char b':' (c ∷ cs)) [
      | none ↦ c ∷ cs
      | some t ↦ if nat_eq (count_char b':' (c ∷ cs)) 1 then t else c ∷ cs
    ]

abbrev pub is_octet : Text → Bool
is_octet label = leb 1 (length label) && (leb (length label) 3 && all is_digit label)

unfoldable pub is_ip_literal : Text → Bool
is_ip_literal h =
    (nat_eq (length (split_dots h)) 4 && all is_octet (split_dots h)) || contains b':' h

unfoldable pub ends_with : Text → Text → Bool
ends_with suffix [] = [] == suffix
ends_with suffix (c ∷ cs) = (c ∷ cs) == suffix || ends_with suffix cs

abbrev pub is_under : Text → Text → Bool
is_under domain h = h == domain || ends_with (dot ∷ domain) h

pub data DomainError : Type 0 where
  hostname_required ip_address invalid_label no_dot own_suffix : DomainError

pub data Normalized : Type 0 where
  accepted : Text → Normalized
  refused : DomainError → Normalized

module _ (to_lower : Text → Text) where
  unfoldable pub host_only : Option Text → Text
  host_only none = []
  host_only (some []) = []
  host_only (some (c ∷ cs)) = strip_dot (strip_port (to_lower (trim (c ∷ cs))))

  -- What is checked and kept of the text that was given.
  abbrev pub canonical : Text → Text
  canonical raw = strip_dot (to_lower (trim raw))

  unfoldable pub check_hostname : Text → Text → Normalized
  check_hostname domain h =
      if is_ip_literal h
      then refused ip_address
      else (if not (is_hostname h)
          then refused invalid_label
          else (if not (contains dot h)
              then refused no_dot
              else (if is_under domain h then refused own_suffix else accepted h)))

  -- `none` is a value that is no text.
  unfoldable pub normalize_hostname : Text → Option Text → Normalized
  unfolding check_hostname
  normalize_hostname domain none = refused hostname_required
  normalize_hostname domain (some raw) =
      if trim raw == [] then refused hostname_required else check_hostname domain (canonical raw)
