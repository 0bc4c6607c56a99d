-- ===== src/Upstream.antt =====
-- The cache of container addresses (src/upstream.ts). What docker answers is a parameter, with the
-- time that passes while it answers.
pub mod Laws
use instacloud_oss.Base.{
  ℕ, ◌+◌, String, Bool, true, false, List, [], ◌∷◌, Option, none, some, Map, get, put, del,
  pair_instance, string_instance, nat_instance, ◌==◌, ◌&&◌, not, if◌then◌else◌, ltb, filter,
}

pub record UpstreamAddr : Type 0 where
  pub host : String
  pub port : ℕ
  pub container_id : String
  pub started_at : String

pub record Cached : Type 0 where
  pub addr : UpstreamAddr
  pub expires_at : ℕ

-- A key is the container with the port; no container's name has the `#` that the code joins them by.
pub record Upstream : Type 0 where
  pub cache : Map (String × ℕ) Cached
  pub clock : ℕ

-- What `docker inspect` prints of a container.
pub record Inspected : Type 0 where
  pub ip : String
  pub id : String
  pub started_at : String
  pub is_running : Bool

-- `none` where docker fails; `port` answers the first published port, where there is one.
pub record Docker : Type 0 where
  pub inspect : String → String → Upstream → Option Inspected × Upstream
  pub published_port : String → ℕ → Upstream → Option ℕ × Upstream

abbrev pub mapped : Inspected → Option ℕ → Option UpstreamAddr
mapped i none = none
mapped i (some port) =
    some
      (record { host = "127.0.0.1"; port = port; container_id = i.id; started_at = i.started_at })

abbrev pub on_network : Inspected → ℕ → Option UpstreamAddr
on_network i port =
    if i.ip == ""
    then none
    else some (record { host = i.ip; port = port; container_id = i.id; started_at = i.started_at })

abbrev pub live_hit : ℕ → Option Cached → Option UpstreamAddr
live_hit now none = none
live_hit now (some hit) = if ltb now hit.expires_at then some hit.addr else none

module _ (docker : Docker) (is_server : Bool) (touch_debounce_ms : ℕ) where
  lookup_running : Inspected → String → ℕ → Upstream → Option UpstreamAddr × Upstream
  lookup_running i container port s =
      let (mapping, t) = docker.published_port container port s in
      if is_server then (on_network i port, s) else (mapped i mapping, t)

  unfoldable pub lookup : String → String → ℕ → Upstream → Option UpstreamAddr × Upstream
  unfolding lookup_running
  lookup container network port s =
      let (answer, t) = docker.inspect container network s in
      elim answer [
        | none ↦ (none, t)
        | some i ↦ if i.is_running then lookup_running i container port t else (none, t)
      ]

  keep_answer : String → ℕ → Option UpstreamAddr × Upstream → Option UpstreamAddr × Upstream
  keep_answer container port (none, t) = (none, record t { cache = del (container, port) t.cache })
  keep_answer container port (some addr, t) = (
    some addr,
    record t {
      cache =
          put (container, port) (record { addr = addr; expires_at = t.clock + touch_debounce_ms })
            t.cache;
    },
  )

  unfoldable pub resolve : String → String → ℕ → Upstream → Option UpstreamAddr × Upstream
  unfolding keep_answer
  resolve container network port s = elim (live_hit s.clock (get (container, port) s.cache)) [
    | some addr ↦ (some addr, s)
    | none ↦ keep_answer container port (lookup container network port s)
  ]

unfoldable pub forget : String → Upstream → Upstream
forget container s = record s { cache = filter (λ e. not (e.0.0 == container)) s.cache }

unfoldable pub forget_if_changed : String → String → Upstream → Upstream
forget_if_changed container id s = record s {
  cache = filter (λ e. not (e.0.0 == container && not (e.1.addr.container_id == id))) s.cache;
}
