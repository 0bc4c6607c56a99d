-- ===== src/Router/Table/Lookup.antt =====
-- Who answers a name: the daemon's own names belong to the daemon.
use instacloud_oss.Base.{
  ◌≡◌, refl, ◌∙◌, true, ◌∷◌, ◌++◌, some, get, list_instance, nat_instance, contains, list_same_iff,
  ◌==◌,
}
use instacloud_oss.Router.Table.{Text, Route, Table}
use instacloud_oss.Router.Table.Laws.{answers, lookup_is_first}
use instacloud_oss.Router.Table.Names.{dot}
use instacloud_oss.Router.Table.Build.{
  ManagedTypes, Config, State, api_text, console_text, api_route, routes_of, build_table, by_host,
}

module _ (types : ManagedTypes) (to_lower sha256_hex : Text → Text) (cfg : Config) where
  text_self : (t : Text) → (t == t) ≡ true
  text_self t = (list_same_iff t t).1 refl

  by_host-exact :
      (t : Table) (h : Text) (r : Route)
      → get h t.by_host ≡ some r
      → by_host types to_lower sha256_hex cfg t h ≡ some r
  unfolding by_host
  by_host-exact t h r e = rw (e, by_host) refl

  of_daemon :
      (s : State) (h : Text)
      → answers h (api_route types to_lower sha256_hex cfg) ≡ true
      → by_host types to_lower sha256_hex cfg (build_table types to_lower sha256_hex cfg s) h
        ≡ some (api_route types to_lower sha256_hex cfg)
  unfolding build_table routes_of
  of_daemon s h e =
      by_host-exact (build_table types to_lower sha256_hex cfg s) h
        (api_route types to_lower sha256_hex cfg)
        (lookup_is_first cfg.is_server (routes_of types to_lower sha256_hex cfg s) h ∙ (rw e refl))

  -- `api.<domain>` and `console.<domain>` are answered by the daemon, whatever hosts and custom
  -- domains the state holds.
  pub daemon_names :
      (s : State)
      → let t = build_table types to_lower sha256_hex cfg s in
        let api = api_route types to_lower sha256_hex cfg in
        (by_host types to_lower sha256_hex cfg t (api_text ++ dot ∷ cfg.domain) ≡ some api)
        × (by_host types to_lower sha256_hex cfg t (console_text ++ dot ∷ cfg.domain) ≡ some api)
  unfolding contains
  daemon_names s = (
    of_daemon s (api_text ++ dot ∷ cfg.domain) (rw (text_self cfg.domain) refl),
    of_daemon s (console_text ++ dot ∷ cfg.domain) (rw (text_self cfg.domain) refl),
  )
