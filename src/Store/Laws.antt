-- ===== src/Store/Laws.antt =====
-- What a save does to the document.
use instacloud_oss.Base.{
  suc, ◌+◌, ◌-◌, ◌≤◌, ◌≡◌, refl, List, [], ◌++◌, length, take, length-drop, ltb, take-append-drop,
  Bool-cases, inl, inr, arith,
}
use instacloud_oss.Store.{
  Document, AuditEvent, SaveKind, routing, audit, trim, save_state, events_cap,
}

length-trim : (es : List AuditEvent) → length (trim es) ≤ events_cap
length-trim es = ground (arith, length-drop (length es - events_cap) es)

trim-suffix : (es : List AuditEvent) → (old : List AuditEvent) × (old ++ trim es ≡ es)
trim-suffix es = elim (Bool-cases (ltb events_cap (length es))) [
  | inl over ↦ (take (length es - events_cap) es, rw over (take-append-drop _ es))
  | inr fits ↦ ([], rw fits)
]

-- A save of either kind leaves at most `EVENTS_CAP` events, which are the newest ones: they end the
-- list that was handed over. It keeps policies and approvals, and raises the revision of its own
-- kind by one and the other not at all.
pub save_state_lem :
    (kind : SaveKind) (s : Document)
    → let t = save_state kind s in
      (length t.events ≤ events_cap)
      × ((old : List AuditEvent) × (old ++ t.events ≡ s.events))
      × (t.policies ≡ s.policies)
      × (t.approvals ≡ s.approvals)
      × (t.rev + t.audit_rev ≡ suc (s.rev + s.audit_rev))
      × (kind ≡ audit → t.rev ≡ s.rev)
      × (kind ≡ routing → t.audit_rev ≡ s.audit_rev)
unfolding save_state
save_state_lem routing s =
    (length-trim s.events, trim-suffix s.events, refl, refl, omega arith, λ e. cc, λ e. refl)
save_state_lem audit s =
    (length-trim s.events, trim-suffix s.events, refl, refl, omega arith, λ e. refl, λ e. cc)
