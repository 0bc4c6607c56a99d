-- ===== src/Identity/Device/Invariant.antt =====
-- Every call of the device store keeps it sound.
use instacloud_oss.Base.{
  ℕ, ◌≡◌, ◌<◌, refl, String, List, [], ◌∷◌, none, some, Map, get, string_instance, nat_instance,
  list_instance, ◌==◌, if◌then◌else◌, leb, length, eq_iff, list_same_iff, arith, Bool-cases,
  Option-cases, inl, inr, get-put, get-del,
}
use instacloud_oss.Identity.Device.{
  Text, DeviceStatus, approved, denied, DeviceRecord, DeviceCodeStore, device_max_codes,
  device_max_per_ip, fresh_record, consume, gc_loop, gc, at_ip_cap, free_code, add_code,
  start_clean, start, normalize, find_code, mark, approve_found, approve, deny_found, deny,
  poll_live, poll_found, poll, is_pending, pending,
}
use instacloud_oss.Identity.Device.Laws.{
  Unique, put-Unique, length-put, per_ip, per_ip-put, per_ip-replace, below_cap, IsSound,
  consume-IsSound,
}

gc_loop-IsSound :
    (now : ℕ) (rest : List (String × DeviceRecord)) (d : DeviceCodeStore)
    → Unique rest
    → ((code : String) (r : DeviceRecord) → get code rest ≡ some r → get code d.by_device ≡ some r)
    → IsSound d
    → IsSound (gc_loop now rest d)
unfolding gc_loop get
gc_loop-IsSound now [] d u h s = s
gc_loop-IsSound now ((code, r) ∷ rest) d u h s =
    let g = h code r (ground (arith, eq_iff code code)) in
    elim (Bool-cases (leb r.expires_at now)) [
      | inl e ↦
          rw (e, gc_loop)
            (gc_loop-IsSound now rest (consume code r d) u.1
              (λ k v f.
                unfold consume in
                ground (arith, f, u.0, h k v, eq_iff code k, get-del code k d.by_device))
              (consume-IsSound code r d g s))
      | inr e ↦
          rw (e, gc_loop)
            (gc_loop-IsSound now rest d u.1 (λ k v f. ground (arith, f, u.0, h k v, eq_iff code k))
              s)
    ]

pub gc-IsSound : (now : ℕ) (d : DeviceCodeStore) → IsSound d → IsSound (gc now d)
unfolding gc
gc-IsSound now d s = gc_loop-IsSound now d.by_device d s.linked.unique (λ code r h. h) s

free_code-unused :
    (draws : List Text) (m : Map Text String) (c : Text)
    → free_code draws m ≡ some c
    → get c m ≡ none
unfolding free_code
free_code-unused [] m c h = cc
free_code-unused (x ∷ draws) m c h = elim (Option-cases (get x m)) [
  | inl e ↦ ground (arith, e, h)
  | inr (v, e) ↦ free_code-unused draws m c (ground (arith, e, h))
]

-- A code that is added under a new device code, with room in the store and for the address.
add_code-IsSound :
    (now : ℕ) (ip code : String) (c : Text) (d : DeviceCodeStore)
    → get code d.by_device ≡ none
    → get c d.by_user ≡ none
    → length d.by_device < device_max_codes
    → per_ip ip d.by_device < device_max_per_ip
    → IsSound d
    → IsSound (add_code now ip code (some c) d).1
unfolding add_code
add_code-IsSound now ip code c d fresh free room quota s =
    let r = fresh_record now ip c in
    record {
      linked = record {
        unique = put-Unique code r d.by_device s.linked.unique;
        to_device = λ u dc h. elim (Bool-cases (c == u)) [
          | inl e ↦ (
            r,
            ground (
              arith,
              e,
              h,
              get-put c u code d.by_user,
              get-put code dc r d.by_device,
              eq_iff code dc,
            ),
            (list_same_iff c u).0 e,
          )
          | inr e ↦
              let (r', g', e') =
                s.linked.to_device u dc (ground (arith, e, h, get-put c u code d.by_user)) in
              (r', ground (arith, g', fresh, get-put code dc r d.by_device, eq_iff code dc), e')
        ];
        to_user = λ dc r' h. elim (Bool-cases (code == dc)) [
          | inl e ↦ ground (
            arith,
            e,
            h,
            eq_iff code dc,
            get-put code dc r d.by_device,
            get-put c r'.user_code code d.by_user,
            list_same_iff c r'.user_code,
          )
          | inr e ↦ ground (
            arith,
            e,
            h,
            free,
            get-put code dc r d.by_device,
            s.linked.to_user dc r',
            get-put c r'.user_code code d.by_user,
            list_same_iff c r'.user_code,
          )
        ];
      };
      bounded = record {
        codes = ground (arith, length-put code r d.by_device, room);
        of_ip = λ i.
            ground (arith, per_ip-put i code r d.by_device, s.bounded.of_ip i, quota, eq_iff ip i);
      };
    }

mark-IsSound :
    (to : DeviceStatus) (code : String) (r : DeviceRecord) (d : DeviceCodeStore)
    → get code d.by_device ≡ some r
    → IsSound d
    → IsSound (mark to code r d)
mark-IsSound to code r d g s =
    let v : DeviceRecord = record r { status = to } in
    record {
      linked = record {
        unique = put-Unique code v d.by_device s.linked.unique;
        to_device = λ u dc h.
            let (r', g', e') = s.linked.to_device u dc h in
            (
              if code == dc then v else r',
              ground (arith, g', get-put code dc v d.by_device, eq_iff code dc),
              ground (arith, g, g', e', eq_iff code dc),
            );
        to_user = λ dc r' h. ground (
          arith,
          g,
          h,
          get-put code dc v d.by_device,
          eq_iff code dc,
          s.linked.to_user code r g,
          s.linked.to_user dc r',
        );
      };
      bounded = record {
        codes = ground (arith, length-put code v d.by_device, g, s.bounded.codes);
        of_ip = λ i. omega (arith, per_ip-replace i code v r d.by_device g refl, s.bounded.of_ip i);
      };
    }

pub start-IsSound :
    (now : ℕ) (ip code : String) (draws : List Text) (d : DeviceCodeStore)
    → get code (gc now d).by_device ≡ none
    → IsSound d
    → IsSound (start now ip code draws d).1
unfolding start start_clean
start-IsSound now ip code draws d fresh s =
    let e = gc now d in
    let t = gc-IsSound now d s in
    elim (Bool-cases (leb device_max_codes (length e.by_device))) [
      | inl f ↦ rw (f, start_clean) t
      | inr f ↦ elim (Bool-cases (at_ip_cap ip 0 e.by_device)) [
        | inl g ↦ rw (f, g, start_clean) t
        | inr g ↦ elim (Option-cases (free_code draws e.by_user)) [
          | inl h ↦ rw (f, g, h, start_clean) (unfold add_code in t)
          | inr (c, h) ↦
              rw (f, g, h, start_clean)
                (add_code-IsSound now ip code c e fresh (free_code-unused draws e.by_user c h)
                  (ground (arith, f)) (omega (arith, below_cap ip 0 e.by_device g)) t)
        ]
      ]
    ]

module _ (to_upper_case : Text → Text) where
  -- A code that is found is that of a record in the store, under the user code that was typed.
  pub find_code_lem :
      (u : Text) (d : DeviceCodeStore) (code : String) (r : DeviceRecord)
      → find_code to_upper_case u d ≡ some (code, r)
      → (get (normalize to_upper_case u) d.by_user ≡ some code) × (get code d.by_device ≡ some r)
  unfolding find_code
  find_code_lem u d code r h = elim (Option-cases (get (normalize to_upper_case u) d.by_user)) [
    | inl e ↦ ground (arith, e, h)
    | inr (k, e) ↦ elim (Option-cases (get k d.by_device)) [
      | inl f ↦ ground (arith, e, f, h)
      | inr (v, f) ↦ ground (arith, e, f, h)
    ]
  ]

  pub approve-IsSound :
      (now : ℕ) (u : Text) (d : DeviceCodeStore)
      → IsSound d
      → IsSound (approve to_upper_case now u d).1
  unfolding approve approve_found
  approve-IsSound now u d s = elim (Option-cases (find_code to_upper_case u d)) [
    | inl e ↦ rw (e, approve_found) s
    | inr ((code, r), e) ↦
        let m = mark-IsSound approved code r d (find_code_lem u d code r e).1 s in
        rw (e, approve_found)
          (elim (Bool-cases (leb r.expires_at now)) [
            | inl f ↦ rw (f, approve_found) s
            | inr f ↦ elim (Bool-cases (is_pending r.status)) [
              | inl g ↦ rw (f, g, approve_found) m
              | inr g ↦ rw (f, g, approve_found) s
            ]
          ])
  ]

  pub deny-IsSound :
      (now : ℕ) (u : Text) (d : DeviceCodeStore)
      → IsSound d
      → IsSound (deny to_upper_case now u d).1
  unfolding deny deny_found
  deny-IsSound now u d s = elim (Option-cases (find_code to_upper_case u d)) [
    | inl e ↦ rw (e, deny_found) s
    | inr ((code, r), e) ↦
        let m = mark-IsSound denied code r d (find_code_lem u d code r e).1 s in
        rw (e, deny_found)
          (elim (Bool-cases (leb r.expires_at now)) [
            | inl f ↦ rw (f, deny_found) s
            | inr f ↦ elim (Bool-cases (is_pending r.status)) [
              | inl g ↦ rw (f, g, deny_found) m
              | inr g ↦ rw (f, g, deny_found) s
            ]
          ])
  ]

poll_live-IsSound :
    (t : DeviceStatus) (code : String) (r : DeviceRecord) (d : DeviceCodeStore)
    → IsSound d
    → IsSound (consume code r d)
    → IsSound (poll_live t code r d).1
unfolding poll_live
poll_live-IsSound pending code r d s c = s
poll_live-IsSound approved code r d s c = c
poll_live-IsSound denied code r d s c = c

pub poll-IsSound :
    (now : ℕ) (code : String) (d : DeviceCodeStore) → IsSound d → IsSound (poll now code d).1
unfolding poll poll_found
poll-IsSound now code d s = elim (Option-cases (get code d.by_device)) [
  | inl e ↦ rw (e, poll_found) s
  | inr (r, e) ↦
      let c = consume-IsSound code r d e s in
      rw (e, poll_found)
        (elim (Bool-cases (leb r.expires_at now)) [
          | inl f ↦ rw (f, poll_found) c
          | inr f ↦ rw (f, poll_found) (poll_live-IsSound r.status code r d s c)
        ])
]
