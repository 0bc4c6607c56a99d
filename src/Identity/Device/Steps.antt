-- ===== src/Identity/Device/Steps.antt =====
-- What one call of the device store may do to the record of a code.
use instacloud_oss.Base.{
  ℕ, ◌+◌, ◌≡◌, ◌≤◌, ◌⊎◌, refl, String, true, List, [], ◌∷◌, Option, none, some, get,
  string_instance, list_instance, ◌==◌, ◌||◌, if◌then◌else◌, leb, length, eq_iff, arith, Bool-cases,
  Option-cases, inl, inr, get-put, get-del,
}
use instacloud_oss.Identity.Device.{
  Text, DeviceStatus, approved, denied, DeviceRecord, DeviceCodeStore, device_max_codes,
  fresh_record, consume, gc_loop, gc, at_ip_cap, free_code, add_code, start_clean, start, find_code,
  approve_found, approve, deny_found, deny, poll_live, poll_found, poll, pending,
}
use instacloud_oss.Identity.Device.Invariant.{find_code_lem}
use instacloud_oss.Identity.Device.History.{
  issuing, approving, is_marked_status, is_marked, is_approved, approves, draws_code, present,
}

-- The collection of expired codes leaves the record of a code as it is, or takes it.
gc_loop-get :
    (now : ℕ) (rest : List (String × DeviceRecord)) (code : String) (d : DeviceCodeStore)
    → (get code (gc_loop now rest d).by_device ≡ none)
      ⊎ (get code (gc_loop now rest d).by_device ≡ get code d.by_device)
unfolding gc_loop
gc_loop-get now [] code d = inr refl
gc_loop-get now ((c, r) ∷ rest) code d = elim (Bool-cases (leb r.expires_at now)) [
  | inl e ↦
      rw (e, gc_loop)
        (elim (gc_loop-get now rest code (consume c r d)) [
          | inl f ↦ inl f
          | inr f ↦ elim (Bool-cases (c == code)) [
            | inl g ↦ inl (unfold consume in ground (arith, f, g, get-del c code d.by_device))
            | inr g ↦ inr (unfold consume in ground (arith, f, g, get-del c code d.by_device))
          ]
        ])
  | inr e ↦ rw (e, gc_loop) (gc_loop-get now rest code d)
]

-- What `start` may have done to the record of a code.
data StartFate (now : ℕ) (ip c code : String) (before after : Option DeviceRecord) : Type 0 where
  kept : after ≡ before → StartFate now ip c code before after
  gone : after ≡ none → StartFate now ip c code before after
  drew :
      (u : Text)
      → c ≡ code
      → after ≡ some (fresh_record now ip u)
      → StartFate now ip c code before after

start-fate :
    (now : ℕ) (ip c code : String) (draws : List Text) (d : DeviceCodeStore)
    → StartFate now ip c code (get code d.by_device) (get code (start now ip c draws d).1.by_device)
unfolding start start_clean gc
start-fate now ip c code draws d =
    let e = gc now d in
    let kept_or_gone : StartFate now ip c code (get code d.by_device) (get code e.by_device) =
      elim (gc_loop-get now d.by_device code d) [ inl f ↦ gone f | inr f ↦ kept f ] in
    elim (Bool-cases (leb device_max_codes (length e.by_device))) [
      | inl f ↦ rw (f, start_clean) kept_or_gone
      | inr f ↦ elim (Bool-cases (at_ip_cap ip 0 e.by_device)) [
        | inl g ↦ rw (f, g, start_clean) kept_or_gone
        | inr g ↦ elim (Option-cases (free_code draws e.by_user)) [
          | inl h ↦ rw (f, g, h, start_clean) (unfold add_code in kept_or_gone)
          | inr (u, h) ↦
              rw (f, g, h, start_clean)
                (unfold add_code in
                  rw (get-put c code (fresh_record now ip u) e.by_device)
                    (elim (Bool-cases (c == code)) [
                      | inl k ↦ rw (k) (drew u ((eq_iff c code).0 k) refl)
                      | inr k ↦ rw (k) kept_or_gone
                    ]))
        ]
      ]
    ]

pub start-present :
    (now : ℕ) (ip c code : String) (draws : List Text) (d : DeviceCodeStore)
    → present code (start now ip c draws d).1
      ≤ present code d + draws_code code (issuing ip c draws)
start-present now ip c code draws d = elim (start-fate now ip c code draws d) [
  | kept e ↦ ground (arith, e)
  | gone e ↦ ground (arith, e)
  | drew u k e ↦ ground (arith, e, eq_iff c code)
]

pub start-is_marked :
    (now : ℕ) (ip c code : String) (draws : List Text) (d : DeviceCodeStore)
    → is_marked code (start now ip c draws d).1 ≡ true
    → is_marked code d ≡ true
start-is_marked now ip c code draws d h = elim (start-fate now ip c code draws d) [
  | kept e ↦ ground (arith, e, h)
  | gone e ↦ ground (arith, e, h)
  | drew u k e ↦ ground (arith, e, h)
]

poll_live-collects :
    (t : DeviceStatus) (c code : String) (r : DeviceRecord) (d : DeviceCodeStore)
    → get c d.by_device ≡ some r
    → (if c == code then (if is_approved (poll_live t c r d).0 then 1 else 0) else 0)
        + present code (poll_live t c r d).1
      ≤ present code d
unfolding poll_live consume
poll_live-collects pending c code r d g = ground arith
poll_live-collects approved c code r d g =
    ground (arith, g, get-del c code d.by_device, eq_iff c code)
poll_live-collects denied c code r d g =
    ground (arith, g, get-del c code d.by_device, eq_iff c code)

pub poll-collects :
    (now : ℕ) (c code : String) (d : DeviceCodeStore)
    → (if c == code then (if is_approved (poll now c d).0 then 1 else 0) else 0)
        + present code (poll now c d).1
      ≤ present code d
unfolding poll poll_found
poll-collects now c code d = elim (Option-cases (get c d.by_device)) [
  | inl e ↦ rw (e, poll_found) (ground arith)
  | inr (r, e) ↦
      rw (e, poll_found)
        (elim (Bool-cases (leb r.expires_at now)) [
          | inl f ↦
              rw (f, poll_found)
                (unfold consume in ground (arith, e, get-del c code d.by_device, eq_iff c code))
          | inr f ↦ rw (f, poll_found) (poll_live-collects r.status c code r d e)
        ])
]

poll_live-is_marked :
    (t : DeviceStatus) (c code : String) (r : DeviceRecord) (d : DeviceCodeStore)
    → is_marked code (poll_live t c r d).1 ≡ true
    → is_marked code d ≡ true
unfolding poll_live consume
poll_live-is_marked pending c code r d h = h
poll_live-is_marked approved c code r d h = ground (arith, h, get-del c code d.by_device)
poll_live-is_marked denied c code r d h = ground (arith, h, get-del c code d.by_device)

pub poll-is_marked :
    (now : ℕ) (c code : String) (d : DeviceCodeStore)
    → is_marked code (poll now c d).1 ≡ true
    → is_marked code d ≡ true
unfolding poll poll_found
poll-is_marked now c code d h = elim (Option-cases (get c d.by_device)) [
  | inl e ↦ rw (e, poll_found) at h
  | inr (r, e) ↦ elim (Bool-cases (leb r.expires_at now)) [
    | inl f ↦ unfold consume in ground (arith, e, f, h, get-del c code d.by_device)
    | inr f ↦ poll_live-is_marked r.status c code r d (rw (e, f, poll_found) at h)
  ]
]

-- An approval or a denial keeps the records, except that it marks the one of its user code.
pub approve-is_marked :
    (tr : Text → Text) (now : ℕ) (u : Text) (code : String) (d : DeviceCodeStore)
    → is_marked code (approve tr now u d).1 ≡ true
    → (is_marked code d || approves tr code now (approving u) d) ≡ true
unfolding approve approve_found
approve-is_marked tr now u code d h = elim (Option-cases (find_code tr u d)) [
  | inl e ↦ ground (arith, e, h)
  | inr ((c, r), e) ↦
      ground
        (arith, e, h, get-put c code (record r { status = approved }) d.by_device, eq_iff c code)
]

pub deny-is_marked :
    (tr : Text → Text) (now : ℕ) (u : Text) (code : String) (d : DeviceCodeStore)
    → is_marked code (deny tr now u d).1 ≡ true
    → is_marked code d ≡ true
unfolding deny deny_found
deny-is_marked tr now u code d h = elim (Option-cases (find_code tr u d)) [
  | inl e ↦ ground (arith, e, h)
  | inr ((c, r), e) ↦
      ground (arith, e, h, get-put c code (record r { status = denied }) d.by_device, eq_iff c code)
]

pub approve-present :
    (tr : Text → Text) (now : ℕ) (u : Text) (code : String) (d : DeviceCodeStore)
    → present code (approve tr now u d).1 ≡ present code d
unfolding approve approve_found
approve-present tr now u code d = elim (Option-cases (find_code tr u d)) [
  | inl e ↦ ground (arith, e)
  | inr ((c, r), e) ↦ ground (
    arith,
    e,
    find_code_lem tr u d c r e,
    get-put c code (record r { status = approved }) d.by_device,
    eq_iff c code,
  )
]

pub deny-present :
    (tr : Text → Text) (now : ℕ) (u : Text) (code : String) (d : DeviceCodeStore)
    → present code (deny tr now u d).1 ≡ present code d
unfolding deny deny_found
deny-present tr now u code d = elim (Option-cases (find_code tr u d)) [
  | inl e ↦ ground (arith, e)
  | inr ((c, r), e) ↦ ground (
    arith,
    e,
    find_code_lem tr u d c r e,
    get-put c code (record r { status = denied }) d.by_device,
    eq_iff c code,
  )
]

poll_live-approved :
    (t : DeviceStatus) (code : String) (r : DeviceRecord) (d : DeviceCodeStore)
    → (poll_live t code r d).0 ≡ approved
    → is_marked_status t ≡ true
unfolding poll_live
poll_live-approved pending code r d h = cc
poll_live-approved approved code r d h = refl
poll_live-approved denied code r d h = cc

-- A poll is answered with approved only for a code whose record is approved and has not expired.
pub poll-approved :
    (now : ℕ) (code : String) (d : DeviceCodeStore)
    → (poll now code d).0 ≡ approved
    → is_marked code d ≡ true
unfolding poll poll_found
poll-approved now code d h = elim (Option-cases (get code d.by_device)) [
  | inl e ↦ ground (arith, e, h)
  | inr (r, e) ↦ elim (Bool-cases (leb r.expires_at now)) [
    | inl f ↦ ground (arith, e, f, h)
    | inr f ↦ rw (e, is_marked) (poll_live-approved r.status code r d (rw (e, f, poll_found) at h))
  ]
]
