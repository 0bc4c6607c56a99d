-- ===== src/Identity/Device/Login.antt =====
-- A whole device login, from the code that is shown to its collection.
use instacloud_oss.Base.{
  ℕ, ◌+◌, ◌*◌, ◌≡◌, ◌≢◌, ◌<◌, refl, ap, ◌∙◌, subst, String, Bool, true, false, List, [], ◌∷◌, ◌++◌,
  Option, none, some, get, put, del, string_instance, nat_instance, list_instance, ◌==◌, leb,
  length, filter, take, drop, all, All, eq_iff, list_same_iff, arith, Bool-cases, Option-cases, inl,
  inr, get-put, get-put_self, get-del_self, take-append-drop,
}
use instacloud_oss.Identity.Device.{
  Text, DeviceRecord, DeviceCodeStore, issued, ok, approved, unknown, device_code_ttl_sec,
  is_code_unit, fresh_record, consume, gc, free_code, grouped, add_code, start_clean, start,
  normalize, find_code, mark, approve_found, approve, poll_live, poll_found, poll,
}

filter-append_units :
    (xs ys : Text) → filter is_code_unit (xs ++ (b'-' ∷ ys)) ≡ filter is_code_unit (xs ++ ys)
filter-append_units [] ys = refl
filter-append_units (x ∷ xs) ys = ground (arith, filter-append_units xs ys)

filter-all : (xs : Text) → all is_code_unit xs ≡ true → filter is_code_unit xs ≡ xs
filter-all [] h = refl
filter-all (x ∷ xs) h = ground (arith, h, filter-all xs)

-- The dash of a code that is shown goes away again.
filter-grouped : (c : Text) → all is_code_unit c ≡ true → filter is_code_unit (grouped c) ≡ c
filter-grouped c h =
    rw (filter-append_units (take 4 c) (drop 4 c)) (rw (take-append-drop 4 c) (filter-all c h))

free_code-all :
    (draws : List Text) (m : instacloud_oss.Base.Map Text String) (c : Text)
    → All (λ x. all is_code_unit x ≡ true) draws
    → free_code draws m ≡ some c
    → all is_code_unit c ≡ true
unfolding free_code
free_code-all [] m c u h = cc
free_code-all (x ∷ draws) m c u h = elim (Option-cases (get x m)) [
  | inl e ↦ ground (arith, e, h, u.0)
  | inr (v, e) ↦ free_code-all draws m c u.1 (ground (arith, e, h))
]

-- What a call that issued a code did.
start-issued :
    (now : ℕ) (ip code dc : String) (shown : Text) (draws : List Text) (d : DeviceCodeStore)
    → (start now ip code draws d).0 ≡ issued dc shown
    → let e = gc now d in
      (c : Text) × (free_code draws e.by_user ≡ some c)
      × (dc ≡ code)
      × (shown ≡ grouped c)
      × ((start now ip code draws d).1 ≡ (add_code now ip code (some c) e).1)
unfolding start start_clean
start-issued now ip code dc shown draws d h =
    let e = gc now d in
    elim (Option-cases (free_code draws e.by_user)) [
      | inl f ↦ unfold add_code in ground (arith, f, h)
      | inr (c, f) ↦ (
        c,
        f,
        unfold add_code in ground (arith, f, h),
        unfold add_code in ground (arith, f, h),
        unfold add_code in ground (arith, f, h),
      )
    ]

module _ (tr : Text → Text) where
  normalize-grouped :
      (c : Text)
      → all is_code_unit c ≡ true
      → tr (grouped c) ≡ grouped c
      → normalize tr (grouped c) ≡ c
  unfolding normalize
  normalize-grouped c u t = ap (filter is_code_unit) t ∙ filter-grouped c u

  -- The user code of a record that the store has just got is found under the code that is shown.
  find_code-grouped :
      (now : ℕ) (ip code : String) (c : Text) (d : DeviceCodeStore)
      → code ≢ ""
      → all is_code_unit c ≡ true
      → tr (grouped c) ≡ grouped c
      → find_code tr (grouped c) (add_code now ip code (some c) d).1
        ≡ some (code, fresh_record now ip c)
  unfolding find_code add_code
  find_code-grouped now ip code c d ne u t = ground (
    arith,
    normalize-grouped c u t,
    get-put_self c code d.by_user,
    get-put_self code (fresh_record now ip c) d.by_device,
    ne,
    eq_iff code "",
  )

  -- A code that was issued is collected once: if the console approves the code that was shown
  -- before it expires, it is told ok, the next poll before the expiry is answered with approved,
  -- and any poll after that does not know the code. The drawn codes are of letters and digits that
  -- the conversion to upper case leaves alone, and the device code is not empty.
  pub login_completes :
      (now later next last : ℕ) (ip code dc : String) (shown : Text) (draws : List Text)
      (d : DeviceCodeStore)
      → (start now ip code draws d).0 ≡ issued dc shown
      → code ≢ ""
      → All (λ x. all is_code_unit x ≡ true) draws
      → tr shown ≡ shown
      → later < now + device_code_ttl_sec * 1000
      → next < now + device_code_ttl_sec * 1000
      → let answer = approve tr later shown (start now ip code draws d).1 in
        let collected = poll next dc answer.1 in
        (answer.0 ≡ ok) × (collected.0 ≡ approved) × ((poll last dc collected.1).0 ≡ unknown)
  unfolding approve approve_found
  login_completes now later next last ip code dc shown draws d h ne u t l n =
      let (c, f, e, s, after) = start-issued now ip code dc shown draws d h in
      let a = add_code now ip code (some c) (gc now d) in
      let found =
        find_code-grouped now ip code c (gc now d) ne (free_code-all draws (gc now d).by_user c u f)
          (subst (λ x. tr x ≡ x) s t) in
      let m = mark approved code (fresh_record now ip c) a.1 in
      let r : DeviceRecord = record (fresh_record now ip c) { status = approved } in
      let approving : approve tr later shown (start now ip code draws d).1 ≡ (ok, m) =
        rw (after, s, found) (ground (arith, l)) in
      let first : poll next code m ≡ (approved, consume code r m) =
        unfold poll poll_found poll_live in
        rw (get-put_self code r a.1.by_device) (ground (arith, n)) in
      rw (approving, e, first)
        (refl, refl, unfold poll poll_found consume in rw (get-del_self code m.by_device) refl)
