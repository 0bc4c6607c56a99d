-- ===== src/Identity/Device/Laws.antt =====
-- The two maps of the device store stay each other's inverse, and the store stays within its bounds.
use instacloud_oss.Base.{
  ℕ, suc, ◌+◌, ◌≡◌, ◌≤◌, ◌<◌, refl, String, false, List, [], ◌∷◌, none, some, Map, get, put, del,
  has, string_instance, nat_instance, list_instance, ◌==◌, if◌then◌else◌, filter, length, eq_iff,
  list_same_iff, arith, Bool-cases, inl, inr, get-put, get-del,
}
use instacloud_oss.Identity.Device.{
  Text, DeviceRecord, DeviceCodeStore, device_max_codes, device_max_per_ip, consume, at_ip_cap,
}

module _ {V : Type 0} where
  -- A map has one entry for each of its keys.
  abbrev pub Unique : Map String V → Type 0
  Unique [] = Unit
  Unique ((k, v) ∷ m) = (get k m ≡ none) × Unique m

  pub put-Unique : (k : String) (v : V) (m : Map String V) → Unique m → Unique (put k v m)
  unfolding put get
  put-Unique k v [] u = ground arith
  put-Unique k v ((j, w) ∷ m) u = elim (Bool-cases (j == k)) [
    | inl e ↦ rw (e, put) (ground (arith, e, eq_iff j k, u.0, u.1))
    | inr e ↦
        rw (e, put)
          (ground (arith, get-put k j v m, eq_iff j k, eq_iff k j, u.0), put-Unique k v m u.1)
  ]

  pub del-Unique : (k : String) (m : Map String V) → Unique m → Unique (del k m)
  unfolding del get
  del-Unique k [] u = u
  del-Unique k ((j, w) ∷ m) u = elim (Bool-cases (j == k)) [
    | inl e ↦ rw (e, del) (del-Unique k m u.1)
    | inr e ↦ rw (e, del) (ground (arith, get-del k j m, u.0), del-Unique k m u.1)
  ]

  pub length-put :
      (k : String) (v : V) (m : Map String V)
      → length (put k v m) ≡ (if has k m then length m else suc (length m))
  unfolding put get
  length-put k v [] = refl
  length-put k v ((j, w) ∷ m) = ground (arith, length-put k v m)

  pub length-del : (k : String) (m : Map String V) → length (del k m) ≤ length m
  unfolding del
  length-del k [] = omega arith
  length-del k ((j, w) ∷ m) = ground (arith, length-del k m)

-- How many of the codes in a list were issued to an address.
abbrev pub per_ip : String → List (String × DeviceRecord) → ℕ
per_ip ip m = length (filter (λ e. e.1.ip == ip) m)

pub per_ip-del : (ip k : String) (m : Map String DeviceRecord) → per_ip ip (del k m) ≤ per_ip ip m
unfolding del
per_ip-del ip k [] = omega arith
per_ip-del ip k ((j, w) ∷ m) = ground (arith, per_ip-del ip k m)

pub per_ip-put :
    (ip k : String) (v : DeviceRecord) (m : Map String DeviceRecord)
    → per_ip ip (put k v m) ≤ per_ip ip m + (if v.ip == ip then 1 else 0)
unfolding put
per_ip-put ip k v [] = ground arith
per_ip-put ip k v ((j, w) ∷ m) = ground (arith, per_ip-put ip k v m)

-- A record that is replaced by one of the same address changes no count.
pub per_ip-replace :
    (ip k : String) (v r : DeviceRecord) (m : Map String DeviceRecord)
    → get k m ≡ some r
    → v.ip ≡ r.ip
    → per_ip ip (put k v m) ≡ per_ip ip m
unfolding put get
per_ip-replace ip k v r [] h e = ground arith
per_ip-replace ip k v r ((j, w) ∷ m) h e = elim (Bool-cases (j == k)) [
  | inl f ↦ ground (arith, f, h, e)
  | inr f ↦ ground (arith, f, per_ip-replace ip k v r m (ground (arith, f, h)) e)
]

pub below_cap :
    (ip : String) (n : ℕ) (m : List (String × DeviceRecord))
    → at_ip_cap ip n m ≡ false
    → n < device_max_per_ip
    → n + per_ip ip m < device_max_per_ip
unfolding at_ip_cap
below_cap ip n [] h l = omega arith
below_cap ip n ((code, r) ∷ m) h l = elim (Bool-cases (r.ip == ip)) [
  | inl e ↦ ground (arith, e, h, below_cap ip (suc n) m)
  | inr e ↦ ground (arith, e, h, below_cap ip n m)
]

-- A live code in each map for the code in the other.
pub record IsLinked (d : DeviceCodeStore) : Type 0 where
  pub unique : Unique d.by_device
  pub to_device :
      (u : Text) (code : String)
      → get u d.by_user ≡ some code
      → (r : DeviceRecord) × (get code d.by_device ≡ some r) × (r.user_code ≡ u)
  pub to_user :
      (code : String) (r : DeviceRecord)
      → get code d.by_device ≡ some r
      → get r.user_code d.by_user ≡ some code

pub record IsBounded (d : DeviceCodeStore) : Type 0 where
  pub codes : length d.by_device ≤ device_max_codes
  pub of_ip : (ip : String) → per_ip ip d.by_device ≤ device_max_per_ip

pub record IsSound (d : DeviceCodeStore) : Type 0 where
  pub linked : IsLinked d
  pub bounded : IsBounded d

pub consume-IsSound :
    (code : String) (r : DeviceRecord) (d : DeviceCodeStore)
    → get code d.by_device ≡ some r
    → IsSound d
    → IsSound (consume code r d)
unfolding consume
consume-IsSound code r d g s = record {
  linked = record {
    unique = del-Unique code d.by_device s.linked.unique;
    to_device = λ u dc h.
        let (r', g', e) =
          s.linked.to_device u dc (ground (arith, h, get-del r.user_code u d.by_user)) in
        (
          r',
          ground (
            arith,
            g,
            g',
            e,
            h,
            get-del code dc d.by_device,
            get-del r.user_code u d.by_user,
            eq_iff code dc,
            list_same_iff r.user_code u,
          ),
          e,
        );
    to_user = λ dc r' h. ground (
      arith,
      h,
      g,
      get-del code dc d.by_device,
      s.linked.to_user dc r',
      s.linked.to_user code r g,
      get-del r.user_code r'.user_code d.by_user,
      eq_iff code dc,
      list_same_iff r.user_code r'.user_code,
    );
  };
  bounded = record {
    codes = omega (arith, length-del code d.by_device, s.bounded.codes);
    of_ip = λ ip. omega (arith, per_ip-del ip code d.by_device, s.bounded.of_ip ip);
  };
}
