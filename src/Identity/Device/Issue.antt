-- ===== src/Identity/Device/Issue.antt =====
-- When a device code is issued.
use instacloud_oss.Base.{
  ℕ, suc, ◌+◌, ◌≡◌, ◌<◌, String, true, false, List, [], ◌∷◌, some, Map, get, has, string_instance,
  nat_instance, list_instance, ◌==◌, not, any, length, arith, Bool-cases, Option-cases, inl, inr,
}
use instacloud_oss.Identity.Device.{
  Text, DeviceRecord, DeviceCodeStore, issued, device_max_codes, device_max_per_ip, gc, at_ip_cap,
  free_code, grouped, add_code, start_clean, start,
}
use instacloud_oss.Identity.Device.Laws.{per_ip}

at_ip_cap-below :
    (ip : String) (n : ℕ) (m : List (String × DeviceRecord))
    → n + per_ip ip m < device_max_per_ip
    → at_ip_cap ip n m ≡ false
unfolding at_ip_cap
at_ip_cap-below ip n [] h = ground arith
at_ip_cap-below ip n ((code, r) ∷ m) h = elim (Bool-cases (r.ip == ip)) [
  | inl e ↦ ground (arith, e, h, at_ip_cap-below ip (suc n) m)
  | inr e ↦ ground (arith, e, h, at_ip_cap-below ip n m)
]

free_code-some :
    (draws : List Text) (m : Map Text String)
    → any (λ c. not (has c m)) draws ≡ true
    → (c : Text) × (free_code draws m ≡ some c)
unfolding free_code
free_code-some [] m h = cc
free_code-some (x ∷ draws) m h = elim (Option-cases (get x m)) [
  | inl e ↦ (x, ground (arith, e))
  | inr (v, e) ↦
      let (c, f) = free_code-some draws m (ground (arith, e, h)) in (c, ground (arith, e, f))
]

-- A code is issued whenever the store, cleared of expired codes, is not full, the address has fewer
-- codes than its bound, and one of the drawn user codes is not in use.
pub start-issues :
    (now : ℕ) (ip code : String) (draws : List Text) (d : DeviceCodeStore)
    → length (gc now d).by_device < device_max_codes
    → per_ip ip (gc now d).by_device < device_max_per_ip
    → any (λ c. not (has c (gc now d).by_user)) draws ≡ true
    → (shown : Text) × ((start now ip code draws d).0 ≡ issued code shown)
unfolding start start_clean add_code
start-issues now ip code draws d l p f =
    let e = gc now d in
    let (c, g) = free_code-some draws e.by_user f in
    (grouped c, ground (arith, l, g, at_ip_cap-below ip 0 e.by_device (omega (arith, p))))
