-- ===== src/Router/Attach/Passes.antt =====
-- A domain name passes the tests of the code for a hostname, for an address and for its own names.
use instacloud_oss.Base.{
  ℕ, ◌≡◌, ◌≢◌, ◌≤◌, inl, inr, refl, sym, ap, subst, ◌∙◌, true, false, List, [], ◌∷◌, ◌++◌, ◌&&◌,
  ◌||◌, nat_eq, length, all, contains, All, nat_instance, list_instance, ◌==◌, arith, list_same_iff,
  Bool-cases,
}
use instacloud_oss.Metrics.Window.{is_digit}
use instacloud_oss.Router.Table.{Text}
use instacloud_oss.Router.Table.Names.{
  dot, dash, last_or, is_alphanumeric, split_dots, is_label, is_hostname,
}
use instacloud_oss.Router.Attach.{is_octet, is_ip_literal, ends_with, is_under}
use instacloud_oss.Router.Attach.Shape.{join_dots, IsDigit, IsLabelChar, IsLabel, IsOctet, IsDomain}
use instacloud_oss.Router.Attach.Accepts.{split-join}

All-plain :
    (cs : Text) → All IsLabelChar cs → all (λ d. is_alphanumeric d || nat_eq d dash) cs ≡ true
All-plain [] h = refl
All-plain (c ∷ cs) (k, h) = ground (arith, k, All-plain cs h)

-- The last character is one of the label's and has a front before it.
last_char :
    (c : ℕ) (cs : Text)
    → All IsLabelChar (c ∷ cs)
    → (front : Text) × (c ∷ cs ≡ front ++ last_or c cs ∷ []) × IsLabelChar (last_or c cs)
last_char c [] (k, h) = ([], refl, k)
last_char c (d ∷ ds) (k, h) =
    let (front, e, last) = last_char d ds h in (c ∷ front, ap (λ x. c ∷ x) e, last)

alphanumeric : (c : ℕ) → IsLabelChar c → c ≢ b'-' → is_alphanumeric c ≡ true
alphanumeric c k n = ground (arith, k, n)

IsLabel-is_label : (l : Text) → IsLabel l → is_label l ≡ true
unfolding is_label
IsLabel-is_label [] k = absurd (omega (arith, k.not_empty))
IsLabel-is_label (c ∷ cs) k =
    let (front, e, last) = last_char c cs k.plain in
    let first = alphanumeric c k.plain.0 (λ f. k.no_first_dash (cs, ap (λ x. x ∷ cs) f)) in
    let final =
      alphanumeric (last_or c cs) last
        (λ f. k.no_last_dash (front, e ∙ ap (λ x. front ++ x ∷ []) f)) in
    let bound = k.bounded in ground (arith, first, final, bound, All-plain cs k.plain.1)

All-is_label : (ls : List Text) → All IsLabel ls → all is_label ls ≡ true
All-is_label [] h = refl
All-is_label (l ∷ ls) (k, h) = ground (arith, IsLabel-is_label l k, All-is_label ls h)

is_digit-All : (l : Text) → all is_digit l ≡ true → All IsDigit l
is_digit-All [] h = tt
is_digit-All (c ∷ cs) h = (ground (arith, h), is_digit-All cs (ground (arith, h)))

is_octet-All : (ls : List Text) → all is_octet ls ≡ true → All IsOctet ls
is_octet-All [] h = tt
is_octet-All (l ∷ ls) h = (
  (ground (arith, h), ground (arith, h), is_digit-All l (ground (arith, h))),
  is_octet-All ls (ground (arith, h)),
)

contains-append : (b : ℕ) (xs ys : Text) → contains b (xs ++ ys) ≡ (contains b xs || contains b ys)
unfolding contains
contains-append b [] ys = refl
contains-append b (x ∷ xs) ys = ground (arith, contains-append b xs ys)

label-colon : (l : Text) → All IsLabelChar l → contains b':' l ≡ false
unfolding contains
label-colon [] h = refl
label-colon (c ∷ cs) (k, h) = ground (arith, k, label-colon cs h)

join-colon : (labels : List Text) → All IsLabel labels → contains b':' (join_dots labels) ≡ false
unfolding contains
join-colon [] h = refl
join-colon (l ∷ []) (k, h) = label-colon l k.plain
join-colon (l ∷ m ∷ ls) (k, h) =
    contains-append b':' l (dot ∷ join_dots (m ∷ ls))
    ∙ rw (label-colon l k.plain) (join-colon (m ∷ ls) h)

join-dot : (labels : List Text) → 2 ≤ length labels → contains dot (join_dots labels) ≡ true
unfolding contains
join-dot [] n = absurd (omega (arith, n))
join-dot (l ∷ []) n = absurd (omega (arith, n))
join-dot (l ∷ m ∷ ls) n = contains-append dot l (dot ∷ join_dots (m ∷ ls)) ∙ ground arith

not_empty : (h : Text) → contains dot h ≡ true → 1 ≤ length h
unfolding contains
not_empty [] h = absurd (ground (arith, h))
not_empty (c ∷ cs) h = omega arith

module _ (h : Text) (labels : List Text) (k : IsDomain h labels) where
  pub IsDomain-split : split_dots h ≡ labels
  IsDomain-split =
      ap split_dots (sym k.joined) ∙ split-join labels (omega (arith, k.dotted)) k.shaped

  pub IsDomain-labels : all is_label (split_dots h) ≡ true
  IsDomain-labels = rw IsDomain-split (All-is_label labels k.shaped)

  pub IsDomain-dot : contains dot h ≡ true
  IsDomain-dot = subst (λ x. contains dot x ≡ true) k.joined (join-dot labels k.dotted)

  pub IsDomain-hostname : is_hostname h ≡ true
  unfolding is_hostname
  IsDomain-hostname = ground (arith, IsDomain-labels, k.bounded, not_empty h IsDomain-dot)

  pub IsDomain-no_address : is_ip_literal h ≡ false
  unfolding is_ip_literal
  IsDomain-no_address =
      let colon = subst (λ x. contains b':' x ≡ false) k.joined (join-colon labels k.shaped) in
      elim (Bool-cases (nat_eq (length (split_dots h)) 4 && all is_octet (split_dots h))) [
        | inr e ↦ rw (e, colon) refl
        | inl e ↦
            let both = rw IsDomain-split at e in
            absurd (k.no_address (ground (arith, both), is_octet-All labels (ground (arith, both))))
      ]

ends_with-cut : (suffix h : Text) → ends_with suffix h ≡ true → (sub : Text) × (h ≡ sub ++ suffix)
unfolding ends_with
ends_with-cut suffix [] e = ([], (list_same_iff [] suffix).0 e)
ends_with-cut suffix (c ∷ cs) e = elim (Bool-cases ((c ∷ cs) == suffix)) [
  | inl f ↦ ([], (list_same_iff (c ∷ cs) suffix).0 f)
  | inr f ↦
      let (sub, k) = ends_with-cut suffix cs (ground (arith, e, f)) in (c ∷ sub, ap (λ x. c ∷ x) k)
]

pub foreign-is_under :
    (domain h : Text)
    → h ≢ domain
    → ¬ ((sub : Text) × (h ≡ sub ++ dot ∷ domain))
    → is_under domain h ≡ false
foreign-is_under domain h n m = elim (Bool-cases (h == domain)) [
  | inl e ↦ absurd (n ((list_same_iff h domain).0 e))
  | inr e ↦ elim (Bool-cases (ends_with (dot ∷ domain) h)) [
    | inl f ↦ absurd (m (ends_with-cut (dot ∷ domain) h f))
    | inr f ↦ rw (e, f) refl
  ]
]
