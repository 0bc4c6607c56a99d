-- ===== src/Router/Attach/Shape.antt =====
-- The shape of a domain name, said without the code's tests.
use instacloud_oss.Base.{
  ℕ, ◌≡◌, ◌≢◌, ◌≤◌, ◌⊎◌, inl, inr, refl, ap, ◌∙◌, true, false, List, [], ◌∷◌, ◌++◌, ◌||◌, nat_eq,
  length, all, contains, All, nat_instance, list_instance, arith, list_same_iff, Bool-cases,
}
use instacloud_oss.Metrics.Window.{is_digit}
use instacloud_oss.Router.Table.{Text}
use instacloud_oss.Router.Table.Names.{
  dot, dash, last_or, is_alphanumeric, split_dots, is_label, is_hostname,
}
use instacloud_oss.Router.Attach.{is_octet, is_ip_literal, ends_with, is_under}

abbrev pub join_dots : List Text → Text
join_dots [] = []
join_dots (l ∷ []) = l
join_dots (l ∷ m ∷ ls) = l ++ dot ∷ join_dots (m ∷ ls)

abbrev pub IsDigit : ℕ → Type 0
IsDigit c = (b'0' ≤ c) × (c ≤ b'9')

-- A small letter, a digit or a dash.
abbrev pub IsLabelChar : ℕ → Type 0
IsLabelChar c = ((b'a' ≤ c) × (c ≤ b'z')) ⊎ (IsDigit c ⊎ (c ≡ b'-'))

pub record IsLabel (l : Text) : Type 0 where
  pub not_empty : 1 ≤ length l
  pub bounded : length l ≤ 63
  pub plain : All IsLabelChar l
  pub no_first_dash : ¬ ((rest : Text) × (l ≡ b'-' ∷ rest))
  pub no_last_dash : ¬ ((front : Text) × (l ≡ front ++ b'-' ∷ []))

-- One to three digits.
abbrev pub IsOctet : Text → Type 0
IsOctet l = (1 ≤ length l) × (length l ≤ 3) × All IsDigit l

pub record IsDomain (h : Text) (labels : List Text) : Type 0 where
  pub joined : join_dots labels ≡ h
  pub shaped : All IsLabel labels
  pub dotted : 2 ≤ length labels
  pub bounded : length h ≤ 253
  pub no_address : ¬ ((length labels ≡ 4) × All IsOctet labels)

pub split_dots-some : (t : Text) → (l : Text) × (ls : List Text) × (split_dots t ≡ l ∷ ls)
unfolding split_dots
split_dots-some [] = ([], [], refl)
split_dots-some (c ∷ cs) = elim (Bool-cases (nat_eq c dot)) [
  | inl e ↦ rw e ([], split_dots cs, refl)
  | inr e ↦ let (l, ls, k) = split_dots-some cs in rw (e, k) (c ∷ l, ls, refl)
]

join-first : (c : ℕ) (l : Text) (ls : List Text) → join_dots ((c ∷ l) ∷ ls) ≡ c ∷ join_dots (l ∷ ls)
join-first c l [] = refl
join-first c l (m ∷ ls) = refl

join-split : (t : Text) → join_dots (split_dots t) ≡ t
unfolding split_dots
join-split [] = refl
join-split (c ∷ cs) =
    let (l, ls, k) = split_dots-some cs in
    let whole = rw k at (join-split cs) in
    elim (Bool-cases (nat_eq c dot)) [
      | inl e ↦ rw (e, k) (ground (arith, e, whole))
      | inr e ↦ rw (e, k) (join-first c l ls ∙ ap (λ x. c ∷ x) whole)
    ]

all-IsLabelChar :
    (cs : Text) → all (λ d. is_alphanumeric d || nat_eq d dash) cs ≡ true → All IsLabelChar cs
all-IsLabelChar [] h = tt
all-IsLabelChar (c ∷ cs) h = (ground (arith, h), all-IsLabelChar cs (ground (arith, h)))

last_or-append : (c d : ℕ) (cs : Text) → last_or c (cs ++ d ∷ []) ≡ d
last_or-append c d [] = refl
last_or-append c d (e ∷ cs) = last_or-append e d cs

last_dash : (c : ℕ) (cs front : Text) → c ∷ cs ≡ front ++ b'-' ∷ [] → last_or c cs ≡ b'-'
last_dash c cs [] e = ground (arith, e)
last_dash c cs (f ∷ front) e = ground (arith, e, last_or-append c b'-' front)

is_label-IsLabel : (l : Text) → is_label l ≡ true → IsLabel l
unfolding is_label
is_label-IsLabel [] h = absurd (ground (arith, h))
is_label-IsLabel (c ∷ cs) h = record {
  not_empty = omega arith;
  bounded = ground (arith, h);
  plain = (ground (arith, h), all-IsLabelChar cs (ground (arith, h)));
  no_first_dash = λ (rest, e). ground (arith, e, h);
  no_last_dash = λ (front, e). ground (arith, h, last_dash c cs front e);
}

all-IsLabel : (ls : List Text) → all is_label ls ≡ true → All IsLabel ls
all-IsLabel [] h = tt
all-IsLabel (l ∷ ls) h =
    (is_label-IsLabel l (ground (arith, h)), all-IsLabel ls (ground (arith, h)))

All-is_digit : (l : Text) → All IsDigit l → all is_digit l ≡ true
All-is_digit [] h = refl
All-is_digit (c ∷ cs) h = ground (arith, h.0, All-is_digit cs h.1)

All-is_octet : (ls : List Text) → All IsOctet ls → all is_octet ls ≡ true
All-is_octet [] h = refl
All-is_octet (l ∷ ls) ((one, three, digits), rest) =
    ground (arith, one, three, All-is_digit l digits, All-is_octet ls rest)

dots-length : (h : Text) → contains dot h ≡ true → 2 ≤ length (split_dots h)
unfolding contains split_dots
dots-length [] h = absurd (ground (arith, h))
dots-length (c ∷ cs) h =
    let (l, ls, k) = split_dots-some cs in
    elim (Bool-cases (nat_eq c dot)) [
      | inl e ↦ rw (e, k) (omega arith)
      | inr e ↦ rw (e, k) (rw k at (dots-length cs (ground (arith, e, h))))
    ]

-- A name that passes the tests of the code is a domain.
pub split_dots-IsDomain :
    (h : Text)
    → is_hostname h ≡ true
    → contains dot h ≡ true
    → is_ip_literal h ≡ false
    → IsDomain h (split_dots h)
unfolding is_hostname is_ip_literal
split_dots-IsDomain h shaped dotted address = record {
  joined = join-split h;
  shaped = all-IsLabel (split_dots h) (ground (arith, shaped));
  dotted = dots-length h dotted;
  bounded = ground (arith, shaped);
  no_address = λ (four, octets). ground (arith, address, four, All-is_octet (split_dots h) octets);
}

ends_with-append : (suffix sub : Text) → ends_with suffix (sub ++ suffix) ≡ true
unfolding ends_with
ends_with-append [] [] = ground arith
ends_with-append (c ∷ cs) [] = ground (arith, (list_same_iff (c ∷ cs) (c ∷ cs)).1 refl)
ends_with-append suffix (c ∷ sub) = ground (arith, ends_with-append suffix sub)

pub is_under-foreign :
    (domain h : Text)
    → is_under domain h ≡ false
    → (h ≢ domain) × ¬ ((sub : Text) × (h ≡ sub ++ dot ∷ domain))
is_under-foreign domain h f = (
  λ e. ground (arith, f, (list_same_iff h domain).1 e),
  λ (sub, e). ground (arith, f, e, ends_with-append (dot ∷ domain) sub),
)
