-- ===== src/Router/Table/Names.antt =====
-- The names that services answer on (`labelFor`, `hostFor`, `refOf`, `isHostname` and `hostOnly` of
-- src/router/table.ts). The hash and the lower case of the language are parameters.
use instacloud_oss.Base.{
  ℕ, zero, suc, ◌-◌, ◌≤◌, Bool, true, false, List, [], ◌∷◌, ◌++◌, ◌&&◌, ◌||◌, if◌then◌else◌, leb,
  nat_eq, length, take, all, arith, Bool-cases, inl, inr, length-append, leb→le,
}
use instacloud_oss.Router.Table.{Text, HostKind, compute, postgres, managed}

abbrev pub dash : ℕ
dash = b'-'

abbrev pub dot : ℕ
dot = b'.'

abbrev pub max_label : ℕ
max_label = 63

abbrev pub hash_len : ℕ
hash_len = 6

-- `[a-z0-9]`
abbrev pub is_alphanumeric : ℕ → Bool
is_alphanumeric c = (leb b'a' c && leb c b'z') || (leb b'0' c && leb c b'9')

-- `.replace(/-+$/, '')`
unfoldable pub strip_dashes : Text → Text
strip_dashes [] = []
strip_dashes (c ∷ cs) = elim (strip_dashes cs) [
  | [] ↦ if nat_eq c dash then [] else c ∷ []
  | d ∷ ds ↦ c ∷ d ∷ ds
]

-- `.replace(/[^a-z0-9]+/g, '-')`; the argument says that the character before was replaced too.
unfoldable pub collapse : Bool → Text → Text
collapse in_run [] = []
collapse in_run (c ∷ cs) =
    let kept = collapse false cs in
    let run = collapse true cs in
    if is_alphanumeric c then c ∷ kept else (if in_run then run else dash ∷ run)

-- `.replace(/^-+/, '')`
unfoldable pub drop_dashes : Text → Text
drop_dashes [] = []
drop_dashes (c ∷ cs) = let rest = drop_dashes cs in if nat_eq c dash then rest else c ∷ cs

abbrev pub prefix_of : HostKind → Text
prefix_of compute = []
prefix_of postgres = b'p' ∷ b'g' ∷ dash ∷ []
prefix_of (managed type) = type ++ dash ∷ []

unfoldable pub readable : HostKind → Text → Text → Text
readable kind name ref = prefix_of kind ++ name ++ dash ∷ ref

module _ (to_lower sha256_hex : Text → Text) where
  unfoldable pub slug : Text → Text
  slug name = take 20 (strip_dashes (drop_dashes (collapse false (to_lower name))))

  -- The hash of the readable label takes the place of its end.
  abbrev pub shortened : Text → Text
  shortened label =
      strip_dashes (take (max_label - hash_len - 1) label)
      ++ dash ∷ take hash_len (sha256_hex label)

  unfoldable pub label_for : HostKind → Text → Text → Text
  label_for kind name ref =
      let label = readable kind name ref in
      if leb (length label) max_label then label else shortened label

  unfoldable pub host_for : HostKind → Text → Text → Text → Text
  host_for kind name ref domain = label_for kind name ref ++ dot ∷ domain

-- The last character of a text that is not empty.
abbrev pub last_or : ℕ → Text → ℕ
last_or c [] = c
last_or c (d ∷ ds) = last_or d ds

-- `^[a-z0-9]([a-z0-9-]{0,61}[a-z0-9])?$`
unfoldable pub is_label : Text → Bool
is_label [] = false
is_label (c ∷ cs) =
    is_alphanumeric c
    && (all (λ d. is_alphanumeric d || nat_eq d dash) cs
        && (is_alphanumeric (last_or c cs) && leb (length (c ∷ cs)) max_label))

-- `hostname.split('.')`, on what is left of a label and the rest of the text
unfoldable pub split_dots : Text → List Text
split_dots [] = [] ∷ []
split_dots (c ∷ cs) =
    let rest = split_dots cs in
    if nat_eq c dot then [] ∷ rest else elim rest [ [] ↦ (c ∷ []) ∷ [] | l ∷ ls ↦ (c ∷ l) ∷ ls ]

unfoldable pub is_hostname : Text → Bool
is_hostname hostname =
    leb 1 (length hostname) && (leb (length hostname) 253 && all is_label (split_dots hostname))

length-strip_dashes : (t : Text) → length (strip_dashes t) ≤ length t
unfolding strip_dashes
length-strip_dashes [] = omega arith
length-strip_dashes (c ∷ cs) = ground (arith, length-strip_dashes cs)

length-take : (n : ℕ) (t : Text) → length (take n t) ≤ n
length-take zero t = omega arith
length-take (suc n) [] = omega arith
length-take (suc n) (c ∷ cs) = omega (arith, length-take n cs)

shortened-bounded :
    (to_lower sha256_hex : Text → Text) (label : Text)
    → length (shortened to_lower sha256_hex label) ≤ 63
shortened-bounded to_lower sha256_hex label =
    let front = strip_dashes (take 56 label) in
    let back = take 6 (sha256_hex label) in
    omega (
      arith,
      length-strip_dashes (take 56 label),
      length-take 56 label,
      length-take 6 (sha256_hex label),
      length-append front (dash ∷ back),
    )

-- A minted label has at most 63 characters, whatever the kind, the name, the ref and the hash.
pub label_for-bounded :
    (to_lower sha256_hex : Text → Text) (kind : HostKind) (name ref : Text)
    → length (label_for to_lower sha256_hex kind name ref) ≤ 63
unfolding label_for
label_for-bounded to_lower sha256_hex kind name ref =
    let label = readable kind name ref in
    elim (Bool-cases (leb (length label) max_label)) [
      | inl e ↦ rw e (leb→le (length label) 63 e)
      | inr e ↦ rw e (shortened-bounded to_lower sha256_hex label)
    ]
