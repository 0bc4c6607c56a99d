-- ===== src/Router/Table/Laws.antt =====
-- The table answers what a search of its routes in order answers.
use instacloud_oss.Base.{
  ◌≡◌, refl, sym, Bool, true, List, [], ◌∷◌, ◌++◌, Option, none, some, get, get-put, list_instance,
  nat_instance, ◌==◌, ◌||◌, if◌then◌else◌, contains, find, list_same_iff, subst, ◌↔◌, arith,
  Bool-cases, Option-cases, inl, inr,
}
use instacloud_oss.Router.Table.{
  Text, Route, Table, empty_table, add_name, add_names, add_port, add, add_all,
}

-- A route answers a name that is its host or one of its aliases.
abbrev pub answers : Text → Route → Bool
answers h r = contains h (r.host ∷ r.aliases)

-- What is found first, and otherwise what comes after.
abbrev or_else : {A : Type 0} → Option A → Option A → Option A
or_else none o = o
or_else (some a) o = some a

or_else-none : {A : Type 0} (o : Option A) → or_else o none ≡ o
or_else-none none = refl
or_else-none (some a) = refl

abbrev text_iff : (a b : Text) → ((a == b) ≡ true) ↔ (a ≡ b)
text_iff a b = list_same_iff a b

get-add_name :
    (r : Route) (h j : Text) (t : Table)
    → get j (add_name r h t).by_host ≡ or_else (get j t.by_host) (if h == j then some r else none)
unfolding add_name
get-add_name r h j t = elim (Option-cases (get h t.by_host)) [
  | inl e ↦ elim (Bool-cases (h == j)) [
    | inl f ↦
        let same : h ≡ j = (text_iff h j).0 f in
        let none_yet : get j t.by_host ≡ none = subst (λ k. get k t.by_host ≡ none) same e in
        rw (e, get-put h j r t.by_host, f, none_yet) refl
    | inr f ↦ rw (e, get-put h j r t.by_host, f) (sym (or_else-none (get j t.by_host)))
  ]
  | inr (old, e) ↦ elim (Bool-cases (h == j)) [
    | inl f ↦
        let same : h ≡ j = (text_iff h j).0 f in
        let known : get j t.by_host ≡ some old = subst (λ k. get k t.by_host ≡ some old) same e in
        rw (e, f, known) refl
    | inr f ↦ rw (e, f) (sym (or_else-none (get j t.by_host)))
  ]
]

get-add_names :
    (r : Route) (hs : List Text) (t : Table) (j : Text)
    → get j (add_names r hs t).by_host
      ≡ or_else (get j t.by_host) (if contains j hs then some r else none)
unfolding add_names contains
get-add_names r [] t j = sym (or_else-none (get j t.by_host))
get-add_names r (h ∷ hs) t j =
    rw (get-add_names r hs (add_name r h t) j, get-add_name r h j t)
      (merge (get j t.by_host) (h == j) (contains j hs))
  where
    merge :
        (o : Option Route) (a b : Bool)
        → or_else (or_else o (if a then some r else none)) (if b then some r else none)
          ≡ or_else o (if a || b then some r else none)
    merge o a b = ground arith

add_port-by_host :
    (is_server : Bool) (r : Route) (t : Table) → (add_port is_server r t).by_host ≡ t.by_host
unfolding add_port
add_port-by_host is_server r t = ground arith

get-add_all :
    (is_server : Bool) (rs : List Route) (t : Table) (j : Text)
    → get j (add_all is_server rs t).by_host ≡ or_else (get j t.by_host) (find (answers j) rs)
unfolding add_all add
get-add_all is_server [] t j = sym (or_else-none (get j t.by_host))
get-add_all is_server (r ∷ rs) t j =
    let names = r.host ∷ r.aliases in
    let u = record t { routes = t.routes ++ r ∷ [] } in
    rw
      (
        get-add_all is_server rs (add is_server r t) j,
        add_port-by_host is_server r (add_names r names u),
        get-add_names r names u j,
      )
      (merge (get j t.by_host) (contains j names) (find (answers j) rs))
  where
    merge :
        (o : Option Route) (a : Bool) (rest : Option Route)
        → or_else (or_else o (if a then some r else none)) rest
          ≡ or_else o (if a then some r else rest)
    merge o a rest = ground arith

-- The route of a name in the table is the first route, in the order in which they were added, that
-- has it as its host or as an alias, however many routes claim it; a name of no route is not found.
pub lookup_is_first :
    (is_server : Bool) (rs : List Route) (h : Text)
    → get h (add_all is_server rs empty_table).by_host ≡ find (answers h) rs
unfolding get
lookup_is_first is_server rs h = get-add_all is_server rs empty_table h
