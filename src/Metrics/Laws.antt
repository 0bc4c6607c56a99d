-- ===== src/Metrics/Laws.antt =====
-- The stored samples of a container stay in the order of time, whatever is recorded, pruned or
-- loaded, and a prune keeps exactly the samples that are young enough.
use instacloud_oss.Base.{
  ℕ, ◌-◌, ◌≡◌, ◌<◌, String, true, List, [], ◌∷◌, ◌++◌, Option, none, some, get_or, Map, get, put,
  string_instance, ◌==◌, ltb, leb, arith, All, Bool-cases, inl, inr, ◌&&◌,
}
use instacloud_oss.Metrics.{
  Floats, Sample, ContainerSample, History, PersistedHistory, follows, last_time, append_sample,
  drop_old, prune_from, prune, sample_of, record_rows, load_samples, load_all, load, load_sample,
  retention_sec,
}

module _ {Num : Type 0} where
  -- Every sample is later than those before it.
  abbrev pub Ascending : List (Sample Num) → Type 0
  Ascending [] = Unit
  Ascending (x ∷ xs) = All (λ y. x.t < y.t) xs × Ascending xs

  abbrev pub InOrder : History Num → Type 0
  InOrder h = All (λ e. Ascending e.1) h

  snoc-Ascending :
      (xs : List (Sample Num)) (x : Sample Num)
      → Ascending xs
      → All (λ y. y.t < x.t) xs
      → Ascending (xs ++ x ∷ [])
  snoc-Ascending [] x h k = (tt, tt)
  snoc-Ascending (y ∷ ys) x (h, hs) (k, ks) = (All-snoc ys h, snoc-Ascending ys x hs ks)
    where
      All-snoc :
          (zs : List (Sample Num)) → All (λ z. y.t < z.t) zs → All (λ z. y.t < z.t) (zs ++ x ∷ [])
      All-snoc [] h = (k, tt)
      All-snoc (z ∷ zs) (h, hs) = (h, All-snoc zs hs)

  follows-All :
      (xs : List (Sample Num)) (t : ℕ)
      → Ascending xs
      → follows (last_time (λ y. y.t) xs) t ≡ true
      → All (λ y. y.t < t) xs
  follows-All [] t h k = tt
  follows-All (x ∷ []) t h k = (ground arith, tt)
  follows-All (x ∷ y ∷ ys) t ((h, hs), rest) k =
      let later = follows-All (y ∷ ys) t rest (ground arith) in (omega (arith, later.0, h), later)

  append_sample-Ascending :
      (x : Sample Num) (xs : List (Sample Num)) → Ascending xs → Ascending (append_sample x xs)
  unfolding append_sample
  append_sample-Ascending x xs h = elim (Bool-cases (follows (last_time (λ y. y.t) xs) x.t)) [
    | inl e ↦ rw e (snoc-Ascending xs x h (follows-All xs x.t h e))
    | inr e ↦ rw e h
  ]

  drop_old-Ascending :
      (cutoff : ℕ) (xs : List (Sample Num)) → Ascending xs → Ascending (drop_old cutoff xs)
  unfolding drop_old
  drop_old-Ascending cutoff [] h = tt
  drop_old-Ascending cutoff (x ∷ xs) (h, hs) = elim (Bool-cases (ltb x.t cutoff)) [
    | inl e ↦ rw e (drop_old-Ascending cutoff xs hs)
    | inr e ↦ rw e (h, hs)
  ]

  get-InOrder : (name : String) (h : History Num) → InOrder h → Ascending (get_or (get name h) [])
  unfolding get
  get-InOrder name [] o = tt
  get-InOrder name ((k, xs) ∷ h) (o, os) = elim (Bool-cases (k == name)) [
    | inl e ↦ rw e o
    | inr e ↦ rw e (get-InOrder name h os)
  ]

  put-InOrder :
      (name : String) (xs : List (Sample Num)) (h : History Num)
      → Ascending xs
      → InOrder h
      → InOrder (put name xs h)
  unfolding put
  put-InOrder name xs [] a o = (a, tt)
  put-InOrder name xs ((k, ys) ∷ h) a (o, os) = elim (Bool-cases (k == name)) [
    | inl e ↦ rw e (a, os)
    | inr e ↦ rw e (o, put-InOrder name xs h a os)
  ]

  prune_from-InOrder : (cutoff : ℕ) (h : History Num) → InOrder h → InOrder (prune_from cutoff h)
  unfolding prune_from
  prune_from-InOrder cutoff [] o = tt
  prune_from-InOrder cutoff ((k, xs) ∷ h) (o, os) =
      keep (drop_old cutoff xs) (drop_old-Ascending cutoff xs o) (prune_from-InOrder cutoff h os)
    where
      keep :
          (ys : List (Sample Num))
          → Ascending ys
          → InOrder (prune_from cutoff h)
          → InOrder
              (elim ys [ [] ↦ prune_from cutoff h | z ∷ zs ↦ (k, z ∷ zs) ∷ prune_from cutoff h ])
      keep [] a r = r
      keep (z ∷ zs) a r = (a, r)

module _ (floats : Floats) where
  open floats use {Num}

  record_rows-InOrder :
      (t : ℕ) (rows : List (ContainerSample Num)) (h : History Num)
      → InOrder h
      → InOrder (record_rows floats t rows h)
  unfolding record_rows
  record_rows-InOrder t [] h o = o
  record_rows-InOrder t (r ∷ rows) h o = elim (Bool-cases (r.name == "")) [
    | inl e ↦ rw e (record_rows-InOrder t rows h o)
    | inr e ↦
        let arr = get_or (get r.name h) [] in
        let x = sample_of floats t r in
        let kept = append_sample-Ascending x arr (get-InOrder r.name h o) in
        rw e (
          record_rows-InOrder t rows (put r.name (append_sample x arr) h)
            (put-InOrder r.name (append_sample x arr) h kept o))
  ]

  load_samples-Ascending :
      (version : ℕ) (kept xs : List (Sample Num))
      → Ascending kept
      → Ascending (load_samples floats version kept xs)
  unfolding load_samples
  load_samples-Ascending version kept [] a = a
  load_samples-Ascending version kept (x ∷ xs) a =
      let y = load_sample floats version x in
      load_samples-Ascending version (append_sample y kept) xs (append_sample-Ascending y kept a)

  load_all-InOrder :
      (version : ℕ) (saved : Map String (Option (List (Sample Num)))) (h : History Num)
      → InOrder h
      → InOrder (load_all floats version saved h)
  unfolding load_all
  load_all-InOrder version [] h o = o
  load_all-InOrder version ((name, none) ∷ rest) h o = load_all-InOrder version rest h o
  load_all-InOrder version ((name, some arr) ∷ rest) h o =
      load_all-InOrder version rest
        (elim (load_samples floats version [] arr) [ [] ↦ h | x ∷ xs ↦ put name (x ∷ xs) h ])
        (keep (load_samples floats version [] arr) (load_samples-Ascending version [] arr tt))
    where
      keep :
          (ys : List (Sample Num))
          → Ascending ys
          → InOrder (elim ys [ [] ↦ h | x ∷ xs ↦ put name (x ∷ xs) h ])
      keep [] a = o
      keep (x ∷ xs) a = put-InOrder name (x ∷ xs) h a o

  -- What the daemon does with a history.
  pub data Operation : Type 0 where
    tick : ℕ → List (ContainerSample Num) → Operation
    prune_at : ℕ → Operation
    reload : Option (PersistedHistory floats) → ℕ → Operation

  abbrev pub apply : Operation → History Num → History Num
  apply (tick t rows) h = record_rows floats t rows h
  apply (prune_at now_sec) h = prune now_sec h
  apply (reload raw now_sec) h = load floats raw now_sec

  abbrev pub run : List Operation → History Num → History Num
  run [] h = h
  run (o ∷ os) h = run os (apply o h)

  apply-InOrder : (o : Operation) (h : History Num) → InOrder h → InOrder (apply o h)
  unfolding prune load
  apply-InOrder (tick t rows) h o = record_rows-InOrder t rows h o
  apply-InOrder (prune_at now_sec) h o = prune_from-InOrder (now_sec - retention_sec) h o
  apply-InOrder (reload none now_sec) h o = tt
  apply-InOrder (reload (some raw) now_sec) h o =
      elim (Bool-cases (leb 1 raw.version && leb raw.version 3)) [
        | inl e ↦ rw e (
            prune_from-InOrder (now_sec - retention_sec)
              (load_all floats raw.version raw.samples [])
              (load_all-InOrder raw.version raw.samples [] tt))
        | inr e ↦ rw e tt
      ]

  -- Whatever ticks, prunes and loads happen, in whatever order and with whatever clock and saved
  -- values, the samples of every container stay strictly ascending in time.
  pub run-InOrder : (os : List Operation) (h : History Num) → InOrder h → InOrder (run os h)
  run-InOrder [] h o = o
  run-InOrder (op ∷ os) h o = run-InOrder os (apply op h) (apply-InOrder op h o)
