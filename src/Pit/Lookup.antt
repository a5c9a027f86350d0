-- ===== src/Pit/Lookup.antt =====
-- What the PIT of daemon/table/pit.cpp finds after an insertion or an assignment through a pointer.
use nfd_pitless.Base.{
  ◌+◌, ◌≡◌, ◌∙◌, refl, sym, ap, subst, Bool, true, false, ◌&&◌, List, [], ◌∷◌, ◌++◌, Option, none,
  some, find_if, arith, if◌then◌else◌, Bool-cases, inl, inr,
}
use nfd_pitless.Ndn.{Ndn, Interest}
use nfd_pitless.Pit.{Entry, new_entry}
use nfd_pitless.Pit.Table.{
  Node, Pit, is_for, is_at, entries_at, find_entry, push_entry, insert, assign, modify_nodes,
  modify,
}

pub find_if-append {ℓ} :
    {A : Type ℓ} (p : A → Bool) (xs ys : List A)
    → find_if p xs ≡ none
    → find_if p (xs ++ ys) ≡ find_if p ys
find_if-append p [] ys h = refl
find_if-append p (x ∷ xs) ys h = elim (Bool-cases (p x)) [
  | inl hit ↦ absurd (ground arith)
  | inr other ↦ rw other (find_if-append p xs ys (ground arith))
]

pub find_if-append_miss {ℓ} :
    {A : Type ℓ} (p : A → Bool) (xs : List A) (y : A)
    → p y ≡ false
    → find_if p (xs ++ y ∷ []) ≡ find_if p xs
find_if-append_miss p [] y h = rw h refl
find_if-append_miss p (x ∷ xs) y h = ground (arith, find_if-append_miss p xs y h)

module _ (ndn : Ndn) where
  name_eq_refl : (n : ndn.Name) → ndn.name_eq n n ≡ true
  name_eq_refl n = (ndn.name_eq_iff n n).1 refl

  is_for_new : (i : Interest ndn) → is_for ndn i (new_entry ndn i) ≡ true
  unfolding new_entry
  is_for_new i = rw (name_eq_refl i.name) ((ndn.selectors_eq_iff i.selectors i.selectors).1 refl)

  entries-push :
      (e : Entry ndn) (nodes : List (Node ndn))
      → entries_at ndn e.interest.name (push_entry ndn e nodes)
        ≡ entries_at ndn e.interest.name nodes ++ e ∷ []
  unfolding entries_at push_entry
  entries-push e [] = rw (name_eq_refl e.interest.name) refl
  entries-push e (node ∷ nodes) = elim (Bool-cases (is_at ndn e.interest.name node)) [
    | inl hit ↦ rw (hit, push_entry) (rw (hit, entries_at) refl)
    | inr other ↦ rw (other, push_entry) (rw (other, entries_at) (entries-push e nodes))
  ]

  entries-push_other :
      (e : Entry ndn) (n : ndn.Name) (nodes : List (Node ndn))
      → ndn.name_eq e.interest.name n ≡ false
      → entries_at ndn n (push_entry ndn e nodes) ≡ entries_at ndn n nodes
  unfolding entries_at push_entry
  entries-push_other e n [] h = rw h refl
  entries-push_other e n (node ∷ nodes) h = elim (Bool-cases (is_at ndn e.interest.name node)) [
    | inl hit ↦
        let same = (ndn.name_eq_iff node.name e.interest.name).0 hit in
        let off : ndn.name_eq node.name n ≡ false = rw same h in
        rw (hit, push_entry) (rw (off, entries_at) refl)
    | inr other ↦ rw (other, push_entry) (ground (arith, entries-push_other e n nodes h))
  ]

  -- Pit::insert's search, by a Name and Selectors.
  abbrev search_for : Pit ndn → ndn.Name → ndn.Selectors → Option (Entry ndn)
  search_for pit n s =
      find_if (λ e. ndn.name_eq e.interest.name n && ndn.selectors_eq e.interest.selectors s)
        (entries_at ndn n pit.nodes)

  find-search :
      (i : Interest ndn) (pit : Pit ndn) → find_entry ndn i pit ≡ search_for pit i.name i.selectors
  unfolding find_entry
  find-search i pit = refl

  search-push :
      (n : ndn.Name) (z : ndn.Selectors) (e : Entry ndn) (pit : Pit ndn)
      → (ndn.name_eq e.interest.name n && ndn.selectors_eq e.interest.selectors z) ≡ false
      → search_for (record { nodes = push_entry ndn e pit.nodes; n_items = pit.n_items + 1 }) n z
        ≡ search_for pit n z
  search-push n z e pit apart = elim (Bool-cases (ndn.name_eq e.interest.name n)) [
    | inl hit ↦ at_name n ((ndn.name_eq_iff e.interest.name n).0 hit) apart
    | inr off ↦ rw (entries-push_other e n pit.nodes off) refl
  ]
    where
      at_name :
          (n : ndn.Name)
          → e.interest.name ≡ n
          → (ndn.name_eq e.interest.name n && ndn.selectors_eq e.interest.selectors z) ≡ false
          → search_for
              (record { nodes = push_entry ndn e pit.nodes; n_items = pit.n_items + 1 })
              n
              z
            ≡ search_for pit n z
      at_name n same =
          subst
            (λ m.
              (ndn.name_eq e.interest.name m && ndn.selectors_eq e.interest.selectors z) ≡ false
              → search_for
                  (record { nodes = push_entry ndn e pit.nodes; n_items = pit.n_items + 1 }) m z
                ≡ search_for pit m z)
            same
            (λ a. rw (entries-push e pit.nodes) (
              find_if-append_miss
                (λ f.
                  ndn.name_eq f.interest.name e.interest.name
                  && ndn.selectors_eq f.interest.selectors z)
                (entries_at ndn e.interest.name pit.nodes) e a))

  pub new_found :
      (i : Interest ndn) (pit : Pit ndn)
      → find_entry ndn i pit ≡ none
      → find_entry ndn i (insert ndn i pit).0 ≡ some (new_entry ndn i)
  unfolding insert find_entry new_entry
  new_found i pit missing =
      rw (missing, insert)
        (rw (entries-push (new_entry ndn i) pit.nodes) (
          find_if-append (is_for ndn i) (entries_at ndn i.name pit.nodes) (new_entry ndn i ∷ [])
            missing
          ∙ rw (is_for_new i) refl))

  -- After the insertion of an Interest that the PIT has no entry for, that new entry is found for
  -- each Interest of the same Name and Selectors, and for any other Interest what was found before.
  pub insert_lem :
      (i j : Interest ndn) (pit : Pit ndn)
      → find_entry ndn i pit ≡ none
      → find_entry ndn j (insert ndn i pit).0
        ≡ (if is_for ndn j (new_entry ndn i) then some (new_entry ndn i) else find_entry ndn j pit)
  unfolding insert new_entry
  insert_lem i j pit missing = elim (Bool-cases (is_for ndn j (new_entry ndn i))) [
    | inl hit ↦ rw hit (
        same ((ndn.name_eq_iff i.name j.name).0 (ground arith))
          ((ndn.selectors_eq_iff i.selectors j.selectors).0 (ground arith)))
    | inr apart ↦ rw apart (
        rw (missing, insert)
          (find-search j (record {
            nodes = push_entry ndn (new_entry ndn i) pit.nodes;
            n_items = pit.n_items + 1;
          })
            ∙ search-push j.name j.selectors (new_entry ndn i) pit apart
            ∙ sym (find-search j pit)))
  ]
    where
      same :
          i.name ≡ j.name
          → i.selectors ≡ j.selectors
          → find_entry ndn j (insert ndn i pit).0 ≡ some (new_entry ndn i)
      same e1 e2 =
          find-search j (insert ndn i pit).0
          ∙ (ap (λ n. search_for (insert ndn i pit).0 n j.selectors) (sym e1)
              ∙ (ap (λ z. search_for (insert ndn i pit).0 i.name z) (sym e2)
                  ∙ (sym (find-search i (insert ndn i pit).0) ∙ new_found i pit missing)))

  find_if-assign :
      (i : Interest ndn) (f : Entry ndn → Entry ndn) (es : List (Entry ndn))
      → ((e : Entry ndn) → is_for ndn i (f e) ≡ is_for ndn i e)
      → (e : Entry ndn) → find_if (is_for ndn i) es ≡ some e
      → find_if (is_for ndn i) (assign ndn i f es) ≡ some (f e)
  unfolding assign
  find_if-assign i f [] keeps e found = absurd (cc)
  find_if-assign i f (x ∷ xs) keeps e found = elim (Bool-cases (is_for ndn i x)) [
    | inl hit ↦ rw (hit, assign) (rw (keeps x) (rw hit (ground arith)))
    | inr off ↦ rw (off, assign) (rw off (find_if-assign i f xs keeps e (ground arith)))
  ]

  entries-modify :
      (i : Interest ndn) (f : Entry ndn → Entry ndn) (nodes : List (Node ndn))
      → entries_at ndn i.name (modify_nodes ndn i f nodes)
        ≡ assign ndn i f (entries_at ndn i.name nodes)
  unfolding entries_at modify_nodes assign
  entries-modify i f [] = refl
  entries-modify i f (node ∷ nodes) = elim (Bool-cases (is_at ndn i.name node)) [
    | inl hit ↦ rw (hit, modify_nodes) (rw (hit, entries_at) refl)
    | inr off ↦ rw (off, modify_nodes) (rw (off, entries_at) (entries-modify i f nodes))
  ]

  pub find-modify :
      (i : Interest ndn) (f : Entry ndn → Entry ndn) (pit : Pit ndn)
      → ((e : Entry ndn) → is_for ndn i (f e) ≡ is_for ndn i e)
      → (e : Entry ndn) → find_entry ndn i pit ≡ some e
      → find_entry ndn i (modify ndn i f pit) ≡ some (f e)
  unfolding find_entry modify
  find-modify i f pit keeps e found =
      rw (entries-modify i f pit.nodes)
        (find_if-assign i f (entries_at ndn i.name pit.nodes) keeps e found)
