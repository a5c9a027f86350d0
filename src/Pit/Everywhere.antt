-- ===== src/Pit/Everywhere.antt =====
-- A property of every entry of the PIT, under the operations of daemon/table/pit.cpp.
use nfd_pitless.Base.{
  ℕ, zero, suc, ◌≡◌, List, [], ◌∷◌, some, All, All-append, All-copy_if, All-find_if, Bool-cases,
  Option-cases, inl, inr,
}
use nfd_pitless.Ndn.{Ndn, Interest}
use nfd_pitless.Pit.{Entry, new_entry}
use nfd_pitless.Pit.Table.{
  Node, Pit, is_for, is_at, entries_at, find_entry, push_entry, insert, assign, modify_nodes,
  modify, last_or, pop_back, erase_entry, erase_from, erase, entries_from,
  find_all_data_matches_by_name,
}

module _ (ndn : Ndn) (P : Entry ndn → Type 0) where
  abbrev pub AtNode : Node ndn → Type 0
  AtNode node = All P node.entries

  abbrev pub Everywhere : Pit ndn → Type 0
  Everywhere pit = All AtNode pit.nodes

  entries_at-All :
      (name : ndn.Name) (nodes : List (Node ndn))
      → All AtNode nodes
      → All P (entries_at ndn name nodes)
  unfolding entries_at
  entries_at-All name [] h = tt
  entries_at-All name (node ∷ nodes) h = elim (Bool-cases (is_at ndn name node)) [
    | inl hit ↦ rw (hit, entries_at) h.0
    | inr other ↦ rw (other, entries_at) (entries_at-All name nodes h.1)
  ]

  entries_from-All :
      (name : ndn.Name) (n : ℕ) (nodes : List (Node ndn))
      → All AtNode nodes
      → All P (entries_from ndn name n nodes)
  unfolding entries_from
  entries_from-All name zero nodes h = entries_at-All (ndn.get_prefix name zero) nodes h
  entries_from-All name (suc n) nodes h =
      All-append P (entries_at ndn (ndn.get_prefix name (suc n)) nodes)
        (entries_from ndn name n nodes) (entries_at-All (ndn.get_prefix name (suc n)) nodes h)
        (entries_from-All name n nodes h)

  pub find_entry-Everywhere :
      (i : Interest ndn) (pit : Pit ndn)
      → Everywhere pit
      → (e : Entry ndn) → find_entry ndn i pit ≡ some e
      → P e
  unfolding find_entry
  find_entry-Everywhere i pit h e found =
      All-find_if P (is_for ndn i) (entries_at ndn i.name pit.nodes)
        (entries_at-All i.name pit.nodes h) e found

  pub matches_by_name-Everywhere :
      (name : ndn.Name) (pit : Pit ndn)
      → Everywhere pit
      → All P (find_all_data_matches_by_name ndn name pit)
  unfolding find_all_data_matches_by_name
  matches_by_name-Everywhere name pit h =
      All-copy_if P (λ e. ndn.name_eq e.interest.name name)
        (entries_from ndn name (ndn.size name) pit.nodes)
        (entries_from-All name (ndn.size name) pit.nodes h)

  push_entry-All :
      (e : Entry ndn) (nodes : List (Node ndn))
      → P e
      → All AtNode nodes
      → All AtNode (push_entry ndn e nodes)
  unfolding push_entry
  push_entry-All e [] p h = ((p, tt), tt)
  push_entry-All e (node ∷ nodes) p h = elim (Bool-cases (is_at ndn e.interest.name node)) [
    | inl hit ↦ rw (hit, push_entry) (All-append P node.entries (e ∷ []) h.0 (p, tt), h.1)
    | inr other ↦ rw (other, push_entry) (h.0, push_entry-All e nodes p h.1)
  ]

  pub insert-Everywhere :
      (i : Interest ndn) (pit : Pit ndn)
      → P (new_entry ndn i)
      → Everywhere pit
      → Everywhere (insert ndn i pit).0
  unfolding insert
  insert-Everywhere i pit p h = elim (Option-cases (find_entry ndn i pit)) [
    | inl missing ↦ rw (missing, insert) (push_entry-All (new_entry ndn i) pit.nodes p h)
    | inr (e, found) ↦ rw (found, insert) h
  ]

  assign-All :
      (i : Interest ndn) (f : Entry ndn → Entry ndn) (es : List (Entry ndn))
      → ((e : Entry ndn) → P e → P (f e))
      → All P es
      → All P (assign ndn i f es)
  unfolding assign
  assign-All i f [] keeps h = tt
  assign-All i f (e ∷ es) keeps h = elim (Bool-cases (is_for ndn i e)) [
    | inl hit ↦ rw (hit, assign) (keeps e h.0, h.1)
    | inr other ↦ rw (other, assign) (h.0, assign-All i f es keeps h.1)
  ]

  modify_nodes-All :
      (i : Interest ndn) (f : Entry ndn → Entry ndn) (nodes : List (Node ndn))
      → ((e : Entry ndn) → P e → P (f e))
      → All AtNode nodes
      → All AtNode (modify_nodes ndn i f nodes)
  unfolding modify_nodes
  modify_nodes-All i f [] keeps h = tt
  modify_nodes-All i f (node ∷ nodes) keeps h = elim (Bool-cases (is_at ndn i.name node)) [
    | inl hit ↦ rw (hit, modify_nodes) (assign-All i f node.entries keeps h.0, h.1)
    | inr other ↦ rw (other, modify_nodes) (h.0, modify_nodes-All i f nodes keeps h.1)
  ]

  pub modify-Everywhere :
      (i : Interest ndn) (f : Entry ndn → Entry ndn) (pit : Pit ndn)
      → ((e : Entry ndn) → P e → P (f e))
      → Everywhere pit
      → Everywhere (modify ndn i f pit)
  unfolding modify
  modify-Everywhere i f pit keeps h = modify_nodes-All i f pit.nodes keeps h

  last_or-All : (e : Entry ndn) (es : List (Entry ndn)) → P e → All P es → P (last_or ndn e es)
  unfolding last_or
  last_or-All e [] p h = p
  last_or-All e (f ∷ es) p h = last_or-All f es h.0 h.1

  pop_back-All : (es : List (Entry ndn)) → All P es → All P (pop_back ndn es)
  unfolding pop_back
  pop_back-All [] h = tt
  pop_back-All (e ∷ []) h = tt
  pop_back-All (e ∷ f ∷ es) h = (h.0, pop_back-All (f ∷ es) h.1)

  erase_entry-All :
      (i : Interest ndn) (es : List (Entry ndn)) → All P es → All P (erase_entry ndn i es)
  unfolding erase_entry
  erase_entry-All i [] h = tt
  erase_entry-All i (e ∷ es) h = elim (Bool-cases (is_for ndn i e)) [
    | inl hit ↦
        rw (hit, erase_entry) (pop_back-All (last_or ndn e es ∷ es) (last_or-All e es h.0 h.1, h.1))
    | inr other ↦ rw (other, erase_entry) (h.0, erase_entry-All i es h.1)
  ]

  erase_from-All :
      (i : Interest ndn) (nodes : List (Node ndn))
      → All AtNode nodes
      → All AtNode (erase_from ndn i nodes)
  unfolding erase_from
  erase_from-All i [] h = tt
  erase_from-All i (node ∷ nodes) h = elim (Bool-cases (is_at ndn i.name node)) [
    | inl hit ↦
        rw (hit, erase_from)
          (refill (erase_entry ndn i node.entries) (erase_entry-All i node.entries h.0))
    | inr other ↦ rw (other, erase_from) (h.0, erase_from-All i nodes h.1)
  ]
    where
      refill :
          (es : List (Entry ndn))
          → All P es
          → All AtNode (elim es as (λ _. List (Node ndn)) [
            | [] ↦ nodes
            | e ∷ es ↦ record node { entries = e ∷ es } ∷ nodes
          ])
      refill [] g = h.1
      refill (e ∷ es) g = (g, h.1)

  pub erase-Everywhere :
      (i : Interest ndn) (pit : Pit ndn) → Everywhere pit → Everywhere (erase ndn i pit)
  unfolding erase
  erase-Everywhere i pit h = erase_from-All i pit.nodes h
