-- ===== src/Pit/Table.antt =====
-- The PIT, daemon/table/pit.cpp, over the name tree entries that hold PIT entries
-- (daemon/table/name-tree-entry.cpp). A node is a name tree entry with its vector of PIT entries;
-- one whose vector is empty is left out. A shared pointer to a PIT entry is the entry with the
-- Name and the Selectors of its Interest, of which a table has one.
use nfd_pitless.Base.{
  ℕ, zero, suc, ◌+◌, ◌-◌, Bool, true, false, ◌&&◌, List, [], ◌∷◌, ◌++◌, Option, none, some,
  if◌then◌else◌, find_if, copy_if,
}
use nfd_pitless.Ndn.{Ndn, Interest, Data}
use nfd_pitless.Pit.{Entry, new_entry}

module _ (ndn : Ndn) where
  open ndn use {name_eq, selectors_eq, size, get_prefix, matches_data}

  pub record Node : Type 0 where
    pub name : ndn.Name
    pub entries : List (Entry ndn)

  pub record Pit : Type 0 where
    pub nodes : List Node
    pub n_items : ℕ

  -- The test of Pit::insert, that an entry is for an Interest of this Name and these Selectors.
  abbrev pub is_for : Interest ndn → Entry ndn → Bool
  is_for interest e =
      name_eq e.interest.name interest.name && selectors_eq e.interest.selectors interest.selectors

  abbrev pub is_at : ndn.Name → Node → Bool
  is_at name node = name_eq node.name name

  -- The PIT entries of the name tree entry for a name.
  unfoldable pub entries_at : ndn.Name → List Node → List (Entry ndn)
  entries_at name [] = []
  entries_at name (node ∷ nodes) = if is_at name node then node.entries else entries_at name nodes

  unfoldable pub find_entry : Interest ndn → Pit → Option (Entry ndn)
  unfolding entries_at
  find_entry interest pit = find_if (is_for interest) (entries_at interest.name pit.nodes)

  -- NameTree::lookup and name_tree::Entry::insertPitEntry
  unfoldable pub push_entry : Entry ndn → List Node → List Node
  push_entry e [] = record { name = e.interest.name; entries = e ∷ [] } ∷ []
  push_entry e (node ∷ nodes) =
      if is_at e.interest.name node
      then record node { entries = node.entries ++ e ∷ [] } ∷ nodes
      else node ∷ push_entry e nodes

  -- Pit::insert. The entry is then found by `find_entry`; the Boolean is true for a new one.
  unfoldable pub insert : Interest ndn → Pit → Pit × Bool
  unfolding find_entry push_entry new_entry
  insert interest pit = elim (find_entry interest pit) [
    | some e ↦ (pit, false)
    | none ↦ (
      record { nodes = push_entry (new_entry ndn interest) pit.nodes; n_items = pit.n_items + 1 },
      true,
    )
  ]

  -- An assignment through a pointer to an entry.
  unfoldable pub assign :
      Interest ndn → (Entry ndn → Entry ndn) → List (Entry ndn) → List (Entry ndn)
  assign interest f [] = []
  assign interest f (e ∷ es) = if is_for interest e then f e ∷ es else e ∷ assign interest f es

  unfoldable pub modify_nodes : Interest ndn → (Entry ndn → Entry ndn) → List Node → List Node
  unfolding assign
  modify_nodes interest f [] = []
  modify_nodes interest f (node ∷ nodes) =
      if is_at interest.name node
      then record node { entries = assign interest f node.entries } ∷ nodes
      else node ∷ modify_nodes interest f nodes

  unfoldable pub modify : Interest ndn → (Entry ndn → Entry ndn) → Pit → Pit
  unfolding modify_nodes
  modify interest f pit = record pit { nodes = modify_nodes interest f pit.nodes }

  -- name_tree::Entry::erasePitEntry: the last entry of the vector takes the place of the erased.
  unfoldable pub last_or : Entry ndn → List (Entry ndn) → Entry ndn
  last_or e [] = e
  last_or e (f ∷ rest) = last_or f rest

  unfoldable pub pop_back : List (Entry ndn) → List (Entry ndn)
  pop_back [] = []
  pop_back (e ∷ []) = []
  pop_back (e ∷ f ∷ rest) = e ∷ pop_back (f ∷ rest)

  unfoldable pub erase_entry : Interest ndn → List (Entry ndn) → List (Entry ndn)
  unfolding last_or pop_back
  erase_entry interest [] = []
  erase_entry interest (e ∷ es) =
      if is_for interest e then pop_back (last_or e es ∷ es) else e ∷ erase_entry interest es

  -- With NameTree::eraseEntryIfEmpty.
  unfoldable pub erase_from : Interest ndn → List Node → List Node
  unfolding erase_entry
  erase_from interest [] = []
  erase_from interest (node ∷ nodes) =
      if is_at interest.name node
      then elim (erase_entry interest node.entries) [
        | [] ↦ nodes
        | e ∷ es ↦ record node { entries = e ∷ es } ∷ nodes
      ]
      else node ∷ erase_from interest nodes

  unfoldable pub erase : Interest ndn → Pit → Pit
  unfolding erase_from
  erase interest pit = record { nodes = erase_from interest pit.nodes; n_items = pit.n_items - 1 }

  -- NameTree::findAllMatches: the entries at each prefix of a name, the longest prefix first.
  unfoldable pub entries_from : ndn.Name → ℕ → List Node → List (Entry ndn)
  unfolding entries_at
  entries_from name zero nodes = entries_at (get_prefix name zero) nodes
  entries_from name (suc n) nodes =
      entries_at (get_prefix name (suc n)) nodes ++ entries_from name n nodes

  -- The PIT entries are looked for at every prefix of the Data's name that is in the name tree. The
  -- code starts from findLongestPrefixMatch, which compares hashes and so finds the longest of them
  -- where the prefixes have different hashes; it can stop short where two of them, such as /A and
  -- /A/X/X, have one. Such names are set aside here.
  unfoldable pub find_all_data_matches : Data ndn → Pit → List (Entry ndn)
  unfolding entries_from
  find_all_data_matches packet pit =
      copy_if (λ e. matches_data e.interest packet)
        (entries_from packet.name (size packet.name) pit.nodes)

  -- As above, at every prefix of the supporting name.
  unfoldable pub find_all_data_matches_by_name : ndn.Name → Pit → List (Entry ndn)
  unfolding entries_from
  find_all_data_matches_by_name name pit =
      copy_if (λ e. name_eq e.interest.name name) (entries_from name (size name) pit.nodes)
