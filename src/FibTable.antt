-- ===== src/FibTable.antt =====
-- The FIB: daemon/table/fib.cpp, on the name tree of NameTree.antt. A FIB entry is the next hops that
-- hang on the name tree entry of its prefix.
pub mod Entries
pub mod EraseAll
pub mod Map
pub mod Routes
pub mod Removal
pub mod Longest
pub mod Refines
pub mod Forwarding
mod Examples
use nfd_pitless.Base.{
  ℕ, ◌+◌, ◌-◌, ◌%◌, ◌^◌, ◌≤◌, ◌≡◌, Bool, true, false, not, List, [], ◌∷◌, map, Option, none, some,
  if◌then◌else◌, copy_if,
}
use nfd_pitless.Ndn.{Ndn}
use nfd_pitless.Face.{Face}
use nfd_pitless.Fib.{NextHop, Sort, add_next_hop, remove_next_hop}
use nfd_pitless.NameTree.{
  Attached, is_nil, is_null, flatten, Hashing, Entry, NameTree, write, lookup, find_exact_match,
  new_name_tree,
}
use nfd_pitless.NameTree.Matching.{find_longest_prefix_match}
use nfd_pitless.NameTree.Erasure.{erase_entry_if_empty}

-- A FIB entry's next hops, or those of the empty entry.
abbrev pub hops_or_nil : Option (List NextHop) → List NextHop
hops_or_nil none = []
hops_or_nil (some hops) = hops

abbrev pub map_some : {A : Type 0} → (A → A) → Option A → Option A
map_some f none = none
map_some f (some x) = some (f x)

module _ (ndn : Ndn) (hashing : Hashing ndn) where
  pub record Fib : Type 0 where
    pub name_tree : NameTree ndn hashing
    pub n_items : ℕ

  -- Fib::Fib, on a name tree of its own.
  abbrev pub new_fib : ℕ → Fib
  new_fib n_buckets = record { name_tree = new_name_tree ndn hashing n_buckets; n_items = 0 }

  abbrev pub fib_entry_of : Option (Entry ndn hashing) → Option (List NextHop)
  fib_entry_of none = none
  fib_entry_of (some e) = e.attached.fib_entry

  -- Entry::setFibEntry
  abbrev pub set_fib_entry :
      ndn.Name → Option (List NextHop) → NameTree ndn hashing → NameTree ndn hashing
  set_fib_entry name fib_entry t =
      write ndn hashing name
        (λ e. record e { attached = record e.attached { fib_entry = fib_entry } }) t

  -- Fib::findExactMatch
  unfoldable pub find_fib_entry : ndn.Name → Fib → Option (List NextHop)
  find_fib_entry prefix fib = fib_entry_of (find_exact_match ndn hashing prefix fib.name_tree)

  -- Fib::insert
  unfoldable pub insert_found :
      Option (List NextHop) → ndn.Name → NameTree ndn hashing → ℕ → Fib × Bool
  insert_found (some hops) prefix t n_items = (record { name_tree = t; n_items = n_items }, false)
  insert_found none prefix t n_items =
      (record { name_tree = set_fib_entry prefix (some []) t; n_items = n_items + 1 }, true)

  unfoldable pub insert_prefix : ndn.Name → Fib → Fib × Bool
  unfolding insert_found
  insert_prefix prefix fib =
      let t = lookup ndn hashing prefix fib.name_tree in
      insert_found (fib_entry_of (find_exact_match ndn hashing prefix t)) prefix t fib.n_items

  -- Fib::erase. The count of the entries is a size_t.
  unfoldable pub erase_entry : ndn.Name → Fib → Fib
  erase_entry name fib = record {
    name_tree = (erase_entry_if_empty ndn hashing name (set_fib_entry name none fib.name_tree)).0;
    n_items = (fib.n_items + (2 ^ 64 - 1)) % 2 ^ 64;
  }

  unfoldable pub erase_prefix : ndn.Name → Fib → Fib
  unfolding erase_entry
  erase_prefix prefix fib =
      if is_null (find_exact_match ndn hashing prefix fib.name_tree)
      then fib
      else erase_entry prefix fib

  -- Fib::findLongestPrefixMatch for a name; the empty entry has no next hops.
  abbrev pub has_fib_entry : Entry ndn hashing → Bool
  has_fib_entry e = not (is_null e.attached.fib_entry)

  unfoldable pub find_longest : ndn.Name → Fib → List NextHop
  find_longest prefix fib =
      hops_or_nil
        (fib_entry_of (find_longest_prefix_match ndn hashing prefix has_fib_entry fib.name_tree))

  -- fib::Entry::addNextHop on the entry that insert returns.
  abbrev pub with_hops : (List NextHop → List NextHop) → Entry ndn hashing → Entry ndn hashing
  with_hops f e = record e {
    attached = record e.attached { fib_entry = map_some f e.attached.fib_entry };
  }

  unfoldable pub add_to_entry : Sort → ndn.Name → Face → ℕ → Fib → Fib
  unfolding insert_prefix
  add_to_entry sort prefix face cost fib =
      let inserted = (insert_prefix prefix fib).0 in
      record inserted {
        name_tree =
            write ndn hashing prefix (with_hops (λ hops. add_next_hop sort hops face cost))
              inserted.name_tree;
      }

  -- Fib::removeNextHopFromAllEntries: what is done in the enumeration, the entries that it collects
  -- to be erased, and their erasure.
  abbrev pub remove_from_all : Face → NameTree ndn hashing → NameTree ndn hashing
  remove_from_all face t = record t {
    buckets = map (map (with_hops (λ hops. remove_next_hop hops face))) t.buckets;
  }

  abbrev pub without_hops : Entry ndn hashing → Bool
  without_hops e = elim e.attached.fib_entry [ none ↦ false | some hops ↦ is_nil hops ]

  abbrev pub prefixes_of : List (Entry ndn hashing) → List ndn.Name
  prefixes_of [] = []
  prefixes_of (e ∷ es) = e.prefix ∷ prefixes_of es

  unfoldable pub erase_all : List ndn.Name → Fib → Fib
  unfolding erase_entry
  erase_all [] fib = fib
  erase_all (prefix ∷ prefixes) fib = erase_all prefixes (erase_entry prefix fib)

  unfoldable pub remove_next_hop_from_all_entries : Face → Fib → Fib
  unfolding erase_all flatten
  remove_next_hop_from_all_entries face fib =
      let t = remove_from_all face fib.name_tree in
      erase_all (prefixes_of (copy_if without_hops (flatten t.buckets)))
        (record fib { name_tree = t })
