-- ===== src/NameTree/Examples.antt =====
-- The name tree on a few names of Toy.antt.
use nfd_pitless.Base.{ℕ, ◌≡◌, refl, true, List, [], ◌∷◌, ◌^◌, Option, none, some, arith}
use nfd_pitless.Toy.{toy}
use nfd_pitless.NameTree.{
  or_else, nothing_attached, Entry, NameTree, new_name_tree, entry_at, lookup, find_exact_match,
  hash_from, hash_set_from, resize,
}
use nfd_pitless.NameTree.Matching.{find_longest_prefix_match}
use nfd_pitless.NameTree.Erasure.{erase_up, erase_entry_if_empty}
use nfd_pitless.NameTree.Buckets.{on_some}
use nfd_pitless.NameTree.Invariant.{IsTree, find_exact_match_lem}
use nfd_pitless.NameTree.Started.{new_name_tree-IsTree, new_name_tree-IsRising}
use nfd_pitless.NameTree.Toy.{hashing_by, toy_hashing, spread}
use nfd_pitless.NameTree.Resize.{find_exact_match-resize}
use nfd_pitless.NameTree.Prefixes.{lookup-IsTree, found_at, found_at-lookup}
use nfd_pitless.NameTree.Longest.{longest_below, find_longest_prefix_match_lem}
use nfd_pitless.NameTree.Erased.{hung}
use nfd_pitless.NameTree.Erasing.{hung-erase_entry_if_empty}
use nfd_pitless.NameTree.Rising.{lookup-IsRising}
use nfd_pitless.NameTree.Ending.{erase_entry_if_empty_ends}

abbrev four : NameTree toy toy_hashing
four = new_name_tree toy toy_hashing 4

four-IsTree : IsTree toy toy_hashing four
four-IsTree = new_name_tree-IsTree toy toy_hashing 4 (2, omega arith, refl)

-- Four entries, in eight buckets.
abbrev grown_tree : NameTree toy toy_hashing
grown_tree = lookup toy toy_hashing (1 ∷ 2 ∷ 4 ∷ []) four

grown-IsTree : IsTree toy toy_hashing grown_tree
grown-IsTree = lookup-IsTree toy toy_hashing (1 ∷ 2 ∷ 4 ∷ []) four (omega arith) four-IsTree

abbrev prefix_found : (factor : ℕ) → Option (Entry toy (hashing_by factor)) → Option (List ℕ)
prefix_found factor o = on_some (λ e. e.prefix) o

-- The hashes of a name and of its prefix without two equal components at its end are equal, and the
-- prefix, which is there first, is what the longest prefix match returns.
shorter_match :
    prefix_found 1 (
      find_longest_prefix_match toy toy_hashing
        (1 ∷ 5 ∷ 5 ∷ [])
        (λ e. true)
        (lookup toy toy_hashing (1 ∷ 5 ∷ 5 ∷ []) (new_name_tree toy toy_hashing 16)))
    ≡ some (1 ∷ [])
unfolding find_longest_prefix_match lookup hash_set_from hash_from
shorter_match = refl

-- With hashes above 2 ^ 32, resizing to six buckets moves an entry away from its bucket.
lost_entry :
    prefix_found (2 ^ 32) (
      find_exact_match toy
        (hashing_by (2 ^ 32))
        (1 ∷ [])
        (lookup toy (hashing_by (2 ^ 32)) (1 ∷ []) (new_name_tree toy (hashing_by (2 ^ 32)) 3)))
    ≡ none
unfolding find_exact_match lookup hash_from
lost_entry = refl

find_exact_match_lem_example :
    find_exact_match toy toy_hashing (1 ∷ 2 ∷ []) grown_tree
    ≡ entry_at toy toy_hashing (1 ∷ 2 ∷ []) grown_tree
find_exact_match_lem_example =
    find_exact_match_lem toy toy_hashing grown_tree grown-IsTree (1 ∷ 2 ∷ [])

find_exact_match-resize_example :
    find_exact_match toy toy_hashing (1 ∷ 2 ∷ []) (resize toy toy_hashing 2 grown_tree)
    ≡ find_exact_match toy toy_hashing (1 ∷ 2 ∷ []) grown_tree
find_exact_match-resize_example =
    find_exact_match-resize toy toy_hashing 2 grown_tree (1, omega arith, refl) grown-IsTree
      (1 ∷ 2 ∷ [])

found_at-lookup_example :
    found_at toy toy_hashing (1 ∷ 2 ∷ []) (lookup toy toy_hashing (1 ∷ 2 ∷ 4 ∷ []) four)
    ≡ or_else (found_at toy toy_hashing (1 ∷ 2 ∷ []) four) (some nothing_attached)
found_at-lookup_example =
    found_at-lookup toy toy_hashing (1 ∷ 2 ∷ 4 ∷ []) four (omega arith) four-IsTree (1 ∷ 2 ∷ [])

hung-erase_entry_if_empty_example :
    hung (
      found_at toy toy_hashing
        (1 ∷ 2 ∷ [])
        (erase_entry_if_empty toy toy_hashing (1 ∷ 2 ∷ 4 ∷ []) grown_tree).0)
    ≡ hung (found_at toy toy_hashing (1 ∷ 2 ∷ []) grown_tree)
hung-erase_entry_if_empty_example =
    hung-erase_entry_if_empty toy toy_hashing (1 ∷ 2 ∷ 4 ∷ []) grown_tree grown-IsTree (1 ∷ 2 ∷ [])

find_longest_prefix_match_lem_example :
    find_longest_prefix_match toy toy_hashing (1 ∷ 2 ∷ 4 ∷ []) (λ e. true) grown_tree
    ≡ longest_below toy toy_hashing 4 (1 ∷ 2 ∷ 4 ∷ []) (λ e. true) grown_tree
find_longest_prefix_match_lem_example =
    find_longest_prefix_match_lem toy toy_hashing (1 ∷ 2 ∷ 4 ∷ []) (λ e. true) grown_tree
      grown-IsTree spread

erase_entry_if_empty_ends_example :
    erase_up toy toy_hashing 10 (1 ∷ 2 ∷ 4 ∷ []) grown_tree
    ≡ erase_entry_if_empty toy toy_hashing (1 ∷ 2 ∷ 4 ∷ []) grown_tree
erase_entry_if_empty_ends_example =
    erase_entry_if_empty_ends toy toy_hashing (1 ∷ 2 ∷ 4 ∷ []) grown_tree 10 grown-IsTree
      (lookup-IsRising toy toy_hashing (1 ∷ 2 ∷ 4 ∷ []) four (omega arith) four-IsTree
        (new_name_tree-IsRising toy toy_hashing 4))
      (omega arith)
