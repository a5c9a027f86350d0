-- ===== src/FibTable/Longest.antt =====
-- Fib::findLongestPrefixMatch of daemon/table/fib.cpp, for a name.
use nfd_pitless.Base.{
  ℕ, zero, suc, ◌+◌, ◌≡◌, ◌∙◌, refl, sym, ap, not, List, Option, none, some, if◌then◌else◌,
}
use nfd_pitless.Ndn.{Ndn}
use nfd_pitless.Fib.{NextHop}
use nfd_pitless.NameTree.{is_null, or_else, Hashing, Entry, find_exact_match}
use nfd_pitless.NameTree.Invariant.{IsTree}
use nfd_pitless.NameTree.Longest.{selected, longest_below, IsSpread, find_longest_prefix_match_lem}
use nfd_pitless.FibTable.{
  hops_or_nil, Fib, fib_entry_of, has_fib_entry, find_fib_entry, find_longest,
}

module _ (ndn : Ndn) (hashing : Hashing ndn) where
  -- The FIB entry of the longest prefix that has one, of those with fewer than n components.
  abbrev pub longest_entry : ℕ → ndn.Name → Fib ndn hashing → Option (List NextHop)
  longest_entry zero p fib = none
  longest_entry (suc i) p fib =
      or_else (find_fib_entry ndn hashing (ndn.get_prefix p i) fib) (longest_entry i p fib)

  chosen :
      (o r : Option (Entry ndn hashing))
      → fib_entry_of ndn hashing (or_else (selected (has_fib_entry ndn hashing) o) r)
        ≡ or_else (fib_entry_of ndn hashing o) (fib_entry_of ndn hashing r)
  chosen none r = refl
  chosen (some e) r = by_hops e.attached.fib_entry refl
    where
      by_hops :
          (o : Option (List NextHop))
          → o ≡ e.attached.fib_entry
          → fib_entry_of ndn hashing (or_else (if not (is_null o) then some e else none) r)
            ≡ or_else o (fib_entry_of ndn hashing r)
      by_hops none same = refl
      by_hops (some hops) same = sym same

  entry_below :
      (n : ℕ) (p : ndn.Name) (fib : Fib ndn hashing)
      → fib_entry_of ndn hashing
          (longest_below ndn hashing n p (has_fib_entry ndn hashing) fib.name_tree)
        ≡ longest_entry n p fib
  unfolding longest_below find_fib_entry
  entry_below zero p fib = refl
  entry_below (suc i) p fib =
      chosen (find_exact_match ndn hashing (ndn.get_prefix p i) fib.name_tree) _
      ∙ ap
          (or_else (
            fib_entry_of ndn hashing
              (find_exact_match ndn hashing (ndn.get_prefix p i) fib.name_tree)))
          (entry_below i p fib)

  -- Where the prefixes of a name have different hashes, findLongestPrefixMatch of the FIB returns the
  -- next hops of the longest prefix of the name for which findExactMatch finds an entry, and no next
  -- hops where there is no such prefix.
  pub find_longest_lem :
      (p : ndn.Name) (fib : Fib ndn hashing)
      → IsTree ndn hashing fib.name_tree
      → IsSpread ndn hashing p
      → find_longest ndn hashing p fib ≡ hops_or_nil (longest_entry (ndn.size p + 1) p fib)
  unfolding find_longest
  find_longest_lem p fib tree spread =
      ap (λ o. hops_or_nil (fib_entry_of ndn hashing o))
        (find_longest_prefix_match_lem ndn hashing p (has_fib_entry ndn hashing) fib.name_tree tree
          spread)
      ∙ ap hops_or_nil (entry_below (ndn.size p + 1) p fib)
