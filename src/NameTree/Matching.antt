-- ===== src/NameTree/Matching.antt =====
-- NameTree::findLongestPrefixMatch of daemon/table/name-tree.cpp, for a name and for an entry.
-- The walk to the parents runs on fuel: a parent has one component less.
use nfd_pitless.Base.{
  ℕ, zero, suc, ◌%◌, Bool, ◌&&◌, List, [], ◌∷◌, ◌++◌, Option, none, some, if◌then◌else◌, ◌==◌,
  find_if,
}
use nfd_pitless.Ndn.{Ndn}
use nfd_pitless.NameTree.{or_else, bucket_at, Hashing, compute_hash_set, Entry, NameTree, entry_at}

-- The elements from the last to the first.
abbrev pub from_last : List ℕ → List ℕ
from_last [] = []
from_last (h ∷ hs) = from_last hs ++ h ∷ []

module _ (ndn : Ndn) (hashing : Hashing ndn) where
  -- NameTree::findLongestPrefixMatch for a name, with the hash values from the longest prefix on.
  unfoldable pub find_among :
      List ℕ
      → ndn.Name
      → (Entry ndn hashing → Bool)
      → NameTree ndn hashing
      → Option (Entry ndn hashing)
  unfolding bucket_at
  find_among [] prefix selector t = none
  find_among (h ∷ hs) prefix selector t =
      or_else
        (find_if (λ e. h == e.hash && (ndn.is_prefix_of e.prefix prefix && selector e))
          (bucket_at (h % t.n_buckets) t.buckets))
        (find_among hs prefix selector t)

  unfoldable pub find_longest_prefix_match :
      ndn.Name → (Entry ndn hashing → Bool) → NameTree ndn hashing → Option (Entry ndn hashing)
  unfolding compute_hash_set find_among
  find_longest_prefix_match prefix selector t =
      find_among (from_last (compute_hash_set ndn hashing prefix)) prefix selector t

  -- NameTree::findLongestPrefixMatch for an entry, up the parents.
  unfoldable pub find_above_from :
      (Option ndn.Name → Option (Entry ndn hashing))
      → (Entry ndn hashing → Bool)
      → Option (Entry ndn hashing)
      → Option (Entry ndn hashing)
  find_above_from above selector none = none
  find_above_from above selector (some e) = if selector e then some e else above e.parent

  unfoldable pub find_above :
      ℕ
      → Option ndn.Name
      → (Entry ndn hashing → Bool)
      → NameTree ndn hashing
      → Option (Entry ndn hashing)
  unfolding entry_at find_above_from
  find_above fuel none selector t = none
  find_above zero (some name) selector t = none
  find_above (suc fuel) (some name) selector t =
      find_above_from (λ parent. find_above fuel parent selector t) selector
        (entry_at ndn hashing name t)
