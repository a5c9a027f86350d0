-- ===== src/NameTree/Started.antt =====
-- NameTree::NameTree of daemon/table/name-tree.cpp.
use nfd_pitless.Base.{
  ℕ, ◌≡◌, refl, sym, ap, ◌∙◌, true, none, some, find_if, [], arith, length-replicate, count_if,
}
use nfd_pitless.Ndn.{Ndn}
use nfd_pitless.NameTree.{Hashing, entry_at, Entry, is_named, new_name_tree}
use nfd_pitless.NameTree.Buckets.{on_some, bucket_at-replicate, flatten-replicate}
use nfd_pitless.NameTree.Rising.{IsRising}
use nfd_pitless.NameTree.Invariant.{IsPower, power_positive, IsTree}

module _ (ndn : Ndn) (hashing : Hashing ndn) where
  pub new_name_tree-IsTree : (n : ℕ) → IsPower n → IsTree ndn hashing (new_name_tree ndn hashing n)
  new_name_tree-IsTree n power = record {
    wide = length-replicate n [];
    power = power;
    loaded = refl;
    some_minimum = power_positive n power;
    placed = λ i. rw (bucket_at-replicate {A = Entry ndn hashing} i n) tt;
    counted = sym (ap (count_if (λ e. true)) (flatten-replicate {A = Entry ndn hashing} n));
    once = λ q. omega (
      arith,
      ap (count_if (is_named ndn hashing q)) (flatten-replicate {A = Entry ndn hashing} n),
    );
  }

  pub new_name_tree-IsRising : (n : ℕ) → IsRising ndn hashing (new_name_tree ndn hashing n)
  unfolding entry_at
  new_name_tree-IsRising n q p has =
      let nothing : none ≡ some (some p) =
        sym (
          ap (λ es. on_some (λ e. e.parent) (find_if (is_named ndn hashing q) es))
            (flatten-replicate {A = Entry ndn hashing} n))
        ∙ has in
      absurd (cc)
