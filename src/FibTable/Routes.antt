-- ===== src/FibTable/Routes.antt =====
-- Next hops that are added and removed in the FIB of daemon/table/fib.cpp.
use nfd_pitless.Base.{
  ℕ, ◌≡◌, ◌∙◌, refl, sym, ap, Bool, true, false, List, [], Option, none, some, if◌then◌else◌,
  Bool-cases, Option-cases, inl, inr,
}
use nfd_pitless.Ndn.{Ndn}
use nfd_pitless.Face.{Face}
use nfd_pitless.Fib.{NextHop, Sort, add_next_hop}
use nfd_pitless.NameTree.{or_else, Hashing, NameTree, entry_at, write}
use nfd_pitless.NameTree.Buckets.{or_else-none}
use nfd_pitless.NameTree.Invariant.{IsTree}
use nfd_pitless.NameTree.Writes.{write-IsTree, entry_at-write}
use nfd_pitless.NameTree.Prefixes.{HasRoom}
use nfd_pitless.FibTable.{
  map_some, Fib, fib_entry_of, find_fib_entry, insert_prefix, with_hops, add_to_entry,
}
use nfd_pitless.FibTable.Entries.{fib_at, find_fib_entry_lem, insert_prefix-IsTree, named_there}
use nfd_pitless.FibTable.Map.{fib_at-insert}

module _ (ndn : Ndn) (hashing : Hashing ndn) where
  fib_at-with_hops :
      (p q : ndn.Name) (f : List NextHop → List NextHop) (t : NameTree ndn hashing)
      → fib_at ndn hashing q (write ndn hashing p (with_hops ndn hashing f) t)
        ≡ (if ndn.name_eq p q then map_some f (fib_at ndn hashing q t) else fib_at ndn hashing q t)
  fib_at-with_hops p q f t =
      ap (fib_entry_of ndn hashing)
        (entry_at-write ndn hashing p (with_hops ndn hashing f) t (λ e. (refl, refl)) q)
      ∙ elim (Option-cases (entry_at ndn hashing q t)) [
        | inl absent ↦ rw absent (none_either (ndn.name_eq p q))
        | inr found ↦ elim (Bool-cases (ndn.name_eq p q)) [
          | inl hit ↦
              rw found.1 (rw (named_there ndn hashing q p t found.0 found.1 ∙ hit) (rw hit refl))
          | inr off ↦
              rw found.1 (rw (named_there ndn hashing q p t found.0 found.1 ∙ off) (rw off refl))
        ]
      ]
    where
      none_either : (b : Bool) → Path (Option (List NextHop)) none (if b then none else none)
      none_either true = refl
      none_either false = refl

  written :
      (p q : ndn.Name) (f : List NextHop → List NextHop) (fib : Fib ndn hashing)
      → IsTree ndn hashing fib.name_tree
      → find_fib_entry ndn hashing q
          (record fib { name_tree = write ndn hashing p (with_hops ndn hashing f) fib.name_tree })
        ≡ (if ndn.name_eq p q
            then map_some f (fib_at ndn hashing q fib.name_tree)
            else fib_at ndn hashing q fib.name_tree)
  written p q f fib tree =
      let t = write ndn hashing p (with_hops ndn hashing f) fib.name_tree in
      find_fib_entry_lem ndn hashing q (record fib { name_tree = t })
        (write-IsTree ndn hashing p (with_hops ndn hashing f) fib.name_tree (λ e. (refl, refl))
          tree)
      ∙ fib_at-with_hops p q f fib.name_tree

  -- insert, and addNextHop on the entry that it returns: findExactMatch finds for the prefix the next
  -- hops that were there, or none, with the one added, and for other prefixes what it found before.
  pub find_fib_entry-add_to_entry :
      (sort : Sort) (p q : ndn.Name) (face : Face) (cost : ℕ) (fib : Fib ndn hashing)
      → HasRoom ndn hashing p fib.name_tree
      → IsTree ndn hashing fib.name_tree
      → find_fib_entry ndn hashing q (add_to_entry ndn hashing sort p face cost fib) ≡ (
          if ndn.name_eq p q
          then map_some
              (λ hops. add_next_hop sort hops face cost)
              (or_else (find_fib_entry ndn hashing q fib) (some []))
          else find_fib_entry ndn hashing q fib)
  unfolding add_to_entry
  find_fib_entry-add_to_entry sort p q face cost fib room tree =
      let inserted = (insert_prefix ndn hashing p fib).0 in
      written p q (λ hops. add_next_hop sort hops face cost) inserted
        (insert_prefix-IsTree ndn hashing p fib room tree)
      ∙ (ap
            (λ o.
              if ndn.name_eq p q then map_some (λ hops. add_next_hop sort hops face cost) o else o)
            (fib_at-insert ndn hashing p q fib room tree
              ∙ ap (λ o. or_else o (if ndn.name_eq p q then some [] else none))
                  (sym (find_fib_entry_lem ndn hashing q fib tree)))
          ∙ chosen (ndn.name_eq p q) (find_fib_entry ndn hashing q fib))
    where
      chosen :
          (b : Bool) (o : Option (List NextHop))
          → (if b
              then map_some
                  (λ hops. add_next_hop sort hops face cost)
                  (or_else o (if b then some [] else none))
              else or_else o (if b then some [] else none))
            ≡ (if b
                then map_some (λ hops. add_next_hop sort hops face cost) (or_else o (some []))
                else o)
      chosen true o = refl
      chosen false o = or_else-none o

  pub add_to_entry-IsTree :
      (sort : Sort) (p : ndn.Name) (face : Face) (cost : ℕ) (fib : Fib ndn hashing)
      → HasRoom ndn hashing p fib.name_tree
      → IsTree ndn hashing fib.name_tree
      → IsTree ndn hashing (add_to_entry ndn hashing sort p face cost fib).name_tree
  unfolding add_to_entry
  add_to_entry-IsTree sort p face cost fib room tree =
      write-IsTree ndn hashing p _ _ (λ e. (refl, refl))
        (insert_prefix-IsTree ndn hashing p fib room tree)
