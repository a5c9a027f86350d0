-- ===== src/FibTable/Removal.antt =====
-- Fib::removeNextHopFromAllEntries of daemon/table/fib.cpp.
use nfd_pitless.Base.{
  ◌≡◌, ◌∙◌, refl, sym, ap, Bool, true, false, not, ◌&&◌, ◌||◌, List, [], ◌∷◌, map, Option, none,
  some, arith, if◌then◌else◌, any_of, find_if, copy_if, count_if, Bool-cases, Option-cases, inl,
  inr,
}
use nfd_pitless.Ndn.{Ndn}
use nfd_pitless.Face.{Face}
use nfd_pitless.Fib.{NextHop, remove_next_hop}
use nfd_pitless.NameTree.{is_nil, is_null, flatten, Hashing, Entry, NameTree, is_named, entry_at}
use nfd_pitless.NameTree.Buckets.{
  on_some, bucket_at-map, find_if-map, count_if-map, flatten-map, All-map, length-map,
}
use nfd_pitless.NameTree.Invariant.{IsTree}
use nfd_pitless.NameTree.Longest.{selected, one_at_most}
use nfd_pitless.FibTable.{
  map_some, Fib, fib_entry_of, find_fib_entry, with_hops, remove_from_all, without_hops,
  prefixes_of, erase_all, remove_next_hop_from_all_entries,
}
use nfd_pitless.FibTable.EraseAll.{erase_all_lem}
use nfd_pitless.FibTable.Entries.{fib_at, find_fib_entry_lem}

-- No entry where there are no next hops left.
abbrev pub unless_nil : Option (List NextHop) → Option (List NextHop)
unless_nil none = none
unless_nil (some hops) = if is_nil hops then none else some hops

any_of_found :
    {A : Type 0} (p : A → Bool) (xs : List A) → any_of p xs ≡ not (is_null (find_if p xs))
any_of_found p [] = refl
any_of_found p (x ∷ xs) = elim (Bool-cases (p x)) [
  | inl hit ↦ rw hit refl
  | inr off ↦ rw off (any_of_found p xs)
]

module _ (ndn : Ndn) (hashing : Hashing ndn) where
  abbrev strip : Face → Entry ndn hashing → Entry ndn hashing
  strip face e = with_hops ndn hashing (λ hops. remove_next_hop hops face) e

  remove_from_all-IsTree :
      (face : Face) (t : NameTree ndn hashing)
      → IsTree ndn hashing t
      → IsTree ndn hashing (remove_from_all ndn hashing face t)
  remove_from_all-IsTree face t tree = record {
    wide = length-map (map (strip face)) t.buckets ∙ tree.wide;
    power = tree.power;
    loaded = tree.loaded;
    some_minimum = tree.some_minimum;
    placed = λ i.
        rw (bucket_at-map (strip face) i t.buckets)
          (All-map (strip face) _ (λ e h. h) (tree.placed i));
    counted =
        tree.counted
        ∙ sym (
            ap (count_if (λ e. true)) (flatten-map (strip face) t.buckets)
            ∙ count_if-map (strip face) (λ e. true) (flatten t.buckets) (λ e. refl));
    once = λ q. rw (flatten-map (strip face) t.buckets) (
        rw (count_if-map (strip face) (is_named ndn hashing q) (flatten t.buckets) (λ e. refl))
          (tree.once q));
  }

  fib_at-remove_from_all :
      (face : Face) (q : ndn.Name) (t : NameTree ndn hashing)
      → fib_at ndn hashing q (remove_from_all ndn hashing face t)
        ≡ map_some (λ hops. remove_next_hop hops face) (fib_at ndn hashing q t)
  unfolding entry_at
  fib_at-remove_from_all face q t =
      ap (fib_entry_of ndn hashing) (
        ap (find_if (is_named ndn hashing q)) (flatten-map (strip face) t.buckets)
        ∙ find_if-map (strip face) (is_named ndn hashing q) (flatten t.buckets) (λ e. refl))
      ∙ stripped (find_if (is_named ndn hashing q) (flatten t.buckets))
    where
      stripped :
          (o : Option (Entry ndn hashing))
          → fib_entry_of ndn hashing (on_some (strip face) o)
            ≡ map_some (λ hops. remove_next_hop hops face) (fib_entry_of ndn hashing o)
      stripped none = refl
      stripped (some e) = refl

  name_eq_swap : (a b : ndn.Name) → ndn.name_eq a b ≡ ndn.name_eq b a
  name_eq_swap a b = elim (Bool-cases (ndn.name_eq a b)) [
    | inl hit ↦ hit ∙ sym ((ndn.name_eq_iff b a).1 (sym ((ndn.name_eq_iff a b).0 hit)))
    | inr off ↦ elim (Bool-cases (ndn.name_eq b a)) [
      | inr off' ↦ off ∙ sym off'
      | inl hit ↦
          absurd (ground (arith, off, (ndn.name_eq_iff a b).1 (sym ((ndn.name_eq_iff b a).0 hit))))
    ]
  ]

  collected :
      (q : ndn.Name) (es : List (Entry ndn hashing))
      → any_of
          (λ p. ndn.name_eq p q)
          (prefixes_of ndn hashing (copy_if (without_hops ndn hashing) es))
        ≡ any_of (λ e. is_named ndn hashing q e && without_hops ndn hashing e) es
  collected q [] = refl
  collected q (e ∷ es) = elim (Bool-cases (without_hops ndn hashing e)) [
    | inl hit ↦
        rw hit (rw (name_eq_swap e.prefix q) (keep (ndn.name_eq q e.prefix) (collected q es)))
    | inr off ↦ rw off (skip (ndn.name_eq q e.prefix) (collected q es))
  ]
    where
      keep : {x y : Bool} (b : Bool) → x ≡ y → (b || x) ≡ ((b && true) || y)
      keep true same = refl
      keep false same = same

      skip : {x y : Bool} (b : Bool) → x ≡ y → x ≡ ((b && false) || y)
      skip true same = same
      skip false same = same

  -- An entry is collected where it is there and has no next hops.
  none_left :
      (q : ndn.Name) (t : NameTree ndn hashing)
      → IsTree ndn hashing t
      → any_of
          (λ p. ndn.name_eq p q)
          (prefixes_of ndn hashing (copy_if (without_hops ndn hashing) (flatten t.buckets)))
        ≡ not (is_null (selected (without_hops ndn hashing) (entry_at ndn hashing q t)))
  unfolding entry_at
  none_left q t tree =
      collected q (flatten t.buckets)
      ∙ (any_of_found (λ e. is_named ndn hashing q e && without_hops ndn hashing e)
            (flatten t.buckets)
          ∙ ap (λ o. not (is_null o))
              (one_at_most (is_named ndn hashing q) (without_hops ndn hashing) (flatten t.buckets)
                (tree.once q)))

  pub remove_next_hop-IsTree :
      (face : Face) (fib : Fib ndn hashing)
      → IsTree ndn hashing fib.name_tree
      → IsTree ndn hashing (remove_next_hop_from_all_entries ndn hashing face fib).name_tree
  unfolding remove_next_hop_from_all_entries
  remove_next_hop-IsTree face fib tree =
      let t = remove_from_all ndn hashing face fib.name_tree in
      let gone = prefixes_of ndn hashing (copy_if (without_hops ndn hashing) (flatten t.buckets)) in
      (erase_all_lem ndn hashing gone (record fib { name_tree = t })
        (remove_from_all-IsTree face fib.name_tree tree)).0

  -- After removeNextHopFromAllEntries of a face, findExactMatch finds for every prefix the next hops
  -- it found before without the one to the face, and no entry where it was the last.
  pub find_fib_entry-remove_next_hop :
      (face : Face) (q : ndn.Name) (fib : Fib ndn hashing)
      → IsTree ndn hashing fib.name_tree
      → find_fib_entry ndn hashing q (remove_next_hop_from_all_entries ndn hashing face fib)
        ≡ unless_nil
            (map_some (λ hops. remove_next_hop hops face) (find_fib_entry ndn hashing q fib))
  unfolding remove_next_hop_from_all_entries
  find_fib_entry-remove_next_hop face q fib tree =
      let t = remove_from_all ndn hashing face fib.name_tree in
      let stripped : Fib ndn hashing = record fib { name_tree = t } in
      let in_order = remove_from_all-IsTree face fib.name_tree tree in
      let gone = prefixes_of ndn hashing (copy_if (without_hops ndn hashing) (flatten t.buckets)) in
      let erased = erase_all_lem ndn hashing gone stripped in_order in
      find_fib_entry_lem ndn hashing q (erase_all ndn hashing gone stripped) erased.0
      ∙ (erased.1 q
          ∙ (ap (λ b. if b then none else fib_at ndn hashing q t) (none_left q t in_order)
              ∙ (decided (entry_at ndn hashing q t)
                  ∙ ap unless_nil (
                      fib_at-remove_from_all face q fib.name_tree
                      ∙ ap (map_some (λ hops. remove_next_hop hops face))
                          (sym (find_fib_entry_lem ndn hashing q fib tree))))))
    where
      decided :
          (o : Option (Entry ndn hashing))
          → (if not (is_null (selected (without_hops ndn hashing) o))
              then none
              else fib_entry_of ndn hashing o)
            ≡ unless_nil (fib_entry_of ndn hashing o)
      decided none = refl
      decided (some e) = elim (Option-cases e.attached.fib_entry) [
        | inl absent ↦ rw absent refl
        | inr there ↦ elim (Bool-cases (is_nil there.0)) [
          | inl empty ↦ rw there.1 (rw empty refl)
          | inr full ↦ rw there.1 (rw full refl)
        ]
      ]
