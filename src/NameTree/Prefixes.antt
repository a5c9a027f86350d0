-- ===== src/NameTree/Prefixes.antt =====
-- The prefixes that NameTree::lookup of daemon/table/name-tree.cpp visits.
use nfd_pitless.Base.{
  ℕ, zero, suc, ◌+◌, ◌^◌, ◌≤◌, ◌<◌, ◌≡◌, ◌∙◌, refl, sym, ap, subst, true, false, Option, none, some,
  arith, if◌then◌else◌, length, length-take, Bool-cases, inl, inr, ◌==◌,
}
use nfd_pitless.Ndn.{Ndn}
use nfd_pitless.NameTree.{
  or_else, Attached, nothing_attached, Hashing, NameTree, find_exact_match, lookup,
}
use nfd_pitless.NameTree.Buckets.{on_some}
use nfd_pitless.NameTree.Invariant.{IsTree, find_exact_match_lem}
use nfd_pitless.NameTree.Lookup.{any_visited, visit_from_lem}

module _ (ndn : Ndn) (hashing : Hashing ndn) where
  pub size-get_prefix : (p : ndn.Name) (n : ℕ) → n ≤ ndn.size p → ndn.size (ndn.get_prefix p n) ≡ n
  size-get_prefix p n h =
      sym (hashing.length-components (ndn.get_prefix p n))
      ∙ (ap length (hashing.components-get_prefix p n h)
          ∙ length-take (hashing.components p) n (omega (arith, h, hashing.length-components p)))

  pub get_prefix_is_prefix :
      (p : ndn.Name) (n : ℕ) → n ≤ ndn.size p → ndn.is_prefix_of (ndn.get_prefix p n) p ≡ true
  get_prefix_is_prefix p n h =
      let long = size-get_prefix p n h in
      (hashing.is_prefix_of_iff (ndn.get_prefix p n) p).1
        (omega (arith, long, h), ap (ndn.get_prefix p) long)

  visited_is_prefix :
      (rest i : ℕ) (p q : ndn.Name)
      → i + rest ≤ ndn.size p + 1
      → any_visited ndn hashing rest i p q ≡ true
      → ndn.is_prefix_of q p ≡ true
  visited_is_prefix zero i p q h visited = absurd (cc)
  visited_is_prefix (suc rest) i p q h visited =
      elim (Bool-cases (ndn.name_eq q (ndn.get_prefix p i))) [
        | inl hit ↦
            subst (λ n. ndn.is_prefix_of n p ≡ true)
              (sym ((ndn.name_eq_iff q (ndn.get_prefix p i)).0 hit))
              (get_prefix_is_prefix p i (omega (arith, h)))
        | inr off ↦
            visited_is_prefix rest (i + 1) p q (omega (arith, h)) (sym (rw off refl) ∙ visited)
      ]

  prefix_is_visited :
      (rest i : ℕ) (p q : ndn.Name)
      → i ≤ ndn.size q
      → ndn.size q < i + rest
      → ndn.get_prefix p (ndn.size q) ≡ q
      → any_visited ndn hashing rest i p q ≡ true
  prefix_is_visited zero i p q from below same = absurd (omega (arith, from, below))
  prefix_is_visited (suc rest) i p q from below same =
      elim (Bool-cases (ndn.name_eq q (ndn.get_prefix p i))) [
        | inl hit ↦ rw hit refl
        | inr off ↦
            rw off (prefix_is_visited rest (i + 1) p q (later off) (omega (arith, below)) same)
      ]
    where
      later : ndn.name_eq q (ndn.get_prefix p i) ≡ false → i + 1 ≤ ndn.size q
      later off = elim (Bool-cases (i == ndn.size q)) [
        | inr other ↦ ground (arith, from, other)
        | inl hit ↦
            let at : i ≡ ndn.size q = ground (arith, hit) in
            let named =
              (ndn.name_eq_iff q (ndn.get_prefix p i)).1 (sym (ap (ndn.get_prefix p) at ∙ same)) in
            absurd (ground (arith, named, off))
      ]

  -- They are the prefixes of the name, the name itself among them.
  any_visited_lem :
      (p q : ndn.Name) → any_visited ndn hashing (ndn.size p + 1) 0 p q ≡ ndn.is_prefix_of q p
  any_visited_lem p q = elim (Bool-cases (any_visited ndn hashing (ndn.size p + 1) 0 p q)) [
    | inl hit ↦ hit ∙ sym (visited_is_prefix (ndn.size p + 1) 0 p q (omega arith) hit)
    | inr off ↦ elim (Bool-cases (ndn.is_prefix_of q p)) [
      | inr other ↦ off ∙ sym other
      | inl is_prefix ↦
          let laws = (hashing.is_prefix_of_iff q p).0 is_prefix in
          prefix_is_visited (ndn.size p + 1) 0 p q (omega arith) (omega (arith, laws.0)) laws.1
          ∙ sym is_prefix
    ]
  ]

  -- What findExactMatch finds attached to a name.
  abbrev pub found_at : ndn.Name → NameTree ndn hashing → Option Attached
  found_at q t = on_some (λ e. e.attached) (find_exact_match ndn hashing q t)

  -- The number of entries stays below 2 ^ 31, so that no resizing goes beyond 2 ^ 32 buckets.
  abbrev pub HasRoom : ndn.Name → NameTree ndn hashing → Type 0
  HasRoom p t = t.n_items + (ndn.size p + 1) ≤ 2 ^ 31

  pub lookup-IsTree :
      (p : ndn.Name) (t : NameTree ndn hashing)
      → HasRoom p t
      → IsTree ndn hashing t
      → IsTree ndn hashing (lookup ndn hashing p t)
  unfolding lookup
  lookup-IsTree p t room tree = (visit_from_lem ndn hashing (ndn.size p + 1) 0 none p t room tree).0

  -- After the lookup of a name, findExactMatch finds every prefix of the name, with nothing attached
  -- where it was not there before; and all that was there, whether or not the hash table was resized
  -- on the way, with what was attached to it. Nothing else is there. This is where the number of
  -- buckets is a power of two and at most 2 ^ 31 entries can be there after.
  pub found_at-lookup :
      (p : ndn.Name) (t : NameTree ndn hashing)
      → HasRoom p t
      → IsTree ndn hashing t
      → (q : ndn.Name)
      → found_at q (lookup ndn hashing p t)
        ≡ or_else (found_at q t) (if ndn.is_prefix_of q p then some nothing_attached else none)
  unfolding lookup
  found_at-lookup p t room tree q =
      let visited = visit_from_lem ndn hashing (ndn.size p + 1) 0 none p t room tree in
      rw (find_exact_match_lem ndn hashing t tree q) (
        ap (on_some (λ e. e.attached))
          (find_exact_match_lem ndn hashing (lookup ndn hashing p t) visited.0 q)
        ∙ rw⁻¹ (any_visited_lem p q) (visited.1 q))
