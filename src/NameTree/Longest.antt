-- ===== src/NameTree/Longest.antt =====
-- NameTree::findLongestPrefixMatch of daemon/table/name-tree.cpp, for a name.
use nfd_pitless.Base.{
  ℕ, zero, suc, ◌+◌, ◌%◌, ◌≤◌, ◌≡◌, ◌∙◌, refl, sym, ap, subst, Bool, true, false, ◌&&◌, List, [],
  ◌∷◌, Option, none, some, arith, if◌then◌else◌, ◌==◌, find_if, count_if, Bool-cases, inl, inr,
}
use nfd_pitless.Ndn.{Ndn}
use nfd_pitless.NameTree.{
  or_else, Hashing, flatten, bucket_at, compute_hash, Entry, NameTree, is_named, is_match,
  find_exact_match,
}
use nfd_pitless.NameTree.Matching.{find_among, find_longest_prefix_match}
use nfd_pitless.NameTree.Buckets.{count_if-append, find_if_same, All-weaken}
use nfd_pitless.NameTree.Invariant.{IsTree, match_named}
use nfd_pitless.NameTree.HashSet.{down, hashes_down}
use nfd_pitless.NameTree.Prefixes.{get_prefix_is_prefix}

module _ {A : Type 0} where
  -- An entry that is selected, or none.
  abbrev pub selected : (A → Bool) → Option A → Option A
  selected s none = none
  selected s (some x) = if s x then some x else none

  pub one_at_most :
      (p s : A → Bool) (xs : List A)
      → count_if p xs ≤ 1
      → find_if (λ x. p x && s x) xs ≡ selected s (find_if p xs)
  one_at_most p s [] h = refl
  one_at_most p s (x ∷ xs) h = elim (Bool-cases (p x)) [
    | inr off ↦ rw off (one_at_most p s xs (ground (arith, h, off)))
    | inl hit ↦ elim (Bool-cases (s x)) [
      | inl also ↦ rw hit (rw also refl)
      | inr not_it ↦
          let no_more : count_if p xs ≡ 0 = ground (arith, h, hit) in
          rw hit (rw not_it (nothing_left xs no_more))
    ]
  ]
    where
      nothing_left : (ys : List A) → count_if p ys ≡ 0 → find_if (λ x. p x && s x) ys ≡ none
      nothing_left [] k = refl
      nothing_left (y ∷ ys) k = elim (Bool-cases (p y)) [
        | inl hit ↦ absurd (ground (arith, k, hit))
        | inr off ↦ rw off (nothing_left ys (ground (arith, k, off)))
      ]

  count_if-bucket :
      (p : A → Bool) (i : ℕ) (bs : List (List A))
      → count_if p (bucket_at i bs) ≤ count_if p (flatten bs)
  unfolding bucket_at flatten
  count_if-bucket p i [] = omega arith
  count_if-bucket p zero (b ∷ bs) = omega (arith, count_if-append p b (flatten bs))
  count_if-bucket p (suc i) (b ∷ bs) =
      omega (arith, count_if-append p b (flatten bs), count_if-bucket p i bs)

module _ (ndn : Ndn) (hashing : Hashing ndn) where
  -- The entry of the longest prefix that is there and selected, of those with fewer than n
  -- components.
  unfoldable pub longest_below :
      ℕ → ndn.Name → (Entry ndn hashing → Bool) → NameTree ndn hashing → Option (Entry ndn hashing)
  longest_below zero p selector t = none
  longest_below (suc i) p selector t =
      or_else (selected selector (find_exact_match ndn hashing (ndn.get_prefix p i) t))
        (longest_below i p selector t)

  -- The prefixes of a name have different hashes.
  abbrev pub IsSpread : ndn.Name → Type 0
  IsSpread p =
      (i j : ℕ)
      → i ≤ ndn.size p
      → j ≤ ndn.size p
      → compute_hash ndn hashing (ndn.get_prefix p i)
        ≡ compute_hash ndn hashing (ndn.get_prefix p j)
      → i ≡ j

  hash_tells :
      (p : ndn.Name) (i : ℕ) (e : Entry ndn hashing)
      → IsSpread p
      → i ≤ ndn.size p
      → e.hash ≡ compute_hash ndn hashing e.prefix
      → ((compute_hash ndn hashing (ndn.get_prefix p i) == e.hash) && ndn.is_prefix_of e.prefix p)
        ≡ is_named ndn hashing (ndn.get_prefix p i) e
  hash_tells p i e spread below hashed =
      elim (Bool-cases (is_named ndn hashing (ndn.get_prefix p i) e)) [
        | inl hit ↦
            let same = (ndn.name_eq_iff (ndn.get_prefix p i) e.prefix).0 hit in
            let hashes : compute_hash ndn hashing (ndn.get_prefix p i) ≡ e.hash =
              ap (compute_hash ndn hashing) same ∙ sym hashed in
            let is_prefix : ndn.is_prefix_of e.prefix p ≡ true =
              subst (λ n. ndn.is_prefix_of n p ≡ true) same
                (get_prefix_is_prefix ndn hashing p i below) in
            ground (arith, hashes, is_prefix, hit)
        | inr off ↦ elim (Bool-cases (ndn.is_prefix_of e.prefix p)) [
          | inr not_it ↦ ground (arith, not_it, off)
          | inl is_prefix ↦
              elim (Bool-cases (compute_hash ndn hashing (ndn.get_prefix p i) == e.hash)) [
                | inr differ ↦ ground (arith, differ, off)
                | inl hit ↦
                    let laws = (hashing.is_prefix_of_iff e.prefix p).0 is_prefix in
                    let hashes : compute_hash ndn hashing (ndn.get_prefix p i) ≡ e.hash =
                      ground (arith, hit) in
                    let long : i ≡ ndn.size e.prefix =
                      spread i (ndn.size e.prefix) below laws.0
                        (hashes ∙ (hashed ∙ ap (compute_hash ndn hashing) (sym laws.1))) in
                    let same : ndn.get_prefix p i ≡ e.prefix =
                      ap (ndn.get_prefix p) long ∙ laws.1 in
                    let named = (ndn.name_eq_iff (ndn.get_prefix p i) e.prefix).1 same in
                    absurd (ground (arith, named, off))
              ]
        ]
      ]

  among_one :
      (p : ndn.Name) (i : ℕ) (selector : Entry ndn hashing → Bool) (t : NameTree ndn hashing)
      → IsTree ndn hashing t
      → IsSpread p
      → i ≤ ndn.size p
      → find_if
          (λ e.
            (compute_hash ndn hashing (ndn.get_prefix p i) == e.hash)
            && (ndn.is_prefix_of e.prefix p && selector e))
          (bucket_at (compute_hash ndn hashing (ndn.get_prefix p i) % t.n_buckets) t.buckets)
        ≡ selected selector (find_exact_match ndn hashing (ndn.get_prefix p i) t)
  unfolding find_exact_match
  among_one p i selector t tree spread below =
      let q = ndn.get_prefix p i in
      let bucket = bucket_at (compute_hash ndn hashing q % t.n_buckets) t.buckets in
      let placed = tree.placed (compute_hash ndn hashing q % t.n_buckets) in
      find_if_same _ (λ e. is_named ndn hashing q e && selector e) bucket
        (All-weaken bucket
          (λ e h.
            and_assoc (compute_hash ndn hashing q == e.hash) (ndn.is_prefix_of e.prefix p)
              (selector e)
            ∙ ap (λ b. b && selector e) (hash_tells p i e spread below h.1))
          placed)
      ∙ (one_at_most (is_named ndn hashing q) selector bucket (
            omega (
              arith,
              count_if-bucket (is_named ndn hashing q) (compute_hash ndn hashing q % t.n_buckets)
                  t.buckets,
              tree.once q,
            ))
          ∙ ap (selected selector) (
              sym (
                find_if_same (is_match ndn hashing q) (is_named ndn hashing q) bucket
                  (All-weaken bucket (λ e h. match_named ndn hashing q e h.1) placed))))
    where
      and_assoc : (a b c : Bool) → (a && (b && c)) ≡ ((a && b) && c)
      and_assoc true b c = refl
      and_assoc false b c = refl

  find_among-down :
      (n : ℕ) (p : ndn.Name) (selector : Entry ndn hashing → Bool) (t : NameTree ndn hashing)
      → IsTree ndn hashing t
      → IsSpread p
      → n ≤ ndn.size p + 1
      → find_among ndn hashing
          (down (λ i. compute_hash ndn hashing (ndn.get_prefix p i)) n)
          p
          selector
          t
        ≡ longest_below n p selector t
  unfolding find_among longest_below
  find_among-down zero p selector t tree spread h = refl
  find_among-down (suc i) p selector t tree spread h =
      ap
        (λ o. or_else o (
          find_among ndn hashing (down (λ i. compute_hash ndn hashing (ndn.get_prefix p i)) i) p
            selector t))
        (among_one p i selector t tree spread (omega (arith, h)))
      ∙ ap (or_else (selected selector (find_exact_match ndn hashing (ndn.get_prefix p i) t)))
          (find_among-down i p selector t tree spread (omega (arith, h)))

  -- In a name tree of a power of two of buckets, at most 2 ^ 32, whose entries stand, one for each
  -- name, in the buckets of their hashes, and where the prefixes of a name have different hashes:
  -- findLongestPrefixMatch, which looks for hashes in buckets, returns the entry of the longest
  -- prefix of the name whose entry is there and is selected, and null where no prefix has such an
  -- entry.
  pub find_longest_prefix_match_lem :
      (p : ndn.Name) (selector : Entry ndn hashing → Bool) (t : NameTree ndn hashing)
      → IsTree ndn hashing t
      → IsSpread p
      → find_longest_prefix_match ndn hashing p selector t
        ≡ longest_below (ndn.size p + 1) p selector t
  unfolding find_longest_prefix_match
  find_longest_prefix_match_lem p selector t tree spread =
      ap (λ hs. find_among ndn hashing hs p selector t) (hashes_down ndn hashing p)
      ∙ find_among-down (ndn.size p + 1) p selector t tree spread (omega arith)
