-- ===== src/NameTree/Growth.antt =====
-- NameTree::insert and NameTree::lookup of daemon/table/name-tree.cpp.
use nfd_pitless.Base.{
  ℕ, suc, ◌+◌, ◌*◌, ◌/◌, ◌%◌, ◌^◌, ◌≤◌, ◌<◌, ◌≡◌, ◌∙◌, refl, sym, ap, Bool, true, false, List, [],
  ◌∷◌, ◌++◌, none, some, arith, if◌then◌else◌, ltb, ◌==◌, find_if, count_if, Bool-cases, inl, inr,
}
use native.Mathlib.Nat.{two-pow-succ}
use nfd_pitless.Ndn.{Ndn}
use nfd_pitless.NameTree.{
  or_else, Hashing, flatten, bucket_at, change_at, compute_hash, Entry, NameTree, is_named,
  entry_at, is_match, find_exact_match, new_entry, enlarge, resize,
}
use nfd_pitless.NameTree.Buckets.{
  or_else-none, find_if-append, find_if_same, All-weaken, length-change_at, bucket_at-changed,
  bucket_at_others, count_if-pushed,
}
use nfd_pitless.NameTree.Invariant.{
  IsPower, IsTree, location_lt, match_named, find_exact_match_lem, pushed-IsPlaced,
}
use nfd_pitless.NameTree.Resize.{resize-IsTree, entry_at-resize}

-- Twice a power of two that is not 2 ^ 32.
doubled : (n items : ℕ) → IsPower n → n / 2 < items → items ≤ 2 ^ 31 → IsPower (2 * n)
doubled n items power over few = elim (Bool-cases (power.0 == 32)) [
  | inl last ↦
      let top : power.0 ≡ 32 = ground (arith, last) in
      absurd (omega (arith, over, few, power.2 ∙ ap (λ k. 2 ^ k) top))
  | inr below ↦
      let less : suc power.0 ≤ 32 = ground (arith, below, power.1) in
      (suc power.0, less, omega (arith, power.2, two-pow-succ power.0))
]

nothing_counted :
    {A : Type 0} (p : A → Bool) (xs : List A) → find_if p xs ≡ none → count_if p xs ≡ 0
nothing_counted p [] h = refl
nothing_counted p (x ∷ xs) h = elim (Bool-cases (p x)) [
  | inl hit ↦ absurd (ground arith)
  | inr off ↦ ground (arith, nothing_counted p xs (ground arith))
]

module _ (ndn : Ndn) (hashing : Hashing ndn) where
  pub enlarge-IsTree :
      (t : NameTree ndn hashing)
      → t.n_items ≤ 2 ^ 31
      → IsTree ndn hashing t
      → IsTree ndn hashing (enlarge ndn hashing t)
  unfolding enlarge
  enlarge-IsTree t few tree = elim (Bool-cases (ltb t.enlarge_threshold t.n_items)) [
    | inr below ↦ rw (below, enlarge) tree
    | inl over ↦
        let loaded : t.n_buckets / 2 < t.n_items = ground (arith, over, tree.loaded) in
        rw (over, enlarge)
          (resize-IsTree ndn hashing (2 * t.n_buckets) t
            (doubled t.n_buckets t.n_items tree.power loaded few) tree)
  ]

  pub entry_at-enlarge :
      (t : NameTree ndn hashing)
      → t.n_items ≤ 2 ^ 31
      → IsTree ndn hashing t
      → (q : ndn.Name) → entry_at ndn hashing q (enlarge ndn hashing t) ≡ entry_at ndn hashing q t
  unfolding enlarge
  entry_at-enlarge t few tree q = elim (Bool-cases (ltb t.enlarge_threshold t.n_items)) [
    | inr below ↦ rw (below, enlarge) refl
    | inl over ↦
        let loaded : t.n_buckets / 2 < t.n_items = ground (arith, over, tree.loaded) in
        rw (over, enlarge)
          (entry_at-resize ndn hashing (2 * t.n_buckets) t
            (doubled t.n_buckets t.n_items tree.power loaded few) tree q)
  ]

  pub n_items-enlarge : (t : NameTree ndn hashing) → (enlarge ndn hashing t).n_items ≡ t.n_items
  unfolding enlarge resize
  n_items-enlarge t = elim (Bool-cases (ltb t.enlarge_threshold t.n_items)) [
    | inr below ↦ rw (below, enlarge) refl
    | inl over ↦ rw (over, enlarge) refl
  ]

  -- What insert searches for, and where.
  abbrev loc_of : ndn.Name → NameTree ndn hashing → ℕ
  loc_of p t = compute_hash ndn hashing p % t.n_buckets

  pub named_in_bucket :
      (t : NameTree ndn hashing)
      → IsTree ndn hashing t
      → (p : ndn.Name)
      → find_if (is_named ndn hashing p) (bucket_at (loc_of p t) t.buckets)
        ≡ entry_at ndn hashing p t
  unfolding find_exact_match
  named_in_bucket t tree p =
      sym (
        find_if_same (is_match ndn hashing p) (is_named ndn hashing p)
          (bucket_at (loc_of p t) t.buckets)
          (All-weaken (bucket_at (loc_of p t) t.buckets) (λ e h. match_named ndn hashing p e h.1)
            (tree.placed (loc_of p t))))
      ∙ find_exact_match_lem ndn hashing t tree p

  abbrev pub grown : ndn.Name → NameTree ndn hashing → NameTree ndn hashing
  grown p t = record t {
    n_items = t.n_items + 1;
    buckets = change_at (loc_of p t) (λ chain. chain ++ new_entry ndn hashing p ∷ []) t.buckets;
  }

  pub grown-IsTree :
      (p : ndn.Name) (t : NameTree ndn hashing)
      → entry_at ndn hashing p t ≡ none
      → IsTree ndn hashing t
      → IsTree ndn hashing (grown p t)
  unfolding entry_at
  grown-IsTree p t fresh tree =
      let there = location_lt ndn hashing t tree (compute_hash ndn hashing p) in
      record {
        wide = length-change_at (loc_of p t) _ t.buckets ∙ tree.wide;
        power = tree.power;
        loaded = tree.loaded;
        some_minimum = tree.some_minimum;
        placed =
            pushed-IsPlaced ndn hashing t.n_buckets (loc_of p t) (new_entry ndn hashing p) t.buckets
              there (refl, refl) tree.placed;
        counted = omega (
          arith,
          tree.counted,
          count_if-pushed (λ e. true) (loc_of p t) (new_entry ndn hashing p) t.buckets there,
        );
        once = λ q. omega (
          arith,
          count_if-pushed (is_named ndn hashing q) (loc_of p t) (new_entry ndn hashing p) t.buckets
              there,
          at_most q,
        );
      }
    where
      at_most :
          (q : ndn.Name)
          → count_if (is_named ndn hashing q) (new_entry ndn hashing p ∷ [])
              + count_if (is_named ndn hashing q) (flatten t.buckets)
            ≤ 1
      at_most q = elim (Bool-cases (ndn.name_eq q p)) [
        | inr off ↦ rw off (omega (arith, tree.once q))
        | inl hit ↦ rw hit (
            rw ((ndn.name_eq_iff q p).0 hit)
              (omega (arith, nothing_counted (is_named ndn hashing p) (flatten t.buckets) fresh)))
      ]

  find_exact_match-grown :
      (p : ndn.Name) (t : NameTree ndn hashing)
      → IsTree ndn hashing t
      → (q : ndn.Name)
      → find_exact_match ndn hashing q (grown p t)
        ≡ or_else
            (find_exact_match ndn hashing q t)
            (if ndn.name_eq q p then some (new_entry ndn hashing p) else none)
  unfolding find_exact_match
  find_exact_match-grown p t tree q = elim (Bool-cases (loc_of q t == loc_of p t)) [
    | inl hit ↦
        let same : loc_of q t ≡ loc_of p t = ground (arith, hit) in
        rw same (
          ap (find_if (is_match ndn hashing q)) (
            bucket_at-changed (loc_of p t) push t.buckets
              (location_lt ndn hashing t tree (compute_hash ndn hashing p)))
          ∙ (find_if-append (is_match ndn hashing q) (bucket_at (loc_of p t) t.buckets)
                (new_entry ndn hashing p ∷ [])
              ∙ rw (match_named ndn hashing q (new_entry ndn hashing p) refl) refl))
    | inr off ↦ rw (differ off) (
        ap (find_if (is_match ndn hashing q))
          (bucket_at_others (loc_of q t) (loc_of p t) push t.buckets (ground (arith, off)))
        ∙ sym (or_else-none _))
  ]
    where
      push : List (Entry ndn hashing) → List (Entry ndn hashing)
      push chain = chain ++ new_entry ndn hashing p ∷ []

      differ : (loc_of q t == loc_of p t) ≡ false → ndn.name_eq q p ≡ false
      differ off = elim (Bool-cases (ndn.name_eq q p)) [
        | inr other ↦ other
        | inl hit ↦
            let same : loc_of q t ≡ loc_of p t =
              ap (λ (n : ndn.Name). loc_of n t) ((ndn.name_eq_iff q p).0 hit) in
            absurd (ground (arith, same, off))
      ]

  pub entry_at-grown :
      (p : ndn.Name) (t : NameTree ndn hashing)
      → entry_at ndn hashing p t ≡ none
      → IsTree ndn hashing t
      → (q : ndn.Name)
      → entry_at ndn hashing q (grown p t)
        ≡ or_else
            (entry_at ndn hashing q t)
            (if ndn.name_eq q p then some (new_entry ndn hashing p) else none)
  entry_at-grown p t fresh tree q =
      sym (find_exact_match_lem ndn hashing (grown p t) (grown-IsTree p t fresh tree) q)
      ∙ (find_exact_match-grown p t tree q
          ∙ ap (λ o. or_else o (if ndn.name_eq q p then some (new_entry ndn hashing p) else none))
              (find_exact_match_lem ndn hashing t tree q))
