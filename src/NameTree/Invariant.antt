-- ===== src/NameTree/Invariant.antt =====
-- The shape of the hash table of daemon/table/name-tree.cpp.
use nfd_pitless.Base.{
  ℕ, ◌/◌, ◌%◌, ◌^◌, ◌≤◌, ◌<◌, ◌≡◌, ◌≢◌, ◌∙◌, refl, sym, ap, true, false, List, [], ◌∷◌, ◌++◌, arith,
  ◌==◌, count_if, length, All, All-append, Bool-cases, inl, inr,
}
use native.Mathlib.Nat.{mod-lt, one-le-pow}
use nfd_pitless.Ndn.{Ndn}
use nfd_pitless.NameTree.{
  Hashing, flatten, bucket_at, change_at, compute_hash, Entry, NameTree, is_named, entry_at,
  is_match, find_exact_match,
}
use nfd_pitless.NameTree.Buckets.{
  find_if-flatten, find_if_same, All-weaken, All-flatten, bucket_at-changed, bucket_at_others,
}

abbrev pub IsPower : ℕ → Type 0
IsPower n = (k : ℕ) × (k ≤ 32) × (n ≡ 2 ^ k)

pub power_positive : (n : ℕ) → IsPower n → 1 ≤ n
power_positive n h = omega (arith, h.2, one-le-pow h.0 2 (omega arith))

module _ (ndn : Ndn) (hashing : Hashing ndn) where
  abbrev pub IsPlaced : ℕ → ℕ → Entry ndn hashing → Type 0
  IsPlaced n i e = (e.hash % n ≡ i) × (e.hash ≡ compute_hash ndn hashing e.prefix)

  -- There is a bucket for each location, a power of two of them and at most 2 ^ 32; an entry has the
  -- hash of its prefix and is in the bucket of its location; no two entries have one prefix; and the
  -- entries are counted.
  pub record IsTree (t : NameTree ndn hashing) : Type 0 where
    pub wide : length t.buckets ≡ t.n_buckets
    pub power : IsPower t.n_buckets
    pub loaded : t.enlarge_threshold ≡ t.n_buckets / 2
    pub some_minimum : 1 ≤ t.min_n_buckets
    pub placed : (i : ℕ) → All (IsPlaced t.n_buckets i) (bucket_at i t.buckets)
    pub counted : t.n_items ≡ count_if (λ e. true) (flatten t.buckets)
    pub once : (q : ndn.Name) → count_if (is_named ndn hashing q) (flatten t.buckets) ≤ 1

  pub location_lt :
      (t : NameTree ndn hashing) → IsTree t → (h : ℕ) → h % t.n_buckets < length t.buckets
  location_lt t tree h =
      let small = mod-lt h (power_positive t.n_buckets tree.power) in
      omega (arith, small, tree.wide)

  -- The test of the hash rejects no entry with the name.
  pub match_named :
      (p : ndn.Name) (e : Entry ndn hashing)
      → e.hash ≡ compute_hash ndn hashing e.prefix
      → is_match ndn hashing p e ≡ is_named ndn hashing p e
  match_named p e hashed = elim (Bool-cases (is_named ndn hashing p e)) [
    | inl hit ↦
        let at_p : compute_hash ndn hashing p ≡ e.hash =
          ap (compute_hash ndn hashing) ((ndn.name_eq_iff p e.prefix).0 hit) ∙ sym hashed in
        ground (arith, at_p, hit)
    | inr off ↦ ground (arith, off)
  ]

  pub elsewhere :
      (p : ndn.Name) (n i : ℕ) (e : Entry ndn hashing)
      → i ≢ compute_hash ndn hashing p % n
      → e.hash % n ≡ i
      → is_match ndn hashing p e ≡ false
  elsewhere p n i e other located = elim (Bool-cases (compute_hash ndn hashing p == e.hash)) [
    | inr off ↦ rw off refl
    | inl hit ↦
        let same : compute_hash ndn hashing p ≡ e.hash = ground (arith, hit) in
        absurd (other (sym located ∙ ap (λ h. h % n) (sym same)))
  ]

  pub flat_hashed :
      (t : NameTree ndn hashing)
      → IsTree t
      → All (λ e. e.hash ≡ compute_hash ndn hashing e.prefix) (flatten t.buckets)
  flat_hashed t tree =
      All-flatten (λ e. e.hash ≡ compute_hash ndn hashing e.prefix) t.buckets
        (λ i. All-weaken (bucket_at i t.buckets) (λ e h. h.1) (tree.placed i))

  -- In a name tree of a power of two of buckets, at most 2 ^ 32, whose entries stand, one for each
  -- name, in the buckets of their hashes: findExactMatch, which searches the chain of one bucket for
  -- an entry with the hash and the name, returns what a search of all entries for the name returns.
  pub find_exact_match_lem :
      (t : NameTree ndn hashing)
      → IsTree t
      → (p : ndn.Name) → find_exact_match ndn hashing p t ≡ entry_at ndn hashing p t
  unfolding find_exact_match entry_at
  find_exact_match_lem t tree p =
      find_if-flatten (is_match ndn hashing p) (compute_hash ndn hashing p % t.n_buckets) t.buckets
        (λ i other.
          All-weaken (bucket_at i t.buckets) (λ e h. elsewhere p t.n_buckets i e other h.0)
            (tree.placed i))
      ∙ find_if_same (is_match ndn hashing p) (is_named ndn hashing p) (flatten t.buckets)
          (All-weaken (flatten t.buckets) (match_named p) (flat_hashed t tree))

  -- A node at the end of the chain of its location.
  pub pushed-IsPlaced :
      (n loc : ℕ) (e : Entry ndn hashing) (bs : List (List (Entry ndn hashing)))
      → loc < length bs
      → IsPlaced n loc e
      → ((i : ℕ) → All (IsPlaced n i) (bucket_at i bs))
      → (i : ℕ) → All (IsPlaced n i) (bucket_at i (change_at loc (λ chain. chain ++ e ∷ []) bs))
  pushed-IsPlaced n loc e bs there here all i = elim (Bool-cases (i == loc)) [
    | inl hit ↦
        let same : i ≡ loc = ground (arith, hit) in
        rw same (
          rw (bucket_at-changed loc (λ chain. chain ++ e ∷ []) bs there)
            (All-append (IsPlaced n loc) (bucket_at loc bs) (e ∷ []) (all loc) (here, tt)))
    | inr off ↦
        rw (bucket_at_others i loc (λ chain. chain ++ e ∷ []) bs (ground (arith, off))) (all i)
  ]
