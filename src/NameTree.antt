-- ===== src/NameTree.antt =====
-- The name tree: daemon/table/name-tree.cpp and name-tree-entry.cpp.
-- A chain of nodes is the list of their entries, and a pointer to an entry is the entry's prefix,
-- which no two entries share where the number of buckets is a power of two of at most 2 ^ 32.
-- The load factors 0.5 and 0.1 are exact divisions where the number of buckets is below 2 ^ 50.
pub mod Matching
pub mod Buckets
pub mod Invariant
pub mod Started
pub mod Toy
mod Examples
pub mod Resize
pub mod Growth
pub mod Lookup
pub mod Prefixes
pub mod HashSet
pub mod Longest
pub mod Chains
pub mod Erasure
pub mod Unlinked
pub mod Erased
pub mod Emptied
pub mod Erasing
pub mod Rising
pub mod Ending
pub mod Writes
use nfd_pitless.Base.{
  ℕ, zero, suc, ◌+◌, ◌-◌, ◌*◌, ◌/◌, ◌%◌, ◌^◌, ◌≤◌, ◌≡◌, ◌↔◌, Bool, true, false, not, ◌&&◌, List, [],
  ◌∷◌, ◌++◌, map, Option, none, some, if◌then◌else◌, ltb, leb, ◌==◌, find_if, erase_if, length,
  take, replicate, get_elem?,
}
use Prim.Native.Nat.{bit_xor}
use nfd_pitless.Ndn.{Ndn}
use nfd_pitless.Fib.{NextHop}

-- The components of names, in ndn-cxx, and CityHash::compute on the wire format of one.
pub record Hashing (ndn : Ndn) : Type 1 where
  pub Component : Type 0
  pub components : ndn.Name → List Component
  pub length-components : (a : ndn.Name) → length (components a) ≡ ndn.size a
  pub components-get_prefix :
      (a : ndn.Name) (n : ℕ)
      → n ≤ ndn.size a
      → components (ndn.get_prefix a n) ≡ take n (components a)
  pub is_prefix_of_iff :
      (a b : ndn.Name)
      → (ndn.is_prefix_of a b ≡ true)
        ↔ ((ndn.size a ≤ ndn.size b) × (ndn.get_prefix b (ndn.size a) ≡ a))
  pub compute : Component → ℕ

-- What the tables hang on an entry: a FIB entry, which is its next hops, and the addresses of PIT,
-- measurements and strategy choice entries.
pub record Attached : Type 0 where
  pub fib_entry : Option (List NextHop)
  pub pit_entries : List ℕ
  pub measurements_entry : Option ℕ
  pub strategy_choice_entry : Option ℕ

abbrev pub is_null : {A : Type 0} → Option A → Bool
is_null none = true
is_null (some a) = false

abbrev pub is_nil : {A : Type 0} → List A → Bool
is_nil [] = true
is_nil (x ∷ xs) = false

abbrev pub nothing_attached : Attached
nothing_attached = record {
  fib_entry = none;
  pit_entries = [];
  measurements_entry = none;
  strategy_choice_entry = none;
}

unfoldable pub is_bare : Attached → Bool
is_bare a =
    is_null a.fib_entry
    && is_nil a.pit_entries
    && is_null a.measurements_entry
    && is_null a.strategy_choice_entry

-- The first, or else the second.
abbrev pub or_else : {A : Type 0} → Option A → Option A → Option A
or_else none y = y
or_else (some x) y = some x

-- The nodes of all chains, bucket by bucket.
unfoldable pub flatten : {A : Type 0} → List (List A) → List A
flatten [] = []
flatten (xs ∷ rest) = xs ++ flatten rest

unfoldable pub bucket_at : {A : Type 0} → ℕ → List (List A) → List A
bucket_at i [] = []
bucket_at zero (xs ∷ rest) = xs
bucket_at (suc i) (xs ∷ rest) = bucket_at i rest

unfoldable pub change_at : {A : Type 0} → ℕ → (List A → List A) → List (List A) → List (List A)
change_at i f [] = []
change_at zero f (xs ∷ rest) = f xs ∷ rest
change_at (suc i) f (xs ∷ rest) = xs ∷ change_at i f rest

-- The children of an entry are a vector: the last takes the place of the one that goes.
abbrev pub last_first : {A : Type 0} → List A → List A
last_first [] = []
last_first (x ∷ xs) = elim (last_first xs) [ [] ↦ x ∷ [] | y ∷ ys ↦ y ∷ x ∷ ys ]

module _ (ndn : Ndn) (hashing : Hashing ndn) where
  unfoldable pub hash_from : ℕ → List hashing.Component → ℕ
  hash_from value [] = value
  hash_from value (c ∷ cs) = hash_from (bit_xor value (hashing.compute c)) cs

  unfoldable pub compute_hash : ndn.Name → ℕ
  compute_hash name = hash_from 0 (hashing.components name)

  unfoldable pub hash_set_from : ℕ → List hashing.Component → List ℕ
  hash_set_from value [] = []
  hash_set_from value (c ∷ cs) =
      let updated = bit_xor value (hashing.compute c) in updated ∷ hash_set_from updated cs

  unfoldable pub compute_hash_set : ndn.Name → List ℕ
  compute_hash_set name = 0 ∷ hash_set_from 0 (hashing.components name)

  pub record Entry : Type 0 where
    pub hash : ℕ
    pub prefix : ndn.Name
    pub parent : Option ndn.Name
    pub children : List ndn.Name
    pub attached : Attached

  pub record NameTree : Type 0 where
    pub n_items : ℕ
    pub n_buckets : ℕ
    pub min_n_buckets : ℕ
    pub enlarge_threshold : ℕ
    pub shrink_threshold : ℕ
    pub buckets : List (List Entry)

  abbrev pub new_name_tree : ℕ → NameTree
  new_name_tree n_buckets = record {
    n_items = 0;
    n_buckets = n_buckets;
    min_n_buckets = n_buckets;
    enlarge_threshold = n_buckets / 2;
    shrink_threshold = n_buckets / 10;
    buckets = replicate n_buckets [];
  }

  abbrev pub is_named : ndn.Name → Entry → Bool
  is_named name e = ndn.name_eq name e.prefix

  -- The entry that a pointer leads to.
  unfoldable pub entry_at : ndn.Name → NameTree → Option Entry
  entry_at name t = find_if (is_named name) (flatten t.buckets)

  -- A write through a pointer.
  abbrev pub write : ndn.Name → (Entry → Entry) → NameTree → NameTree
  write name f t = record t {
    buckets = map (λ chain. map (λ e. if is_named name e then f e else e) chain) t.buckets;
  }

  -- NameTree::resize. The hash of an entry is read into a uint32_t.
  abbrev pub location_in : ℕ → Entry → ℕ
  location_in n_buckets e = e.hash % 2 ^ 32 % n_buckets

  unfoldable pub rehash : ℕ → List Entry → List (List Entry) → List (List Entry)
  rehash n_buckets [] buckets = buckets
  rehash n_buckets (e ∷ es) buckets =
      rehash n_buckets es (change_at (location_in n_buckets e) (λ chain. chain ++ e ∷ []) buckets)

  unfoldable pub resize : ℕ → NameTree → NameTree
  unfolding rehash flatten
  resize new_n_buckets t = record t {
    n_buckets = new_n_buckets;
    enlarge_threshold = new_n_buckets / 2;
    shrink_threshold = new_n_buckets / 10;
    buckets = rehash new_n_buckets (flatten t.buckets) (replicate new_n_buckets []);
  }

  abbrev pub new_entry : ndn.Name → Entry
  new_entry prefix = record {
    hash = compute_hash prefix;
    prefix = prefix;
    parent = none;
    children = [];
    attached = nothing_attached;
  }

  -- NameTree::insert: what is done with the entry that the search of the chain found, or null, and
  -- the search. The pointer that it returns is the prefix.
  unfoldable pub insert_unless : Option Entry → ndn.Name → NameTree → NameTree × Bool
  unfolding compute_hash change_at
  insert_unless (some e) prefix t = (t, false)
  insert_unless none prefix t =
      let loc = compute_hash prefix % t.n_buckets in
      (
        record t { buckets = change_at loc (λ chain. chain ++ new_entry prefix ∷ []) t.buckets },
        true,
      )

  unfoldable pub insert : ndn.Name → NameTree → NameTree × Bool
  unfolding insert_unless bucket_at
  insert prefix t =
      let loc = compute_hash prefix % t.n_buckets in
      insert_unless (find_if (is_named prefix) (bucket_at loc t.buckets)) prefix t

  -- entry->m_parent = parent, and the push_back to the children of the parent.
  unfoldable pub link : Option ndn.Name → ndn.Name → NameTree → NameTree
  link none child t = write child (λ e. record e { parent = none }) t
  link (some q) child t =
      write q (λ e. record e { children = e.children ++ child ∷ [] })
        (write child (λ e. record e { parent = some q }) t)

  unfoldable pub enlarge : NameTree → NameTree
  unfolding resize
  enlarge t = if ltb t.enlarge_threshold t.n_items then resize (2 * t.n_buckets) t else t

  -- One turn of the loop of NameTree::lookup.
  unfoldable pub count_new : Option ndn.Name → ndn.Name → NameTree × Bool → NameTree
  unfolding link enlarge
  count_new parent prefix (t, is_new) =
      enlarge (if is_new then link parent prefix (record t { n_items = t.n_items + 1 }) else t)

  unfoldable pub visit : Option ndn.Name → ndn.Name → NameTree → NameTree
  unfolding insert count_new
  visit parent prefix t = count_new parent prefix (insert prefix t)

  unfoldable pub visit_from : ℕ → ℕ → Option ndn.Name → ndn.Name → NameTree → NameTree
  unfolding visit
  visit_from zero i parent prefix t = t
  visit_from (suc rest) i parent prefix t =
      let temp = ndn.get_prefix prefix i in
      visit_from rest (i + 1) (some temp) prefix (visit parent temp t)

  -- NameTree::lookup. The pointer that it returns is the prefix.
  unfoldable pub lookup : ndn.Name → NameTree → NameTree
  unfolding visit_from
  lookup prefix t = visit_from (ndn.size prefix + 1) 0 none prefix t

  -- NameTree::findExactMatch
  abbrev pub is_match : ndn.Name → Entry → Bool
  is_match prefix e = compute_hash prefix == e.hash && is_named prefix e

  unfoldable pub find_exact_match : ndn.Name → NameTree → Option Entry
  unfolding compute_hash bucket_at
  find_exact_match prefix t =
      find_if (is_match prefix) (bucket_at (compute_hash prefix % t.n_buckets) t.buckets)
