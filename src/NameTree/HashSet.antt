-- ===== src/NameTree/HashSet.antt =====
-- name_tree::computeHashSet of daemon/table/name-tree.cpp.
use nfd_pitless.Base.{
  ℕ, zero, suc, ◌+◌, ◌≤◌, ◌<◌, ◌≡◌, ◌∙◌, refl, sym, ap, List, [], ◌∷◌, ◌++◌, some, arith, length,
  take, get_elem?,
}
use Prim.Native.Nat.{bit_xor}
use nfd_pitless.Ndn.{Ndn}
use nfd_pitless.NameTree.{Hashing, hash_from, compute_hash, hash_set_from, compute_hash_set}
use nfd_pitless.NameTree.Matching.{from_last}

-- f (n - 1) to f 0.
abbrev pub down : {A : Type 0} → (ℕ → A) → ℕ → List A
down f zero = []
down f (suc n) = f n ∷ down f n

down_shift : {A : Type 0} (f : ℕ → A) (n : ℕ) → down (λ i. f (suc i)) n ++ f 0 ∷ [] ≡ down f (suc n)
down_shift f zero = refl
down_shift f (suc n) = ap (◌∷◌ (f (suc n))) (down_shift f n)

from_last_lem :
    (xs : List ℕ) (f : ℕ → ℕ)
    → ((i : ℕ) → i < length xs → get_elem? xs i ≡ some (f i))
    → from_last xs ≡ down f (length xs)
from_last_lem [] f h = refl
from_last_lem (x ∷ xs) f h =
    let first : x ≡ f 0 = ground (arith, h 0 (omega arith)) in
    rw (from_last_lem xs (λ i. f (suc i)) (λ i below. h (suc i) (omega (arith, below))))
      (rw first (down_shift f (length xs)))

module _ (ndn : Ndn) (hashing : Hashing ndn) where
  set_elem :
      (value : ℕ) (cs : List hashing.Component) (i : ℕ)
      → i ≤ length cs
      → get_elem? (value ∷ hash_set_from ndn hashing value cs) i
        ≡ some (hash_from ndn hashing value (take i cs))
  unfolding hash_set_from hash_from
  set_elem value cs zero h = refl
  set_elem value [] (suc i) h = absurd (omega (arith, h))
  set_elem value (c ∷ cs) (suc i) h =
      set_elem (bit_xor value (hashing.compute c)) cs i (omega (arith, h))

  set_length :
      (value : ℕ) (cs : List hashing.Component)
      → length (hash_set_from ndn hashing value cs) ≡ length cs
  unfolding hash_set_from
  set_length value [] = refl
  set_length value (c ∷ cs) = ap suc (set_length (bit_xor value (hashing.compute c)) cs)

  -- computeHashSet, which hashes every component once, has for each number of components the hash
  -- that computeHash gives the prefix with so many components.
  pub compute_hash_set_lem :
      (p : ndn.Name) (i : ℕ)
      → i ≤ ndn.size p
      → get_elem? (compute_hash_set ndn hashing p) i
        ≡ some (compute_hash ndn hashing (ndn.get_prefix p i))
  unfolding compute_hash_set compute_hash
  compute_hash_set_lem p i h =
      set_elem 0 (hashing.components p) i (omega (arith, h, hashing.length-components p))
      ∙ ap (λ cs. some (hash_from ndn hashing 0 cs)) (sym (hashing.components-get_prefix p i h))

  length-compute_hash_set :
      (p : ndn.Name) → length (compute_hash_set ndn hashing p) ≡ ndn.size p + 1
  unfolding compute_hash_set
  length-compute_hash_set p =
      omega (arith, set_length 0 (hashing.components p), hashing.length-components p)

  pub hashes_down :
      (p : ndn.Name)
      → from_last (compute_hash_set ndn hashing p)
        ≡ down (λ i. compute_hash ndn hashing (ndn.get_prefix p i)) (ndn.size p + 1)
  hashes_down p =
      let long = length-compute_hash_set p in
      from_last_lem (compute_hash_set ndn hashing p)
        (λ i. compute_hash ndn hashing (ndn.get_prefix p i))
        (λ i below. compute_hash_set_lem p i (omega (arith, below, long)))
      ∙ ap (down (λ i. compute_hash ndn hashing (ndn.get_prefix p i))) long
