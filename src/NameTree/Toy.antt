-- ===== src/NameTree/Toy.antt =====
-- Hashes of the toy names of Toy.antt, for tests of daemon/table/name-tree.cpp: a component hashes
-- to itself, times a power of two.
use nfd_pitless.Base.{
  ℕ, zero, suc, ◌∙◌, sym, ◌*◌, ◌≤◌, ◌≡◌, refl, ap, subst, true, List, [], ◌∷◌, arith, length, take,
}
use nfd_pitless.Toy.{toy, is_list_prefix}
use nfd_pitless.NameTree.{Hashing, hash_from, compute_hash}
use nfd_pitless.NameTree.Longest.{IsSpread}

pub is_list_prefix_to :
    (xs ys : List ℕ)
    → is_list_prefix xs ys ≡ true
    → (length xs ≤ length ys) × (take (length xs) ys ≡ xs)
is_list_prefix_to [] ys h = (omega arith, refl)
is_list_prefix_to (x ∷ xs) [] h = absurd (cc)
is_list_prefix_to (x ∷ xs) (y ∷ ys) h =
    let same : x ≡ y = ground (arith, h) in
    let rest = is_list_prefix_to xs ys (ground (arith, h)) in
    (omega (arith, rest.0), rw same (ap (◌∷◌ y) rest.1))

pub is_list_prefix-take : (n : ℕ) (ys : List ℕ) → is_list_prefix (take n ys) ys ≡ true
is_list_prefix-take zero ys = refl
is_list_prefix-take (suc n) [] = refl
is_list_prefix-take (suc n) (y ∷ ys) = ground (arith, is_list_prefix-take n ys)

abbrev pub hashing_by : ℕ → Hashing toy
hashing_by factor = record {
  Component = ℕ;
  components = λ a. a;
  length-components = λ a. refl;
  components-get_prefix = λ a n h. refl;
  is_prefix_of_iff = λ a b. (
    is_list_prefix_to a b,
    λ h. subst (λ xs. is_list_prefix xs b ≡ true) h.1 (is_list_prefix-take (length a) b),
  );
  compute = λ c. c * factor;
}

abbrev pub toy_hashing : Hashing toy
toy_hashing = hashing_by 1

-- The hashes of the prefixes of 1/2/4 are 0, 1, 3 and 7.
abbrev hash_at : ℕ → ℕ
hash_at zero = 0
hash_at (suc zero) = 1
hash_at (suc (suc zero)) = 3
hash_at (suc (suc (suc n))) = 7

hash_at_lem :
    (i : ℕ) → i ≤ 3 → compute_hash toy toy_hashing (toy.get_prefix (1 ∷ 2 ∷ 4 ∷ []) i) ≡ hash_at i
unfolding compute_hash hash_from
hash_at_lem zero h = refl
hash_at_lem (suc zero) h = refl
hash_at_lem (suc (suc zero)) h = refl
hash_at_lem (suc (suc (suc zero))) h = refl
hash_at_lem (suc (suc (suc (suc n)))) h = absurd (omega (arith, h))

hash_at_tells : (i j : ℕ) → i ≤ 3 → j ≤ 3 → hash_at i ≡ hash_at j → i ≡ j
hash_at_tells zero zero h k e = refl
hash_at_tells zero (suc zero) h k e = absurd (omega (arith, e))
hash_at_tells zero (suc (suc zero)) h k e = absurd (omega (arith, e))
hash_at_tells zero (suc (suc (suc j))) h k e = absurd (omega (arith, e))
hash_at_tells (suc zero) zero h k e = absurd (omega (arith, e))
hash_at_tells (suc zero) (suc zero) h k e = refl
hash_at_tells (suc zero) (suc (suc zero)) h k e = absurd (omega (arith, e))
hash_at_tells (suc zero) (suc (suc (suc j))) h k e = absurd (omega (arith, e))
hash_at_tells (suc (suc zero)) zero h k e = absurd (omega (arith, e))
hash_at_tells (suc (suc zero)) (suc zero) h k e = absurd (omega (arith, e))
hash_at_tells (suc (suc zero)) (suc (suc zero)) h k e = refl
hash_at_tells (suc (suc zero)) (suc (suc (suc j))) h k e = absurd (omega (arith, e))
hash_at_tells (suc (suc (suc i))) zero h k e = absurd (omega (arith, e))
hash_at_tells (suc (suc (suc i))) (suc zero) h k e = absurd (omega (arith, e))
hash_at_tells (suc (suc (suc i))) (suc (suc zero)) h k e = absurd (omega (arith, e))
hash_at_tells (suc (suc (suc i))) (suc (suc (suc j))) h k e = omega (arith, h, k)

pub spread : IsSpread toy toy_hashing (1 ∷ 2 ∷ 4 ∷ [])
spread i j h k e = hash_at_tells i j h k (sym (hash_at_lem i h) ∙ (e ∙ hash_at_lem j k))
