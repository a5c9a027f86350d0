-- ===== src/Fib/Laws.antt =====
-- What the operations of daemon/table/fib-entry.cpp do to the next hops.
use nfd_pitless.Base.{
  ℕ, ◌+◌, ◌≤◌, ◌≡◌, refl, ◌∙◌, Bool, true, false, not, ◌&&◌, List, [], ◌∷◌, ◌++◌, arith, ◌==◌,
  any_of, count_if, erase_if, Bool-cases, inl, inr,
}
use nfd_pitless.Face.{Face}
use nfd_pitless.Fib.{
  NextHop, IsSorted, Sort, to, has_next_hop, set_cost, add_next_hop, remove_next_hop, find_or_push,
}

-- The list has one hop at most for each face.
abbrev pub IsUnique : List NextHop → Type 0
IsUnique hops = (face : Face) → count_if (to face) hops ≤ 1

-- Hops to another face that pass a test.
abbrev pub other : Face → (NextHop → Bool) → NextHop → Bool
other face q hop = not (to face hop) && q hop

-- Hops to the face at a cost.
abbrev pub at_cost : Face → ℕ → NextHop → Bool
at_cost face cost hop = to face hop && hop.cost == cost

count-absent :
    (face : Face) (hops : List NextHop)
    → has_next_hop hops face ≡ false
    → count_if (to face) hops ≡ 0
unfolding has_next_hop
count-absent face [] h = refl
count-absent face (hop ∷ hops) h = ground (arith, count-absent face hops)

count-append :
    {A : Type 0} (p : A → Bool) (xs ys : List A)
    → count_if p (xs ++ ys) ≡ count_if p xs + count_if p ys
count-append p [] ys = omega arith
count-append p (x ∷ xs) ys = ground (arith, count-append p xs ys)

count-set_cost-other :
    (face : Face) (q : NextHop → Bool) (cost : ℕ) (hops : List NextHop)
    → count_if (other face q) (set_cost face cost hops) ≡ count_if (other face q) hops
unfolding set_cost
count-set_cost-other face q cost [] = refl
count-set_cost-other face q cost (hop ∷ hops) =
    ground (arith, count-set_cost-other face q cost hops)

count-set_cost :
    (face g : Face) (cost : ℕ) (hops : List NextHop)
    → count_if (to g) (set_cost face cost hops) ≡ count_if (to g) hops
unfolding set_cost
count-set_cost face g cost [] = refl
count-set_cost face g cost (hop ∷ hops) = ground (arith, count-set_cost face g cost hops)

count-set_cost_at :
    (face : Face) (cost : ℕ) (hops : List NextHop)
    → count_if (to face) hops ≤ 1
    → has_next_hop hops face ≡ true
    → count_if (at_cost face cost) (set_cost face cost hops) ≡ 1
unfolding set_cost has_next_hop
count-set_cost_at face cost [] u h = cc
count-set_cost_at face cost (hop ∷ hops) u h =
    ground (arith, count-set_cost_at face cost hops, at-absent hops)
  where
    at-absent :
        (hs : List NextHop) → count_if (to face) hs ≤ 0 → count_if (at_cost face cost) hs ≡ 0
    at-absent [] e = refl
    at-absent (x ∷ xs) e = ground (arith, at-absent xs)

find_or_push_unique :
    (face g : Face) (hops : List NextHop)
    → count_if (to g) hops ≤ 1
    → count_if (to g) (find_or_push hops face) ≤ 1
unfolding find_or_push
find_or_push_unique face g hops u = ground (
  arith,
  count-append (to g) hops (record { face = face; cost = 0 } ∷ []),
  count-absent face hops,
  same-address face g hops,
)
  where
    same-address :
        (a b : Face) (hs : List NextHop)
        → a.address ≡ b.address
        → count_if (to a) hs ≡ count_if (to b) hs
    same-address a b hs e = rw e

count-find_or_push :
    (face : Face) (q : NextHop → Bool) (hops : List NextHop)
    → count_if (other face q) (find_or_push hops face) ≡ count_if (other face q) hops
unfolding find_or_push
count-find_or_push face q hops =
    ground (arith, count-append (other face q) hops (record { face = face; cost = 0 } ∷ []))

has-find_or_push :
    (face : Face) (hops : List NextHop) → has_next_hop (find_or_push hops face) face ≡ true
unfolding find_or_push
has-find_or_push face hops = elim (Bool-cases (has_next_hop hops face)) [
  | inl old ↦ rw (old, find_or_push) old
  | inr new ↦ rw (new, find_or_push) (pushed hops)
]
  where
    pushed :
        (hs : List NextHop) → has_next_hop (hs ++ record { face = face; cost = 0 } ∷ []) face ≡ true
    pushed [] = unfold has_next_hop in ground arith
    pushed (x ∷ xs) = unfold has_next_hop in ground (arith, pushed xs)

-- addNextHop on an entry with one hop at most for each face: the result is sorted by cost, still
-- has one hop at most for each face, has one for the given face with the given cost, and has as
-- many hops to other faces that pass any test `q` as before.
pub add_next_hop_lem :
    (sort : Sort) (hops : List NextHop) (face : Face) (cost : ℕ) (q : NextHop → Bool)
    → IsUnique hops
    → IsSorted (add_next_hop sort hops face cost)
      × IsUnique (add_next_hop sort hops face cost)
      × (count_if (at_cost face cost) (add_next_hop sort hops face cost) ≡ 1)
      × (count_if (other face q) (add_next_hop sort hops face cost) ≡ count_if (other face q) hops)
unfolding add_next_hop
add_next_hop_lem sort hops face cost q u =
    let found = find_or_push hops face in
    (
      sort.apply-IsSorted _,
      (λ g. omega (
        arith,
        sort.count-apply (to g) (set_cost face cost found),
        count-set_cost face g cost found,
        find_or_push_unique face g hops (u g),
      )),
      sort.count-apply _ _
          ∙ count-set_cost_at face cost found (find_or_push_unique face face hops (u face))
              (has-find_or_push face hops),
      sort.count-apply _ _
          ∙ count-set_cost-other face q cost found
          ∙ count-find_or_push face q hops,
    )

StartsAbove : ℕ → List NextHop → Type 0
StartsAbove c [] = Unit {0}
StartsAbove c (hop ∷ hops) = c ≤ hop.cost

IsSorted-split :
    (hop : NextHop) (hops : List NextHop)
    → IsSorted (hop ∷ hops)
    → StartsAbove hop.cost hops × IsSorted hops
unfolding StartsAbove
IsSorted-split hop [] s = (tt, tt)
IsSorted-split hop (next ∷ rest) s = s

IsSorted-join :
    (hop : NextHop) (hops : List NextHop)
    → StartsAbove hop.cost hops
    → IsSorted hops
    → IsSorted (hop ∷ hops)
unfolding StartsAbove
IsSorted-join hop [] a s = tt
IsSorted-join hop (next ∷ rest) a s = (a, s)

StartsAbove-tail :
    (c : ℕ) (hop : NextHop) (hops : List NextHop)
    → c ≤ hop.cost
    → IsSorted (hop ∷ hops)
    → StartsAbove c hops
unfolding StartsAbove
StartsAbove-tail c hop [] h s = tt
StartsAbove-tail c hop (next ∷ rest) h s = omega arith

pub erase-IsSorted :
    (face : Face) (hops : List NextHop) → IsSorted hops → IsSorted (erase_if (to face) hops)
erase-IsSorted face [] s = tt
erase-IsSorted face (hop ∷ hops) s = elim (Bool-cases (to face hop)) [
  | inl hit ↦ rw hit (IsSorted-split hop hops s).1
  | inr miss ↦
      rw miss (
        IsSorted-join hop _ (above hops s) (erase-IsSorted face hops (IsSorted-split hop hops s).1))
]
  where
    above : (hs : List NextHop) → IsSorted (hop ∷ hs) → StartsAbove hop.cost (erase_if (to face) hs)
    above [] t = unfold StartsAbove in tt
    above (next ∷ rest) t = elim (Bool-cases (to face next)) [
      | inl hit ↦ rw hit (StartsAbove-tail hop.cost next rest t.0 t.1)
      | inr miss ↦ rw miss (unfold StartsAbove in t.0)
    ]

count-erase :
    (face : Face) (p : NextHop → Bool) (hops : List NextHop)
    → count_if p (erase_if (to face) hops) ≤ count_if p hops
count-erase face p [] = omega arith
count-erase face p (hop ∷ hops) = ground (arith, count-erase face p hops)

has-erase :
    (face : Face) (hops : List NextHop)
    → count_if (to face) hops ≤ 1
    → has_next_hop (erase_if (to face) hops) face ≡ false
unfolding has_next_hop
has-erase face [] u = refl
has-erase face (hop ∷ hops) u = ground (arith, has-erase face hops, absent hops)
  where
    absent : (hs : List NextHop) → count_if (to face) hs ≤ 0 → any_of (to face) hs ≡ false
    absent [] e = refl
    absent (x ∷ xs) e = ground (arith, absent xs)

count-erase_other :
    (face : Face) (q : NextHop → Bool) (hops : List NextHop)
    → count_if (other face q) (erase_if (to face) hops) ≡ count_if (other face q) hops
count-erase_other face q [] = refl
count-erase_other face q (hop ∷ hops) = ground (arith, count-erase_other face q hops)

-- removeNextHop on an entry that is sorted and has one hop at most for each face: the face has no
-- hop left, the entry stays sorted and has one hop at most for each face, and as many hops to
-- other faces that pass any test `q` as before.
pub remove_next_hop_lem :
    (hops : List NextHop) (face : Face) (q : NextHop → Bool)
    → IsSorted hops
    → IsUnique hops
    → (has_next_hop (remove_next_hop hops face) face ≡ false)
      × IsSorted (remove_next_hop hops face)
      × IsUnique (remove_next_hop hops face)
      × (count_if (other face q) (remove_next_hop hops face) ≡ count_if (other face q) hops)
unfolding remove_next_hop
remove_next_hop_lem hops face q s u = (
  has-erase face hops (u face),
  erase-IsSorted face hops s,
  (λ g. omega (arith, count-erase face (to g) hops, u g)),
  count-erase_other face q hops,
)
