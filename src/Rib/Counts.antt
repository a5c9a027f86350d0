-- ===== src/Rib/Counts.antt =====
-- The updates that wait in a list of rib/fib-updater.cpp and the commands that were sent for them.
use nfd_pitless.Base.{
  ℕ, zero, suc, ◌+◌, ◌≤◌, ◌<◌, ◌≡◌, ◌↔◌, refl, Bool, true, false, not, List, [], ◌∷◌, ◌++◌, some,
  arith, All, if◌then◌else◌, ltb, length, count_if, get_elem?, Bool-cases, inl, inr, if_keeps, ap,
  subst, sym, ◌∙◌,
}
use nfd_pitless.Ndn.{Ndn}
use nfd_pitless.Rib.Names.{NameOrder}
use nfd_pitless.Rib.Updater.{Action, add_nexthop, remove_nexthop, FibUpdate}
use nfd_pitless.Rib.Sending.{Command, same_action, same_update, remove_update}
use nfd_pitless.Rib.Separated.{is_same_hop, Once}
use nfd_pitless.Rib.Queue.{erase_at}

pub All-erase_at :
    {A : Type 0} (P : A → Type 0) (i : ℕ) (xs : List A) → All P xs → All P (erase_at i xs)
All-erase_at P i [] h = tt
All-erase_at P zero (x ∷ xs) h = h.1
All-erase_at P (suc i) (x ∷ xs) h = (h.0, All-erase_at P i xs h.1)

pub All-get_elem? :
    {A : Type 0} (P : A → Type 0) (i : ℕ) (xs : List A) (x : A)
    → All P xs
    → get_elem? xs i ≡ some x
    → P x
All-get_elem? P i [] x h found = absurd (cc)
All-get_elem? P zero (y ∷ ys) x h found = let same : y ≡ x = ground arith in subst P same h.0
All-get_elem? P (suc i) (y ∷ ys) x h found = All-get_elem? P i ys x h.1 found

same_action_iff : (a b : Action) → (same_action a b ≡ true) ↔ (a ≡ b)
same_action_iff add_nexthop add_nexthop = ground arith
same_action_iff add_nexthop remove_nexthop = ground arith
same_action_iff remove_nexthop add_nexthop = ground arith
same_action_iff remove_nexthop remove_nexthop = ground arith

module _ (ndn : Ndn) (order : NameOrder ndn) where
  -- How often an update stands in a list, and how many commands wait for it.
  abbrev pub count : FibUpdate ndn order → List (FibUpdate ndn order) → ℕ
  count f us = count_if (same_update ndn order f) us

  abbrev pub count_sent : FibUpdate ndn order → List (Command ndn order) → ℕ
  count_sent f cs = count_if (λ c. same_update ndn order f c.update) cs

  abbrev pub one_if : Bool → ℕ
  one_if b = if b then 1 else 0

  pub same_update_refl : (f : FibUpdate ndn order) → same_update ndn order f f ≡ true
  same_update_refl f =
      ground (arith, ndn.name_eq_iff f.name f.name, same_action_iff f.action f.action)

  same_update_eq : (f g : FibUpdate ndn order) → same_update ndn order f g ≡ true → f ≡ g
  same_update_eq f g h =
      let names : f.name ≡ g.name = ground (arith, ndn.name_eq_iff f.name g.name) in
      let faces : f.face_id ≡ g.face_id = ground arith in
      let costs : f.cost ≡ g.cost = ground arith in
      let actions : f.action ≡ g.action = ground (arith, same_action_iff f.action g.action) in
      λ i. record { name = names i; face_id = faces i; cost = costs i; action = actions i }

  same_update_sym :
      (f g : FibUpdate ndn order) → same_update ndn order f g ≡ same_update ndn order g f
  same_update_sym f g = elim (Bool-cases (same_update ndn order f g)) [
    | inl hit ↦ rw (same_update_eq f g hit) refl
    | inr off ↦ elim (Bool-cases (same_update ndn order g f)) [
      | inl hit ↦ rw (same_update_eq g f hit) refl
      | inr off' ↦ off ∙ sym off'
    ]
  ]

  pub count_sent-erase_at :
      (f : FibUpdate ndn order) (i : ℕ) (cs : List (Command ndn order)) (c : Command ndn order)
      → get_elem? cs i ≡ some c
      → count_sent f cs ≡ one_if (same_update ndn order f c.update) + count_sent f (erase_at i cs)
  count_sent-erase_at f i [] c h = absurd (cc)
  count_sent-erase_at f zero (x ∷ xs) c h =
      let same : x ≡ c = ground arith in rw same (ground arith)
  count_sent-erase_at f (suc i) (x ∷ xs) c h = ground (arith, count_sent-erase_at f i xs c h)

  pub count_sent-append :
      (f : FibUpdate ndn order) (cs ds : List (Command ndn order))
      → count_sent f (cs ++ ds) ≡ count_sent f cs + count_sent f ds
  count_sent-append f [] ds = omega arith
  count_sent-append f (c ∷ cs) ds = ground (arith, count_sent-append f cs ds)

  pub count-remove_update :
      (f u : FibUpdate ndn order) (us : List (FibUpdate ndn order))
      → count f (remove_update ndn order u us)
        ≡ (if same_update ndn order f u then 0 else count f us)
  count-remove_update f u [] = ground arith
  count-remove_update f u (x ∷ xs) = elim (Bool-cases (same_update ndn order x u)) [
    | inl hit ↦ rw hit (rw (same_update_eq x u hit) (ground (arith, count-remove_update f u xs)))
    | inr off ↦ rw off (elim (Bool-cases (same_update ndn order f u)) [
      | inl same ↦
          let apart : same_update ndn order f x ≡ false =
            rw (same_update_eq f u same) (same_update_sym u x ∙ off) in
          ground (arith, count-remove_update f u xs)
      | inr other ↦ ground (arith, count-remove_update f u xs)
    ])
  ]

  none_same_hop :
      (f x : FibUpdate ndn order) (xs : List (FibUpdate ndn order))
      → All (λ g. is_same_hop ndn order x g ≡ false) xs
      → same_update ndn order f x ≡ true
      → count f xs ≡ 0
  none_same_hop f x [] h same = refl
  none_same_hop f x (y ∷ ys) h same =
      let apart : same_update ndn order x y ≡ false = ground arith in
      let apart' : same_update ndn order f y ≡ false = rw (same_update_eq f x same) apart in
      ground (arith, none_same_hop f x ys h.1 same)

  pub count-Once :
      (f : FibUpdate ndn order) (us : List (FibUpdate ndn order))
      → Once ndn order us
      → count f us ≤ 1
  count-Once f [] h = omega arith
  count-Once f (x ∷ xs) h = elim (Bool-cases (same_update ndn order f x)) [
    | inl hit ↦ ground (arith, none_same_hop f x xs h.0 hit)
    | inr off ↦ ground (arith, count-Once f xs h.1)
  ]

  -- An update of a list is counted there.
  pub All-count :
      (P : FibUpdate ndn order → Type 0) (f : FibUpdate ndn order) (us : List (FibUpdate ndn order))
      → 1 ≤ count f us
      → All P us
      → P f
  All-count P f [] some_of h = absurd (omega (arith, some_of))
  All-count P f (x ∷ xs) some_of h = elim (Bool-cases (same_update ndn order f x)) [
    | inl hit ↦ subst P (sym (same_update_eq f x hit)) h.0
    | inr off ↦ All-count P f xs (ground (arith, some_of)) h.1
  ]

  -- Commands that wait for the updates of a list are there as long as the list is not empty.
  pub none_sent :
      (cs : List (Command ndn order)) → ((f : FibUpdate ndn order) → count_sent f cs ≡ 0) → cs ≡ []
  none_sent [] h = refl
  none_sent (c ∷ cs) h =
      let twice = h c.update in let itself = same_update_refl c.update in absurd (ground arith)

  pub some_sent :
      (cs : List (Command ndn order)) (f : FibUpdate ndn order)
      → 1 ≤ count_sent f cs
      → ltb 0 (length cs) ≡ true
  some_sent [] f h = absurd (omega (arith, h))
  some_sent (c ∷ cs) f h = ground arith

  pub All-remove_update :
      (P : FibUpdate ndn order → Type 0) (u : FibUpdate ndn order) (us : List (FibUpdate ndn order))
      → All P us
      → All P (remove_update ndn order u us)
  All-remove_update P u [] h = tt
  All-remove_update P u (x ∷ xs) h =
      if_keeps (All P) (not (same_update ndn order x u)) _ _ (h.0, All-remove_update P u xs h.1)
        (All-remove_update P u xs h.1)

  pub length-remove_update_le :
      (u : FibUpdate ndn order) (us : List (FibUpdate ndn order))
      → length (remove_update ndn order u us) ≤ length us
  length-remove_update_le u [] = omega arith
  length-remove_update_le u (x ∷ xs) = ground (arith, length-remove_update_le u xs)

  pub length-remove_update_lt :
      (u : FibUpdate ndn order) (us : List (FibUpdate ndn order))
      → 1 ≤ count u us
      → length (remove_update ndn order u us) < length us
  length-remove_update_lt u [] some_of = absurd (omega (arith, some_of))
  length-remove_update_lt u (x ∷ xs) some_of =
      let swapped = same_update_sym u x in
      let shorter = length-remove_update_le u xs in
      elim (Bool-cases (same_update ndn order u x)) [
        | inl hit ↦ ground (arith)
        | inr off ↦ ground (arith, length-remove_update_lt u xs (ground arith))
      ]

  pub Once-remove_update :
      (u : FibUpdate ndn order) (us : List (FibUpdate ndn order))
      → Once ndn order us
      → Once ndn order (remove_update ndn order u us)
  Once-remove_update u [] h = tt
  Once-remove_update u (x ∷ xs) h =
      if_keeps (Once ndn order) (not (same_update ndn order x u)) (x ∷ remove_update ndn order u xs)
        (remove_update ndn order u xs)
        (
          All-remove_update (λ g. is_same_hop ndn order x g ≡ false) u xs h.0,
          Once-remove_update u xs h.1,
        )
        (Once-remove_update u xs h.1)

  -- A command answered, and its update taken from the list that the commands were sent for.
  module _ (us : List (FibUpdate ndn order)) (cs : List (Command ndn order)) (i : ℕ)
      (c : Command ndn order) (found : get_elem? cs i ≡ some c)
      (matching : (f : FibUpdate ndn order) → count_sent f cs ≡ count f us) where
    pub answered_is_due : 1 ≤ count c.update us
    answered_is_due =
        let sent = count_sent-erase_at c.update i cs c found in
        let itself = same_update_refl c.update in ground (arith, matching c.update)

    pub answered_has : (P : FibUpdate ndn order → Type 0) → All P us → P c.update
    answered_has P h = All-count P c.update us answered_is_due h

    pub rest_matches :
        (f : FibUpdate ndn order)
        → Once ndn order us
        → count_sent f (erase_at i cs) ≡ count f (remove_update ndn order c.update us)
    rest_matches f once =
        let sent = count_sent-erase_at f i cs c found in
        let left = count-remove_update f c.update us in
        let most = count-Once f us once in ground (arith, matching f)

    pub rest_gone :
        Once ndn order us → remove_update ndn order c.update us ≡ [] → erase_at i cs ≡ []
    rest_gone once gone = none_sent (erase_at i cs) (λ f. rest_matches f once ∙ ap (count f) gone)

    pub rest_waits :
        Once ndn order us
        → (x : FibUpdate ndn order) (xs : List (FibUpdate ndn order))
        → remove_update ndn order c.update us ≡ x ∷ xs
        → ltb 0 (length (erase_at i cs)) ≡ true
    rest_waits once x xs left =
        let matched = rest_matches x once ∙ ap (count x) left in
        let itself = same_update_refl x in some_sent (erase_at i cs) x (ground (arith, matched))
