-- ===== src/Pitless/Packets.antt =====
-- The packets among the PITless forwarder's outputs, and cheapest hops.
use mathlib.Core.List.{append-nil}
use nfd_pitless.Base.{
  ap, copy_if, any_of, ℕ, ◌≡◌, ◌≢◌, ◌∙◌, refl, Bool, true, false, not, ◌&&◌, List, [], ◌∷◌, ◌++◌,
  Option, none, some, arith, count_if, Bool-cases, inl, inr, find_if, ltb, ◌==◌,
}
use nfd_pitless.Ndn.{Ndn, Interest, Data}
use nfd_pitless.Face.{Face, same, invalid_faceid, faceid_content_store}
use nfd_pitless.Fib.{NextHop, IsSorted}
use nfd_pitless.Fw.{
  Stores, Forwarder, Output, send_interest, send_data, interest_delay, content_delay,
  on_outgoing_data, cs_lookup, cs_add, report_interest_delay, report_content_delay,
}
use nfd_pitless.Pitless.Stateless.{is_packet}
use nfd_pitless.Pitless.{
  after_lookup, best_route, on_content_store_miss, on_content_store_hit, forward_data,
  can_forward_to, on_outgoing_interest_pitless,
}

-- In a sorted list of hops no hop that passes costs less than the first hop.
none_cheaper :
    (p : NextHop → Bool) (hop : NextHop) (hops : List NextHop)
    → IsSorted (hop ∷ hops)
    → count_if (λ g. p g && ltb g.cost hop.cost) hops ≡ 0
none_cheaper p hop [] s = refl
none_cheaper p hop (next ∷ rest) s = ground (arith, none_cheaper p next rest s.1, below rest)
  where
    below :
        (hs : List NextHop)
        → count_if (λ g. p g && ltb g.cost next.cost) hs ≡ 0
        → count_if (λ g. p g && ltb g.cost hop.cost) hs ≡ 0
    below [] e = refl
    below (g ∷ gs) e = ground (arith, below gs)

-- The first hop that passes is a cheapest one among those that pass.
pub find_if-cheapest :
    (p : NextHop → Bool) (hops : List NextHop) (hop : NextHop)
    → IsSorted hops
    → find_if p hops ≡ some hop
    → (p hop ≡ true) × (count_if (λ g. p g && ltb g.cost hop.cost) hops ≡ 0)
find_if-cheapest p [] hop s e = absurd (cc)
find_if-cheapest p (g ∷ []) hop s e = ground arith
find_if-cheapest p (g ∷ h ∷ rest) hop s e = elim (Bool-cases (p g)) [
  | inl hit ↦ ground (arith, none_cheaper p g (h ∷ rest) s)
  | inr miss ↦ ground (arith, find_if-cheapest p (h ∷ rest) hop s.1)
]

find_if-split :
    (p : NextHop → Bool) (hops : List NextHop) (hop : NextHop)
    → find_if p hops ≡ some hop
    → (before : List NextHop) × (after : List NextHop) × (hops ≡ before ++ hop ∷ after)
find_if-split p [] hop e = absurd (cc)
find_if-split p (g ∷ gs) hop e = elim (Bool-cases (p g)) [
  | inl hit ↦ ([], gs, ground arith)
  | inr miss ↦
      let (before, after, listed) = find_if-split p gs hop (ground arith) in
      (g ∷ before, after, ap (◌∷◌ g) listed)
]

module _ (ndn : Ndn) (stores : Stores ndn) where
  -- The packets among the outputs.
  abbrev pub packets : List (Output ndn) → List (Output ndn)
  packets = copy_if (is_packet ndn stores)

  packets-append : (xs ys : List (Output ndn)) → packets (xs ++ ys) ≡ packets xs ++ packets ys
  packets-append [] ys = refl
  packets-append (send_interest f i ∷ xs) ys = ap (◌∷◌ (send_interest f i)) (packets-append xs ys)
  packets-append (send_data f d ∷ xs) ys = ap (◌∷◌ (send_data f d)) (packets-append xs ys)
  packets-append (interest_delay ∷ xs) ys = packets-append xs ys
  packets-append (content_delay ∷ xs) ys = packets-append xs ys

  pub packets-interest_delay :
      (s : Forwarder ndn stores)
      → packets (report_interest_delay ndn stores s).outputs ≡ packets s.outputs
  packets-interest_delay s = elim (Bool-cases s.has_interest_callback) [
    | inl set ↦ rw set (packets-append s.outputs (interest_delay ∷ []) ∙ append-nil _)
    | inr unset ↦ rw unset
  ]

  pub packets-content_delay :
      (s : Forwarder ndn stores)
      → packets (report_content_delay ndn stores s).outputs ≡ packets s.outputs
  packets-content_delay s = elim (Bool-cases s.has_content_callback) [
    | inl set ↦ rw set (packets-append s.outputs (content_delay ∷ []) ∙ append-nil _)
    | inr unset ↦ rw unset
  ]

  -- A lookup looks at the stores alone.
  pub cs_lookup-counted :
      (i : Interest ndn) (n : ℕ) (s : Forwarder ndn stores)
      → (cs_lookup ndn stores i (record s { n_in_interests = n })).1 ≡ (cs_lookup ndn stores i s).1
  unfolding cs_lookup
  cs_lookup-counted i n s = ground arith

  pub cs_lookup-fixed :
      (i : Interest ndn) (s : Forwarder ndn stores)
      → ((cs_lookup ndn stores i s).0.outputs ≡ s.outputs)
        × ((cs_lookup ndn stores i s).0.fib ≡ s.fib)
  unfolding cs_lookup
  cs_lookup-fixed i s = (ground arith, ground arith)

  pub cs_add-fixed :
      (d : Data ndn) (b : Bool) (s : Forwarder ndn stores)
      → ((cs_add ndn stores d b s).outputs ≡ s.outputs) × ((cs_add ndn stores d b s).fib ≡ s.fib)
  unfolding cs_add
  cs_add-fixed d b s = (ground arith, ground arith)

  -- The hop is listed, leads to another face than `f`, and no listed hop to another face than `f`
  -- costs less.
  pub record IsCheapest (f : Face) (hops : List NextHop) (hop : NextHop) : Type 0 where
    pub before : List NextHop
    pub after : List NextHop
    pub listed : hops ≡ before ++ hop ∷ after
    pub eligible : hop.face.id ≢ f.id
    pub cheapest : count_if (λ g. can_forward_to f g && ltb g.cost hop.cost) hops ≡ 0

  pub IsCheapest-of :
      (f : Face) (hops : List NextHop) (hop : NextHop)
      → IsSorted hops
      → find_if (can_forward_to f) hops ≡ some hop
      → IsCheapest f hops hop
  IsCheapest-of f hops hop s e =
      let c = find_if-cheapest (can_forward_to f) hops hop s e in
      let (before, after, listed) = find_if-split (can_forward_to f) hops hop e in
      record {
        before = before;
        after = after;
        listed = listed;
        eligible = ground arith;
        cheapest = c.1;
      }

  pub find_some :
      (f : Face) (hops : List NextHop)
      → any_of (can_forward_to f) hops ≡ true
      → (hop : NextHop) × (find_if (can_forward_to f) hops ≡ some hop)
  find_some f [] h = absurd (cc)
  find_some f (hop ∷ hops) h = elim (Bool-cases (can_forward_to f hop)) [
    | inl hit ↦ (hop, rw hit)
    | inr miss ↦ rw miss (find_some f hops (ground arith))
  ]

  pub valid_hop :
      (p : NextHop → Bool) (hops : List NextHop) (hop : NextHop)
      → find_if p hops ≡ some hop
      → any_of (λ g. g.face.id == invalid_faceid) hops ≡ false
      → (hop.face.id == invalid_faceid) ≡ false
  valid_hop p [] hop e v = absurd (cc)
  valid_hop p (g ∷ gs) hop e v = ground (arith, valid_hop p gs hop)

  pub miss_sends :
      (f : Face) (i : Interest ndn) (hop : NextHop) (t : Forwarder ndn stores)
      (found : Option (Data ndn))
      → found ≡ none
      → find_if (can_forward_to f) (t.fib i.name) ≡ some hop
      → (hop.face.id == invalid_faceid) ≡ false
      → packets (after_lookup ndn stores f i (t, found)).outputs
        ≡ packets t.outputs ++ send_interest hop.face i ∷ []
  unfolding after_lookup on_content_store_miss best_route on_outgoing_interest_pitless
  miss_sends f i hop t none m e v =
      rw (e, best_route) (rw v (packets-append t.outputs (send_interest hop.face i ∷ [])))
  miss_sends f i hop t (some d) m e v = absurd (cc)

  pub hit_sends :
      (f : Face) (i : Interest ndn) (d : Data ndn) (t : Forwarder ndn stores)
      (found : Option (Data ndn))
      → found ≡ some d
      → (f.id == invalid_faceid) ≡ false
      → (not f.is_local && ndn.is_prefix_of ndn.localhost_name d.name) ≡ false
      → packets (after_lookup ndn stores f i (t, found)).outputs
        ≡ packets t.outputs
          ++ send_data f (record d { incoming_face_id = faceid_content_store }) ∷ []
  unfolding after_lookup on_content_store_hit on_outgoing_data
  hit_sends f i d t none m v l = absurd (cc)
  hit_sends f i d t (some g) m v l =
      let e : g ≡ d = ground arith in
      rw v (
        rw e (
          rw l (
            packets-append t.outputs
              (send_data f (record d { incoming_face_id = faceid_content_store }) ∷ []))))

  pub forward_sends :
      (f : Face) (d : Data ndn) (hop : NextHop) (hops : List NextHop) (t : Forwarder ndn stores)
      → find_if (can_forward_to f) hops ≡ some hop
      → same hop.face f ≡ false
      → (hop.face.id == invalid_faceid) ≡ false
      → (not hop.face.is_local && ndn.is_prefix_of ndn.localhost_name d.name) ≡ false
      → packets (forward_data ndn stores f d hops t).outputs
        ≡ packets t.outputs ++ send_data hop.face d ∷ []
  unfolding forward_data on_outgoing_data
  forward_sends f d hop hops t e b v l =
      rw (e, forward_data)
        (rw b (rw v (rw l (packets-append t.outputs (send_data hop.face d ∷ [])))))

  pub other_address :
      (f : Face) (hops : List NextHop) (hop : NextHop)
      → find_if (can_forward_to f) hops ≡ some hop
      → any_of (λ g. can_forward_to f g && same g.face f) hops ≡ false
      → same hop.face f ≡ false
  other_address f [] hop e v = absurd (cc)
  other_address f (g ∷ gs) hop e v = ground (arith, other_address f gs hop)
