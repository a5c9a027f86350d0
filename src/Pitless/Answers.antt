-- ===== src/Pitless/Answers.antt =====
-- What the PITless forwarder, daemon/fw/pitless-forwarder.cpp, puts out in answer to a packet.
use mathlib.Core.List.{append_assoc, append-nil}
use nfd_pitless.Base.{
  sym, ap, All-append, ◌+◌, ◌≡◌, ◌≢◌, ◌∙◌, refl, Bool, true, false, not, ◌&&◌, List, [], ◌∷◌, ◌++◌,
  Option, none, some, arith, Option-cases, Bool-cases, inl, inr, find_if, All, ◌==◌,
}
use nfd_pitless.Ndn.{Ndn, Interest, Data}
use nfd_pitless.Face.{Face, same, invalid_faceid}
use nfd_pitless.Fib.{NextHop}
use nfd_pitless.Fw.{
  Stores, Forwarder, Output, send_interest, send_data, interest_delay, content_delay,
  on_outgoing_data, cs_lookup, cs_add, report_interest_delay, report_content_delay,
}
use nfd_pitless.Pitless.Stateless.{Arrival, interest_arrives, data_arrives, receive}
use nfd_pitless.Pitless.{
  on_incoming_interest, on_incoming_data, after_lookup, best_route, on_content_store_miss,
  on_content_store_hit, forward_data, can_forward_to, on_outgoing_interest_pitless,
}

pub find_if-passes :
    {A : Type 0} (p : A → Bool) (xs : List A) (a : A) → find_if p xs ≡ some a → p a ≡ true
find_if-passes p [] a e = absurd (cc)
find_if-passes p (x ∷ xs) a e = ground (arith, find_if-passes p xs a)

module _ (ndn : Ndn) (stores : Stores ndn) where
  -- What an arrival may put out: an Interest goes on unchanged to another face, or is answered
  -- with Data on its own face; Data goes on unchanged to another face. No packet goes to a face
  -- without an id, and no Data under /localhost to a face that is not local.
  abbrev pub Answers : Arrival ndn → Output ndn → Type 0
  Answers (interest_arrives f i) (send_interest g j) =
      (g.id ≢ f.id) × (g.id ≢ invalid_faceid) × (j ≡ record i { incoming_face_id = f.id })
  Answers (interest_arrives f i) (send_data g d) =
      (g ≡ f)
      × (g.id ≢ invalid_faceid)
      × ((not g.is_local && ndn.is_prefix_of ndn.localhost_name d.name) ≡ false)
  Answers (data_arrives f d) (send_interest g j) = ⊥
  Answers (data_arrives f d) (send_data g e) =
      (g.id ≢ f.id)
      × (g.id ≢ invalid_faceid)
      × ((not g.is_local && ndn.is_prefix_of ndn.localhost_name d.name) ≡ false)
      × (e ≡ record d { incoming_face_id = f.id })
  Answers a interest_delay = Unit {0}
  Answers a content_delay = Unit {0}

  -- The outputs grow at their end, by outputs that answer the arrival.
  pub record Emits (a : Arrival ndn) (s t : Forwarder ndn stores) : Type 0 where
    pub new : List (Output ndn)
    pub split : t.outputs ≡ s.outputs ++ new
    pub answers : All (Answers a) new

  Emits-none : (a : Arrival ndn) (s t : Forwarder ndn stores) → t.outputs ≡ s.outputs → Emits a s t
  Emits-none a s t e = record { new = []; split = e ∙ sym (append-nil s.outputs); answers = tt }

  Emits-trans :
      {a : Arrival ndn} {s t u : Forwarder ndn stores} → Emits a s t → Emits a t u → Emits a s u
  Emits-trans {a} {s} p q = record {
    new = p.new ++ q.new;
    split = q.split ∙ ap (λ l. l ++ q.new) p.split ∙ append_assoc s.outputs p.new q.new;
    answers = All-append (Answers a) p.new q.new p.answers q.answers;
  }

  interest_delay-Emits :
      (f : Face) (i : Interest ndn) (s : Forwarder ndn stores)
      → Emits (interest_arrives f i) s (report_interest_delay ndn stores s)
  interest_delay-Emits f i s = elim (Bool-cases s.has_interest_callback) [
    | inl set ↦ record { new = interest_delay ∷ []; split = rw set; answers = (tt, tt) }
    | inr unset ↦ Emits-none _ _ _ (rw unset)
  ]

  data_interest_delay-Emits :
      (f : Face) (d : Data ndn) (s : Forwarder ndn stores)
      → Emits (data_arrives f d) s (report_interest_delay ndn stores s)
  data_interest_delay-Emits f d s = elim (Bool-cases s.has_interest_callback) [
    | inl set ↦ record { new = interest_delay ∷ []; split = rw set; answers = (tt, tt) }
    | inr unset ↦ Emits-none _ _ _ (rw unset)
  ]

  content_delay-Emits :
      (f : Face) (d : Data ndn) (s : Forwarder ndn stores)
      → Emits (data_arrives f d) s (report_content_delay ndn stores s)
  content_delay-Emits f d s = elim (Bool-cases s.has_content_callback) [
    | inl set ↦ record { new = content_delay ∷ []; split = rw set; answers = (tt, tt) }
    | inr unset ↦ Emits-none _ _ _ (rw unset)
  ]

  outgoing_interest-Emits :
      (f g : Face) (i : Interest ndn) (s : Forwarder ndn stores)
      → (g.id ≢ f.id)
      → Emits
          (interest_arrives f i)
          s
          (on_outgoing_interest_pitless ndn stores (record i { incoming_face_id = f.id }) g s)
  unfolding on_outgoing_interest_pitless
  outgoing_interest-Emits f g i s h = elim (Bool-cases (g.id == invalid_faceid)) [
    | inl bad ↦ Emits-none _ _ _ (rw bad)
    | inr good ↦ record {
      new = send_interest g (record i { incoming_face_id = f.id }) ∷ [];
      split = rw good;
      answers = ((h, ground arith, refl), tt);
    }
  ]

  best_route-Emits :
      (f : Face) (i : Interest ndn) (hops : List NextHop) (s : Forwarder ndn stores)
      → Emits
          (interest_arrives f i)
          s
          (best_route ndn stores f (record i { incoming_face_id = f.id }) hops s)
  unfolding best_route
  best_route-Emits f i hops s = elim (Option-cases (find_if (can_forward_to f) hops)) [
    | inl e ↦ Emits-none _ _ _ (rw (e, best_route))
    | inr (hop, e) ↦
        rw (e, best_route)
          (outgoing_interest-Emits f hop.face i s
            (ground (arith, find_if-passes (can_forward_to f) hops hop e)))
  ]

  outgoing_data-Emits :
      (a : Arrival ndn) (d : Data ndn) (g : Face) (s : Forwarder ndn stores)
      → ((g.id ≢ invalid_faceid)
          → ((not g.is_local && ndn.is_prefix_of ndn.localhost_name d.name) ≡ false)
          → Answers a (send_data g d))
      → Emits a s (on_outgoing_data ndn stores d g s)
  unfolding on_outgoing_data
  outgoing_data-Emits a d g s ok = elim (Bool-cases (g.id == invalid_faceid)) [
    | inl bad ↦ Emits-none _ _ _ (rw bad)
    | inr good ↦ elim (Bool-cases (not g.is_local && ndn.is_prefix_of ndn.localhost_name d.name)) [
      | inl out ↦ Emits-none _ _ _ (rw good (rw out))
      | inr fine ↦ record {
        new = send_data g d ∷ [];
        split = rw good (rw fine);
        answers = (ok (ground arith) fine, tt);
      }
    ]
  ]

  forward_data-Emits :
      (f : Face) (d : Data ndn) (hops : List NextHop) (s : Forwarder ndn stores)
      → Emits
          (data_arrives f d)
          s
          (forward_data ndn stores f (record d { incoming_face_id = f.id }) hops s)
  unfolding forward_data
  forward_data-Emits f d hops s = elim (Option-cases (find_if (can_forward_to f) hops)) [
    | inl e ↦ Emits-none _ _ _ (rw (e, forward_data))
    | inr (hop, e) ↦ elim (Bool-cases (same hop.face f)) [
      | inl back ↦ Emits-none _ _ _ (rw (e, forward_data) (rw back))
      | inr on ↦
          rw (e, forward_data)
            (rw on (
              outgoing_data-Emits (data_arrives f d) _ hop.face s (λ v p.
                (ground (arith, find_if-passes (can_forward_to f) hops hop e), v, p, refl))))
    ]
  ]

  after_lookup-Emits :
      (f : Face) (i : Interest ndn) (s : Forwarder ndn stores) (found : Option (Data ndn))
      → Emits
          (interest_arrives f i)
          s
          (after_lookup ndn stores f (record i { incoming_face_id = f.id }) (s, found))
  unfolding after_lookup on_content_store_miss on_content_store_hit
  after_lookup-Emits f i s none = best_route-Emits f i (s.fib i.name) s
  after_lookup-Emits f i s (some packet) =
      outgoing_data-Emits (interest_arrives f i) _ f s (λ v p. (refl, v, p))

  cs_lookup-Emits :
      (a : Arrival ndn) (i : Interest ndn) (s : Forwarder ndn stores)
      → Emits a s (cs_lookup ndn stores i s).0
  unfolding cs_lookup
  cs_lookup-Emits a i s = Emits-none _ _ _ (ground arith)

  cs_add-Emits :
      (a : Arrival ndn) (d : Data ndn) (b : Bool) (s : Forwarder ndn stores)
      → Emits a s (cs_add ndn stores d b s)
  unfolding cs_add
  cs_add-Emits a d b s = Emits-none _ _ _ (ground arith)

  interest-Emits :
      (f : Face) (i : Interest ndn) (s : Forwarder ndn stores)
      → Emits (interest_arrives f i) s (on_incoming_interest ndn stores f i s)
  unfolding on_incoming_interest
  interest-Emits f i s =
      let counted : Forwarder ndn stores = record s { n_in_interests = s.n_in_interests + 1 } in
      let looked = cs_lookup ndn stores (record i { incoming_face_id = f.id }) counted in
      let start : Emits (interest_arrives f i) s counted = Emits-none _ _ _ refl in
      elim (Bool-cases (not f.is_local && ndn.is_prefix_of ndn.localhost_name i.name)) [
        | inl drop ↦ rw drop (Emits-trans start (interest_delay-Emits f i counted))
        | inr pass ↦ rw pass (
            Emits-trans start (
              Emits-trans (cs_lookup-Emits _ _ counted) (
                Emits-trans (after_lookup-Emits f i looked.0 looked.1)
                  (interest_delay-Emits f i _))))
      ]

  data-Emits :
      (f : Face) (d : Data ndn) (s : Forwarder ndn stores)
      → Emits (data_arrives f d) s (on_incoming_data ndn stores f d s)
  unfolding on_incoming_data
  data-Emits f d s =
      let counted : Forwarder ndn stores = record s { n_in_datas = s.n_in_datas + 1 } in
      let cached = cs_add ndn stores (record d { incoming_face_id = f.id }) false counted in
      let start : Emits (data_arrives f d) s counted = Emits-none _ _ _ refl in
      elim (Bool-cases (not f.is_local && ndn.is_prefix_of ndn.localhost_name d.supporting_name)) [
        | inl drop ↦ rw drop (Emits-trans start (data_interest_delay-Emits f d counted))
        | inr pass ↦ rw pass (
            Emits-trans start (
              Emits-trans (cs_add-Emits _ _ _ counted) (
                Emits-trans (forward_data-Emits f d (cached.fib d.name) cached)
                  (content_delay-Emits f d _))))
      ]

  -- Whatever arrives, the outputs only grow at their end, and each new one answers the arrival: an
  -- Interest goes on unchanged to a face other than its own, or is answered with Data on its own
  -- face; Data goes on unchanged to another face; no packet goes to a face without an id, and no
  -- Data under /localhost to a face that is not local.
  pub receive-Emits :
      (a : Arrival ndn) (s : Forwarder ndn stores) → Emits a s (receive ndn stores a s)
  unfolding receive
  receive-Emits (interest_arrives f i) s = interest-Emits f i s
  receive-Emits (data_arrives f d) s = data-Emits f d s
