-- ===== src/Forwarder/Outgoing.antt =====
-- Forwarder::onOutgoingInterest of daemon/fw/forwarder.cpp, branch by branch.
use nfd_pitless.Base.{
  ℕ, ◌+◌, ◌≡◌, ◌⊎◌, inl, inr, true, false, [], ◌∷◌, ◌++◌, Option, none, some, ◌==◌, Bool-cases,
  Option-cases,
}
use nfd_pitless.Ndn.{Ndn, Interest}
use nfd_pitless.Face.{Face, invalid_faceid}
use nfd_pitless.Pit.{Entry, violates_scope}
use nfd_pitless.Pit.Table.{find_entry}
use nfd_pitless.Fw.{Stores, Forwarder, send_interest}
use nfd_pitless.Forwarder.{on_outgoing_interest, send_picked, picked_interest, sent_interest}

module _ (ndn : Ndn) (stores : Stores ndn) (city_hash : ndn.Name → ℕ → ℕ) where
  module _ (now : ℕ) (key : Interest ndn) (g : Face) (number : Option ℕ) (s : Forwarder ndn stores)
      (e : Entry ndn) (found : find_entry ndn key s.pit ≡ some e) where
    no_id :
        (g.id == invalid_faceid) ≡ true
        → on_outgoing_interest ndn stores city_hash now key g number s ≡ s
    unfolding on_outgoing_interest
    no_id bad = rw (found, on_outgoing_interest) (rw bad)

    out_of_scope :
        (g.id == invalid_faceid) ≡ false
        → violates_scope ndn e g ≡ true
        → on_outgoing_interest ndn stores city_hash now key g number s ≡ s
    unfolding on_outgoing_interest
    out_of_scope good out = rw (found, on_outgoing_interest) (rw good (rw out))

    by_pick :
        (g.id == invalid_faceid) ≡ false
        → violates_scope ndn e g ≡ false
        → (p : Option (Interest ndn)) → picked_interest ndn g e.in_records ≡ p
        → on_outgoing_interest ndn stores city_hash now key g number s
          ≡ elim p as (λ _. Forwarder ndn stores) [
            | none ↦ s
            | some picked ↦ send_picked ndn stores city_hash now key g number picked s
          ]
    unfolding on_outgoing_interest
    by_pick good fine p e = rw (found, on_outgoing_interest) (rw good (rw fine (rw e)))

  -- onOutgoingInterest changes nothing, or it sends one Interest, to the given face, counts it, and
  -- then the face has an id and its scope allows the PIT entry's Interest.
  pub on_outgoing_interest_lem :
      (now : ℕ) (key : Interest ndn) (g : Face) (number : Option ℕ) (s : Forwarder ndn stores)
      (e : Entry ndn)
      → find_entry ndn key s.pit ≡ some e
      → (on_outgoing_interest ndn stores city_hash now key g number s ≡ s)
        ⊎ ((i : Interest ndn) × ((on_outgoing_interest ndn stores city_hash now key g number
                s).outputs
              ≡ s.outputs ++ send_interest g i ∷ [])
            × ((on_outgoing_interest ndn stores city_hash now key g number s).n_out_interests
                ≡ s.n_out_interests + 1)
            × (violates_scope ndn e g ≡ false)
            × ((g.id == invalid_faceid) ≡ false))
  unfolding send_picked
  on_outgoing_interest_lem now key g number s e found = elim (Bool-cases (g.id == invalid_faceid)) [
    | inl bad ↦ inl (no_id now key g number s e found bad)
    | inr good ↦ elim (Bool-cases (violates_scope ndn e g)) [
      | inl out ↦ inl (out_of_scope now key g number s e found good out)
      | inr fine ↦ elim (Option-cases (picked_interest ndn g e.in_records)) [
        | inl nobody ↦ inl (by_pick now key g number s e found good fine none nobody)
        | inr (picked, p) ↦
            let sends = by_pick now key g number s e found good fine (some picked) p in
            inr (sent_interest ndn picked number, rw sends, rw sends, fine, good)
      ]
    ]
  ]
