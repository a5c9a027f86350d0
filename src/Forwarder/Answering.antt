-- ===== src/Forwarder/Answering.antt =====
-- What goes out when Data satisfies PIT entries: the end of onIncomingData in
-- daemon/fw/forwarder.cpp and daemon/fw/bridge-forwarder.cpp.
use mathlib.Core.List.{append_assoc, append-nil}
use nfd_pitless.Base.{
  ℕ, ◌+◌, ◌≡◌, ◌∙◌, refl, sym, ap, Bool, false, not, ◌&&◌, List, [], ◌∷◌, ◌++◌, arith, map, copy_if,
  if◌then◌else◌, ◌==◌, any_of, Bool-cases, inl, inr,
}
use nfd_pitless.Ndn.{Ndn, Data}
use nfd_pitless.Face.{Face, same, invalid_faceid}
use nfd_pitless.Pit.{Entry}
use nfd_pitless.Fw.{
  Stores, Forwarder, Output, send_data, content_delay, put, cs_add, on_outgoing_data,
  report_content_delay,
}
use nfd_pitless.Forwarder.{pending_downstreams}
use nfd_pitless.Forwarder.Downstreams.{
  waits, passes, IsRising, pending_downstreams_lem, pending_downstreams_from,
}
use nfd_pitless.Forwarder.Pipelines.{satisfy_all, send_downstream, satisfy_matches}

module _ (ndn : Ndn) (stores : Stores ndn) (city_hash : ndn.Name → ℕ → ℕ) where
  -- Data under a name may go to the face: it is not the incoming one, has an id, and is local if
  -- the name is under /localhost.
  abbrev pub may_receive : Face → ndn.Name → Face → Bool
  may_receive in_face name g =
      not (same g in_face)
      && (not (g.id == invalid_faceid)
          && not (not g.is_local && ndn.is_prefix_of ndn.localhost_name name))

  send_downstream_lem :
      (f : Face) (d : Data ndn) (gs : List Face) (s : Forwarder ndn stores)
      → (send_downstream ndn stores city_hash f d gs s).outputs
        ≡ s.outputs ++ map (λ g. send_data g d) (copy_if (may_receive f d.name) gs)
  unfolding send_downstream on_outgoing_data
  send_downstream_lem f d [] s = sym (append-nil s.outputs)
  send_downstream_lem f d (g ∷ gs) s =
      let sent : Forwarder ndn stores = record (put ndn stores (send_data g d) s) {
        n_out_datas = s.n_out_datas + 1;
      } in
      ground (
        arith,
        send_downstream_lem f d gs s,
        send_downstream_lem f d gs sent,
        append_assoc s.outputs (send_data g d ∷ [])
            (map (λ g. send_data g d) (copy_if (may_receive f d.name) gs)),
      )

  satisfy_all-outputs :
      (now : ℕ) (f : Face) (d : Data ndn) (es : List (Entry ndn)) (s : Forwarder ndn stores)
      → (satisfy_all ndn stores city_hash now f d es s).outputs ≡ s.outputs
  unfolding satisfy_all
  satisfy_all-outputs now f d [] s = refl
  satisfy_all-outputs now f d (e ∷ es) s = satisfy_all-outputs now f d es _

  cs_add-outputs :
      (d : Data ndn) (b : Bool) (s : Forwarder ndn stores)
      → ((cs_add ndn stores d b s).outputs ≡ s.outputs)
  unfolding cs_add
  cs_add-outputs d b s = ground arith

  -- The reading for the content callback, if it is set.
  abbrev pub content_reading : Forwarder ndn stores → List (Output ndn)
  content_reading s = if s.has_content_callback then content_delay ∷ [] else []

  send_downstream-callback :
      (f : Face) (d : Data ndn) (gs : List Face) (s : Forwarder ndn stores)
      → (send_downstream ndn stores city_hash f d gs s).has_content_callback
        ≡ s.has_content_callback
  unfolding send_downstream on_outgoing_data
  send_downstream-callback f d [] s = refl
  send_downstream-callback f d (g ∷ gs) s =
      let sent : Forwarder ndn stores = record (put ndn stores (send_data g d) s) {
        n_out_datas = s.n_out_datas + 1;
      } in
      ground (arith, send_downstream-callback f d gs s, send_downstream-callback f d gs sent)

  satisfy_all-callback :
      (now : ℕ) (f : Face) (d : Data ndn) (es : List (Entry ndn)) (s : Forwarder ndn stores)
      → (satisfy_all ndn stores city_hash now f d es s).has_content_callback
        ≡ s.has_content_callback
  unfolding satisfy_all
  satisfy_all-callback now f d [] s = refl
  satisfy_all-callback now f d (e ∷ es) s = satisfy_all-callback now f d es _

  cs_add-callback :
      (d : Data ndn) (b : Bool) (s : Forwarder ndn stores)
      → ((cs_add ndn stores d b s).has_content_callback ≡ s.has_content_callback)
  unfolding cs_add
  cs_add-callback d b s = ground arith

  satisfy_matches_lem :
      (now : ℕ) (f : Face) (d : Data ndn) (es : List (Entry ndn)) (s : Forwarder ndn stores)
      → (satisfy_matches ndn stores city_hash now f d es s).outputs
        ≡ (s.outputs
            ++ map
                (λ g. send_data g d)
                (copy_if (may_receive f d.name) (pending_downstreams ndn now es [])))
          ++ content_reading s
  unfolding satisfy_matches
  satisfy_matches_lem now f d es s =
      let gs = pending_downstreams ndn now es [] in
      let cached = cs_add ndn stores d false s in
      let satisfied = satisfy_all ndn stores city_hash now f d es cached in
      let sent = send_downstream ndn stores city_hash f d gs satisfied in
      let callback =
        send_downstream-callback f d gs satisfied
        ∙ satisfy_all-callback now f d es cached
        ∙ cs_add-callback d false s in
      let outs =
        send_downstream_lem f d gs satisfied
        ∙ ap (λ l. l ++ map (λ g. send_data g d) (copy_if (may_receive f d.name) gs))
            (satisfy_all-outputs now f d es cached ∙ cs_add-outputs d false s) in
      reading sent ∙ ap (λ l. l ++ content_reading sent) outs ∙ rw callback
    where
      reading :
          (t : Forwarder ndn stores)
          → (report_content_delay ndn stores t).outputs ≡ t.outputs ++ content_reading t
      reading t = elim (Bool-cases t.has_content_callback) [
        | inl set ↦ rw set
        | inr unset ↦ rw unset (sym (append-nil t.outputs))
      ]

  -- What answers PIT entries with Data: a set of faces, with strictly rising addresses, that has a
  -- face exactly when one of the entries has an in-record of it that expires after `now`, as compared
  -- by addresses; and whatever test a face of the set passes, the face of such an in-record passes.
  -- The Data is sent to those of them that may receive it, in order, and nothing else is.
  abbrev pub IsAnswered :
      ℕ → Face → Data ndn → List (Entry ndn) → Forwarder ndn stores → Forwarder ndn stores → Type 0
  IsAnswered now f d es before after =
      (gs : List Face) × (after.outputs
        ≡ (before.outputs ++ map (λ g. send_data g d) (copy_if (may_receive f d.name) gs))
          ++ content_reading before)
      × IsRising ndn now gs
      × ((g : Face)
          → any_of (λ h. same h g) gs ≡ any_of (λ e. any_of (waits ndn now g) e.in_records) es)
      × ((p : Face → Bool)
          → (any_of p gs && not (any_of (λ e. any_of (passes ndn now p) e.in_records) es)) ≡ false)

  pub outputs-IsAnswered :
      (now : ℕ) (f : Face) (d : Data ndn) (es : List (Entry ndn)) (s after : Forwarder ndn stores)
      → after.outputs ≡ (satisfy_matches ndn stores city_hash now f d es s).outputs
      → IsAnswered now f d es s after
  outputs-IsAnswered now f d es s after same_outputs = (
    pending_downstreams ndn now es [],
    same_outputs ∙ satisfy_matches_lem now f d es s,
    (pending_downstreams_lem ndn now f es).1,
    λ g. (pending_downstreams_lem ndn now g es).0,
    λ p. pending_downstreams_from ndn now p es,
  )
