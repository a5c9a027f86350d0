-- ===== src/Forwarder/Loop.antt =====
-- An Interest whose nonce is on the Dead Nonce List, in daemon/fw/forwarder.cpp.
use nfd_pitless.Base.{ℕ, ◌+◌, ◌≡◌, refl, true, false, not, ◌&&◌, List, none, some}
use nfd_pitless.Ndn.{Ndn, Interest}
use nfd_pitless.Face.{Face}
use nfd_pitless.DeadNonce.{has}
use nfd_pitless.Pit.{new_entry, find_nonce}
use nfd_pitless.Pit.Table.{find_entry, insert}
use nfd_pitless.Pit.Lookup.{new_found}
use nfd_pitless.Fw.{Stores, Forwarder}
use nfd_pitless.Fib.{NextHop}
use nfd_pitless.Forwarder.Pipelines.{has_duplicate_nonce, on_incoming_interest}
use nfd_pitless.Forwarder.Arrivals.{delay-pit}

module _ (ndn : Ndn) (stores : Stores ndn) (city_hash : ndn.Name → ℕ → ℕ)
    (trigger : Face
      → Interest ndn
      → List NextHop
      → Forwarder ndn stores
      → Forwarder ndn stores) where
  known :
      (f : Face) (i : Interest ndn) (s : Forwarder ndn stores)
      → find_entry ndn i s.pit ≡ some (new_entry ndn i)
      → has city_hash s.dead_nonces i.name i.nonce ≡ true
      → has_duplicate_nonce ndn stores city_hash f i s ≡ true
  unfolding has_duplicate_nonce find_nonce new_entry
  known f i s found dead = rw (found, has_duplicate_nonce) (rw dead refl)

  -- An Interest in scope that is new to the PIT and whose nonce is on the Dead Nonce List leaves
  -- behind a PIT entry as it was created, with no in-record and no timer.
  pub loop_leaves_entry :
      (now : ℕ) (f : Face) (i : Interest ndn) (s : Forwarder ndn stores)
      → (not f.is_local && ndn.is_prefix_of ndn.localhost_name i.name) ≡ false
      → find_entry ndn (record i { incoming_face_id = f.id }) s.pit ≡ none
      → has city_hash s.dead_nonces i.name i.nonce ≡ true
      → find_entry ndn
          (record i { incoming_face_id = f.id })
          (on_incoming_interest ndn stores city_hash trigger now f i s).pit
        ≡ some (new_entry ndn (record i { incoming_face_id = f.id }))
  unfolding on_incoming_interest
  loop_leaves_entry now f i s scope missing dead =
      let received : Interest ndn = record i { incoming_face_id = f.id } in
      let inserted : Forwarder ndn stores = record s {
        n_in_interests = s.n_in_interests + 1;
        pit = (insert ndn received s.pit).0;
      } in
      let there = new_found ndn received s.pit missing in
      rw (delay-pit ndn stores city_hash _)
        (rw scope (rw (known f received inserted there dead) there))
