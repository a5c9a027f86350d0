-- ===== src/Forwarder/Downstreams.antt =====
-- The set of pending downstreams in Forwarder::onIncomingData of daemon/fw/forwarder.cpp.
use nfd_pitless.Base.{
  ℕ, ◌<◌, ◌≡◌, ◌∙◌, refl, Bool, false, not, if◌then◌else◌, ◌&&◌, ◌||◌, List, [], ◌∷◌, arith, ltb,
  any_of, Bool-cases, inl, inr,
}
use nfd_pitless.Ndn.{Ndn}
use nfd_pitless.Face.{Face, same}
use nfd_pitless.Pit.{Entry, InRecord}
use nfd_pitless.Forwarder.{insert_face, pending_of, pending_downstreams}

module _ (ndn : Ndn) (now : ℕ) where
  -- The in-record is of the face, and has not expired.
  abbrev pub waits : Face → InRecord ndn → Bool
  waits g r = ltb now r.base.expiry && same r.base.face g

  -- Addresses rise strictly along the set.
  abbrev pub IsRising : List Face → Type 0
  IsRising [] = Unit {0}
  IsRising (f ∷ []) = Unit {0}
  IsRising (f ∷ g ∷ gs) = (f.address < g.address) × IsRising (g ∷ gs)

  any-insert_face :
      (f g : Face) (fs : List Face)
      → any_of (λ h. same h g) (insert_face ndn f fs) ≡ (same f g || any_of (λ h. same h g) fs)
  unfolding insert_face
  any-insert_face f g [] = refl
  any-insert_face f g (h ∷ hs) = ground (arith, any-insert_face f g hs)

  insert_face-IsRising : (f : Face) (fs : List Face) → IsRising fs → IsRising (insert_face ndn f fs)
  unfolding insert_face
  insert_face-IsRising f [] s = tt
  insert_face-IsRising f (g ∷ []) s = ground arith
  insert_face-IsRising f (g ∷ h ∷ rest) s = ground (arith, insert_face-IsRising f (h ∷ rest))

  pending_of-any :
      (g : Face) (rs : List (InRecord ndn)) (fs : List Face)
      → any_of (λ h. same h g) (pending_of ndn now rs fs)
        ≡ (any_of (λ h. same h g) fs || any_of (waits g) rs)
  unfolding pending_of
  pending_of-any g [] fs = ground arith
  pending_of-any g (r ∷ rs) fs =
      pending_of-any g rs _ ∙ ground (arith, any-insert_face r.base.face g fs)

  pending_of-IsRising :
      (rs : List (InRecord ndn)) (fs : List Face)
      → IsRising fs
      → IsRising (pending_of ndn now rs fs)
  unfolding pending_of
  pending_of-IsRising [] fs s = s
  pending_of-IsRising (r ∷ rs) fs s = elim (Bool-cases (ltb now r.base.expiry)) [
    | inl live ↦
        rw (live, pending_of) (pending_of-IsRising rs _ (insert_face-IsRising r.base.face fs s))
    | inr over ↦ rw (over, pending_of) (pending_of-IsRising rs fs s)
  ]

  pending-any :
      (g : Face) (es : List (Entry ndn)) (fs : List Face)
      → any_of (λ h. same h g) (pending_downstreams ndn now es fs)
        ≡ (any_of (λ h. same h g) fs || any_of (λ e. any_of (waits g) e.in_records) es)
  unfolding pending_downstreams
  pending-any g [] fs = ground arith
  pending-any g (e ∷ es) fs = pending-any g es _ ∙ ground (arith, pending_of-any g e.in_records fs)

  pending-IsRising :
      (es : List (Entry ndn)) (fs : List Face)
      → IsRising fs
      → IsRising (pending_downstreams ndn now es fs)
  unfolding pending_downstreams
  pending-IsRising [] fs s = s
  pending-IsRising (e ∷ es) fs s = pending-IsRising es _ (pending_of-IsRising e.in_records fs s)

  -- An in-record has not expired, and its face passes a test.
  abbrev pub passes : (Face → Bool) → InRecord ndn → Bool
  passes p r = ltb now r.base.expiry && p r.base.face

  inserted_from :
      (p : Face → Bool) (f : Face) (fs : List Face)
      → (any_of p (insert_face ndn f fs) && not (p f || any_of p fs)) ≡ false
  unfolding insert_face
  inserted_from p f [] = ground arith
  inserted_from p f (g ∷ gs) = ground (arith, inserted_from p f gs)

  pending_of_from :
      (p : Face → Bool) (rs : List (InRecord ndn)) (fs : List Face)
      → (any_of p (pending_of ndn now rs fs) && not (any_of p fs || any_of (passes p) rs)) ≡ false
  unfolding pending_of
  pending_of_from p [] fs = ground arith
  pending_of_from p (r ∷ rs) fs =
      let rest =
        pending_of_from p rs
          (if ltb now r.base.expiry then insert_face ndn r.base.face fs else fs) in
      ground (arith, rest, inserted_from p r.base.face fs)

  pending_from :
      (p : Face → Bool) (es : List (Entry ndn)) (fs : List Face)
      → (any_of p (pending_downstreams ndn now es fs)
          && not (any_of p fs || any_of (λ e. any_of (passes p) e.in_records) es))
        ≡ false
  unfolding pending_downstreams
  pending_from p [] fs = ground arith
  pending_from p (e ∷ es) fs = ground (
    arith,
    pending_from p es (pending_of ndn now e.in_records fs),
    pending_of_from p e.in_records fs,
  )

  -- What a face among the pending downstreams passes, the face of an unexpired in-record of one of the
  -- entries passes.
  pub pending_downstreams_from :
      (p : Face → Bool) (es : List (Entry ndn))
      → (any_of p (pending_downstreams ndn now es [])
          && not (any_of (λ e. any_of (passes p) e.in_records) es))
        ≡ false
  pending_downstreams_from p es = pending_from p es []

  -- The pending downstreams of PIT entries have a face exactly when one of the entries has an
  -- unexpired in-record of it, and have no face twice: their addresses rise.
  pub pending_downstreams_lem :
      (g : Face) (es : List (Entry ndn))
      → (any_of (λ h. same h g) (pending_downstreams ndn now es [])
          ≡ any_of (λ e. any_of (waits g) e.in_records) es)
        × IsRising (pending_downstreams ndn now es [])
  pending_downstreams_lem g es = (pending-any g es [], pending-IsRising es [] tt)
