-- ===== src/Forwarder/Picking.antt =====
-- Which pending Interest Forwarder::onOutgoingInterest of daemon/fw/forwarder.cpp sends.
use nfd_pitless.Base.{◌≤◌, ◌≡◌, Bool, true, not, ◌&&◌, List, [], ◌∷◌, arith, ltb, any_of, count_if}
use nfd_pitless.Ndn.{Ndn}
use nfd_pitless.Face.{Face, same}
use nfd_pitless.Pit.{InRecord}
use nfd_pitless.Forwarder.{max_element}

module _ (ndn : Ndn) (out_face : Face) where
  abbrev pub elsewhere : InRecord ndn → Bool
  elsewhere r = not (same r.base.face out_face)

  picked-elsewhere :
      (best : InRecord ndn) (rs : List (InRecord ndn))
      → any_of elsewhere (best ∷ rs) ≡ true
      → elsewhere (max_element ndn out_face best rs) ≡ true
  unfolding max_element
  picked-elsewhere best [] h = ground arith
  picked-elsewhere best (r ∷ rs) h = ground (arith, picked-elsewhere best rs, picked-elsewhere r rs)

  picked-le :
      (best : InRecord ndn) (rs : List (InRecord ndn))
      → elsewhere best ≡ true
      → (max_element ndn out_face best rs).base.last_renewed ≤ best.base.last_renewed
  unfolding max_element
  picked-le best [] h = omega arith
  picked-le best (r ∷ rs) h = ground (arith, picked-le best rs, picked-le r rs)

  picked-earliest :
      (best : InRecord ndn) (rs : List (InRecord ndn))
      → count_if
          (λ r.
            elsewhere r
            && ltb r.base.last_renewed (max_element ndn out_face best rs).base.last_renewed)
          (best ∷ rs)
        ≡ 0
  unfolding max_element
  picked-earliest best [] = ground arith
  picked-earliest best (r ∷ rs) =
      ground
        (arith, picked-earliest best rs, picked-earliest r rs, picked-le best rs, picked-le r rs)

  -- If some in-record is not of the outgoing face, the picked one is not, and no in-record of
  -- another face was renewed before it.
  pub max_element_lem :
      (best : InRecord ndn) (rs : List (InRecord ndn))
      → any_of elsewhere (best ∷ rs) ≡ true
      → (elsewhere (max_element ndn out_face best rs) ≡ true)
        × (count_if
              (λ r.
                elsewhere r
                && ltb r.base.last_renewed (max_element ndn out_face best rs).base.last_renewed)
              (best ∷ rs)
            ≡ 0)
  max_element_lem best rs h = (picked-elsewhere best rs h, picked-earliest best rs)
