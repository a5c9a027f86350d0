-- ===== src/Pit/Nonces.antt =====
-- Entry::findNonce of daemon/table/pit-entry.cpp.
use nfd_pitless.Base.{ℕ, ◌≡◌, ◌∙◌, Bool, not, ◌&&◌, ◌||◌, List, [], ◌∷◌, arith, ◌==◌, any_of}
use nfd_pitless.Ndn.{Ndn}
use nfd_pitless.Face.{Face, same}
use nfd_pitless.Pit.{
  DuplicateNonceWhere, InRecord, OutRecord, Entry, find_nonce, find_nonce_in, find_nonce_out,
  duplicate_nonce_none, FaceRecord,
}

-- The record carries the nonce, on the same face or on another.
abbrev pub on_same : ℕ → Face → FaceRecord → Bool
on_same nonce face r = r.last_nonce == nonce && same r.face face

abbrev pub on_other : ℕ → Face → FaceRecord → Bool
on_other nonce face r = r.last_nonce == nonce && not (same r.face face)

module _ (ndn : Ndn) (nonce : ℕ) (face : Face) where
  find_nonce_in-any_of :
      (rs : List (InRecord ndn)) (dnw : DuplicateNonceWhere)
      → find_nonce_in ndn nonce face rs dnw ≡ record dnw {
        in_same = dnw.in_same || any_of (λ r. on_same nonce face r.base) rs;
        in_other = dnw.in_other || any_of (λ r. on_other nonce face r.base) rs;
      }
  unfolding find_nonce_in
  find_nonce_in-any_of [] dnw = ground arith
  find_nonce_in-any_of (r ∷ rs) dnw = find_nonce_in-any_of rs _ ∙ ground arith

  find_nonce_out-any_of :
      (rs : List OutRecord) (dnw : DuplicateNonceWhere)
      → find_nonce_out ndn nonce face rs dnw ≡ record dnw {
        out_same = dnw.out_same || any_of (on_same nonce face) rs;
        out_other = dnw.out_other || any_of (on_other nonce face) rs;
      }
  unfolding find_nonce_out
  find_nonce_out-any_of [] dnw = ground arith
  find_nonce_out-any_of (r ∷ rs) dnw = find_nonce_out-any_of rs _ ∙ ground arith

  -- Each bit of findNonce's result is set exactly when some in-record or out-record carries the
  -- nonce, on the same face or on another as the bit says.
  pub find_nonce_lem :
      (e : Entry ndn)
      → find_nonce ndn nonce face e ≡ record {
        in_same = any_of (λ r. on_same nonce face r.base) e.in_records;
        in_other = any_of (λ r. on_other nonce face r.base) e.in_records;
        out_same = any_of (on_same nonce face) e.out_records;
        out_other = any_of (on_other nonce face) e.out_records;
      }
  unfolding find_nonce
  find_nonce_lem e =
      find_nonce_out-any_of e.out_records _
      ∙ ground (arith, find_nonce_in-any_of e.in_records duplicate_nonce_none)
