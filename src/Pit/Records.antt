-- ===== src/Pit/Records.antt =====
-- The in-records and out-records of an entry of daemon/table/pit-entry.cpp, as they are renewed.
use nfd_pitless.Base.{
  ℕ, ◌≤◌, ◌≡◌, refl, Bool, true, false, not, ◌&&◌, List, [], ◌∷◌, none, some, arith, count_if,
  any_of, find_if, ==-refl, Bool-cases, inl, inr,
}
use nfd_pitless.Ndn.{Ndn, Interest}
use nfd_pitless.Face.{Face}
use nfd_pitless.Pit.{
  InRecord, Entry, update_in, renew_in, insert_or_update_in_record, in_from, out_to, get_in_record,
  new_face_record,
}

module _ (ndn : Ndn) where
  -- One in-record and one out-record at most for each face.
  pub record IsUnique (e : Entry ndn) : Type 0 where
    pub once_in : (g : Face) → count_if (in_from ndn g) e.in_records ≤ 1
    pub once_out : (g : Face) → count_if (out_to g) e.out_records ≤ 1

  -- In-records from another face that pass a test.
  abbrev pub other_in : Face → (InRecord ndn → Bool) → InRecord ndn → Bool
  other_in face q r = not (in_from ndn face r) && q r

  module _ (now : ℕ) (interest : Interest ndn) (face : Face) where
    count-renew_in :
        (g : Face) (rs : List (InRecord ndn))
        → count_if (in_from ndn g) (renew_in ndn now interest face rs) ≡ count_if (in_from ndn g) rs
    unfolding renew_in
    count-renew_in g [] = refl
    count-renew_in g (r ∷ rs) = ground (arith, count-renew_in g rs)

    other-renew_in :
        (q : InRecord ndn → Bool) (rs : List (InRecord ndn))
        → count_if (other_in face q) (renew_in ndn now interest face rs)
          ≡ count_if (other_in face q) rs
    unfolding renew_in
    other-renew_in q [] = refl
    other-renew_in q (r ∷ rs) = ground (arith, other-renew_in q rs)

    absent_in :
        (rs : List (InRecord ndn))
        → any_of (in_from ndn face) rs ≡ false
        → count_if (in_from ndn face) rs ≡ 0
    absent_in [] h = refl
    absent_in (r ∷ rs) h = ground (arith, absent_in rs)

    same_face_in :
        (g : Face) (rs : List (InRecord ndn))
        → face.address ≡ g.address
        → count_if (in_from ndn face) rs ≡ count_if (in_from ndn g) rs
    same_face_in g rs e = rw e

    insert_in-once :
        (e : Entry ndn) (g : Face)
        → count_if (in_from ndn g) e.in_records ≤ 1
        → count_if (in_from ndn g) (insert_or_update_in_record ndn now face interest e).in_records
          ≤ 1
    unfolding insert_or_update_in_record
    insert_in-once e g h =
        ground (
          arith,
          count-renew_in g e.in_records,
          absent_in e.in_records,
          same_face_in g e.in_records,
        )

    -- The in-record of the face as the Interest leaves it.
    abbrev pub IsRenewed : InRecord ndn → Type 0
    IsRenewed r =
        (r.base.face.address ≡ face.address)
        × (r.base.last_nonce ≡ interest.nonce)
        × (r.base.last_renewed ≡ now)
        × (now ≤ r.base.expiry)
        × (r.interest ≡ some interest)

    renewed :
        (r : InRecord ndn) → in_from ndn face r ≡ true → IsRenewed (update_in ndn now interest r)
    unfolding update_in
    renewed r h = ground arith

    find-renew_in :
        (rs : List (InRecord ndn))
        → any_of (in_from ndn face) rs ≡ true
        → (r : InRecord ndn) × (find_if (in_from ndn face) (renew_in ndn now interest face rs)
            ≡ some r)
          × IsRenewed r
    unfolding renew_in
    find-renew_in [] h = cc
    find-renew_in (r ∷ rs) h = elim (Bool-cases (in_from ndn face r)) [
      | inl hit ↦ (update_in ndn now interest r, rw hit (unfold update_in in rw hit), renewed r hit)
      | inr miss ↦ rw (miss, miss) (find-renew_in rs (ground arith))
    ]

    get-insert_in :
        (e : Entry ndn)
        → (r : InRecord ndn) × (get_in_record ndn face
              (insert_or_update_in_record ndn now face interest e)
            ≡ some r)
          × IsRenewed r
    unfolding insert_or_update_in_record get_in_record
    get-insert_in e = elim (Bool-cases (any_of (in_from ndn face) e.in_records)) [
      | inl old ↦
          rw (old, get_in_record, insert_or_update_in_record) (find-renew_in e.in_records old)
      | inr new ↦
          let fresh : InRecord ndn = record { base = new_face_record face; interest = none } in
          (
            update_in ndn now interest fresh,
            rw (new, get_in_record, insert_or_update_in_record)
                (unfold update_in in ground (arith, ==-refl face.address)),
            renewed fresh (==-refl face.address),
          )
    ]

    -- insertOrUpdateInRecord on an entry with one record at most for each face: it still has one at
    -- most, the face has an in-record with the Interest, its nonce and the time, and there are as
    -- many in-records from other faces that pass any test `q` as before. Out-records stay.
    pub insert_or_update_in_record_lem :
        (e : Entry ndn) (q : InRecord ndn → Bool)
        → IsUnique e
        → IsUnique (insert_or_update_in_record ndn now face interest e)
          × ((r : InRecord ndn) × (get_in_record ndn face
                  (insert_or_update_in_record ndn now face interest e)
                ≡ some r)
              × IsRenewed r)
          × (count_if
                (other_in face q)
                (insert_or_update_in_record ndn now face interest e).in_records
              ≡ count_if (other_in face q) e.in_records)
          × ((insert_or_update_in_record ndn now face interest e).out_records ≡ e.out_records)
    unfolding insert_or_update_in_record
    insert_or_update_in_record_lem e q u = (
      record {
        once_in = λ g. insert_in-once e g (u.once_in g);
        once_out = λ g. ground (arith, u.once_out g);
      },
      get-insert_in e,
      ground (arith, other-renew_in q e.in_records, ==-refl face.address),
      ground arith,
    )
