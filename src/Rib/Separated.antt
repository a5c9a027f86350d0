-- ===== src/Rib/Separated.antt =====
-- The two update lists of rib/fib-updater.cpp.
use nfd_pitless.Base.{
  ◌≡◌, ◌∙◌, refl, Bool, true, false, ◌&&◌, List, [], ◌∷◌, Option, some, arith, All, ◌==◌,
  Bool-cases, inl, inr, if_keeps,
}
use nfd_pitless.Ndn.{Ndn}
use nfd_pitless.Rib.{Route, RibEntry}
use nfd_pitless.Rib.Names.{NameOrder}
use nfd_pitless.Rib.Updater.{FibUpdate, RibUpdate, Updates, put_update, add_fib_update}
use nfd_pitless.Rib.Updated.{compute_updates}
use nfd_pitless.Rib.Computed.{compute_keeps}

module _ (ndn : Ndn) (order : NameOrder ndn) where
  -- Of one name and one face.
  abbrev pub is_same_hop : FibUpdate ndn order → FibUpdate ndn order → Bool
  is_same_hop f g = ndn.name_eq f.name g.name && f.face_id == g.face_id

  -- No two updates of one name and one face.
  abbrev pub Once : List (FibUpdate ndn order) → Type 0
  Once [] = Unit {0}
  Once (f ∷ fs) = All (λ g. is_same_hop f g ≡ false) fs × Once fs

  pub record IsSeparated (u : Updates ndn order) : Type 0 where
    pub of_batch : All (λ f. (f.face_id == u.batch_face_id) ≡ true) u.for_batch_face_id
    pub of_others : All (λ f. (f.face_id == u.batch_face_id) ≡ false) u.for_non_batch_face_id
    pub once_batch : Once u.for_batch_face_id
    pub once_others : Once u.for_non_batch_face_id

  All-put_update :
      (Q : FibUpdate ndn order → Type 0) (f : FibUpdate ndn order) (us : List (FibUpdate ndn order))
      → ((x : FibUpdate ndn order) → Q x → Q (record x { action = f.action; cost = f.cost }))
      → Q f
      → All Q us
      → All Q (put_update ndn order f us)
  unfolding put_update
  All-put_update Q f [] renewed hf h = (hf, tt)
  All-put_update Q f (x ∷ xs) renewed hf h = elim (Bool-cases (is_same_hop f x)) [
    | inl hit ↦ rw (hit, put_update) (renewed x h.0, h.1)
    | inr off ↦ rw (off, put_update) (h.0, All-put_update Q f xs renewed hf h.1)
  ]

  same_hop_swap : (f x : FibUpdate ndn order) → is_same_hop f x ≡ false → is_same_hop x f ≡ false
  same_hop_swap f x h = ground (arith, ndn.name_eq_iff f.name x.name, ndn.name_eq_iff x.name f.name)

  put_update-Once :
      (f : FibUpdate ndn order) (us : List (FibUpdate ndn order))
      → Once us
      → Once (put_update ndn order f us)
  unfolding put_update
  put_update-Once f [] h = (tt, tt)
  put_update-Once f (x ∷ xs) h = elim (Bool-cases (is_same_hop f x)) [
    | inl hit ↦ rw (hit, put_update) h
    | inr off ↦
        rw (off, put_update)
          (
            All-put_update (λ g. is_same_hop x g ≡ false) f xs (λ y q. q) (same_hop_swap f x off)
                h.0,
            put_update-Once f xs h.1,
          )
  ]

  add_fib_update-IsSeparated :
      (f : FibUpdate ndn order) (u : Updates ndn order)
      → IsSeparated u
      → IsSeparated (add_fib_update ndn order f u)
  unfolding add_fib_update
  add_fib_update-IsSeparated f u h = elim (Bool-cases (f.face_id == u.batch_face_id)) [
    | inl hit ↦
        rw (hit, add_fib_update)
          (record {
            of_others = h.of_others;
            once_others = h.once_others;
            of_batch =
                All-put_update (λ g. (g.face_id == u.batch_face_id) ≡ true) f u.for_batch_face_id
                  (λ y q. q) hit h.of_batch;
            once_batch = put_update-Once f u.for_batch_face_id h.once_batch;
          })
    | inr off ↦
        rw (off, add_fib_update)
          (record {
            of_batch = h.of_batch;
            once_batch = h.once_batch;
            of_others =
                All-put_update (λ g. (g.face_id == u.batch_face_id) ≡ false) f
                  u.for_non_batch_face_id (λ y q. q) off h.of_others;
            once_others = put_update-Once f u.for_non_batch_face_id h.once_others;
          })
  ]

  add_fib_update-batch_face_id :
      (f : FibUpdate ndn order) (u : Updates ndn order)
      → (add_fib_update ndn order f u).batch_face_id ≡ u.batch_face_id
  unfolding add_fib_update
  add_fib_update-batch_face_id f u =
      if_keeps (λ (v : Updates ndn order). v.batch_face_id ≡ u.batch_face_id)
        (f.face_id == u.batch_face_id) _ _ refl refl

  -- The FIB updates of any RIB update: those of the batch are of the face of the route, the others
  -- of other faces, and neither list has two updates of one name and face.
  pub compute_updates-IsSeparated :
      (second_lowest : List Route → Option Route) (table : List (RibEntry ndn))
      (update : RibUpdate ndn order) (u : Updates ndn order)
      → compute_updates ndn order second_lowest table update ≡ some u
      → (u.batch_face_id ≡ update.route.face_id) × IsSeparated u
  compute_updates-IsSeparated second_lowest table update u h =
      compute_keeps ndn order second_lowest
        (λ v. (v.batch_face_id ≡ update.route.face_id) × IsSeparated v)
        (λ f v k. (add_fib_update-batch_face_id f v ∙ k.0, add_fib_update-IsSeparated f v k.1))
        (λ a n r v k. (
          k.0,
          record {
            of_batch = k.1.of_batch;
            of_others = k.1.of_others;
            once_batch = k.1.once_batch;
            once_others = k.1.once_others;
          },
        ))
        table update u
        (refl, record { of_batch = tt; of_others = tt; once_batch = tt; once_others = tt })
        (λ v k. (
          k.0,
          record {
            of_batch = tt;
            of_others = k.1.of_others;
            once_batch = tt;
            once_others = k.1.once_others;
          },
        ))
        h
