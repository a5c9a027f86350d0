-- ===== src/Strategy/Eligible.antt =====
-- Where daemon/fw/best-route-strategy2.cpp sends an Interest.
use nfd_pitless.Base.{
  ℕ, ◌≡◌, ◌⊎◌, refl, ap, if_keeps, Bool, true, false, List, [], ◌∷◌, ◌++◌, Option, none, some,
  arith, find_if, ◌==◌, if◌then◌else◌, Bool-cases, Option-cases, inl, inr,
}
use nfd_pitless.Ndn.{Ndn, Interest}
use nfd_pitless.Face.{Face}
use nfd_pitless.Fib.{NextHop}
use nfd_pitless.Pit.{Entry, OutRecord, violates_scope, get_out_record, has_unexpired_out_records}
use nfd_pitless.Pit.Table.{find_entry, is_for}
use nfd_pitless.Pit.Lookup.{find-modify}
use nfd_pitless.Fw.{Stores, Forwarder, send_interest}
use nfd_pitless.Forwarder.{modify_entry, on_outgoing_interest, on_interest_reject}
use nfd_pitless.Forwarder.Outgoing.{on_outgoing_interest_lem}
use nfd_pitless.Strategy.{is_eligible, earliest, send_new, send_again, after_decision, best_route2}
use nfd_pitless.Strategy.Retx.{Result, new, forward, suppress, Exponential, decide_exponential}

find_if-holds :
    {A : Type 0} (p : A → Bool) (xs : List A) (x : A) → find_if p xs ≡ some x → p x ≡ true
find_if-holds p [] x h = absurd (cc)
find_if-holds p (y ∷ ys) x h = elim (Bool-cases (p y)) [
  | inl hit ↦ ground arith
  | inr off ↦ find_if-holds p ys x (ground arith)
]

module _ (ndn : Ndn) (stores : Stores ndn) (city_hash : ndn.Name → ℕ → ℕ) (now : ℕ) where
  eligible-away :
      (e : Entry ndn) (f : ℕ) (u : Option ℕ) (hop : NextHop)
      → is_eligible ndn e f u hop ≡ true
      → (hop.face.id == f) ≡ false
  unfolding is_eligible
  eligible-away e f u hop h = elim (Bool-cases (hop.face.id == f)) [
    | inl back ↦ absurd (ground arith)
    | inr away ↦ away
  ]

  abbrev Away : ℕ → Option (ℕ × NextHop) → Type 0
  Away f none = Unit {0}
  Away f (some (t, hop)) = (hop.face.id == f) ≡ false

  chosen-Away :
      (f : ℕ) (hop : NextHop) (found : Option (ℕ × NextHop)) (sooner : ℕ → Bool)
      (o : Option OutRecord)
      → (hop.face.id == f) ≡ false
      → Away f found
      → Away f (elim o as (λ _. Option (ℕ × NextHop)) [
        | none ↦ found
        | some r ↦ if sooner r.last_renewed then some (r.last_renewed, hop) else found
      ])
  chosen-Away f hop found sooner none away h = h
  chosen-Away f hop found sooner (some r) away h =
      if_keeps (Away f) (sooner r.last_renewed) (some (r.last_renewed, hop)) found away h

  earliest-Away :
      (e : Entry ndn) (f : ℕ) (hops : List NextHop) (found : Option (ℕ × NextHop))
      → Away f found
      → Away f (earliest ndn e f hops found)
  unfolding earliest
  earliest-Away e f [] found h = h
  earliest-Away e f (hop ∷ hops) found h = elim (Bool-cases (is_eligible ndn e f none hop)) [
    | inl hit ↦
        rw (hit, earliest)
          (earliest-Away e f hops _ (
            chosen-Away f hop found _ (get_out_record ndn hop.face e)
              (eligible-away e f none hop hit) h))
    | inr off ↦ rw (off, earliest) (earliest-Away e f hops found h)
  ]

  reject-outputs :
      (key : Interest ndn) (s : Forwarder ndn stores)
      → (on_interest_reject ndn stores city_hash now key s).outputs ≡ s.outputs
  unfolding on_interest_reject
  reject-outputs key s = elim (Option-cases (find_entry ndn key s.pit)) [
    | inl missing ↦ rw (missing, on_interest_reject) refl
    | inr (e, there) ↦ elim (Bool-cases (has_unexpired_out_records ndn now e)) [
      | inl pending ↦ rw (there, on_interest_reject) (rw pending refl)
      | inr over ↦ rw (there, on_interest_reject) (rw over refl)
    ]
  ]

  -- Nothing is sent, or one Interest, to a face with another id than the incoming one and that the
  -- scope of the entry's Interest allows.
  abbrev pub SendsAway : Face → Entry ndn → Forwarder ndn stores → Forwarder ndn stores → Type 0
  SendsAway f e s t =
      (t.outputs ≡ s.outputs)
      ⊎ ((g : Face) × (i : Interest ndn) × (t.outputs ≡ s.outputs ++ send_interest g i ∷ [])
          × ((g.id == f.id) ≡ false)
          × (violates_scope ndn e g ≡ false))

  sends :
      (f : Face) (key : Interest ndn) (hop : NextHop) (e : Entry ndn) (s : Forwarder ndn stores)
      → find_entry ndn key s.pit ≡ some e
      → (hop.face.id == f.id) ≡ false
      → SendsAway f e s (on_outgoing_interest ndn stores city_hash now key hop.face none s)
  sends f key hop e s there away =
      elim (on_outgoing_interest_lem ndn stores city_hash now key hop.face none s e there) [
        | inl same ↦ inl (ap (λ t. t.outputs) same)
        | inr (i, out, n, scope, good) ↦ inr (hop.face, i, out, away, scope)
      ]

  new-SendsAway :
      (retx : Exponential) (f : Face) (key : Interest ndn) (hops : List NextHop) (e : Entry ndn)
      (s : Forwarder ndn stores)
      → find_entry ndn key s.pit ≡ some e
      → SendsAway f e s (send_new ndn stores city_hash now retx f key hops e s)
  unfolding send_new
  new-SendsAway retx f key hops e s there =
      elim (Option-cases (find_if (is_eligible ndn e f.id none) hops)) [
        | inl nowhere ↦ rw (nowhere, send_new) (inl (reject-outputs key s))
        | inr (hop, found) ↦
            rw (found, send_new)
              (sends f key hop e s there (
                eligible-away e f.id none hop
                  (find_if-holds (is_eligible ndn e f.id none) hops hop found)))
      ]

  again-SendsAway :
      (retx : Exponential) (f : Face) (key : Interest ndn) (hops : List NextHop) (e : Entry ndn)
      (s : Forwarder ndn stores)
      → find_entry ndn key s.pit ≡ some e
      → SendsAway f e s (send_again ndn stores city_hash now retx f key hops e s)
  unfolding send_again
  again-SendsAway retx f key hops e s there =
      elim (Option-cases (find_if (is_eligible ndn e f.id (some now)) hops)) [
        | inr (hop, found) ↦
            rw (found, send_again)
              (sends f key hop e s there (
                eligible-away e f.id (some now) hop
                  (find_if-holds (is_eligible ndn e f.id (some now)) hops hop found)))
        | inl nowhere ↦
            rw (nowhere, send_again)
              (retry (earliest ndn e f.id hops none) (earliest-Away e f.id hops none tt))
      ]
    where
      retry :
          (o : Option (ℕ × NextHop))
          → Away f.id o
          → SendsAway f e s (elim o as (λ _. Forwarder ndn stores) [
            | none ↦ s
            | some (t, hop) ↦ on_outgoing_interest ndn stores city_hash now key hop.face none s
          ])
      retry none h = inl refl
      retry (some (t, hop)) h = sends f key hop e s there h

  decided-SendsAway :
      (retx : Exponential) (r : Result) (f : Face) (key : Interest ndn) (hops : List NextHop)
      (e : Entry ndn) (s : Forwarder ndn stores)
      → find_entry ndn key s.pit ≡ some e
      → SendsAway f e s (after_decision ndn stores city_hash now retx r f key hops e s)
  unfolding after_decision
  decided-SendsAway retx new f key hops e s there = new-SendsAway retx f key hops e s there
  decided-SendsAway retx suppress f key hops e s there = inl refl
  decided-SendsAway retx forward f key hops e s there = again-SendsAway retx f key hops e s there

  decide-is_for :
      (retx : Exponential) (key : Interest ndn) (e : Entry ndn)
      → is_for ndn key (decide_exponential ndn retx now e).1 ≡ is_for ndn key e
  unfolding decide_exponential
  decide-is_for retx key e = ground arith

  -- The second best-route strategy, for an Interest with a PIT entry, sends nothing or one Interest,
  -- to a face with another id than the incoming one and that the scope of the entry's Interest
  -- allows, whether the Interest is new, suppressed or sent again.
  pub best_route2_lem :
      (retx : Exponential) (f : Face) (key : Interest ndn) (hops : List NextHop)
      (s : Forwarder ndn stores) (e : Entry ndn)
      → find_entry ndn key s.pit ≡ some e
      → SendsAway f
          (decide_exponential ndn retx now e).1
          s
          (best_route2 ndn stores city_hash now retx f key hops s)
  unfolding best_route2
  best_route2_lem retx f key hops s e there =
      let decide : Entry ndn → Entry ndn = λ e. (decide_exponential ndn retx now e).1 in
      rw (there, best_route2)
        (decided-SendsAway retx (decide_exponential ndn retx now e).0 f key hops (decide e)
          (modify_entry ndn stores city_hash key decide s)
          (find-modify ndn key decide s.pit (decide-is_for retx key) e there))
