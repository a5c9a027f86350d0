-- ===== src/Rib/Started.antt =====
-- The commands that rib/fib-updater.cpp starts for a list of updates.
use nfd_pitless.Base.{◌≡◌, ◌∙◌, refl, sym, ap, List, [], ◌∷◌, ◌++◌, arith, All}
use mathlib.Core.List.{append-nil, append_assoc}
use nfd_pitless.Ndn.{Ndn}
use nfd_pitless.Rib.Names.{NameOrder}
use nfd_pitless.Rib.Updater.{Action, add_nexthop, remove_nexthop, FibUpdate}
use nfd_pitless.Rib.Sending.{
  Item, Command, Session, send_updates, send_add_next_hop_update, send_remove_next_hop_update,
}
use nfd_pitless.Rib.Counts.{count, count_sent}

module _ (ndn : Ndn) (order : NameOrder ndn) where
  abbrev pub commands : Item ndn order → List (FibUpdate ndn order) → List (Command ndn order)
  commands item [] = []
  commands item (f ∷ fs) =
      record { update = f; verb = f.action; n_timeouts = 0; item = item } ∷ commands item fs

  pub send_updates_eq :
      (fs : List (FibUpdate ndn order)) (item : Item ndn order) (s : Session ndn order)
      → send_updates ndn order fs item s ≡ record s { sent = s.sent ++ commands item fs }
  unfolding send_updates
  send_updates_eq [] item s = ap (λ cs. record s { sent = cs }) (sym (append-nil s.sent))
  send_updates_eq (f ∷ fs) item s =
      ap (send_updates ndn order fs item) (sent_one f.action)
      ∙ send_updates_eq fs item _
      ∙ ap (λ cs. record s { sent = cs }) (append_assoc s.sent _ _)
    where
      sent_one :
          (a : Action)
          → (elim a as (λ _. Session ndn order) [
            | add_nexthop ↦ send_add_next_hop_update ndn order f item 0 s
            | remove_nexthop ↦ send_remove_next_hop_update ndn order f item 0 s
          ])
            ≡ record s {
              sent = s.sent ++ record { update = f; verb = a; n_timeouts = 0; item = item } ∷ [];
            }
      sent_one add_nexthop = refl
      sent_one remove_nexthop = refl

  pub commands-item :
      (item : Item ndn order) (fs : List (FibUpdate ndn order))
      → All (λ c. c.item ≡ item) (commands item fs)
  commands-item item [] = tt
  commands-item item (f ∷ fs) = (refl, commands-item item fs)

  pub count_sent-commands :
      (f : FibUpdate ndn order) (item : Item ndn order) (fs : List (FibUpdate ndn order))
      → count_sent ndn order f (commands item fs) ≡ count ndn order f fs
  count_sent-commands f item [] = refl
  count_sent-commands f item (x ∷ xs) = ground (arith, count_sent-commands f item xs)
