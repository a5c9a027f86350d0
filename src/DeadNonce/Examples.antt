-- ===== src/DeadNonce/Examples.antt =====
-- The Dead Nonce List at concrete inputs.
use nfd_pitless.Base.{ℕ, ◌+◌, ◌*◌, ◌≡◌, refl, true, [], ◌∷◌, some, arith}
use nfd_pitless.DeadNonce.{DeadNonceList, new, mark, adjust_capacity, add, has, default_lifetime}
use nfd_pitless.DeadNonce.Bounds.{IsBounded, here, next, adds, marks, adjusts, new-Reach-IsBounded}
use nfd_pitless.DeadNonce.Retention.{add_all, has-add_all}

abbrev toy_hash : ℕ → ℕ → ℕ
toy_hash name nonce = name * 1000 + nonce

abbrev fresh : DeadNonceList
fresh = record {
  lifetime = default_lifetime;
  queue = 0 ∷ 0 ∷ 0 ∷ 0 ∷ 0 ∷ [];
  capacity = 128;
  actual_mark_counts = [];
  mark_interval = 1_200_000_000;
  adjust_capacity_interval = default_lifetime;
}

new_default : new default_lifetime ≡ some fresh
unfolding new
new_default = refl

-- With no mark counted yet the capacity goes down: 128 * 0.9, truncated.
adjust_fresh : (adjust_capacity fresh).capacity ≡ 115
unfolding adjust_capacity
adjust_fresh = refl

new-Reach-IsBounded_example : IsBounded (adjust_capacity (mark (add toy_hash fresh 7 3)))
new-Reach-IsBounded_example =
    new-Reach-IsBounded {city_hash = toy_hash} default_lifetime fresh _ new_default
      (next (next (next here (adds 7 3)) marks) adjusts)

abbrev small : DeadNonceList
small = record fresh { queue = 1 ∷ 2 ∷ 3 ∷ 4 ∷ 5 ∷ 6 ∷ 7 ∷ 8 ∷ 9 ∷ 10 ∷ []; capacity = 8 }

has-add_all_example :
    has toy_hash (add_all toy_hash ((1, 1) ∷ (2, 2) ∷ []) (add toy_hash small 7 3)) 7 3 ≡ true
has-add_all_example = has-add_all toy_hash small 7 3 ((1, 1) ∷ (2, 2) ∷ []) (omega arith)
