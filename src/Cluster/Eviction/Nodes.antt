-- ===== src/Cluster/Eviction/Nodes.antt =====
-- When an evicted node is unregistered, and when its data is gone.
use humio_operator.Common.{
  ℕ, zero, suc, ◌+◌, ◌<◌, ap, ◌∙◌, get_elem?, ◌≡◌, refl, ◌⊎◌, inl, inr, Bool, true, false, not,
  Option, none, some, List, [], ◌∷◌, arith, ◌&&◌, any, keep, Option-cases, Bool-cases,
}
use humio_operator.Common.Int.{ℤ, eqb_ℤ, eqb_ℤ_iff}
use humio_operator.Cluster.Eviction.{
  Reasons, NodeStatus, Round, is_node_registered, finds_dead, alive_rounds, is_evicted_node_alive,
  remove_int_from_slice, forget_node, still_there, after_request, unregister_node, is_safe,
  refreshed_safe, safe_in_round, safe_rounds, check_eviction_status_for_pod,
}

-- An entry of the node that says it is not alive.
abbrev pub is_dead : ℤ → NodeStatus → Bool
is_dead vhost n = eqb_ℤ n.id vhost && not n.is_alive

abbrev pub is_node : ℤ → NodeStatus → Bool
is_node vhost n = eqb_ℤ n.id vhost

is_node_registered-any :
    (nodes : List NodeStatus) (vhost : ℤ)
    → is_node_registered nodes vhost ≡ any (is_node vhost) nodes
unfolding is_node_registered
is_node_registered-any [] vhost = refl
is_node_registered-any (n ∷ ns) vhost = ground (is_node_registered-any ns vhost, arith)

finds_dead-any :
    (nodes : List NodeStatus) (vhost : ℤ) → finds_dead nodes vhost ≡ any (is_dead vhost) nodes
unfolding finds_dead
finds_dead-any [] vhost = refl
finds_dead-any (n ∷ ns) vhost = ground (finds_dead-any ns vhost, arith)

alive_rounds_lem :
    (m : ℕ) (nodes : List NodeStatus) (vhost : ℤ)
    → alive_rounds (suc m) nodes vhost ≡ not (finds_dead nodes vhost)
unfolding alive_rounds
alive_rounds_lem zero nodes vhost = ground arith
alive_rounds_lem (suc m) nodes vhost = ground (arith, alive_rounds_lem m nodes vhost)

-- The rounds of the wait add nothing: a node counts as alive exactly if no entry of it in the one
-- answer says that it is not, also if it has no entry.
is_evicted_node_alive_exact :
    (nodes : List NodeStatus) (vhost : ℤ)
    → is_evicted_node_alive nodes vhost ≡ not (any (is_dead vhost) nodes)
unfolding is_evicted_node_alive
is_evicted_node_alive_exact nodes vhost =
    ground (arith, alive_rounds_lem 9 nodes vhost, finds_dead-any nodes vhost)

other_than : ℤ → ℤ → Bool
other_than vhost v = not (eqb_ℤ v vhost)

remove_int_from_slice-keep :
    (vs : List ℤ) (vhost : ℤ) → remove_int_from_slice vs vhost ≡ keep (other_than vhost) vs
unfolding remove_int_from_slice other_than
remove_int_from_slice-keep [] vhost = refl
remove_int_from_slice-keep (v ∷ vs) vhost = ground (arith, remove_int_from_slice-keep vs vhost)

-- The node has an entry, and one that says it is not alive.
abbrev pub may_unregister : List NodeStatus → ℤ → Bool
may_unregister nodes vhost = any (is_node vhost) nodes && any (is_dead vhost) nodes

forget_node_lem :
    (update_fails asked : Bool) (evicted : List ℤ) (vhost : ℤ)
    → ((forget_node update_fails asked evicted vhost).asked ≡ asked)
      × ((forget_node update_fails asked evicted vhost).evicted
          ≡ remove_int_from_slice evicted vhost)
unfolding forget_node
forget_node_lem update_fails asked evicted vhost = (refl, refl)

after_request_lem :
    (response : Option (List ℤ)) (update_fails : Bool) (evicted : List ℤ) (vhost : ℤ)
    → let u = after_request response update_fails evicted vhost in
      (u.asked ≡ true) × ((u.evicted ≡ evicted) ⊎ (u.evicted ≡ remove_int_from_slice evicted vhost))
unfolding after_request
after_request_lem none update_fails evicted vhost = (refl, inl refl)
after_request_lem (some ids) update_fails evicted vhost =
    elim (Bool-cases (still_there ids vhost)) [
      | inl e ↦ ground (arith, e)
      | inr e ↦ ground (arith, e, forget_node_lem update_fails true evicted vhost)
    ]

-- LogScale is asked to unregister a node exactly if an entry of the node says that it is not alive,
-- and the list of evicted nodes keeps every other node: afterwards it is the list as it was, or that
-- list without the node.
pub unregister_node_exact :
    (nodes : List NodeStatus) (response : Option (List ℤ)) (update_fails : Bool) (evicted : List ℤ)
    (vhost : ℤ)
    → let u = unregister_node (some nodes) response update_fails evicted vhost in
      (u.asked ≡ may_unregister nodes vhost)
      × ((u.evicted ≡ evicted) ⊎ (u.evicted ≡ keep (λ v. not (eqb_ℤ v vhost)) evicted))
unfolding unregister_node other_than
unregister_node_exact nodes response update_fails evicted vhost = ground (
  arith,
  is_node_registered-any nodes vhost,
  is_evicted_node_alive_exact nodes vhost,
  after_request_lem response update_fails evicted vhost,
  forget_node_lem update_fails false evicted vhost,
  remove_int_from_slice-keep evicted vhost,
)

-- A node that is registered and alive is not unregistered, and stays in the list of evicted nodes,
-- but the call answers `true` as if it had been.
pub unregister_node_alive :
    (nodes : List NodeStatus) (response : Option (List ℤ)) (update_fails : Bool) (evicted : List ℤ)
    (vhost : ℤ)
    → any (is_node vhost) nodes ≡ true
    → any (is_dead vhost) nodes ≡ false
    → unregister_node (some nodes) response update_fails evicted vhost
      ≡ record { answer = some true; evicted = evicted; asked = false }
unfolding unregister_node
unregister_node_alive nodes response update_fails evicted vhost h k =
    ground (arith, is_node_registered-any nodes vhost, is_evicted_node_alive_exact nodes vhost)

-- The node may go for the reasons that an answer gives: none of the three holds.
abbrev pub IsFree : Reasons → Type 0
IsFree r =
    (r.has_data_that_exists_only_here ≡ false)
    × (r.has_under_replicated_data ≡ false)
    × (r.leads_digest ≡ false)

-- The entry at some place, counted from `i`, is one of the node, none of the three reasons holds for
-- it, nor for the answer to the refresh at that place.
abbrev pub FreeTwice : ℤ → (ℕ → Option Reasons) → ℕ → List NodeStatus → Type 0
FreeTwice vhost refresh i nodes =
    (j : ℕ) × (n : NodeStatus) × (r : Reasons) × (get_elem? nodes j ≡ some n)
    × (n.id ≡ vhost)
    × IsFree n.reasons
    × (refresh (i + j) ≡ some r)
    × IsFree r

is_safe-IsFree : (r : Reasons) → is_safe r ≡ true → IsFree r
is_safe-IsFree r h = ground arith

refreshed_safe-IsFree :
    (o : Option Reasons) → refreshed_safe o ≡ true → (r : Reasons) × (o ≡ some r) × IsFree r
refreshed_safe-IsFree none h = cc
refreshed_safe-IsFree (some r) h = (r, refl, is_safe-IsFree r h)

safe_in_round-cases :
    (refresh : ℕ → Option Reasons) (i : ℕ) (n : NodeStatus) (ns : List NodeStatus) (vhost : ℤ)
    → safe_in_round refresh i (n ∷ ns) vhost ≡ true
    → ((eqb_ℤ n.id vhost ≡ true) × (is_safe n.reasons ≡ true) × (refreshed_safe (refresh i) ≡ true))
      ⊎ (safe_in_round refresh (suc i) ns vhost ≡ true)
unfolding safe_in_round
safe_in_round-cases refresh i n ns vhost h = ground arith

safe_in_round-FreeTwice :
    (refresh : ℕ → Option Reasons) (i : ℕ) (nodes : List NodeStatus) (vhost : ℤ)
    → safe_in_round refresh i nodes vhost ≡ true
    → FreeTwice vhost refresh i nodes
unfolding safe_in_round
safe_in_round-FreeTwice refresh i [] vhost h = absurd (ground arith)
safe_in_round-FreeTwice refresh i (n ∷ ns) vhost h =
    elim (safe_in_round-cases refresh i n ns vhost h) [
      | inl (a, b, c) ↦
          let (r, e, k) = refreshed_safe-IsFree (refresh i) c in
          (
            0,
            n,
            r,
            refl,
            (eqb_ℤ_iff n.id vhost).0 a,
            is_safe-IsFree n.reasons b,
            ap refresh (omega arith) ∙ e,
            k,
          )
      | inr l ↦
          let (j, m, r, e, f, b, q, k) = safe_in_round-FreeTwice refresh (suc i) ns vhost l in
          (suc j, m, r, e, f, b, ap refresh (omega arith) ∙ q, k)
    ]

-- Some round before the round `i + n` was answered with such an entry.
abbrev pub FreeInRound : ℤ → (ℕ → Round) → ℕ → ℕ → Type 0
FreeInRound vhost rounds i n =
    (k : ℕ) × (nodes : List NodeStatus) × (k < i + n)
    × ((rounds k).nodes ≡ some nodes)
    × FreeTwice vhost (rounds k).refresh 0 nodes

safe_rounds-cases :
    (n i : ℕ) (rounds : ℕ → Round) (vhost : ℤ)
    → safe_rounds (suc n) i rounds vhost ≡ some true
    → ((nodes : List NodeStatus) × ((rounds i).nodes ≡ some nodes)
        × (safe_in_round (rounds i).refresh 0 nodes vhost ≡ true))
      ⊎ (safe_rounds n (suc i) rounds vhost ≡ some true)
unfolding safe_rounds
safe_rounds-cases n i rounds vhost h = elim (Option-cases (rounds i).nodes) [
  | inl e ↦ absurd (ground (arith, h, e))
  | inr (nodes, e) ↦ elim (Bool-cases (safe_in_round (rounds i).refresh 0 nodes vhost)) [
    | inl s ↦ inl (nodes, e, s)
    | inr s ↦ inr (ground (arith, h, e, s))
  ]
]

safe_rounds-FreeInRound :
    (n i : ℕ) (rounds : ℕ → Round) (vhost : ℤ)
    → safe_rounds n i rounds vhost ≡ some true
    → FreeInRound vhost rounds i n
unfolding safe_rounds
safe_rounds-FreeInRound zero i rounds vhost h = absurd (ground (arith, h))
safe_rounds-FreeInRound (suc n) i rounds vhost h = elim (safe_rounds-cases n i rounds vhost h) [
  | inl (nodes, e, s) ↦
      (i, nodes, omega arith, e, safe_in_round-FreeTwice (rounds i).refresh 0 nodes vhost s)
  | inr l ↦
      let (k, nodes, b, e, f) = safe_rounds-FreeInRound n (suc i) rounds vhost l in
      (k, nodes, omega (arith, b), e, f)
]

-- A pod counts as evicted only if LogScale answered, in one of the ten rounds, with an entry of the
-- pod's node which says that it holds no data that exists only there, has no data replicated too
-- little and leads no digest, and if the answer to the refresh made for that entry says the same.
pub check_eviction_status_for_pod_sound :
    (rounds : ℕ → Round) (vhost : ℤ)
    → check_eviction_status_for_pod rounds vhost ≡ some true
    → FreeInRound vhost rounds 0 10
unfolding check_eviction_status_for_pod
check_eviction_status_for_pod_sound rounds vhost h = safe_rounds-FreeInRound 10 0 rounds vhost h
