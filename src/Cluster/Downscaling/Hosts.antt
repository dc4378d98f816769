-- ===== src/Cluster/Downscaling/Hosts.antt =====
-- The node that processDownscaling takes for the node of a pod.
use mathlib.Core.Path.{subst}
use humio_operator.Common.{
  ℕ, zero, suc, ◌≡◌, refl, ◌∙◌, sym, ap, ◌⊎◌, inl, inr, String, Bool, true, false, Option, none,
  some, List, [], ◌∷◌, ◌==◌, ◌&&◌, arith, any, Bool-cases, Option-cases, is_some, if◌then◌else◌,
  eq_iff, eq_refl,
}
use humio_operator.Common.Int.{ℤ, pos}
use humio_operator.Common.Map.{Map, lookup, insert, lookup-insert}
use humio_operator.K8s.{Pod}
use humio_operator.Cluster.Eviction.{NodeStatus}
use humio_operator.Cluster.Downscaling.Marking.{
  Host, Progress, Step, note, mark, get_pod_name_from_node_uri, is_host_of, match_pod,
  match_pods_to_hosts, vhost_of, is_evicting, update_eviction_status, evicting_rounds,
  unmarked_loop, handle_unmarked_evictions,
}
use humio_operator.Cluster.Downscaling.Keeping.{In, In-last, In-append, unmarked_loop-keeps}

-- The id of the last of the available hosts whose URI names the pod, or what was there before.
abbrev pub is_named : (String → Option String) → String → Host → Bool
is_named hostname name host =
    host.is_available && elim (get_pod_name_from_node_uri hostname host.uri) [
      | none ↦ false
      | some found ↦ found == name
    ]

pub last_host : (String → Option String) → String → List Host → Option ℤ → Option ℤ
last_host hostname name [] before = before
last_host hostname name (h ∷ hs) before =
    last_host hostname name hs (if is_named hostname name h then some h.id else before)

abbrev pub or_zero : Option ℤ → ℤ
or_zero none = pos 0
or_zero (some v) = v

read_lem : (o : Option ℤ) → elim o [ none ↦ pos 0 | some v ↦ v ] ≡ or_zero o
read_lem none = refl
read_lem (some v) = refl

evicting_rounds-true :
    (m : ℕ) (nodes : List NodeStatus) (vhost : ℤ)
    → is_evicting nodes vhost ≡ some true
    → evicting_rounds (suc m) nodes vhost ≡ some true
unfolding evicting_rounds
evicting_rounds-true m nodes vhost e = rw (e, evicting_rounds) refl

module _ (update_fails : String → Bool) (nodes : List NodeStatus) (pod : Pod) (p : Progress)
    (f : update_fails pod.name ≡ false) where
  updated :
      (vhost : ℤ)
      → is_evicting nodes vhost ≡ some true
      → update_eviction_status update_fails nodes pod vhost p ≡ (note (mark pod vhost) p, some true)
  unfolding update_eviction_status
  updated vhost e = rw (evicting_rounds-true 9 nodes vhost e, f, update_eviction_status) refl

  first_marked :
      (map : Map ℤ) (pods : List Pod)
      → (pod.spec.node_name == "") ≡ false
      → is_evicting nodes (vhost_of map pod) ≡ some true
      → unmarked_loop update_fails nodes map (pod ∷ pods) p
        ≡ unmarked_loop update_fails nodes map pods (note (mark pod (vhost_of map pod)) p)
  unfolding unmarked_loop
  first_marked map pods h e =
      rw (h, updated (vhost_of map pod) e) (rw (updated (vhost_of map pod) e))

evicting_rounds-is_some :
    (m : ℕ) (nodes : List NodeStatus) (vhost : ℤ)
    → is_some (is_evicting nodes vhost) ≡ true
    → is_some (evicting_rounds m nodes vhost) ≡ true
unfolding evicting_rounds
evicting_rounds-is_some zero nodes vhost t = refl
evicting_rounds-is_some (suc m) nodes vhost t =
    ground (arith, t, evicting_rounds-is_some m nodes vhost t)

module _ (update_fails : String → Bool) (nodes : List NodeStatus)
    (t : (v : ℤ) → is_some (is_evicting nodes v) ≡ true)
    (f : (name : String) → update_fails name ≡ false) (map : Map ℤ) where
  update-is_some :
      (pod : Pod) (vhost : ℤ) (p : Progress)
      → is_some (update_eviction_status update_fails nodes pod vhost p).1 ≡ true
  unfolding update_eviction_status
  update-is_some pod vhost p =
      ground (arith, f pod.name, evicting_rounds-is_some 10 nodes vhost (t vhost))

  -- A pod whose node is being evicted is marked, wherever it stands in the list.
  loop_marks :
      (pod : Pod)
      → (pod.spec.node_name == "") ≡ false
      → is_evicting nodes (vhost_of map pod) ≡ some true
      → (pods : List Pod) (p : Progress) → In pod pods
      → In (mark pod (vhost_of map pod)) (unmarked_loop update_fails nodes map pods p).0.actions
  unfolding unmarked_loop
  loop_marks pod h e [] p m = absurd m
  loop_marks pod h e (q ∷ qs) p (inl same) =
      let marked = note (mark pod (vhost_of map pod)) p in
      let after =
        unmarked_loop-keeps (λ r. In (mark pod (vhost_of map pod)) r.actions) update_fails nodes map
          qs marked (λ x r _ _ i. In-append (mark pod (vhost_of map pod)) r.actions _ i)
          (In-last p.actions (mark pod (vhost_of map pod))) in
      subst
        (λ (x : Pod).
          In (mark pod (vhost_of map pod))
            (unmarked_loop update_fails nodes map (x ∷ qs) p).0.actions)
        same
        (subst (λ (s : Step (Unit {0})). In (mark pod (vhost_of map pod)) s.0.actions)
          (sym (first_marked update_fails nodes pod p (f pod.name) map qs h e)) after)
  loop_marks pod h e (q ∷ qs) p (inr m) = elim (Bool-cases (q.spec.node_name == "")) [
    | inl n ↦ rw n (loop_marks pod h e qs p m)
    | inr n ↦
        let step = update_eviction_status update_fails nodes q (vhost_of map q) p in
        elim (Option-cases step.1) [
          | inl o ↦
              let known = update-is_some q (vhost_of map q) p in absurd (ground (arith, o, known))
          | inr (b, o) ↦ rw (n, o) (loop_marks pod h e qs step.0 m)
        ]
  ]

vhost_of_lem : (map : Map ℤ) (pod : Pod) → vhost_of map pod ≡ or_zero (lookup pod.name map)
unfolding vhost_of
vhost_of_lem map pod = read_lem (lookup pod.name map)

module _ (hostname : String → Option String) where
  lookup-match_pod :
      (pod : Pod) (hosts : List Host) (map : Map ℤ)
      → lookup pod.name (match_pod hostname pod hosts map)
        ≡ last_host hostname pod.name hosts (lookup pod.name map)
  unfolding match_pod last_host is_host_of
  lookup-match_pod pod [] map = refl
  lookup-match_pod pod (h ∷ hs) map = elim (Bool-cases (is_named hostname pod.name h)) [
    | inl e ↦ rw e (
        lookup-match_pod pod hs (insert pod.name h.id map)
        ∙ ap (last_host hostname pod.name hs)
            (lookup-insert pod.name pod.name h.id map ∙ rw (eq_refl pod.name)))
    | inr e ↦ rw e (lookup-match_pod pod hs map)
  ]

  lookup-match_other :
      (asked : String) (pod : Pod) (hosts : List Host) (map : Map ℤ)
      → (pod.name == asked) ≡ false
      → lookup asked (match_pod hostname pod hosts map) ≡ lookup asked map
  unfolding match_pod is_host_of
  lookup-match_other asked pod [] map h = refl
  lookup-match_other asked pod (x ∷ hs) map h = elim (Bool-cases (is_named hostname pod.name x)) [
    | inl e ↦ rw e (
        lookup-match_other asked pod hs (insert pod.name x.id map) h
        ∙ lookup-insert pod.name asked x.id map
        ∙ rw h)
    | inr e ↦ rw e (lookup-match_other asked pod hs map h)
  ]

  -- The hosts decide, or they name the pod nowhere.
  last_host_cases :
      (name : String) (hosts : List Host)
      → ((before : Option ℤ) → last_host hostname name hosts before ≡ before)
        ⊎ ((v : ℤ) × ((before : Option ℤ) → last_host hostname name hosts before ≡ some v))
  unfolding last_host
  last_host_cases name [] = inl (λ before. refl)
  last_host_cases name (h ∷ hs) = elim (last_host_cases name hs) [
    | inr (v, f) ↦ inr (v, λ before. f _)
    | inl f ↦ elim (Bool-cases (is_named hostname name h)) [
      | inl e ↦ inr (h.id, λ before. f _ ∙ rw e)
      | inr e ↦ inl (λ before. f _ ∙ rw e)
    ]
  ]

  last_host_twice :
      (name : String) (hosts : List Host) (before : Option ℤ)
      → last_host hostname name hosts (last_host hostname name hosts before)
        ≡ last_host hostname name hosts before
  last_host_twice name hosts before = elim (last_host_cases name hosts) [
    | inl f ↦ f _
    | inr (v, f) ↦ f _ ∙ sym (f before)
  ]

  -- What a read of the map finds in the end for a pod.
  abbrev pub found_host : String → List Host → Option ℤ
  found_host name hosts = last_host hostname name hosts none

  match_pod-found :
      (name : String) (pod : Pod) (hosts : List Host) (map : Map ℤ)
      → lookup name map ≡ found_host name hosts
      → lookup name (match_pod hostname pod hosts map) ≡ found_host name hosts
  match_pod-found name pod hosts map h = elim (Bool-cases (pod.name == name)) [
    | inr e ↦ lookup-match_other name pod hosts map e ∙ h
    | inl e ↦
        let same = (eq_iff pod.name name).0 e in
        subst (λ n. lookup n (match_pod hostname pod hosts map) ≡ found_host n hosts) same
          (lookup-match_pod pod hosts map
            ∙ ap (last_host hostname pod.name hosts)
                (subst (λ n. lookup n map ≡ found_host n hosts) (sym same) h)
            ∙ last_host_twice pod.name hosts none)
  ]

  match_pods-found :
      (name : String) (pods : List Pod) (hosts : List Host) (map : Map ℤ)
      → lookup name map ≡ found_host name hosts
      → lookup name (match_pods_to_hosts hostname pods hosts map) ≡ found_host name hosts
  unfolding match_pods_to_hosts
  match_pods-found name [] hosts map h = h
  match_pods-found name (p ∷ ps) hosts map h =
      match_pods-found name ps hosts (match_pod hostname p hosts map)
        (match_pod-found name p hosts map h)

  match_pod-finds :
      (pod : Pod) (hosts : List Host) (map : Map ℤ)
      → (lookup pod.name map ≡ none) ⊎ (lookup pod.name map ≡ found_host pod.name hosts)
      → lookup pod.name (match_pod hostname pod hosts map) ≡ found_host pod.name hosts
  match_pod-finds pod hosts map (inl h) =
      lookup-match_pod pod hosts map ∙ ap (last_host hostname pod.name hosts) h
  match_pod-finds pod hosts map (inr h) = match_pod-found pod.name pod hosts map h

  match_pod-or :
      (name : String) (p : Pod) (hosts : List Host) (map : Map ℤ)
      → (lookup name map ≡ none) ⊎ (lookup name map ≡ found_host name hosts)
      → (lookup name (match_pod hostname p hosts map) ≡ none)
        ⊎ (lookup name (match_pod hostname p hosts map) ≡ found_host name hosts)
  match_pod-or name p hosts map (inr h) = inr (match_pod-found name p hosts map h)
  match_pod-or name p hosts map (inl h) = elim (Bool-cases (p.name == name)) [
    | inr e ↦ inl (lookup-match_other name p hosts map e ∙ h)
    | inl e ↦
        let same = (eq_iff p.name name).0 e in
        inr (
          subst (λ n. lookup n (match_pod hostname p hosts map) ≡ found_host n hosts) same
            (match_pod-finds p hosts map (inl (subst (λ n. lookup n map ≡ none) (sym same) h))))
  ]

  match_pods-finds :
      (pod : Pod) (pods : List Pod) (hosts : List Host) (map : Map ℤ)
      → In pod pods
      → (lookup pod.name map ≡ none) ⊎ (lookup pod.name map ≡ found_host pod.name hosts)
      → lookup pod.name (match_pods_to_hosts hostname pods hosts map) ≡ found_host pod.name hosts
  unfolding match_pods_to_hosts
  match_pods-finds pod [] hosts map m h = absurd m
  match_pods-finds pod (p ∷ ps) hosts map (inl e) h =
      match_pods-found pod.name ps hosts (match_pod hostname p hosts map) (
        subst
          (λ (x : Pod).
            lookup pod.name (match_pod hostname x hosts map) ≡ found_host pod.name hosts)
          e (match_pod-finds pod hosts map h))
  match_pods-finds pod (p ∷ ps) hosts map (inr m) h =
      match_pods-finds pod ps hosts (match_pod hostname p hosts map) m
        (match_pod-or pod.name p hosts map h)

  -- The node that is taken for the node of a pod of the pool is the last of the available hosts whose
  -- URI names the pod. If there is none, it is the node 0, whether or not that is the node of another
  -- pod.
  pub vhost_of_exact :
      (pod : Pod) (pods : List Pod) (hosts : List Host)
      → In pod pods
      → vhost_of (match_pods_to_hosts hostname pods hosts []) pod
        ≡ or_zero (last_host hostname pod.name hosts none)
  unfolding lookup
  vhost_of_exact pod pods hosts m =
      vhost_of_lem (match_pods_to_hosts hostname pods hosts []) pod
      ∙ ap or_zero (match_pods-finds pod pods hosts [] m (inl refl))

  last_host-none :
      (name : String) (hosts : List Host) (before : Option ℤ)
      → any (is_named hostname name) hosts ≡ false
      → last_host hostname name hosts before ≡ before
  unfolding last_host
  last_host-none name [] before h = refl
  last_host-none name (x ∷ hs) before h = ground (arith, last_host-none name hs before)

  -- Take a pod of the list that is on a Kubernetes node and that no available host names. If LogScale
  -- says that the node 0 is being evicted, it says of no node that it does not know, and all updates of
  -- pods succeed, then the pod is marked with the node 0.
  pub stranger_marked :
      (update_fails : String → Bool) (nodes : List NodeStatus) (hosts : List Host) (pod : Pod)
      (pods : List Pod) (p : Progress)
      → In pod pods
      → (pod.spec.node_name == "") ≡ false
      → any (is_named hostname pod.name) hosts ≡ false
      → is_evicting nodes (pos 0) ≡ some true
      → ((v : ℤ) → is_some (is_evicting nodes v) ≡ true)
      → ((name : String) → update_fails name ≡ false)
      → In
          (mark pod (pos 0))
          (handle_unmarked_evictions hostname update_fails
            (some hosts)
            (some nodes)
            pods
            p).0.actions
  unfolding handle_unmarked_evictions
  stranger_marked update_fails nodes hosts pod pods p m h k e t f =
      let map = match_pods_to_hosts hostname pods hosts [] in
      let zero_host : vhost_of map pod ≡ pos 0 =
        vhost_of_exact pod pods hosts m ∙ ap or_zero (last_host-none pod.name hosts none k) in
      subst (λ v. In (mark pod v) (unmarked_loop update_fails nodes map pods p).0.actions) zero_host
        (loop_marks update_fails nodes t f map pod h
          (subst (λ v. is_evicting nodes v ≡ some true) (sym zero_host) e) pods p m)
