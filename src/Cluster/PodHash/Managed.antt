-- ===== src/Cluster/PodHash/Managed.antt =====
-- Which fields the hash of a pod leaves out.
use humio_operator.Common.{
  ◌≡◌, refl, sym, ap, ◌∙◌, String, Bool, true, false, not, Option, some, List, [], ◌∷◌, ◌==◌, ◌&&◌,
  map, any, arith, Bool-cases, inl, inr, if◌then◌else◌,
}
use humio_operator.K8s.{EnvVar, Container, PodSpec, Pod}
use humio_operator.Cluster.PodHash.{
  clear_variable, clear_variables, clear_container, clear_containers,
  pod_hasher_minus_managed_fields, pod_hash_minus_managed_fields, calculate_hash,
}

-- Some managed container of the name sets an image.
abbrev pub sets_image : List Container → String → Bool
sets_image managed name = any (λ (m : Container). name == m.name && not (m.image == "")) managed

-- Some managed container of the name sets the variable.
abbrev pub sets_variable : List Container → String → String → Bool
sets_variable managed name key =
    any (λ (m : Container). name == m.name && any (λ (v : EnvVar). v.name == key) m.env) managed

-- The variable, without its value if that is managed.
abbrev pub hashed_variable : List Container → String → EnvVar → EnvVar
hashed_variable managed name v = record v {
  value = if sets_variable managed name v.name then "" else v.value;
}

-- The container, without what is managed of it.
abbrev pub hashed_container : List Container → Container → Container
hashed_container managed c = record c {
  image = if sets_image managed c.name then "" else c.image;
  env = map (hashed_variable managed c.name) c.env;
}

-- The variable, without its value if it has one of the names.
abbrev cleared : List EnvVar → EnvVar → EnvVar
cleared ms v = record v {
  value = if any (λ (m : EnvVar). m.name == v.name) ms then "" else v.value;
}

clear_variable-map :
    (m : EnvVar) (env : List EnvVar) → clear_variable m env ≡ map (cleared (m ∷ [])) env
unfolding clear_variable
clear_variable-map m [] = refl
clear_variable-map m (v ∷ vs) = ground (arith, clear_variable-map m vs)

-- What two passes over a list come to.
module _ {ℓ} {A : Type ℓ} where
  map-pointwise : (f g : A → A) (xs : List A) → ((x : A) → f x ≡ g x) → map f xs ≡ map g xs
  map-pointwise f g [] e = refl
  map-pointwise f g (x ∷ xs) e =
      ap (λ y. y ∷ map f xs) (e x) ∙ ap (λ ys. g x ∷ ys) (map-pointwise f g xs e)

  map-map : (f g h : A → A) (xs : List A) → ((x : A) → f (g x) ≡ h x) → map f (map g xs) ≡ map h xs
  map-map f g h [] e = refl
  map-map f g h (x ∷ xs) e =
      ap (λ y. y ∷ map f (map g xs)) (e x) ∙ ap (λ ys. h x ∷ ys) (map-map f g h xs e)

  map-same : (f : A → A) (xs : List A) → ((x : A) → f x ≡ x) → map f xs ≡ xs
  map-same f [] e = refl
  map-same f (x ∷ xs) e = ap (λ y. y ∷ map f xs) (e x) ∙ ap (λ ys. x ∷ ys) (map-same f xs e)

cleared-cleared :
    (m : EnvVar) (ms : List EnvVar) (v : EnvVar)
    → cleared ms (cleared (m ∷ []) v) ≡ cleared (m ∷ ms) v
cleared-cleared m ms v = ap (λ t. record v { value = t }) (ground arith)

clear_variables-map : (ms env : List EnvVar) → clear_variables ms env ≡ map (cleared ms) env
unfolding clear_variables
clear_variables-map [] env = sym (map-same (cleared []) env (λ v. refl))
clear_variables-map (m ∷ ms) env =
    clear_variables-map ms (clear_variable m env)
    ∙ ap (map (cleared ms)) (clear_variable-map m env)
    ∙ map-map (cleared ms) (cleared (m ∷ [])) (cleared (m ∷ ms)) env (cleared-cleared m ms)

module _ (m : Container) (ms : List Container) (c : Container) where
  -- A managed container of the name takes its variables' values.
  taken :
      c.name == m.name ≡ true
      → (v : EnvVar)
      → hashed_variable ms c.name (cleared m.env v) ≡ hashed_variable (m ∷ ms) c.name v
  taken e v = ap (λ t. record v { value = t }) (ground (arith, e))

  passed :
      c.name == m.name ≡ false
      → (v : EnvVar) → hashed_variable ms c.name v ≡ hashed_variable (m ∷ ms) c.name v
  passed e v = ap (λ t. record v { value = t }) (ground (arith, e))

  same_fields :
      (image : String) (env : List EnvVar)
      → image ≡ (if sets_image (m ∷ ms) c.name then "" else c.image)
      → env ≡ map (hashed_variable (m ∷ ms) c.name) c.env
      → record c { image = image; env = env } ≡ hashed_container (m ∷ ms) c
  same_fields image env p q =
      ap (λ i. record c { image = i; env = env }) p
      ∙ ap (λ vs. record c { image = if sets_image (m ∷ ms) c.name then "" else c.image; env = vs })
          q

  clear_container-other : c.name == m.name ≡ false → clear_container m c ≡ c
  unfolding clear_container
  clear_container-other e = ground (arith, e)

  clear_container-named :
      c.name == m.name ≡ true
      → clear_container m c ≡ record c {
        image = if not (m.image == "") then "" else c.image;
        env = clear_variables m.env c.env;
      }
  unfolding clear_container
  clear_container-named e = ground (arith, e)

  hashed-clear : hashed_container ms (clear_container m c) ≡ hashed_container (m ∷ ms) c
  hashed-clear = elim (Bool-cases (c.name == m.name)) [
    | inl e ↦
        ap (hashed_container ms) (clear_container-named e)
        ∙ same_fields _ _ (ground (arith, e)) (
            ap (map (hashed_variable ms c.name)) (clear_variables-map m.env c.env)
            ∙ map-map _ _ _ c.env (taken e))
    | inr e ↦
        ap (hashed_container ms) (clear_container-other e)
        ∙ same_fields _ _ (ground (arith, e)) (map-pointwise _ _ c.env (passed e))
  ]

hashed-nothing : (c : Container) → hashed_container [] c ≡ c
hashed-nothing c =
    ap (λ vs. record c { env = vs }) (map-same (hashed_variable [] c.name) c.env (λ v. refl))

clear_containers-map :
    (ms cs : List Container) → clear_containers ms cs ≡ map (hashed_container ms) cs
unfolding clear_containers
clear_containers-map [] cs = sym (map-same (hashed_container []) cs hashed-nothing)
clear_containers-map (m ∷ ms) cs =
    clear_containers-map ms (map (clear_container m) cs)
    ∙ map-map (hashed_container ms) (clear_container m) (hashed_container (m ∷ ms)) cs
        (hashed-clear m ms)

-- The hash without managed fields is that of the pod in which each container, and each init container,
-- has no image if a managed container of its name sets one, and its variables no value if a managed
-- container of its name sets a variable of that name, and is else as it was.
pub pod_hash_minus_managed_fields_exact :
    (digest : PodSpec → Option String) (managed pod : Pod)
    → pod_hash_minus_managed_fields digest (some managed) pod
      ≡ digest (record pod.spec {
        containers = map (hashed_container managed.spec.containers) pod.spec.containers;
        init_containers =
            map (hashed_container managed.spec.init_containers) pod.spec.init_containers;
      })
unfolding pod_hash_minus_managed_fields calculate_hash pod_hasher_minus_managed_fields
pod_hash_minus_managed_fields_exact digest managed pod =
    ap
      (λ cs. digest (record pod.spec {
        containers = cs;
        init_containers = clear_containers managed.spec.init_containers pod.spec.init_containers;
      }))
      (clear_containers-map managed.spec.containers pod.spec.containers)
    ∙ ap
        (λ cs. digest (record pod.spec {
          containers = map (hashed_container managed.spec.containers) pod.spec.containers;
          init_containers = cs;
        }))
        (clear_containers-map managed.spec.init_containers pod.spec.init_containers)
