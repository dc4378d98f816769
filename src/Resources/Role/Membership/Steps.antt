-- ===== src/Resources/Role/Membership/Steps.antt =====
-- The membership of one group through a step of the loops over groups.
use mathlib.Core.Path.{subst}
use humio_operator.Common.{
  ◌≡◌, refl, ap, String, Bool, true, false, not, List, [], ◌∷◌, ◌==◌, ◌&&◌, ◌||◌, keep, arith,
  eq_iff, Bool-cases, inl, inr,
}
use humio_operator.Helpers.{contains_element}
use humio_operator.Resources.Role.{RoleGroup}

pub contains-keep :
    (p : String → Bool) (ns : List String) (n : String)
    → contains_element (keep p ns) n ≡ (contains_element ns n && p n)
unfolding contains_element
contains-keep p [] n = refl
contains-keep p (m ∷ ms) n = elim (Bool-cases (m == n)) [
  | inl e ↦ let same : p m ≡ p n = ap p ((eq_iff m n).0 e) in ground (arith, contains-keep p ms n)
  | inr e ↦ ground (arith, contains-keep p ms n)
]

pub eq_sym : (m n : String) → (m == n) ≡ (n == m)
eq_sym m n = ground (arith, eq_iff m n, eq_iff n m)

-- A group that should have the role keeps it, and one that should not loses it.
module _ (expected : List String) (g : RoleGroup) (rest : List String) (name : String) where
  pub kept :
      contains_element expected g.display_name ≡ true
      → (before after : Bool)
      → after ≡ (before && not (contains_element rest name && not (contains_element expected name)))
      → after ≡ (
          before
          && not (
              contains_element (g.display_name ∷ rest) name
              && not (contains_element expected name)))
  unfolding contains_element
  kept k before after q = elim (Bool-cases (g.display_name == name)) [
    | inr n ↦ rw n q
    | inl n ↦
        let e =
          subst (λ m. contains_element expected m ≡ true) ((eq_iff g.display_name name).0 n) k in
        rw n (ground (arith, q, e))
  ]

  pub gone :
      contains_element expected g.display_name ≡ false
      → (before middle after : Bool) → middle ≡ (before && not (g.display_name == name))
      → after ≡ (middle && not (contains_element rest name && not (contains_element expected name)))
      → after ≡ (
          before
          && not (
              contains_element (g.display_name ∷ rest) name
              && not (contains_element expected name)))
  unfolding contains_element
  gone k before middle after t q = elim (Bool-cases (g.display_name == name)) [
    | inr n ↦ rw n (ground (arith, q, t, n))
    | inl n ↦
        let e =
          subst (λ m. contains_element expected m ≡ false) ((eq_iff g.display_name name).0 n) k in
        rw n (ground (arith, q, t, e, n))
  ]

-- A group that has the role is passed over, and one that has not is given it.
module _ (current : List String) (n : String) (ns : List String) (name : String) where
  pub skipped :
      contains_element current n ≡ true
      → (before after : Bool)
      → after ≡ (before || (contains_element ns name && not (contains_element current name)))
      → after ≡ (before || (contains_element (n ∷ ns) name && not (contains_element current name)))
  unfolding contains_element
  skipped k before after q = elim (Bool-cases (n == name)) [
    | inr f ↦ rw f q
    | inl f ↦
        let e = subst (λ m. contains_element current m ≡ true) ((eq_iff n name).0 f) k in
        rw f (ground (arith, q, e))
  ]

  pub added :
      contains_element current n ≡ false
      → (before middle after : Bool) → middle ≡ (before || n == name)
      → after ≡ (middle || (contains_element ns name && not (contains_element current name)))
      → after ≡ (before || (contains_element (n ∷ ns) name && not (contains_element current name)))
  unfolding contains_element
  added k before middle after t q = elim (Bool-cases (n == name)) [
    | inr f ↦ rw f (ground (arith, q, t, f))
    | inl f ↦
        let e = subst (λ m. contains_element current m ≡ false) ((eq_iff n name).0 f) k in
        rw f (ground (arith, q, t, e, f))
  ]

pub both :
    (wanted listed before middle current : Bool)
    → before ≡ listed
    → middle ≡ (before && not (listed && not wanted))
    → current ≡ (listed && wanted)
    → (middle || (wanted && not current)) ≡ wanted
both true true before middle current p q r = ground (arith, p, q, r)
both true false before middle current p q r = ground (arith, p, q, r)
both false true before middle current p q r = ground (arith, p, q, r)
both false false before middle current p q r = ground (arith, p, q, r)
