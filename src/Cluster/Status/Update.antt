-- ===== src/Cluster/Status/Update.antt =====
-- What an update of the status writes, and when the request comes back.
use mathlib.Core.Path.{subst}
use humio_operator.Common.{
  String, ◌≡◌, refl, ap, ◌⊎◌, inl, inr, Bool, true, false, ◌||◌, any, Bool-cases, Option, none,
  some, List, [], ◌∷◌, map, ◌++◌, arith,
}
use humio_operator.Common.Int.{ℤ, pos, ltb_ℤ}
use humio_operator.Cluster.Types.{ClusterStatus}
use humio_operator.Cluster.Status.{
  Options, StatusOption, apply, get_result, empty_result, status_options, with_state,
  with_requeue_period, with_message, Attempt, WriteAnswer, written, conflict, failed, apply_all,
  first_requeue, update_status, Result,
}

-- Some attempt read the resource as `l`, and its write went through.
pub data SomeWritten (l : ClusterStatus) : List Attempt → Type 0 where
  here :
      (a : Attempt) (rest : List Attempt)
      → a.latest ≡ some l
      → a.answer ≡ written
      → SomeWritten l (a ∷ rest)
  later : (a : Attempt) (rest : List Attempt) → SomeWritten l rest → SomeWritten l (a ∷ rest)

-- The second status is the first with every option applied to it, one after another.
abbrev pub Applies : Options → ClusterStatus → ClusterStatus → Type 0
Applies [] c d = d ≡ c
Applies (o ∷ os) c d = Applies os (apply o c) d

-- The result asks to come back.
abbrev pub asks : Result → Bool
asks r = r.requeue || ltb_ℤ (pos 0) r.requeue_after

-- The result is that of the first option whose result asks to come back, or, if none does, the empty
-- one.
abbrev pub IsFirst : Options → Result → Type 0
IsFirst opts r =
    ((before : Options) × (o : StatusOption) × (after : Options) × (opts ≡ before ++ o ∷ after)
      × (any (λ x. asks (get_result x)) before ≡ false)
      × (asks (get_result o) ≡ true)
      × (r ≡ get_result o))
    ⊎ ((any (λ x. asks (get_result x)) opts ≡ false) × (r ≡ empty_result))

Applies-apply_all : (opts : Options) (c : ClusterStatus) → Applies opts c (apply_all opts c)
unfolding apply_all
Applies-apply_all [] c = refl
Applies-apply_all (o ∷ os) c = Applies-apply_all os (apply o c)

first_requeue-IsFirst : (opts : Options) → IsFirst opts (first_requeue opts)
unfolding first_requeue
first_requeue-IsFirst [] = inr (refl, refl)
first_requeue-IsFirst (o ∷ os) = elim (Bool-cases (asks (get_result o))) [
  | inl e ↦ inl ([], o, os, refl, refl, e, rw e refl)
  | inr e ↦ elim (first_requeue-IsFirst os) [
    | inl (before, x, after, p, q, f, r) ↦
        inl (o ∷ before, x, after, ap (λ l. o ∷ l) p, ground (arith, e, q), f, rw e r)
    | inr (q, r) ↦ inr (ground (arith, e, q), rw e r)
  ]
]

-- What an update that returned `r` and left `u` has done.
abbrev pub AppliedToLatest : List Attempt → Options → ClusterStatus → Result → Type 0
AppliedToLatest attempts opts u r =
    (l : ClusterStatus) × SomeWritten l attempts × Applies opts l u × IsFirst opts r

applied_step :
    (o : Option ClusterStatus) (w : WriteAnswer) (rest : List Attempt) (c : ClusterStatus)
    (opts : Options) (r : Result)
    → ((d : ClusterStatus)
        → (update_status rest d opts).result ≡ some r
        → AppliedToLatest rest opts (update_status rest d opts).status r)
    → (update_status (record { latest = o; answer = w } ∷ rest) c opts).result ≡ some r
    → AppliedToLatest
        (record { latest = o; answer = w } ∷ rest)
        opts
        (update_status (record { latest = o; answer = w } ∷ rest) c opts).status
        r
unfolding update_status
applied_step none w rest c opts r ih h = cc
applied_step (some l) written rest c opts r ih h = (
  l,
  here _ rest refl refl,
  Applies-apply_all opts l,
  subst (IsFirst opts) (cc h) (first_requeue-IsFirst opts),
)
applied_step (some l) failed rest c opts r ih h = cc
applied_step (some l) conflict rest c opts r ih h =
    let (d, won, same, res) = ih (apply_all opts l) h in (d, later _ rest won, same, res)

-- An update that returns no error has applied all its options, one after another, to the resource as
-- an attempt had just read it, and written that, whatever the resource in memory was. Its result is
-- that of the first option whose result asks to come back, or the empty one if none does.
pub update_status_applies_to_latest :
    (attempts : List Attempt) (c : ClusterStatus) (opts : Options) (r : Result)
    → (update_status attempts c opts).result ≡ some r
    → AppliedToLatest attempts opts (update_status attempts c opts).status r
update_status_applies_to_latest [] c opts r h = unfold update_status in cc h
update_status_applies_to_latest (a ∷ rest) c opts r h =
    applied_step a.latest a.answer rest c opts r
      (λ d. update_status_applies_to_latest rest d opts r) h

-- The answer of the server to an attempt that lost a race, and to one that won it.
abbrev pub lost_race : ClusterStatus → Attempt
lost_race l = record { latest = some l; answer = conflict }

abbrev pub won_race : ClusterStatus → Attempt
won_race l = record { latest = some l; answer = written }

-- After any number of conflicts, the first write that goes through ends the update: the options
-- are applied once to what that attempt read, and the later attempts are not made.
update_status_after_conflicts :
    (lost : List ClusterStatus) (l : ClusterStatus) (rest : List Attempt) (c : ClusterStatus)
    (opts : Options)
    → update_status (map lost_race lost ++ won_race l ∷ rest) c opts
      ≡ record { status = apply_all opts l; result = some (first_requeue opts) }
unfolding update_status
update_status_after_conflicts [] l rest c opts = refl
update_status_after_conflicts (d ∷ lost) l rest c opts =
    update_status_after_conflicts lost l rest (apply_all opts d) opts

-- What the last line of Reconcile hands to updateStatus.
unfoldable pub done_options : String → ℤ → Options
done_options s period = with_message "" (with_requeue_period period (with_state s status_options))

apply_all-done_options :
    (s : String) (p q : ℤ) (c : ClusterStatus)
    → apply_all (done_options s p) c ≡ apply_all (done_options s q) c
unfolding done_options apply_all
apply_all-done_options s p q c = refl

first_requeue-done_options :
    (s : String) (p q : ℤ) → first_requeue (done_options s p) ≡ first_requeue (done_options s q)
unfolding done_options first_requeue
first_requeue-done_options s p q = ground arith

ignored_step :
    (o : Option ClusterStatus) (w : WriteAnswer) (rest : List Attempt) (c : ClusterStatus)
    (s : String) (p q : ℤ)
    → ((d : ClusterStatus)
        → update_status rest d (done_options s p) ≡ update_status rest d (done_options s q))
    → update_status (record { latest = o; answer = w } ∷ rest) c (done_options s p)
      ≡ update_status (record { latest = o; answer = w } ∷ rest) c (done_options s q)
unfolding update_status
ignored_step none w rest c s p q ih = refl
ignored_step (some l) written rest c s p q ih =
    cc (apply_all-done_options s p q l, first_requeue-done_options s p q)
ignored_step (some l) failed rest c s p q ih = cc (apply_all-done_options s p q l)
ignored_step (some l) conflict rest c s p q ih =
    rw (apply_all-done_options s p q l) (ih (apply_all (done_options s q) l))

-- The configured requeue period has no effect: whatever it is, the update at the end of Reconcile
-- writes the same status and comes back after the same time.
pub requeue_period_ignored :
    (attempts : List Attempt) (c : ClusterStatus) (s : String) (p q : ℤ)
    → update_status attempts c (done_options s p) ≡ update_status attempts c (done_options s q)
unfolding update_status
requeue_period_ignored [] c s p q = refl
requeue_period_ignored (a ∷ rest) c s p q =
    ignored_step a.latest a.answer rest c s p q (λ d. requeue_period_ignored rest d s p q)
