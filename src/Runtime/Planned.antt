-- ===== src/Runtime/Planned.antt =====
-- internal/runtime/dispatch.go: what a plan of calls allows.
use native.Mathlib.Omega.{arith}
use az_agent_platform_go.Prelude.{
  ◌≡◌, refl, ap, subst, ◌∙◌, Bool, true, false, not, ◌&&◌, ◌||◌, List, [], ◌∷◌, ◌++◌, Option, none,
  some, GoString, codes, str_eq, str_eq_refl, anyb, if◌then◌else◌, Bool-cases, inl, inr, contains,
  contains-cons, contains-append, All,
}
use az_agent_platform_go.Runtime.Planning.{
  Call, CallKind, inactive, activate, not_executed, ask, read_resource, alias_of_journey,
  PlannedCall, owning_journey, is_activation, kind_of_alias, kind_of, plan_each, plan_calls,
}

-- Where no journey is found, none has the alias.
owning_journey-none :
    (has : GoString → GoString → Bool) (alias : GoString) (active : List GoString)
    → owning_journey has alias active ≡ none
    → anyb (λ (k : GoString). has k alias) active ≡ false
unfolding owning_journey
owning_journey-none has alias [] h = refl
owning_journey-none has alias (j ∷ js) h =
    by_later (owning_journey has alias js) refl (owning_journey-none has alias js) h
  where
    by_later :
        (o : Option GoString)
        → owning_journey has alias js ≡ o
        → (owning_journey has alias js ≡ none → anyb (λ (k : GoString). has k alias) js ≡ false)
        → ◌≡◌ {A = Option GoString}
            (elim o [ some owner ↦ some owner | none ↦ if has j alias then some j else none ])
            none
        → anyb (λ (k : GoString). has k alias) (j ∷ js) ≡ false
    by_later (some owner) e later k = cc
    by_later none e later k = elim (Bool-cases (has j alias)) [
      | inl t ↦ cc (rw t at k)
      | inr t ↦ rw t (later e)
    ]

-- The journey found has the alias, and no journey used more recently has it.
pub owning_journey-some :
    (has : GoString → GoString → Bool) (alias : GoString) (active : List GoString) (id : GoString)
    → owning_journey has alias active ≡ some id
    → (before after : List GoString) × (active ≡ before ++ id ∷ after)
      × (has id alias ≡ true)
      × (anyb (λ (k : GoString). has k alias) after ≡ false)
unfolding owning_journey
owning_journey-some has alias [] id h = cc
owning_journey-some has alias (j ∷ js) id h =
    by_later (owning_journey has alias js) refl (owning_journey-some has alias js id) h
  where
    Found : List GoString → Type 0
    Found active =
        (before after : List GoString) × (active ≡ before ++ id ∷ after)
        × (has id alias ≡ true)
        × (anyb (λ (k : GoString). has k alias) after ≡ false)

    by_later :
        (o : Option GoString)
        → owning_journey has alias js ≡ o
        → (owning_journey has alias js ≡ some id → Found js)
        → ◌≡◌ {A = Option GoString}
            (elim o [ some owner ↦ some owner | none ↦ if has j alias then some j else none ])
            (some id)
        → Found (j ∷ js)
    by_later (some owner) e later k =
        let f = later (e ∙ k) in (j ∷ f.0, f.1, ap (λ l. j ∷ l) f.2, f.3, f.4)
    by_later none e later k = elim (Bool-cases (has j alias)) [
      | inl t ↦
          let found : some j ≡ some id = rw t at k in
          let same : j ≡ id = cc found in
          (
            [],
            js,
            ap (λ l. l ∷ js) same,
            subst (λ x. has x alias ≡ true) same t,
            owning_journey-none has alias js e,
          )
      | inr t ↦ cc (rw t at k)
    ]

abbrev pub calls_of : List PlannedCall → List Call
calls_of [] = []
calls_of (p ∷ ps) = p.call ∷ calls_of ps

abbrev is_activate : CallKind → Bool
is_activate activate = true
is_activate _ = false

abbrev is_not_executed : CallKind → Bool
is_not_executed not_executed = true
is_not_executed _ = false

-- The names of the two other tools of the platform.
abbrev is_reserved : Bool → GoString → Bool
is_reserved resources name =
    str_eq name (codes "request_user_input")
    || str_eq name (codes "read_skill_resource") && resources

-- A call that is executed is one of the platform's tools by its name, or goes to the tool of an
-- active journey that has it, or is inactive where no active journey has it.
abbrev is_executed :
    (GoString → GoString → Bool) → List GoString → Bool → GoString → CallKind → Bool
is_executed has active resources name (alias_of_journey id) =
    contains active id && has id name && not (is_reserved resources name)
is_executed has active resources name inactive =
    not (anyb (λ (id : GoString). has id name) active) && not (is_reserved resources name)
is_executed has active resources name ask = str_eq name (codes "request_user_input")
is_executed has active resources name read_resource =
    str_eq name (codes "read_skill_resource") && resources
is_executed has active resources name _ = false

-- The kind that the name of a call, and whether the response activates a journey, allow.
abbrev pub is_allowed :
    (GoString → GoString → Bool) → List GoString → Bool → Bool → PlannedCall → Bool
is_allowed has active resources activating p =
    if is_activation p.call
    then is_activate p.kind
    else if activating
    then is_not_executed p.kind
    else is_executed has active resources p.call.name p.kind

module _ (has : GoString → GoString → Bool) (active : List GoString) (resources : Bool) where
  executed_by :
      (name : GoString) (o : Option GoString)
      → is_reserved resources name ≡ false
      → owning_journey has name active ≡ o
      → is_executed has active resources name (kind_of_alias o) ≡ true
  executed_by name none free e = ground (arith, free, owning_journey-none has name active e)
  executed_by name (some id) free e =
      let f = owning_journey-some has name active id e in
      let here : contains active id ≡ true =
        ap (λ l. contains l id) f.2
        ∙ ground
            (arith, contains-append f.0 (id ∷ f.1) id, contains-cons id f.1 id, str_eq_refl id) in
      ground (arith, here, f.3, free)

  kind_of-is_allowed :
      (activating : Bool) (c : Call)
      → is_allowed has active resources activating (record {
        call = c;
        kind = kind_of activating resources (λ alias. owning_journey has alias active) c;
      })
        ≡ true
  kind_of-is_allowed activating c =
      by_test (is_activation c) activating (str_eq c.name (codes "request_user_input")) refl
        (str_eq c.name (codes "read_skill_resource") && resources) refl
    where
      by_test :
          (is_act activating asks : Bool)
          → str_eq c.name (codes "request_user_input") ≡ asks
          → (reads : Bool) → (str_eq c.name (codes "read_skill_resource") && resources) ≡ reads
          → let kind =
              if is_act
              then activate
              else if activating
              then not_executed
              else if asks
              then ask
              else if reads
              then read_resource
              else kind_of_alias (owning_journey has c.name active) in
            (if is_act
              then is_activate kind
              else if activating
              then is_not_executed kind
              else is_executed has active resources c.name kind)
            ≡ true
      by_test true activating asks a reads r = refl
      by_test false true asks a reads r = refl
      by_test false false true a reads r = a
      by_test false false false a true r = r
      by_test false false false a false r =
          executed_by c.name (owning_journey has c.name active) (rw (a, r) refl) refl

-- A plan has the calls of the response in order, and each call has the kind that it should have. The
-- calls of activate_journey are activations; where there is one, every other call is marked as not
-- executed. Otherwise a call is a question or a resource read by its name, or goes to the tool of an
-- active journey that has it, or is inactive, where no active journey has it.
pub plan_calls-is_allowed :
    (has : GoString → GoString → Bool) (active : List GoString) (resources : Bool)
    (calls : List Call)
    → (calls_of (plan_calls calls resources (λ alias. owning_journey has alias active)) ≡ calls)
      × All
          (λ (p : PlannedCall). is_allowed has active resources (anyb is_activation calls) p ≡ true)
          (plan_calls calls resources (λ alias. owning_journey has alias active))
unfolding plan_calls
plan_calls-is_allowed has active resources calls = each (anyb is_activation calls) calls
  where
    owner : GoString → Option GoString
    owner alias = owning_journey has alias active

    each :
        (b : Bool) (cs : List Call)
        → (calls_of (plan_each b resources owner cs) ≡ cs)
          × All
              (λ (p : PlannedCall). is_allowed has active resources b p ≡ true)
              (plan_each b resources owner cs)
    each b [] = (refl, tt)
    each b (c ∷ cs) =
        let rest = each b cs in
        (ap (λ l. c ∷ l) rest.0, (kind_of-is_allowed has active resources b c, rest.1))
