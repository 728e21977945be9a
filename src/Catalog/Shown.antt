-- ===== src/Catalog/Shown.antt =====
-- internal/catalog/binding.go: the tools that the model is shown, and calls after a refused credential.
use native.Mathlib.Omega.{arith}
use az_agent_platform_go.Prelude.{
  ◌≡◌, refl, sym, ap, subst, ◌∙◌, Bool, true, false, ◌||◌, List, [], ◌∷◌, ◌++◌, Option, none, some,
  GoString, str_eq, str_eq_iff, contains, if◌then◌else◌, lookup, Distinct, Distinct-append_one, All,
  contains-append, contains-cons, contains-nil,
}
use az_agent_platform_go.Catalog.Descriptors.{Tool, Resolution}
use az_agent_platform_go.Catalog.Names.{names}
use az_agent_platform_go.Catalog.Policies.{alias_name}
use az_agent_platform_go.Catalog.Binding.{
  Binding, Called, show_tools, show_each, is_listed, tools, Answer, Request, call, call_bound,
  breaks, outcome_of, auth_needed, unsent, answer_call, auth_required, not_permitted, failed,
  answered,
}

-- The tools of the listed available journeys.
abbrev pub listed_tools : List GoString → List Resolution → List Tool
listed_tools ids [] = []
listed_tools ids (r ∷ rs) =
    let rest = listed_tools ids rs in if is_listed ids r then r.tools ++ rest else rest

names-append :
    (ts us : List Tool) → names alias_name (ts ++ us) ≡ names alias_name ts ++ names alias_name us
names-append [] us = refl
names-append (t ∷ ts) us = ap (λ ns. t.alias ∷ ns) (names-append ts us)

-- What Tools' loops keep: the aliases seen are those of the tools shown, all different.
abbrev IsShown : List Tool × List GoString → Type 0
IsShown p = (names alias_name p.0 ≡ p.1) × Distinct p.1

-- The aliases shown are those of before and those of the tools added.
abbrev Adds : List GoString → List Tool → List Tool × List GoString → Type 0
Adds seen ts p =
    (a : GoString) → contains p.1 a ≡ (contains seen a || contains (names alias_name ts) a)

show_tools-IsShown :
    (ts out : List Tool) (seen : List GoString)
    → IsShown (out, seen)
    → IsShown (show_tools ts out seen) × Adds seen ts (show_tools ts out seen)
unfolding show_tools
show_tools-IsShown [] out seen v = (v, λ a. ground (arith, contains-nil a))
show_tools-IsShown (t ∷ ts) out seen v =
    by_seen (contains seen t.alias) refl (show_tools-IsShown ts)
  where
    by_seen :
        (b : Bool)
        → contains seen t.alias ≡ b
        → ((o : List Tool) (n : List GoString)
            → IsShown (o, n)
            → IsShown (show_tools ts o n) × Adds n ts (show_tools ts o n))
        → IsShown (
            show_tools ts
              (if b then out else out ++ t ∷ [])
              (if b then seen else seen ++ t.alias ∷ []))
          × Adds seen (t ∷ ts) (
              show_tools ts
                (if b then out else out ++ t ∷ [])
                (if b then seen else seen ++ t.alias ∷ []))
    by_seen true e rest =
        let r = rest out seen v in (r.0, λ a. r.1 a ∙ absorb a (str_eq t.alias a) refl)
      where
        absorb :
            (a : GoString) (c : Bool)
            → str_eq t.alias a ≡ c
            → (contains seen a || contains (names alias_name ts) a)
              ≡ (contains seen a || contains (names alias_name (t ∷ ts)) a)
        absorb a true q =
            let here : contains seen a ≡ true =
              subst (λ s. contains seen s ≡ true) ((str_eq_iff t.alias a).0 q) e in
            ground (arith, here)
        absorb a false q = ground (arith, contains-cons t.alias (names alias_name ts) a, q)
    by_seen false e rest =
        let r = rest (out ++ t ∷ []) (seen ++ t.alias ∷ []) (
          names-append out (t ∷ []) ∙ ap (λ ns. ns ++ t.alias ∷ []) v.0,
          Distinct-append_one seen t.alias v.1 e,
        ) in
        (
          r.0,
          λ a.
              r.1 a
              ∙ ground (
                arith,
                contains-append seen (t.alias ∷ []) a,
                contains-cons t.alias [] a,
                contains-nil a,
                contains-cons t.alias (names alias_name ts) a,
              ),
        )

show_each-IsShown :
    (ids : List GoString) (rs : List Resolution) (out : List Tool) (seen : List GoString)
    → IsShown (out, seen)
    → IsShown (show_each ids rs out seen)
      × Adds seen (listed_tools ids rs) (show_each ids rs out seen)
unfolding show_each
show_each-IsShown ids [] out seen v = (v, λ a. ground (arith, contains-nil a))
show_each-IsShown ids (r ∷ rs) out seen v = by_listed (is_listed ids r) (show_each-IsShown ids rs)
  where
    next : List Tool × List GoString
    next = show_tools r.tools out seen

    by_listed :
        (b : Bool)
        → ((o : List Tool) (n : List GoString)
            → IsShown (o, n)
            → IsShown (show_each ids rs o n) × Adds n (listed_tools ids rs) (show_each ids rs o n))
        → IsShown (show_each ids rs (if b then next.0 else out) (if b then next.1 else seen))
          × Adds seen
              (if b then r.tools ++ listed_tools ids rs else listed_tools ids rs)
              (show_each ids rs (if b then next.0 else out) (if b then next.1 else seen))
    by_listed false rest = rest out seen v
    by_listed true rest =
        let here = show_tools-IsShown r.tools out seen v in
        let later = rest next.0 next.1 here.0 in (later.0, λ a. later.1 a ∙ joined a (here.1 a))
      where
        joined :
            (a : GoString)
            → contains next.1 a ≡ (contains seen a || contains (names alias_name r.tools) a)
            → (contains next.1 a || contains (names alias_name (listed_tools ids rs)) a)
              ≡ (contains seen a || contains (names alias_name (r.tools ++ listed_tools ids rs)) a)
        joined a q = rw (names-append r.tools (listed_tools ids rs)) (
            ground (
              arith,
              q,
              contains-append (names alias_name r.tools) (names alias_name (listed_tools ids rs)) a,
            ))

-- The model is shown each alias of the listed available journeys once, and no other.
pub tools-Distinct :
    (b : Binding) (ids : List GoString)
    → Distinct (names alias_name (tools b ids))
      × ((a : GoString)
          → contains (names alias_name (tools b ids)) a
            ≡ contains (names alias_name (listed_tools ids b.resolutions)) a)
unfolding tools
tools-Distinct b ids =
    let s = show_each-IsShown ids b.resolutions [] [] (refl, tt) in
    (
      subst Distinct (sym s.0.0) s.0.1,
      λ a. ap (λ ns. contains ns a) s.0.0 ∙ s.1 a ∙ ground (arith, contains-nil a),
    )

-- A later call, and what the session answers to it.
pub record Later : Type 0 where
  pub session : Request → Answer
  pub call_id : GoString
  pub alias : GoString
  pub arguments : GoString

-- One call after another, each with the binding that the one before leaves.
abbrev pub call_each : Binding → List Later → List Called
call_each b [] = []
call_each b (n ∷ ns) =
    let called = call n.session b n.call_id n.alias n.arguments in
    called ∷ call_each called.binding ns

-- A broken binding sends nothing and stays broken.
broken_silent :
    (n : Later) (b : Binding)
    → b.broken ≡ true
    → ((call n.session b n.call_id n.alias n.arguments).sent ≡ none)
      × ((call n.session b n.call_id n.alias n.arguments).binding.broken ≡ true)
unfolding call
broken_silent n b e = by_tool (lookup n.alias b.by_alias)
  where
    by_tool :
        (o : Option Tool)
        → ((call_bound n.session b n.call_id n.arguments o).sent ≡ none)
          × ((call_bound n.session b n.call_id n.arguments o).binding.broken ≡ true)
    by_tool none = (refl, e)
    by_tool (some t) = (rw e refl, rw e refl)

each_silent :
    (ns : List Later) (b : Binding)
    → b.broken ≡ true
    → All (λ (c : Called). c.sent ≡ none) (call_each b ns)
each_silent [] b e = tt
each_silent (n ∷ ns) b e =
    let s = broken_silent n b e in
    (s.0, each_silent ns (call n.session b n.call_id n.alias n.arguments).binding s.1)

-- After a call has reported that authentication is needed, whatever calls follow on the binding,
-- bound or not and in any number, and whatever the session would answer, none of them sends anything.
pub call-auth_needed :
    (session : Request → Answer) (b : Binding) (call_id alias arguments : GoString)
    (later : List Later)
    → (call session b call_id alias arguments).outcome ≡ auth_needed
    → All
        (λ (c : Called). c.sent ≡ none)
        (call_each (call session b call_id alias arguments).binding later)
unfolding call
call-auth_needed session b call_id alias arguments later h =
    each_silent later (call session b call_id alias arguments).binding
      (broken_after (lookup alias b.by_alias) h)
  where
    answer : (x : Answer) → outcome_of x ≡ auth_needed → (b.broken || breaks x) ≡ true
    answer auth_required e = ground arith
    answer not_permitted e = cc
    answer failed e = cc
    answer (answered true content) e = cc
    answer (answered false content) e = cc

    guarded :
        (request : Request) (c : Bool)
        → b.broken ≡ c
        → (if c then unsent b auth_needed else answer_call b request (session request)).outcome
          ≡ auth_needed
        → (if c
            then unsent b auth_needed
            else answer_call b request (session request)).binding.broken
          ≡ true
    guarded request true q e = q
    guarded request false q e = answer (session request) e

    broken_after :
        (o : Option Tool)
        → (call_bound session b call_id arguments o).outcome ≡ auth_needed
        → (call_bound session b call_id arguments o).binding.broken ≡ true
    broken_after none e = cc
    broken_after (some t) e =
        guarded (record { call_id = call_id; remote_name = t.remote_name; arguments = arguments })
          b.broken refl e
