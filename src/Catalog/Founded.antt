-- ===== src/Catalog/Founded.antt =====
-- internal/catalog/resolve.go (Resolve): where the policy of a chosen tool comes from.
use native.Mathlib.Omega.{arith}
use az_agent_platform_go.Prelude.{
  zero, ◌≡◌, refl, sym, ap, subst, Bool, true, false, ◌&&◌, List, [], ◌∷◌, some, GoString, contains,
  if◌then◌else◌, All, anyb, ◌==◌, find_row, ==_iff,
}
use az_agent_platform_go.Definitions.Tools.{Selector}
use az_agent_platform_go.Catalog.Descriptors.{Journey, Snapshot}
use az_agent_platform_go.Catalog.Selecting.{
  Keyed, Chosen, Selection, no_selection, extend, extend_chosen, at_index, has_ops,
}
use az_agent_platform_go.Catalog.Resolving.{keyed_of, choices_of, is_read_only, no_choices}
use az_agent_platform_go.Catalog.Choosing.{select_ops-All, select_tags-All}
use az_agent_platform_go.Catalog.Offered.{IsAt, IsOffered, keyed_from-IsAt, keyed_from-IsOffered}

-- A selector that names a key among its alternatives and reviews it as read-only.
abbrev pub reviews_read_only : GoString → Selector → Bool
reviews_read_only key s = is_read_only s.class && contains s.ops key

-- A class of read_only comes from a selector that names the key.
abbrev pub IsFounded : List Selector → GoString → Selection → Type 0
IsFounded ss key n = is_read_only n.op_class ≡ true → anyb (reviews_read_only key) ss ≡ true

-- What choices of a journey in a snapshot satisfy.
abbrev pub IsChoice : Journey → Snapshot → GoString → Chosen → Type 0
IsChoice j s meta_key c =
    IsAt (keyed_of j s meta_key) c.keyed
    × IsOffered meta_key j.deny s.tools c.keyed
    × IsFounded j.tools c.keyed.key c.selection

-- A selector of the journey: what it satisfies, some selector of the journey does.
abbrev IsOf : List Selector → Selector → Type 0
IsOf ss s = (p : Selector → Bool) → p s ≡ true → anyb p ss ≡ true

IsOf-all : (ss : List Selector) → All (IsOf ss) ss
IsOf-all ss = suffix ss (λ p h. h)
  where
    suffix :
        (rest : List Selector)
        → ((p : Selector → Bool) → anyb p rest ≡ true → anyb p ss ≡ true)
        → All (IsOf ss) rest
    suffix [] f = tt
    suffix (s ∷ rest) f =
        (λ p h. f p (ground (arith, h)), suffix rest (λ p h. f p (ground (arith, h))))

-- What is known when a selector chooses a tool.
abbrev IsChosenBy : Journey → Snapshot → GoString → Keyed → Selector → Type 0
IsChosenBy j s meta_key k sel =
    IsAt (keyed_of j s meta_key) k
    × IsOffered meta_key j.deny s.tools k
    × IsOf j.tools sel
    × (has_ops sel ≡ true → contains sel.ops k.key ≡ true)

reviewed :
    (sel : Selector) (key : GoString)
    → contains sel.ops key ≡ true
    → is_read_only sel.class ≡ true
    → reviews_read_only key sel ≡ true
reviewed sel key h r = ground (arith, h, r)

extend-IsFounded :
    (ss : List Selector) (sel : Selector) (key : GoString) (n : Selection)
    → IsOf ss sel
    → (has_ops sel ≡ true → contains sel.ops key ≡ true)
    → IsFounded ss key n
    → IsFounded ss key (extend sel n)
extend-IsFounded ss sel key n of named f = by_kind (has_ops sel) named
  where
    by_kind :
        (b : Bool)
        → (b ≡ true → contains sel.ops key ≡ true)
        → is_read_only (if b then sel.class else n.op_class) ≡ true
        → anyb (reviews_read_only key) ss ≡ true
    by_kind true g r = of (reviews_read_only key) (reviewed sel key (g refl) r)
    by_kind false g r = f r

same_tool :
    (keyed : List Keyed) (k l : Keyed)
    → IsAt keyed k
    → IsAt keyed l
    → (l.index == k.index) ≡ true
    → l ≡ k
same_tool keyed k l a b e =
    let at : l.index ≡ k.index = (==_iff l.index k.index).0 e in
    let found : find_row (λ (m : Keyed). m.index == k.index) keyed ≡ some l =
      subst (λ i. find_row (λ (m : Keyed). m.index == i) keyed ≡ some l) at b in
    cc (found, a)

-- Every choice is a tool that the snapshot offers under a key that is not denied, read-only only
-- where a selector of the journey reviews that key as read-only.
pub choices_of-IsChoice :
    (j : Journey) (s : Snapshot) (meta_key : GoString)
    → All (IsChoice j s meta_key) (choices_of j s meta_key).chosen
unfolding choices_of
choices_of-IsChoice j s meta_key =
    select_tags-All (IsChoice j s meta_key) Known (IsOf j.tools) (IsChosenBy j s meta_key) by_op
      by_tag first further (keyed_of j s meta_key) j.tools _ all_known (IsOf-all j.tools)
      (select_ops-All (IsChoice j s meta_key) Known (IsOf j.tools) (IsChosenBy j s meta_key) by_op
        by_tag first further (keyed_of j s meta_key) j.tools no_choices all_known (IsOf-all j.tools)
        tt)
  where
    Known : Keyed → Type 0
    Known k = IsAt (keyed_of j s meta_key) k × IsOffered meta_key j.deny s.tools k

    by_op :
        (k : Keyed) (sel : Selector)
        → Known k
        → IsOf j.tools sel
        → contains sel.ops k.key ≡ true
        → IsChosenBy j s meta_key k sel
    by_op k sel a o h = (a.0, a.1, o, λ e. h)

    by_tag :
        (k : Keyed) (sel : Selector)
        → Known k
        → IsOf j.tools sel
        → has_ops sel ≡ false
        → IsChosenBy j s meta_key k sel
    by_tag k sel a o h = (a.0, a.1, o, λ e. cc)

    first :
        (k : Keyed) (sel : Selector)
        → IsChosenBy j s meta_key k sel
        → IsChoice j s meta_key (record { keyed = k; selection = extend sel no_selection })
    first k sel r = (r.0, r.1, extend-IsFounded j.tools sel k.key no_selection r.2 r.3 (λ e. cc))

    further :
        (k : Keyed) (sel : Selector) (c : Chosen)
        → IsChosenBy j s meta_key k sel
        → at_index k.index c ≡ true
        → IsChoice j s meta_key c
        → IsChoice j s meta_key (extend_chosen sel c)
    further k sel c r e p =
        let same : k.key ≡ c.keyed.key =
          sym (ap (λ (m : Keyed). m.key) (same_tool (keyed_of j s meta_key) k c.keyed r.0 p.0 e)) in
        (
          p.0,
          p.1,
          extend-IsFounded j.tools sel c.keyed.key c.selection r.2
              (subst (λ key. has_ops sel ≡ true → contains sel.ops key ≡ true) same r.3) p.2,
        )

    all_known : All Known (keyed_of j s meta_key)
    all_known =
        both (keyed_of j s meta_key) (keyed_from-IsAt zero meta_key j.deny s.tools)
          (keyed_from-IsOffered zero meta_key j.deny s.tools)
      where
        both :
            (ks : List Keyed)
            → All (IsAt (keyed_of j s meta_key)) ks
            → All (IsOffered meta_key j.deny s.tools) ks
            → All Known ks
        both [] a b = tt
        both (k ∷ ks) a b = ((a.0, b.0), both ks a.1 b.1)
