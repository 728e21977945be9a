-- ===== src/Journal/Log.antt =====
-- internal/journal/store.go (appendEvent): the event log is only appended to, with consecutive numbers.
use az_agent_platform_go.Prelude.{ℕ, ◌+◌, ◌≡◌, refl, ap, sym, subst, ◌∙◌, List, [], ◌∷◌, ◌++◌}
use az_agent_platform_go.Journal.{Journal, Event, Owner}
use az_agent_platform_go.Journal.Transactions.{append_event, append_all, lock_owner}
use az_agent_platform_go.Journal.Inversion.{lock_owner_ok}
use az_agent_platform_go.Journal.Hoare.{Ends, Ends-put, Ends-pure, Ends-next}

-- The numbers of the events run on from one number to another.
abbrev pub IsNumbered : ℕ → List Event → ℕ → Type 0
IsNumbered first [] last = first ≡ last
IsNumbered first (e ∷ es) last = (e.sequence ≡ first + 1) × IsNumbered (first + 1) es last

-- The later journal has the events of the earlier one and then its own, numbered from the earlier
-- one's last number to its own.
unfoldable pub Extends : Journal → Journal → Type 0
Extends j k =
    (added : List Event) × (k.events ≡ j.events ++ added) × IsNumbered j.sequence added k.sequence

IsNumbered-append :
    (first last : ℕ) (es : List Event) (e : Event)
    → IsNumbered first es last
    → e.sequence ≡ last + 1
    → IsNumbered first (es ++ e ∷ []) (last + 1)
IsNumbered-append first last [] e h s = (s ∙ ap (λ n. n + 1) (sym h), ap (λ n. n + 1) h)
IsNumbered-append first last (x ∷ es) e h s = (h.0, IsNumbered-append (first + 1) last es e h.1 s)

append_assoc : (xs ys zs : List Event) → (xs ++ ys) ++ zs ≡ xs ++ (ys ++ zs)
append_assoc [] ys zs = refl
append_assoc (x ∷ xs) ys zs = ap (λ t. x ∷ t) (append_assoc xs ys zs)

append_nil : (xs : List Event) → xs ++ [] ≡ xs
append_nil [] = refl
append_nil (x ∷ xs) = ap (λ t. x ∷ t) (append_nil xs)

pub Extends-refl : (j : Journal) → Extends j j
unfolding Extends
Extends-refl j = ([], sym (append_nil j.events), refl)

abbrev numbered : Event → Journal → Event
numbered e j = record e { sequence = j.sequence + 1 }

module _ (start : Journal) where
  pub append_event-Extends :
      (e : Event) (j : Journal) → Extends start j → Ends (Extends start) j (append_event e)
  unfolding append_event Extends
  append_event-Extends e j p =
      Ends-put (Extends start)
        (record j { sequence = j.sequence + 1; events = j.events ++ numbered e j ∷ [] }) j
        (
          p.0 ++ numbered e j ∷ [],
          ap (λ es. es ++ numbered e j ∷ []) p.1
              ∙ append_assoc start.events p.0 (numbered e j ∷ []),
          IsNumbered-append start.sequence j.sequence p.0 (numbered e j) p.2 refl,
        )

  pub append_all-Extends :
      {A : Type 0} (f : A → Event) (xs : List A) (j : Journal)
      → Extends start j
      → Ends (Extends start) j (append_all f xs)
  unfolding append_all
  append_all-Extends f [] j p = Ends-pure (Extends start) tt j p
  append_all-Extends f (x ∷ xs) j p =
      Ends-next (Extends start) (append_event (f x)) (append_all f xs) j
        (append_event-Extends (f x) j p) (λ i q. append_all-Extends f xs i q)

  pub lock_owner-Extends :
      (o : Owner) (j : Journal) → Extends start j → Ends (Extends start) j (lock_owner o)
  lock_owner-Extends o j p a k h = subst (Extends start) (sym (lock_owner_ok o j h).0) p
