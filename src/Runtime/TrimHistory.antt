-- ===== src/Runtime/TrimHistory.antt =====
-- internal/runtime/history.go: what trimHistory promises.
use native.Mathlib.Omega.{arith}
use az_agent_platform_go.Prelude.{
  ℕ, zero, suc, ◌+◌, ◌≡◌, ◌≤◌, ◌⊎◌, refl, sym, ap, subst, ◌∙◌, Bool, true, false, List, [], ◌∷◌,
  Option, some, GoString, ltb, leb, ◌==◌, if◌then◌else◌, Bool-cases, inl, inr, ℤ, pos, negsuc,
  ==_iff, leb→le, ltb→lt,
}
use az_agent_platform_go.Runtime.Trimming.{
  Library, Entry, Dropping, Truncation, number, goes_on, drop_loop, start_of, trimmed,
  no_truncation, drop_units, estimate_tokens, trim_history,
}
use az_agent_platform_go.Runtime.Dropped.{kept_turn, select}
use az_agent_platform_go.Runtime.Steady.{IsSteady, drop_loop-IsSteady, drop_loop-some}
use az_agent_platform_go.Runtime.Trimmed.{IsTrimmed, untrimmed, start-IsSteady, number-select}
use az_agent_platform_go.Runtime.Kept.{last_of, scanned, kept_of, current_of, loop-IsTrimmed}

module _ {Message : Type 0} (lib : Library Message) where
  select_cong :
      (k l : ℕ → Bool) (es : List (Entry Message))
      → ((t : ℕ) → k t ≡ l t)
      → select k es ≡ select l es
  select_cong k l [] h = refl
  select_cong k l (e ∷ es) h =
      ap (λ b. if b then e.message ∷ select k es else select k es) (h e.turn)
      ∙ ap (λ ms. if l e.turn then e.message ∷ ms else ms) (select_cong k l es h)

  -- The variables with which the loop ends.
  loop_ends :
      (protected : List GoString) (history : List Message) (budget : ℕ)
      → (d : Dropping Message) × (drop_loop lib
            (last_of lib history + 1)
            (scanned lib protected history)
            (last_of lib history + 1)
            budget
            (start_of lib history (estimate_tokens lib history))
          ≡ some d)
        × IsSteady lib
            (scanned lib protected history)
            (last_of lib history + 1)
            (number lib history)
            d
        × (goes_on (last_of lib history + 1) budget d ≡ false)
  loop_ends protected history budget =
      let s = scanned lib protected history in
      let turns = last_of lib history + 1 in
      let start = start-IsSteady lib s turns history in
      let from = start_of lib history (estimate_tokens lib history) in
      let out =
        drop_loop-some lib s turns (number lib history) turns budget from (omega arith) start in
      let end =
        drop_loop-IsSteady lib s turns (number lib history) turns budget from out.0 out.1 start in
      (out.0, out.1, end.0, end.1)

  -- Where no turn was dropped, nothing was.
  current-history :
      (protected : List GoString) (history : List Message) (d : Dropping Message)
      → IsSteady lib
          (scanned lib protected history)
          (last_of lib history + 1)
          (number lib history)
          d
      → d.dropped_turns ≡ 0
      → d.current ≡ history
  unfolding kept_turn
  current-history protected history d v z =
      current_of lib protected history d v
      ∙ select_cong (kept_of lib protected history d v) (λ t. true) (number lib history) all_kept
      ∙ sym (number-select lib history)
    where
      all_kept : (t : ℕ) → kept_of lib protected history d v t ≡ true
      all_kept t = elim (Bool-cases (ltb t d.start)) [
        | inl e ↦ ground (arith, e, v.none_dropped z t (ltb→lt t d.start e))
        | inr e ↦ ground (arith, e)
      ]

  -- The result of a history that the loop has trimmed.
  abbrev HasOutcome : List GoString → List Message → ℕ → Option (List Message × Truncation) → Type 0
  HasOutcome protected history budget o =
      (r : List Message × Truncation) × (o ≡ some r)
      × (kept : ℕ → Bool) × IsTrimmed lib protected history r.0 kept
      × ((estimate_tokens lib r.0 ≤ budget)
          ⊎ (r.0
              ≡ select
                  (kept_turn (scanned lib protected history) (last_of lib history + 1)
                    (last_of lib history + 1))
                  (number lib history)))

  drop_units-HasOutcome :
      (protected : List GoString) (history : List Message) (budget : ℕ)
      → HasOutcome protected history budget (
          drop_units lib history budget protected
            (last_of lib history)
            (estimate_tokens lib history))
  drop_units-HasOutcome protected history budget =
      let l = loop_ends protected history budget in
      subst
        (λ o.
          HasOutcome protected history budget
            (trimmed history (estimate_tokens lib history) budget o))
        (sym l.1) (by_turns l.0 l.2 (ends l.0 l.2 l.3) (l.0.dropped_turns == 0) refl)
    where
      s_kept : ℕ → ℕ → Bool
      s_kept = kept_turn (scanned lib protected history) (last_of lib history + 1)

      Fits : List Message → Type 0
      Fits out =
          (estimate_tokens lib out ≤ budget)
          ⊎ (out ≡ select (s_kept (last_of lib history + 1)) (number lib history))

      ends :
          (d : Dropping Message)
          → IsSteady lib
              (scanned lib protected history)
              (last_of lib history + 1)
              (number lib history)
              d
          → goes_on (last_of lib history + 1) budget d ≡ false
          → Fits d.current
      ends d v g = elim (Bool-cases (ltb d.start (last_of lib history + 1))) [
        | inl more ↦ inl (subst (λ n. n ≤ budget) v.estimate (ground (arith, more, g)))
        | inr done ↦
            let b = v.bounded in
            let at : d.start ≡ last_of lib history + 1 = ground (arith, b, done) in
            inr (
              current_of lib protected history d v
              ∙ ap (λ n. select (s_kept n) (number lib history)) at)
      ]

      by_turns :
          (d : Dropping Message)
          → IsSteady lib
              (scanned lib protected history)
              (last_of lib history + 1)
              (number lib history)
              d
          → Fits d.current
          → (b : Bool) → (d.dropped_turns == 0) ≡ b
          → HasOutcome protected history budget (
              some (
                if b then (history, no_truncation) else (
                  d.current,
                  record {
                    turns_dropped = d.dropped_turns;
                    messages_dropped = d.dropped_messages;
                    estimate_before = estimate_tokens lib history;
                    estimate_after = d.estimate;
                    budget = budget;
                  },
                )))
      by_turns d v f true e =
          let same = current-history protected history d v ((==_iff d.dropped_turns 0).0 e) in
          (_, refl, (λ t. true), untrimmed lib protected history, subst Fits same f)
      by_turns d v f false e =
          (_, refl, kept_of lib protected history d v, loop-IsTrimmed lib protected history d v, f)

-- trimHistory returns whole turns of the history, as a set of turns: the latest turn is among them and
-- so is every turn with a protected call, and a result of a call is there exactly where the call is.
pub trim_history-IsTrimmed :
    {Message : Type 0} (lib : Library Message) (history : List Message) (budget : ℤ)
    (protected : List GoString)
    → (r : List Message × Truncation) × (trim_history lib history budget protected ≡ some r)
      × (kept : ℕ → Bool) × IsTrimmed lib protected history r.0 kept
unfolding trim_history
trim_history-IsTrimmed lib [] budget protected = (_, refl, (λ t. true), untrimmed lib protected [])
trim_history-IsTrimmed lib (m ∷ ms) (negsuc n) protected =
    (_, refl, (λ t. true), untrimmed lib protected (m ∷ ms))
trim_history-IsTrimmed lib (m ∷ ms) (pos zero) protected =
    (_, refl, (λ t. true), untrimmed lib protected (m ∷ ms))
trim_history-IsTrimmed {Message} lib (m ∷ ms) (pos (suc n)) protected =
    by_size (leb (estimate_tokens lib (m ∷ ms)) (suc n))
      (drop_units-HasOutcome lib protected (m ∷ ms) (suc n))
  where
    dropped : Option (List Message × Truncation)
    dropped =
        drop_units lib (m ∷ ms) (suc n) protected (last_of lib (m ∷ ms))
          (estimate_tokens lib (m ∷ ms))

    by_size :
        (b : Bool)
        → HasOutcome lib protected (m ∷ ms) (suc n) dropped
        → (r : List Message × Truncation) × ((if b then some (m ∷ ms, no_truncation) else dropped)
            ≡ some r)
          × (kept : ℕ → Bool) × IsTrimmed lib protected (m ∷ ms) r.0 kept
    by_size true h = (_, refl, (λ t. true), untrimmed lib protected (m ∷ ms))
    by_size false h = (h.0, h.1, h.2, h.3)

-- With a positive budget, what trimHistory returns fits the budget, or it is the turns that belong
-- with the latest turn or with a protected call and no others.
pub trim_history-fits :
    {Message : Type 0} (lib : Library Message) (history : List Message) (n : ℕ)
    (protected : List GoString) (r : List Message × Truncation)
    → trim_history lib history (pos (suc n)) protected ≡ some r
    → (estimate_tokens lib r.0 ≤ suc n)
      ⊎ (r.0
          ≡ select
              (kept_turn
                (scanned lib protected history)
                (last_of lib history + 1)
                (last_of lib history + 1))
              (number lib history))
unfolding trim_history
trim_history-fits lib [] n protected r h =
    let same : ([], no_truncation) ≡ r = cc h in inr (sym (ap (λ x. x.0) same))
trim_history-fits {Message} lib (m ∷ ms) n protected r h =
    by_size (leb (estimate_tokens lib (m ∷ ms)) (suc n)) refl
      (drop_units-HasOutcome lib protected (m ∷ ms) (suc n)) h
  where
    dropped : Option (List Message × Truncation)
    dropped =
        drop_units lib (m ∷ ms) (suc n) protected (last_of lib (m ∷ ms))
          (estimate_tokens lib (m ∷ ms))

    Fits : List Message → Type 0
    Fits out =
        (estimate_tokens lib out ≤ suc n)
        ⊎ (out
            ≡ select
                (kept_turn (scanned lib protected (m ∷ ms)) (last_of lib (m ∷ ms) + 1)
                  (last_of lib (m ∷ ms) + 1))
                (number lib (m ∷ ms)))

    by_size :
        (b : Bool)
        → leb (estimate_tokens lib (m ∷ ms)) (suc n) ≡ b
        → HasOutcome lib protected (m ∷ ms) (suc n) dropped
        → (if b then some (m ∷ ms, no_truncation) else dropped) ≡ some r
        → Fits r.0
    by_size true q o k =
        let same : (m ∷ ms, no_truncation) ≡ r = cc k in
        subst (λ x. Fits x.0) same (inl (leb→le (estimate_tokens lib (m ∷ ms)) (suc n) q))
    by_size false q o k = let same : o.0 ≡ r = cc (k, o.1) in subst (λ x. Fits x.0) same o.4
