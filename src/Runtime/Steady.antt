-- ===== src/Runtime/Steady.antt =====
-- internal/runtime/history.go (trimHistory): what the loop over the units keeps, and that it ends.
use native.Mathlib.Omega.{arith}
use az_agent_platform_go.Prelude.{
  ℕ, zero, suc, ◌+◌, ◌-◌, ◌≡◌, ◌≤◌, ◌<◌, refl, sym, ap, subst, ◌∙◌, Bool, true, false, ◌&&◌, List,
  some, ltb, ◌==◌, if◌then◌else◌, Bool-cases, inl, inr, All, ltb→lt,
}
use az_agent_platform_go.Runtime.Trimming.{
  Library, Entry, Scan, Dropping, unit_kept, run_end, remaining, drop_unit, skip_unit, next_unit,
  goes_on, drop_loop, estimate_tokens,
}
use az_agent_platform_go.Runtime.Dropped.{
  IsRun, run_end-IsRun, run-unit, IsMarked, select, select-drop_turns, skip-IsMarked,
  drop_turns-IsMarked,
}

module _ {Message : Type 0} (lib : Library Message) (s : Scan) (turns : ℕ)
    (whole : List (Entry Message)) where
  -- What holds of the loop's variables before each round: `start` begins a unit, and the messages
  -- marked so far are those of the units before it that are not kept.
  pub record IsSteady (d : Dropping Message) : Type 0 where
    pub bounded : d.start ≤ turns
    pub marked : All (IsMarked s turns d.start) d.entries
    pub apart : (t : ℕ) → suc t ≡ d.start → d.start < turns → (s.unit d.start == s.unit t) ≡ false
    pub current : d.current ≡ remaining d.entries
    pub estimate : d.estimate ≡ estimate_tokens lib d.current
    pub same : (keep : ℕ → Bool) → select keep d.entries ≡ select keep whole
    pub none_dropped :
        d.dropped_turns ≡ 0 → (t : ℕ) → t < d.start → unit_kept s turns (s.unit t) ≡ true

  module _ (d : Dropping Message) (v : IsSteady d) (go : d.start < turns) where
    abbrev end_of : ℕ
    end_of = run_end s (s.unit d.start) (turns - 1 - d.start) d.start

    IsRun-end : IsRun s (s.unit d.start) (turns - 1 - d.start) d.start end_of
    IsRun-end = run_end-IsRun s (s.unit d.start) (turns - 1 - d.start) d.start

    high_end : end_of + 1 ≤ turns
    high_end = let h = IsRun-end.high in omega (arith, h, go)

    apart_next :
        (t : ℕ)
        → suc t ≡ end_of + 1
        → end_of + 1 < turns
        → (s.unit (end_of + 1) == s.unit t) ≡ false
    apart_next t e h =
        let at : t ≡ end_of = omega (arith, e) in
        let last =
          run-unit s (turns - 1 - d.start) d.start end_of end_of IsRun-end IsRun-end.low
            (omega arith) in
        subst (λ n. (s.unit (end_of + 1) == n) ≡ false) (sym (ap s.unit at ∙ last))
          (IsRun-end.outside (omega (arith, h, go)))

    skip-IsSteady : unit_kept s turns (s.unit d.start) ≡ true → IsSteady (skip_unit end_of d)
    skip-IsSteady k = record {
      bounded = high_end;
      marked =
          skip-IsMarked s turns (turns - 1 - d.start) d.start end_of d.entries IsRun-end k v.marked;
      apart = apart_next;
      current = v.current;
      estimate = v.estimate;
      same = v.same;
      none_dropped = λ z t h. elim (Bool-cases (ltb t d.start)) [
        | inl b ↦ v.none_dropped z t (ltb→lt t d.start b)
        | inr b ↦
            ap (unit_kept s turns) (
              run-unit s (turns - 1 - d.start) d.start end_of t IsRun-end (ground (arith, b))
                (omega (arith, h)))
            ∙ k
      ];
    }

    drop-IsSteady :
        unit_kept s turns (s.unit d.start) ≡ false → IsSteady (drop_unit lib d.start end_of d)
    drop-IsSteady k = record {
      bounded = high_end;
      marked =
          drop_turns-IsMarked s turns (turns - 1 - d.start) d.start end_of d.entries IsRun-end k
            v.marked;
      apart = apart_next;
      current = refl;
      estimate = refl;
      same = λ keep. select-drop_turns keep d.start end_of d.entries ∙ v.same keep;
      none_dropped = λ z t h. (let never : ⊥ = omega (arith, z) in elim never [ ]);
    }

    next-IsSteady : IsSteady (next_unit lib s turns d)
    next-IsSteady = by_unit (unit_kept s turns (s.unit d.start)) refl
      where
        by_unit :
            (b : Bool)
            → unit_kept s turns (s.unit d.start) ≡ b
            → IsSteady (if b then skip_unit end_of d else drop_unit lib d.start end_of d)
        by_unit true e = skip-IsSteady e
        by_unit false e = drop-IsSteady e

    next_start : suc d.start ≤ (next_unit lib s turns d).start
    next_start = by_unit (unit_kept s turns (s.unit d.start))
      where
        by_unit :
            (b : Bool)
            → suc d.start ≤ (if b then skip_unit end_of d else drop_unit lib d.start end_of d).start
        by_unit true = let h = IsRun-end.low in omega (arith, h)
        by_unit false = let h = IsRun-end.low in omega (arith, h)

  stays : (budget : ℕ) (d : Dropping Message) → goes_on turns budget d ≡ true → d.start < turns
  stays budget d h = ltb→lt d.start turns (left (ltb d.start turns) _ h)
    where
      left : (a b : Bool) → (a && b) ≡ true → a ≡ true
      left a b e = ground (arith, e)

  -- The loop keeps this, and it ends where its condition fails.
  pub drop_loop-IsSteady :
      (fuel budget : ℕ) (d out : Dropping Message)
      → drop_loop lib fuel s turns budget d ≡ some out
      → IsSteady d
      → IsSteady out × (goes_on turns budget out ≡ false)
  unfolding drop_loop
  drop_loop-IsSteady zero budget d out h v = elim (Bool-cases (goes_on turns budget d)) [
    | inl g ↦ cc (rw g at h)
    | inr g ↦
        let same : d ≡ out = cc (rw g at h) in
        subst (λ x. IsSteady x × (goes_on turns budget x ≡ false)) same (v, g)
  ]
  drop_loop-IsSteady (suc fuel) budget d out h v = elim (Bool-cases (goes_on turns budget d)) [
    | inl g ↦
        drop_loop-IsSteady fuel budget (next_unit lib s turns d) out (rw g at h)
          (next-IsSteady d v (stays budget d g))
    | inr g ↦
        let same : d ≡ out = cc (rw g at h) in
        subst (λ x. IsSteady x × (goes_on turns budget x ≡ false)) same (v, g)
  ]

  -- As many rounds as turns are left are enough.
  pub drop_loop-some :
      (fuel budget : ℕ) (d : Dropping Message)
      → turns ≤ d.start + fuel
      → IsSteady d
      → (out : Dropping Message) × (drop_loop lib fuel s turns budget d ≡ some out)
  unfolding drop_loop
  drop_loop-some zero budget d h v = elim (Bool-cases (goes_on turns budget d)) [
    | inl g ↦ let go = stays budget d g in let never : ⊥ = omega (arith, go, h) in elim never [ ]
    | inr g ↦ (d, rw g refl)
  ]
  drop_loop-some (suc fuel) budget d h v = elim (Bool-cases (goes_on turns budget d)) [
    | inl g ↦
        let go = stays budget d g in
        let rest =
          drop_loop-some fuel budget (next_unit lib s turns d)
            (let n = next_start d v go in omega (arith, n, h)) (next-IsSteady d v go) in
        (rest.0, rw g rest.1)
    | inr g ↦ (d, rw g refl)
  ]
