-- ===== src/Journal/Recorded.antt =====
-- internal/journal/scope.go: a run's scope is written once.
use az_agent_platform_go.Prelude.{
  ◌≡◌, refl, sym, ap, subst, ◌∙◌, Bool, true, false, ◌&&◌, ◌||◌, Option, none, some, GoString,
  str_eq, str_eq_iff, str_eq_refl, is_empty, ok, ok-injective, find_row-update_rows, if◌then◌else◌,
  Bool-cases, inl, inr,
}
use native.Mathlib.Omega.{arith}
use az_agent_platform_go.Journal.{Journal, Tx, bad_state, database, Owner, RunRow}
use az_agent_platform_go.Journal.Transactions.{
  ◌>>=◌, require, require_some, lock_owner, find_run, put, get,
}
use az_agent_platform_go.Journal.Operations.{equals_option}
use az_agent_platform_go.Journal.Inversion.{
  Then-ok, next_ok, require_ok, require_some_ok, lock_owner_ok,
}
use az_agent_platform_go.Journal.Scope.{
  RunScope, is_recorded, has_scope, write_scope, record_in, record_locked, record_valid,
  record_run_scope,
}

-- The run has this scope, with these stored settings.
record IsScope (run : GoString) (s : RunScope) (settings : GoString) (k : Journal) : Type 0 where
  row : RunRow
  found : find_run run k ≡ some row
  same : has_scope s settings row ≡ true

abbrev after_run : Owner → RunScope → GoString → RunRow → Tx (Unit {0})
after_run o s settings r = record_in o s settings r

abbrev after_lock : Owner → RunScope → GoString → Tx (Unit {0})
after_lock o s settings = do
  j ← get
  r ← require_some (find_run o.command.run_id j) database
  record_in o s settings r

-- What a record that succeeds has found, in a journal that its lock has left alone.
record Passed (object : GoString → Option GoString) (o : Owner) (s : RunScope) (j k : Journal)
    : Type 0 where
  settings : GoString
  read : object s.settings ≡ some settings
  row : RunRow
  found : find_run o.command.run_id j ≡ some row
  rest : record_in o s settings row j ≡ ok (tt, k)

record_locked-Passed :
    (object : GoString → Option GoString) (o : Owner) (s : RunScope) (settings : GoString)
    (j k : Journal)
    → object s.settings ≡ some settings
    → record_locked o s settings j ≡ ok (tt, k)
    → Passed object o s j k
record_locked-Passed object o s settings j k e h =
    let a = next_ok (lock_owner o) (after_lock o s settings) j h in
    let l = lock_owner_ok o j a.1 in
    let back : after_lock o s settings j ≡ ok (tt, k) =
      subst (λ i. after_lock o s settings i ≡ ok (tt, k)) l.0 a.2 in
    let r =
      Then-ok (require_some (find_run o.command.run_id j) database) (after_run o s settings) j
        back in
    let f = require_some_ok (find_run o.command.run_id j) database j r.first in
    record {
      settings = settings;
      read = e;
      row = r.value;
      found = f.0;
      rest = subst (λ i. record_in o s settings r.value i ≡ ok (tt, k)) f.1 r.second;
    }

record_run_scope-Passed :
    (object : GoString → Option GoString) (o : Owner) (s : RunScope) (j k : Journal)
    → record_run_scope object o s j ≡ ok (tt, k)
    → Passed object o s j k
unfolding record_run_scope
record_run_scope-Passed object o s j k h = by_settings (object s.settings) refl h
  where
    by_settings :
        (v : Option GoString)
        → object s.settings ≡ v
        → record_valid o s v j ≡ ok (tt, k)
        → Passed object o s j k
    by_settings none e t = cc
    by_settings (some settings) e t =
        elim (Bool-cases (is_empty s.product_version || is_empty s.endpoint_id)) [
          | inl b ↦ cc (rw b at t)
          | inr b ↦ record_locked-Passed object o s settings j k e (rw b at t)
        ]

equals_option-is_recorded :
    (o : Option GoString) (s : GoString) → equals_option o s ≡ true → is_recorded o ≡ true
equals_option-is_recorded none s h = cc
equals_option-is_recorded (some t) s h = refl

equals_option_same :
    (o : Option GoString) (s t : GoString)
    → equals_option o s ≡ true
    → equals_option o t ≡ true
    → s ≡ t
equals_option_same none s t h k = cc
equals_option_same (some v) s t h k = sym ((str_eq_iff v s).0 h) ∙ (str_eq_iff v t).0 k

-- The parts of has_scope.
parts : (a b c : Bool) → (a && b && c) ≡ true → (a ≡ true) × (b ≡ true) × (c ≡ true)
parts a b c h = (ground (arith, h), ground (arith, h), ground (arith, h))

record_in-IsScope :
    (o : Owner) (s : RunScope) (settings : GoString) (r : RunRow) (j k : Journal)
    → find_run o.command.run_id j ≡ some r
    → record_in o s settings r j ≡ ok (tt, k)
    → IsScope o.command.run_id s settings k
record_in-IsScope o s settings r j k f h = by_recorded (is_recorded r.product_version) h
  where
    by_recorded :
        (b : Bool)
        → (if b
              then require (has_scope s settings r) bad_state
              else (do i ← get; put (write_scope o s settings i)))
            j
          ≡ ok (tt, k)
        → IsScope o.command.run_id s settings k
    by_recorded true t =
        let p = require_ok (has_scope s settings r) bad_state j t in
        record { row = r; found = ap (find_run o.command.run_id) p.1 ∙ f; same = p.0 }
    by_recorded false t =
        let at : write_scope o s settings j ≡ k = ap (λ q. q.1) (ok-injective t) in
        subst (IsScope o.command.run_id s settings) at (record {
          row = record r {
            product_version = some s.product_version;
            endpoint_id = some s.endpoint_id;
            settings = some settings;
          };
          found =
              find_row-update_rows (λ (x : RunRow). str_eq x.id o.command.run_id)
                (λ (x : RunRow). record x {
                  product_version = some s.product_version;
                  endpoint_id = some s.endpoint_id;
                  settings = some settings;
                })
                j.runs r (λ x. refl) f;
          same = ground (
            arith,
            str_eq_refl s.product_version,
            str_eq_refl s.endpoint_id,
            str_eq_refl settings,
          );
        })

abbrev pub IsSameScope : (GoString → Option GoString) → RunScope → RunScope → Type 0
IsSameScope object a b =
    (a.product_version ≡ b.product_version)
    × (a.endpoint_id ≡ b.endpoint_id)
    × (object a.settings ≡ object b.settings)

record_again :
    (p : Owner) (a b : RunScope) (first second : GoString) (r : RunRow) (k l : Journal)
    → has_scope a first r ≡ true
    → record_in p b second r k ≡ ok (tt, l)
    → (l ≡ k)
      × (a.product_version ≡ b.product_version)
      × (a.endpoint_id ≡ b.endpoint_id)
      × (first ≡ second)
record_again p a b first second r k l h t =
    let x =
      parts (equals_option r.product_version a.product_version)
        (equals_option r.endpoint_id a.endpoint_id) (equals_option r.settings first) h in
    let q : (l ≡ k) × (has_scope b second r ≡ true) =
      checked (is_recorded r.product_version)
        (equals_option-is_recorded r.product_version a.product_version x.0) t in
    let y =
      parts (equals_option r.product_version b.product_version)
        (equals_option r.endpoint_id b.endpoint_id) (equals_option r.settings second) q.1 in
    (
      q.0,
      equals_option_same r.product_version a.product_version b.product_version x.0 y.0,
      equals_option_same r.endpoint_id a.endpoint_id b.endpoint_id x.1 y.1,
      equals_option_same r.settings first second x.2 y.2,
    )
  where
    checked :
        (c : Bool)
        → c ≡ true
        → (if c
              then require (has_scope b second r) bad_state
              else (do i ← get; put (write_scope p b second i)))
            k
          ≡ ok (tt, l)
        → (l ≡ k) × (has_scope b second r ≡ true)
    checked true e u = let v = require_ok (has_scope b second r) bad_state k u in (v.1, v.0)
    checked false e u = cc

-- After a run's scope was recorded, recording one for the run again succeeds only for the same
-- scope, with settings that are stored alike, and changes nothing.
pub record_run_scope_once :
    (object : GoString → Option GoString) (o p : Owner) (a b : RunScope) (j k l : Journal)
    → record_run_scope object o a j ≡ ok (tt, k)
    → p.command.run_id ≡ o.command.run_id
    → record_run_scope object p b k ≡ ok (tt, l)
    → (l ≡ k) × IsSameScope object a b
record_run_scope_once object o p a b j k l h same t =
    let x = record_run_scope-Passed object o a j k h in
    let s = record_in-IsScope o a x.settings x.row j k x.found x.rest in
    let y = record_run_scope-Passed object p b k l t in
    let rows : some s.row ≡ some y.row =
      sym s.found ∙ ap (λ run. find_run run k) (sym same) ∙ y.found in
    let row : s.row ≡ y.row = cc rows in
    let r =
      record_again p a b x.settings y.settings y.row k l
        (subst (λ z. has_scope a x.settings z ≡ true) row s.same) y.rest in
    (r.0, (r.1, r.2, x.read ∙ ap (λ v. some v) r.3 ∙ sym y.read))
