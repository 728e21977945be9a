-- ===== src/Journal/Scope.antt =====
-- internal/journal/scope.go: the scope that governs a run, recorded once.
use az_agent_platform_go.Prelude.{
  Bool, true, false, ◌&&◌, ◌||◌, Option, none, some, GoString, is_empty, if◌then◌else◌,
}
use az_agent_platform_go.Journal.{Journal, Tx, bad_state, database, Owner, RunRow}
use az_agent_platform_go.Journal.Transactions.{
  ◌>>=◌, ◌>>◌, require, require_some, lock_owner, find_run, update_run, throw, put, get,
}
use az_agent_platform_go.Journal.Operations.{equals_option}

-- RunScope
pub record RunScope : Type 0 where
  pub product_version : GoString
  pub endpoint_id : GoString
  pub settings : GoString

abbrev pub is_recorded : Option GoString → Bool
is_recorded none = false
is_recorded (some v) = true

-- `settings` is the column's value.
abbrev pub has_scope : RunScope → GoString → RunRow → Bool
has_scope s settings r =
    equals_option r.product_version s.product_version
    && equals_option r.endpoint_id s.endpoint_id
    && equals_option r.settings settings

abbrev pub write_scope : Owner → RunScope → GoString → Journal → Journal
write_scope o s settings j =
    update_run o.command.run_id
      (λ (r : RunRow). record r {
        product_version = some s.product_version;
        endpoint_id = some s.endpoint_id;
        settings = some settings;
      })
      j

abbrev pub record_in : Owner → RunScope → GoString → RunRow → Tx (Unit {0})
record_in o s settings r =
    if is_recorded r.product_version
    then require (has_scope s settings r) bad_state
    else (do j ← get; put (write_scope o s settings j))

abbrev pub record_locked : Owner → RunScope → GoString → Tx (Unit {0})
record_locked o s settings = do
  lock_owner o
  j ← get
  r ← require_some (find_run o.command.run_id j) database
  record_in o s settings r

abbrev pub record_valid : Owner → RunScope → Option GoString → Tx (Unit {0})
record_valid o s none = throw bad_state
record_valid o s (some settings) =
    if is_empty s.product_version || is_empty s.endpoint_id
    then throw bad_state
    else record_locked o s settings

-- RecordRunScope; `object` reads the JSON of the settings as the column stores it, `none` for what is
-- no JSON object.
unfoldable pub record_run_scope : (GoString → Option GoString) → Owner → RunScope → Tx (Unit {0})
unfolding lock_owner
record_run_scope object o s = record_valid o s (object s.settings)
