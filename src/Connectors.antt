-- ===== src/Connectors.antt =====
-- internal/app/connector_manager.go. lifecycleMu makes AddConnector and RemoveConnector one step
-- each, and the first part of StopAll another. Pointers are told apart by a number that counts the
-- entries made. `running` is not kept by the program: it is the entries whose goroutines live. How
-- the wait of `stop` ends is an argument: `in_time` says that the goroutines ended before the
-- timeout.
pub mod Registered
pub mod Single
pub mod Outcomes
use crypto_screener.Base.{
  ℕ, suc, ◌+◌, Bool, true, false, not, ◌&&◌, List, [], ◌∷◌, Option, none, some, if◌then◌else◌,
  keep_if, length, map,
}
use crypto_screener.Base.Eq.{text_eq, nat_eq, ◌==◌}
use crypto_screener.Base.Map.{Map, lookup, insert, delete}
use crypto_screener.Base.Text.{Text, trim_space, to_upper, is_empty}

pub record ConnectorEntry : Type 0 where
  pub id : ℕ
  pub name : Text

pub record ConnectorManager : Type 0 where
  pub entries : Map Text ConnectorEntry
  pub stopped : Bool
  pub stop_err : List Text
  pub running : List ConnectorEntry
  pub made : ℕ

pub data ManagerError : Type 0 where
  name_is_empty connector_is_nil manager_stopped : ManagerError
  stop_old_failed not_found stop_failed : Text → ManagerError

abbrev pub new_connector_manager : ConnectorManager
new_connector_manager = record {
  entries = [];
  stopped = false;
  stop_err = [];
  running = [];
  made = 0;
}

unfoldable pub count : ConnectorManager → ℕ
count cm = length cm.entries

abbrev pub without : ConnectorEntry → List ConnectorEntry → List ConnectorEntry
without e running = keep_if (λ r. not (r.id == e.id)) running

-- What `stop` leaves of the goroutines.
abbrev pub stop_entry : ConnectorEntry → Bool → List ConnectorEntry → List ConnectorEntry
stop_entry e in_time running = if in_time then without e running else running

-- The new entry, with its goroutines.
abbrev pub start_connector : Text → ConnectorManager → ConnectorManager
start_connector name cm =
    let e : ConnectorEntry = record { id = cm.made; name = name } in
    record cm { entries = insert name e cm.entries; running = e ∷ cm.running; made = suc cm.made }

abbrev pub drop_entry : Text → ConnectorEntry → ConnectorManager → ConnectorManager
drop_entry name e cm = record cm {
  entries = delete name cm.entries;
  running = without e cm.running;
}

abbrev pub replace_connector :
    Text → Bool → Option ConnectorEntry → ConnectorManager → ConnectorManager × Option ManagerError
replace_connector name in_time none cm = (start_connector name cm, none)
replace_connector name in_time (some old) cm =
    if in_time
    then (start_connector name (drop_entry name old cm), none)
    else (cm, some (stop_old_failed name))

abbrev pub connector_name : Text → Text
connector_name name = to_upper (trim_space name)

-- The state, and the error if there is one.
unfoldable pub add_connector :
    ConnectorManager → Text → Bool → Bool → ConnectorManager × Option ManagerError
add_connector cm raw present in_time =
    let name = connector_name raw in
    if is_empty name
    then (cm, some name_is_empty)
    else if not present
    then (cm, some connector_is_nil)
    else if cm.stopped
    then (cm, some manager_stopped)
    else replace_connector name in_time (lookup name cm.entries) cm

abbrev pub stop_connector :
    Text → Bool → Option ConnectorEntry → ConnectorManager → ConnectorManager × Option ManagerError
stop_connector name in_time none cm = (cm, some (not_found name))
stop_connector name in_time (some e) cm =
    if in_time then (drop_entry name e cm, none) else (cm, some (stop_failed name))

unfoldable pub remove_connector :
    ConnectorManager → Text → Bool → ConnectorManager × Option ManagerError
remove_connector cm raw in_time =
    let name = connector_name raw in
    if is_empty name
    then (cm, some name_is_empty)
    else if cm.stopped
    then (cm, some manager_stopped)
    else stop_connector name in_time (lookup name cm.entries) cm

-- The entries of a stopped manager, each with its own outcome: what still runs, and the names of
-- those that did not end in time.
abbrev pub stop_entries :
    (ConnectorEntry → Bool)
    → Map Text ConnectorEntry
    → List ConnectorEntry
    → List ConnectorEntry × List Text
stop_entries in_time [] running = (running, [])
stop_entries in_time ((name, e) ∷ entries) running =
    let (running', errs) = stop_entries in_time entries (stop_entry e (in_time e) running) in
    (running', if in_time e then errs else name ∷ errs)

-- A second call returns what the first found.
unfoldable pub stop_all : ConnectorManager → (ConnectorEntry → Bool) → ConnectorManager × List Text
stop_all cm in_time =
    let (running', errs) = stop_entries in_time cm.entries cm.running in
    if cm.stopped
    then (cm, cm.stop_err)
    else (record cm { entries = []; stopped = true; stop_err = errs; running = running' }, errs)
