-- ===== src/Connectors/Outcomes.antt =====
-- The outcomes of AddConnector and RemoveConnector of connector_manager.go.
use crypto_screener.Base.{
  Bool, true, false, not, List, ◌∷◌, Option, none, some, if◌then◌else◌, ◌≡◌, refl, ◌⊎◌, inl, inr,
}
use crypto_screener.Base.Eq.{text_eq, nat_eq, ==_refl}
use crypto_screener.Base.Map.{lookup, lookup-insert, lookup-delete}
use crypto_screener.Base.Text.{Text, is_empty}
use crypto_screener.Connectors.{
  ConnectorEntry, ConnectorManager, ManagerError, without, start_connector, drop_entry,
  replace_connector, connector_name, add_connector, stop_connector, remove_connector,
}

abbrev pub Unchanged : ConnectorManager → ConnectorManager × Option ManagerError → Type 0
Unchanged cm r = (e : ManagerError) × (r ≡ (cm, some e))

-- A new entry is registered and runs, in front of what ran or of what was left of it.
pub record IsAdded (cm : ConnectorManager) (name : Text)
    (r : ConnectorManager × Option ManagerError) : Type 0 where
  pub entry : ConnectorEntry
  pub rest : List ConnectorEntry
  pub no_error : r.1 ≡ none
  pub open_before : cm.stopped ≡ false
  pub named : entry.name ≡ name
  pub fresh : entry.id ≡ cm.made
  pub registered : lookup name r.0.entries ≡ some entry
  pub runs : r.0.running ≡ entry ∷ rest

pub record IsRemoved (cm : ConnectorManager) (name : Text)
    (r : ConnectorManager × Option ManagerError) : Type 0 where
  pub old : ConnectorEntry
  pub no_error : r.1 ≡ none
  pub open_before : cm.stopped ≡ false
  pub was_registered : lookup name cm.entries ≡ some old
  pub unregistered : lookup name r.0.entries ≡ none
  pub ended : r.0.running ≡ without old cm.running

module _ (cm : ConnectorManager) (P : ConnectorManager × Option ManagerError → Type 0) where
  abbrev Outcome : ConnectorManager × Option ManagerError → Type 0
  Outcome r = Unchanged cm r ⊎ P r

  Outcome-if :
      (b : Bool) (e : ManagerError) (y : ConnectorManager × Option ManagerError)
      → (b ≡ false → Outcome y)
      → Outcome (if b then (cm, some e) else y)
  Outcome-if true e y h = inl (e, refl)
  Outcome-if false e y h = h refl

start-IsAdded :
    (cm from : ConnectorManager) (name : Text)
    → cm.stopped ≡ false
    → from.made ≡ cm.made
    → IsAdded cm name (start_connector name from, none)
start-IsAdded cm from name o same = record {
  entry = record { id = from.made; name = name };
  rest = from.running;
  no_error = refl;
  open_before = o;
  named = refl;
  fresh = same;
  registered =
      rw
        (
          lookup-insert name name (record { id = from.made; name = name }) from.entries,
          ==_refl {A = Text} name,
        )
        refl;
  runs = refl;
}

replace_outcome :
    (cm : ConnectorManager) (name : Text) (in_time : Bool) (o : Option ConnectorEntry)
    → cm.stopped ≡ false
    → Outcome cm (IsAdded cm name) (replace_connector name in_time o cm)
replace_outcome cm name in_time none o = inr (start-IsAdded cm cm name o refl)
replace_outcome cm name true (some old) o =
    inr (start-IsAdded cm (drop_entry name old cm) name o refl)
replace_outcome cm name false (some old) o = inl (_, refl)

-- AddConnector either returns an error and changes nothing, or the manager was not stopped, a fresh
-- entry under the normalized name is registered and runs, and there is no error.
pub add_connector_outcome :
    (cm : ConnectorManager) (raw : Text) (present in_time : Bool)
    → Unchanged cm (add_connector cm raw present in_time)
      ⊎ IsAdded cm (connector_name raw) (add_connector cm raw present in_time)
unfolding add_connector
add_connector_outcome cm raw present in_time =
    let name = connector_name raw in
    let P = IsAdded cm name in
    Outcome-if cm P (is_empty name) _ _ (λ e. Outcome-if cm P (not present) _ _ (λ e.
      Outcome-if cm P cm.stopped _ _
        (λ o. replace_outcome cm name in_time (lookup name cm.entries) o)))

stop_outcome :
    (cm : ConnectorManager) (name : Text) (in_time : Bool) (o : Option ConnectorEntry)
    → lookup name cm.entries ≡ o
    → cm.stopped ≡ false
    → Outcome cm (IsRemoved cm name) (stop_connector name in_time o cm)
stop_outcome cm name in_time none e o = inl (_, refl)
stop_outcome cm name false (some old) e o = inl (_, refl)
stop_outcome cm name true (some old) e o = inr (record {
  old = old;
  no_error = refl;
  open_before = o;
  was_registered = e;
  unregistered = rw (lookup-delete name name cm.entries, ==_refl {A = Text} name) refl;
  ended = refl;
})

-- RemoveConnector either returns an error and changes nothing, or the manager was not stopped, the
-- entry that was registered under the normalized name is no longer registered and no longer runs,
-- and there is no error.
pub remove_connector_outcome :
    (cm : ConnectorManager) (raw : Text) (in_time : Bool)
    → Unchanged cm (remove_connector cm raw in_time)
      ⊎ IsRemoved cm (connector_name raw) (remove_connector cm raw in_time)
unfolding remove_connector
remove_connector_outcome cm raw in_time =
    let name = connector_name raw in
    let P = IsRemoved cm name in
    Outcome-if cm P (is_empty name) _ _ (λ e.
      Outcome-if cm P cm.stopped _ _
        (λ o. stop_outcome cm name in_time (lookup name cm.entries) refl o))
