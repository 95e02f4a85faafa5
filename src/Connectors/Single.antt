-- ===== src/Connectors/Single.antt =====
-- The connectors of connector_manager.go that run, along any calls of the manager.
use crypto_screener.Base.{
  ◌≤◌, Bool, true, false, not, List, [], ◌∷◌, Option, none, some, if◌then◌else◌, length, ◌≡◌, refl,
  arith, inl, inr, Bool-cases, All-keep_if,
}
use crypto_screener.Base.Eq.{text_eq, nat_eq, ◌==◌}
use crypto_screener.Base.Map.{Map, lookup}
use crypto_screener.Base.Text.{Text, is_empty}
use crypto_screener.Connectors.{
  ConnectorEntry, ConnectorManager, new_connector_manager, without, drop_entry, replace_connector,
  connector_name, add_connector, stop_connector, remove_connector, stop_entries, stop_all,
}
use crypto_screener.Connectors.Registered.{
  under, Registered, Single, IsKept, without-Single, under-unregistered, start-IsKept, drop-IsKept,
  without-Registered,
}

-- One call on the manager, or the end of a connector's goroutines.
pub data Step (a b : ConnectorManager) : Type 0 where
  adds :
      (name : Text) (present in_time : Bool)
      → b ≡ (add_connector a name present in_time).0
      → Step a b
  removes : (name : Text) (in_time : Bool) → b ≡ (remove_connector a name in_time).0 → Step a b
  stops : (in_time : ConnectorEntry → Bool) → b ≡ (stop_all a in_time).0 → Step a b
  ends : (e : ConnectorEntry) → b ≡ record a { running = without e a.running } → Step a b

pub data Reach (a : ConnectorManager) : ConnectorManager → Type 0 where
  here : Reach a a
  next : {b c : ConnectorManager} → Reach a b → Step b c → Reach a c

replace-IsKept :
    (name : Text) (in_time : Bool) (cm : ConnectorManager) (o : Option ConnectorEntry)
    → lookup name cm.entries ≡ o
    → cm.stopped ≡ false
    → IsKept cm
    → IsKept (replace_connector name in_time o cm).0
replace-IsKept name in_time cm none e open_ h =
    start-IsKept name cm (under-unregistered cm.entries name cm.running e (h.registered open_))
      open_ h
replace-IsKept name true cm (some old) e open_ h =
    let (kept, gone) = drop-IsKept name old cm e open_ h in
    start-IsKept name (drop_entry name old cm) gone open_ kept
replace-IsKept name false cm (some old) e open_ h = h

stop-IsKept :
    (name : Text) (in_time : Bool) (cm : ConnectorManager) (o : Option ConnectorEntry)
    → lookup name cm.entries ≡ o
    → cm.stopped ≡ false
    → IsKept cm
    → IsKept (stop_connector name in_time o cm).0
stop-IsKept name in_time cm none e open_ h = h
stop-IsKept name true cm (some old) e open_ h = (drop-IsKept name old cm e open_ h).0
stop-IsKept name false cm (some old) e open_ h = h

stop_entries-Single :
    (in_time : ConnectorEntry → Bool) (entries : Map Text ConnectorEntry)
    (running : List ConnectorEntry)
    → Single running
    → Single (stop_entries in_time entries running).0
stop_entries-Single in_time [] running h = h
stop_entries-Single in_time ((name, e) ∷ entries) running h = elim (Bool-cases (in_time e)) [
  | inl ended ↦
      rw ended
        (stop_entries-Single in_time entries (without e running) (without-Single e running h))
  | inr late ↦ rw late (stop_entries-Single in_time entries running h)
]

IsKept-if :
    {E : Type 0} (b : Bool) (x y : ConnectorManager × E)
    → (b ≡ true → IsKept x.0)
    → (b ≡ false → IsKept y.0)
    → let r : ConnectorManager × E = if b then x else y in IsKept r.0
IsKept-if true x y h k = h refl
IsKept-if false x y h k = k refl

add_connector-IsKept :
    (cm : ConnectorManager) (raw : Text) (present in_time : Bool)
    → IsKept cm
    → IsKept (add_connector cm raw present in_time).0
unfolding add_connector
add_connector-IsKept cm raw present in_time h =
    let name = connector_name raw in
    IsKept-if (is_empty name) _ _ (λ e. h)
      (λ e.
        IsKept-if (not present) _ _ (λ e. h)
          (λ e.
            IsKept-if cm.stopped _ _ (λ e. h)
              (λ o. replace-IsKept name in_time cm (lookup name cm.entries) refl o h)))

remove_connector-IsKept :
    (cm : ConnectorManager) (raw : Text) (in_time : Bool)
    → IsKept cm
    → IsKept (remove_connector cm raw in_time).0
unfolding remove_connector
remove_connector-IsKept cm raw in_time h =
    let name = connector_name raw in
    IsKept-if (is_empty name) _ _ (λ e. h)
      (λ e.
        IsKept-if cm.stopped _ _ (λ e. h)
          (λ o. stop-IsKept name in_time cm (lookup name cm.entries) refl o h))

stop_all-IsKept :
    (cm : ConnectorManager) (in_time : ConnectorEntry → Bool)
    → IsKept cm
    → IsKept (stop_all cm in_time).0
unfolding stop_all
stop_all-IsKept cm in_time h =
    IsKept-if cm.stopped _ _ (λ e. h)
      (λ o. record {
        single = stop_entries-Single in_time cm.entries cm.running h.single;
        registered = λ o. cc;
      })

Step-IsKept : (a b : ConnectorManager) → Step a b → IsKept a → IsKept b
Step-IsKept a b (adds raw present in_time e) h = rw e (add_connector-IsKept a raw present in_time h)
Step-IsKept a b (removes raw in_time e) h = rw e (remove_connector-IsKept a raw in_time h)
Step-IsKept a b (stops in_time e) h = rw e (stop_all-IsKept a in_time h)
Step-IsKept a b (ends x e) h = rw e (record {
  single = without-Single x a.running h.single;
  registered = λ o. All-keep_if _ (λ r. not (r.id == x.id)) a.running (h.registered o);
})

pub Reach-IsKept : (a b : ConnectorManager) → Reach a b → IsKept a → IsKept b
Reach-IsKept a b here h = h
Reach-IsKept a b (next {b = m} path step) h = Step-IsKept m b step (Reach-IsKept a m path h)

new-IsKept : IsKept new_connector_manager
new-IsKept = record { single = λ name. omega arith; registered = λ o. tt }

-- In every state that calls of the manager lead to from a new one, whatever stops time out, at most
-- one connector of each exchange runs.
pub one_running :
    (cm : ConnectorManager)
    → Reach new_connector_manager cm
    → (name : Text) → length (under name cm.running) ≤ 1
one_running cm path name = (Reach-IsKept new_connector_manager cm path new-IsKept).single name

stop_entries-clean :
    (in_time : ConnectorEntry → Bool) (entries : Map Text ConnectorEntry)
    (running : List ConnectorEntry)
    → Registered entries running
    → (stop_entries in_time entries running).1 ≡ []
    → (stop_entries in_time entries running).0 ≡ []
unfolding lookup
stop_entries-clean in_time [] [] h clean = refl
stop_entries-clean in_time [] (r ∷ running) (h, hs) clean = cc
stop_entries-clean in_time ((name, e) ∷ entries) running h clean = elim (Bool-cases (in_time e)) [
  | inl ended ↦ rw ended (
      stop_entries-clean in_time entries (without e running)
        (without-Registered name e entries running h) (rw ended at clean))
  | inr late ↦ cc (rw late at clean)
]

-- If StopAll of a manager that was not stopped reports no error, then no connector runs after it,
-- in every state that calls of the manager lead to from a new one.
pub stopped_clean :
    (cm : ConnectorManager) (in_time : ConnectorEntry → Bool)
    → Reach new_connector_manager cm
    → cm.stopped ≡ false
    → (stop_all cm in_time).1 ≡ []
    → (stop_all cm in_time).0.running ≡ []
unfolding stop_all
stopped_clean cm in_time path o clean = rw o (
    stop_entries-clean in_time cm.entries cm.running
      ((Reach-IsKept new_connector_manager cm path new-IsKept).registered o) (rw o at clean))
