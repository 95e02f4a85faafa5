-- ===== src/Startup/Complete.antt =====
-- NewApplication and the whole of Run of internal/app/app.go: what a start that succeeds leaves,
-- and one that fails.
use crypto_screener.Base.{
  Bool, true, false, not, List, [], ◌∷◌, Option, none, some, if◌then◌else◌, ◌≡◌, refl, inl, inr,
  All, sym, subst, Bool-cases, arith, ap,
}
use crypto_screener.Base.Eq.{text_eq}
use crypto_screener.Base.Map.{
  Map, lookup, insert, delete, has_key, is_some, lookup-insert, lookup-delete,
}
use crypto_screener.Base.Text.{Text, is_empty}
use crypto_screener.Connectors.{
  ConnectorEntry, ConnectorManager, ManagerError, add_connector, connector_name, replace_connector,
}
use crypto_screener.Connectors.Outcomes.{add_connector_outcome}
use crypto_screener.Commands.{Application}
use crypto_screener.Startup.{RunError, supported_exchanges}
use crypto_screener.Startup.Run.{
  RunResult, next_connector, start_one, start_connectors, start_if, accept,
}

abbrev pub IsRegistered : ConnectorManager → Text → Type 0
IsRegistered cm name = has_key (connector_name name) cm.entries ≡ true

-- The exchanges that a factory has to provide.
abbrev pub wanted : Option (Text → Bool) → List Text
wanted none = []
wanted (some factory) = supported_exchanges

insert-has_key :
    (k name : Text) (e : ConnectorEntry) (m : Map Text ConnectorEntry)
    → has_key k m ≡ true
    → has_key k (insert name e m) ≡ true
insert-has_key k name e m h = ground (arith, lookup-insert name k e m)

replaced-has_key :
    (k name : Text) (e : ConnectorEntry) (m : Map Text ConnectorEntry)
    → has_key k m ≡ true
    → has_key k (insert name e (delete name m)) ≡ true
replaced-has_key k name e m h =
    ground (arith, lookup-insert name k e (delete name m), lookup-delete name k m)

replace_connector-kept :
    (k name : Text) (t : Bool) (o : Option ConnectorEntry) (cm : ConnectorManager)
    → has_key k cm.entries ≡ true
    → has_key k (replace_connector name t o cm).0.entries ≡ true
replace_connector-kept k name t none cm h = insert-has_key k name _ cm.entries h
replace_connector-kept k name true (some old) cm h = replaced-has_key k name _ cm.entries h
replace_connector-kept k name false (some old) cm h = h

kept-if :
    (k : Text) (cm : ConnectorManager) (b : Bool) (e : ManagerError)
    (y : ConnectorManager × Option ManagerError)
    → has_key k cm.entries ≡ true
    → has_key k y.0.entries ≡ true
    → has_key k (if b then (cm, some e) else y).0.entries ≡ true
kept-if k cm true e y h j = h
kept-if k cm false e y h j = j

-- AddConnector keeps every name that is registered.
add_connector-kept :
    (k raw : Text) (p t : Bool) (cm : ConnectorManager)
    → has_key k cm.entries ≡ true
    → has_key k (add_connector cm raw p t).0.entries ≡ true
unfolding add_connector
add_connector-kept k raw p t cm h =
    let name = connector_name raw in
    kept-if k cm (is_empty name) _ _ h (
      kept-if k cm (not p) _ _ h (
        kept-if k cm cm.stopped _ _ h
          (replace_connector-kept k name t (lookup name cm.entries) cm h)))

-- Without an error the name is registered afterwards.
add_connector-IsRegistered :
    (raw : Text) (t : Bool) (cm : ConnectorManager)
    → (add_connector cm raw true t).1 ≡ none
    → IsRegistered (add_connector cm raw true t).0 raw
add_connector-IsRegistered raw t cm e = elim (add_connector_outcome cm raw true t) [
  | inl (err, failed) ↦ cc (ap (λ r. r.1) failed, e)
  | inr added ↦ ap is_some added.registered
]

module _ {D : Type 0} where
  -- All names are registered, or else the commands are not accepted.
  abbrev pub Done : List Text → Application D × Option RunError → Type 0
  Done names (a, none) = All (IsRegistered a.conn_manager) names
  Done names (a, some e) = a.accepting ≡ false

  abbrev Keeps : Text → Application D × Option RunError → Type 0
  Keeps k (a, none) = has_key k a.conn_manager.entries ≡ true
  Keeps k (a, some e) = Unit {0}

  module _ (ends : Bool) (in_time : ConnectorEntry → Bool) (factory : Text → Bool) where
    next-Done :
        (name : Text) (a : Application D) (r : ConnectorManager × Option ManagerError)
        → (r.1 ≡ none → IsRegistered r.0 name)
        → Done (name ∷ []) (next_connector ends in_time name a r)
    next-Done name a (cm, none) h = (h refl, tt)
    next-Done name a (cm, some e) h = refl

    start_one-Done :
        (name : Text) (a : Application D) → Done (name ∷ []) (start_one ends in_time factory name a)
    unfolding start_one
    start_one-Done name a = elim (Bool-cases (factory name)) [
      | inr e ↦ rw (start_one, e) refl
      | inl e ↦
          rw (start_one, e)
            (next-Done name a (add_connector a.conn_manager name true ends)
              (add_connector-IsRegistered name ends a.conn_manager))
    ]

    next-Keeps :
        (k name : Text) (a : Application D) (r : ConnectorManager × Option ManagerError)
        → has_key k r.0.entries ≡ true
        → Keeps k (next_connector ends in_time name a r)
    next-Keeps k name a (cm, none) h = h
    next-Keeps k name a (cm, some e) h = tt

    start_one-Keeps :
        (k name : Text) (a : Application D)
        → has_key k a.conn_manager.entries ≡ true
        → Keeps k (start_one ends in_time factory name a)
    unfolding start_one
    start_one-Keeps k name a h = elim (Bool-cases (factory name)) [
      | inr e ↦ rw (start_one, e) tt
      | inl e ↦
          rw (start_one, e)
            (next-Keeps k name a (add_connector a.conn_manager name true ends)
              (add_connector-kept k name true ends a.conn_manager h))
    ]

    -- The rest of the loop, after one exchange.
    abbrev pub go_on : List Text → Application D × Option RunError → Application D × Option RunError
    go_on names (b, some e) = (b, some e)
    go_on names (b, none) = start_connectors ends in_time factory names b

    go_on-eq :
        (names : List Text) (r : Application D × Option RunError)
        → elim r.1 [
          | some e ↦ (r.0, some e)
          | none ↦ start_connectors ends in_time factory names r.0
        ]
          ≡ go_on names r
    go_on-eq names (b, none) = refl
    go_on-eq names (b, some e) = refl

    pub unroll :
        (name : Text) (names : List Text) (a : Application D)
        → start_connectors ends in_time factory (name ∷ names) a
          ≡ go_on names (start_one ends in_time factory name a)
    unfolding start_connectors
    unroll name names a = go_on-eq names (start_one ends in_time factory name a)

    go_on-Keeps :
        (k : Text) (names : List Text) (r : Application D × Option RunError)
        → ((b : Application D)
            → has_key k b.conn_manager.entries ≡ true
            → Keeps k (start_connectors ends in_time factory names b))
        → Keeps k r
        → Keeps k (go_on names r)
    go_on-Keeps k names (b, some e) later h = tt
    go_on-Keeps k names (b, none) later h = later b h

    start_connectors-Keeps :
        (k : Text) (names : List Text) (a : Application D)
        → has_key k a.conn_manager.entries ≡ true
        → Keeps k (start_connectors ends in_time factory names a)
    unfolding start_connectors
    start_connectors-Keeps k [] a h = h
    start_connectors-Keeps k (name ∷ names) a h = subst (Keeps k) (sym (unroll name names a)) (
        go_on-Keeps k names (start_one ends in_time factory name a) (start_connectors-Keeps k names)
          (start_one-Keeps k name a h))

    both-Done :
        (name : Text) (names : List Text) (r : Application D × Option RunError)
        → Done names r
        → Keeps (connector_name name) r
        → Done (name ∷ names) r
    both-Done name names (b, some e) h k = h
    both-Done name names (b, none) h k = (k, h)

    go_on-Done :
        (name : Text) (names : List Text) (r : Application D × Option RunError)
        → ((b : Application D) → Done names (start_connectors ends in_time factory names b))
        → Done (name ∷ []) r
        → Done (name ∷ names) (go_on names r)
    go_on-Done name names (b, some e) later h = h
    go_on-Done name names (b, none) later h =
        both-Done name names (start_connectors ends in_time factory names b) (later b)
          (start_connectors-Keeps (connector_name name) names b h.0)

    start_connectors-Done :
        (names : List Text) (a : Application D)
        → Done names (start_connectors ends in_time factory names a)
    unfolding start_connectors
    start_connectors-Done [] a = tt
    start_connectors-Done (name ∷ names) a =
        subst (Done (name ∷ names)) (sym (unroll name names a)) (
          go_on-Done name names (start_one ends in_time factory name a)
            (start_connectors-Done names) (start_one-Done name a))

  -- A start without an error accepts commands and has every wanted exchange registered, and one with
  -- an error does not accept any.
  abbrev pub IsComplete : List Text → RunResult D → Type 0
  IsComplete names (r, none) =
      (r.started ≡ true) × (r.app.accepting ≡ true) × All (IsRegistered r.app.conn_manager) names
  IsComplete names (r, some e) = r.app.accepting ≡ false

  pub accept-IsComplete :
      (names : List Text) (r : Application D × Option RunError)
      → Done names r
      → IsComplete names (accept r)
  accept-IsComplete names (a, none) h = (refl, refl, h)
  accept-IsComplete names (a, some e) h = h

  pub start_if-Done :
      (ends : Bool) (in_time : ConnectorEntry → Bool) (factory : Option (Text → Bool))
      (a : Application D)
      → Done (wanted factory) (start_if ends in_time factory a)
  start_if-Done ends in_time none a = tt
  start_if-Done ends in_time (some factory) a =
      start_connectors-Done ends in_time factory supported_exchanges a
