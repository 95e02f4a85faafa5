-- ===== src/Connectors/Registered.antt =====
-- What runs under connector_manager.go, against the entries that it has registered.
use crypto_screener.Base.{
  ℕ, ◌≤◌, false, not, List, [], ◌∷◌, none, some, keep_if, length, ◌≡◌, refl, sym, ◌∙◌, ap, arith,
  inl, inr, Bool-cases, All, All-keep_if, subst,
}
use mathlib.Core.Option.{some-injective}
use crypto_screener.Base.Eq.{text_eq, nat_eq, ◌==◌, ==_refl}
use crypto_screener.Base.Map.{Map, lookup, insert, delete, lookup-insert, lookup-delete}
use crypto_screener.Base.Text.{Text}
use crypto_screener.Connectors.{
  ConnectorEntry, ConnectorManager, without, start_connector, drop_entry,
}

-- The connectors of one exchange that run.
abbrev pub under : Text → List ConnectorEntry → List ConnectorEntry
under name running = keep_if (λ e. e.name == name) running

abbrev pub Registered : Map Text ConnectorEntry → List ConnectorEntry → Type 0
Registered entries running = All (λ e. lookup e.name entries ≡ some e) running

abbrev pub Single : List ConnectorEntry → Type 0
Single running = (name : Text) → length (under name running) ≤ 1

-- What runs is registered until the manager stops.
pub record IsKept (cm : ConnectorManager) : Type 0 where
  pub single : Single cm.running
  pub registered : cm.stopped ≡ false → Registered cm.entries cm.running

under-without :
    (e : ConnectorEntry) (name : Text) (running : List ConnectorEntry)
    → length (under name (without e running)) ≤ length (under name running)
under-without e name [] = omega arith
under-without e name (r ∷ running) = ground (arith, under-without e name running)

pub without-Single :
    (e : ConnectorEntry) (running : List ConnectorEntry)
    → Single running
    → Single (without e running)
without-Single e running h name =
    let a = under-without e name running in let b = h name in omega arith

-- No connector of a name runs that is not registered under it.
pub under-unregistered :
    (entries : Map Text ConnectorEntry) (name : Text) (running : List ConnectorEntry)
    → lookup name entries ≡ none
    → Registered entries running
    → under name running ≡ []
under-unregistered entries name [] e h = refl
under-unregistered entries name (r ∷ running) e (h, hs) = elim (Bool-cases (r.name == name)) [
  | inl hit ↦
      let same = (text_eq.same_iff r.name name).0 hit in
      cc (sym h ∙ ap (λ n. lookup n entries) same ∙ e)
  | inr miss ↦ rw miss (under-unregistered entries name running e hs)
]

under-stopped :
    (entries : Map Text ConnectorEntry) (name : Text) (old : ConnectorEntry)
    (running : List ConnectorEntry)
    → lookup name entries ≡ some old
    → Registered entries running
    → under name (without old running) ≡ []
under-stopped entries name old [] e h = refl
under-stopped entries name old (r ∷ running) e (h, hs) =
    let rest = under-stopped entries name old running e hs in
    elim (Bool-cases (r.id == old.id)) [
      | inl hit ↦ rw hit rest
      | inr miss ↦ elim (Bool-cases (r.name == name)) [
        | inr other ↦ rw (miss, other) rest
        | inl own ↦
            let same = (text_eq.same_iff r.name name).0 own in
            let twice = sym h ∙ ap (λ n. lookup n entries) same ∙ e in
            let no = ap (λ x. x.id == old.id) (some-injective r old twice) in
            cc (sym miss ∙ no ∙ ==_refl {A = ℕ} old.id)
      ]
    ]

-- A change under a name of which nothing runs.
moved-Registered :
    (entries entries' : Map Text ConnectorEntry) (name : Text) (running : List ConnectorEntry)
    → ((k : Text) → (name == k) ≡ false → lookup k entries' ≡ lookup k entries)
    → under name running ≡ []
    → Registered entries running
    → Registered entries' running
moved-Registered entries entries' name [] moved none_ h = tt
moved-Registered entries entries' name (r ∷ running) moved none_ (h, hs) =
    elim (Bool-cases (r.name == name)) [
      | inl hit ↦ cc (rw hit at none_)
      | inr miss ↦
          let other : (name == r.name) ≡ false =
            ground (arith, text_eq.same_iff r.name name, text_eq.same_iff name r.name) in
          (
            moved r.name other ∙ h,
            moved-Registered entries entries' name running moved (rw miss at none_) hs,
          )
    ]

pub start-IsKept :
    (name : Text) (cm : ConnectorManager)
    → under name cm.running ≡ []
    → cm.stopped ≡ false
    → IsKept cm
    → IsKept (start_connector name cm)
start-IsKept name cm none_ o h =
    let e : ConnectorEntry = record { id = cm.made; name = name } in
    record {
      single = λ other. elim (Bool-cases (name == other)) [
        | inl hit ↦
            let none_' : under other cm.running ≡ [] =
              subst (λ n. under n cm.running ≡ []) ((text_eq.same_iff name other).0 hit) none_ in
            rw (hit, none_') (omega arith)
        | inr miss ↦ rw miss (h.single other)
      ];
      registered = λ o. (
        rw (lookup-insert name name e cm.entries, ==_refl {A = Text} name) refl,
        moved-Registered cm.entries (insert name e cm.entries) name cm.running
            (λ k miss. rw (lookup-insert name k e cm.entries, miss) refl) none_ (h.registered o),
      );
    }

pub drop-IsKept :
    (name : Text) (old : ConnectorEntry) (cm : ConnectorManager)
    → lookup name cm.entries ≡ some old
    → cm.stopped ≡ false
    → IsKept cm
    → IsKept (drop_entry name old cm) × (under name (without old cm.running) ≡ [])
drop-IsKept name old cm e o h =
    let gone = under-stopped cm.entries name old cm.running e (h.registered o) in
    (
      record {
        single = without-Single old cm.running h.single;
        registered = λ o.
            moved-Registered cm.entries (delete name cm.entries) name (without old cm.running)
              (λ k miss. rw (lookup-delete name k cm.entries, miss) refl) gone
              (All-keep_if _ (λ r. not (r.id == old.id)) cm.running (h.registered o));
      },
      gone,
    )

pub without-Registered :
    (name : Text) (e : ConnectorEntry) (entries : Map Text ConnectorEntry)
    (running : List ConnectorEntry)
    → Registered ((name, e) ∷ entries) running
    → Registered entries (without e running)
unfolding lookup
without-Registered name e entries [] h = tt
without-Registered name e entries (r ∷ running) (h, hs) =
    let rest = without-Registered name e entries running hs in
    elim (Bool-cases (r.id == e.id)) [
      | inl gone ↦ rw gone rest
      | inr stays ↦ elim (Bool-cases (name == r.name)) [
        | inl own ↦
            let same = ap (λ x. x.id == e.id) (some-injective e r (rw own at h)) in
            cc (sym stays ∙ sym same ∙ ==_refl {A = ℕ} e.id)
        | inr other ↦ rw stays (rw other at h, rest)
      ]
    ]
