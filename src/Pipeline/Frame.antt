-- ===== src/Pipeline/Frame.antt =====
-- A stream about some keys only, seen by a table that knows other keys too.
use crypto_screener.Base.{
  Bool, true, false, List, [], ◌∷◌, ◌≡◌, refl, sym, ◌∙◌, ap, subst, arith, Option, inl, inr,
  Bool-cases, All,
}
use crypto_screener.Base.Eq.{text_eq, list_beq_iff, list_beq}
use crypto_screener.Base.Text.{Text}
use crypto_screener.Base.Time.{Time}
use crypto_screener.Domain.Market.{SpreadEvent, SignalLifecycle, unset, opened, updated, closed}
use crypto_screener.Aggregator.{route_key}
use crypto_screener.Protocol.{Open, Runs, Timely, NotBefore, step, moved}

-- The routes that a stream of events leaves open.
abbrev pub after : {D : Type 0} → Open → List (SpreadEvent D) → Open
after a [] = a
after a (ev ∷ evs) = after (step a ev) evs

-- Two sets of open routes agree on the keys of a class.
abbrev pub Agree : (Text → Bool) → Open → Open → Type 0
Agree mine a b = (k : Text) → mine k ≡ true → a k ≡ b k

abbrev pub About : {D : Type 0} → (Text → Bool) → SpreadEvent D → Type 0
About mine ev = mine (route_key ev) ≡ true

module _ {D : Type 0} (mine : Text → Bool) where
  step-Agree :
      (a b : Open) (ev : SpreadEvent D)
      → About mine ev
      → Agree mine a b
      → Agree mine (step a ev) (step b ev)
  step-Agree a b ev own h k m =
      ground (arith, list_beq_iff (route_key ev) k, h (route_key ev) own, h k m)

  step_elsewhere :
      (b : Open) (ev : SpreadEvent D) (k : Text)
      → About mine ev
      → mine k ≡ false
      → step b ev k ≡ b k
  step_elsewhere b ev k own other = elim (Bool-cases (list_beq (route_key ev) k)) [
    | inl hit ↦ cc (ap mine ((list_beq_iff (route_key ev) k).0 hit), own, other)
    | inr miss ↦ rw miss
  ]

  -- What is legal for the one is legal for the other, with the same result.
  pub Runs-frame :
      (a b c : Open) (evs : List (SpreadEvent D))
      → All (About mine) evs
      → Agree mine a b
      → Runs a evs c
      → Runs b evs (after b evs) × Agree mine c (after b evs)
  Runs-frame a b c [] own h r = (refl, λ k m. sym (ap (λ x. x k) r) ∙ h k m)
  Runs-frame a b c (ev ∷ evs) (own, owns) h (legal, r) =
      let (runs, agree) =
        Runs-frame (step a ev) (step b ev) c evs owns (step-Agree a b ev own h) r in
      ((rw (← h (route_key ev) own) legal, runs), agree)

  pub Timely-frame :
      (a b : Open) (evs : List (SpreadEvent D))
      → All (About mine) evs
      → Agree mine a b
      → Timely a evs
      → Timely b evs
  Timely-frame a b [] own h t = tt
  Timely-frame a b (ev ∷ evs) (own, owns) h (now, t) = (
    subst (NotBefore ev.timestamp) (h (route_key ev) own) now,
    Timely-frame (step a ev) (step b ev) evs owns (step-Agree a b ev own h) t,
  )

  -- The other keys keep their routes.
  pub after_elsewhere :
      (b : Open) (evs : List (SpreadEvent D)) (k : Text)
      → All (About mine) evs
      → mine k ≡ false
      → after b evs k ≡ b k
  after_elsewhere b [] k own other = refl
  after_elsewhere b (ev ∷ evs) k (own, owns) other =
      after_elsewhere (step b ev) evs k owns other ∙ step_elsewhere b ev k own other

-- If no route was opened after `now` and all events carry that date, each is in time.
abbrev pub OpenedBy : Time → Open → Type 0
OpenedBy now a = (k : Text) → NotBefore now (a k)

moved-NotBefore :
    (now ts : Time) (l : SignalLifecycle) (b : Option Time)
    → ts ≡ now
    → NotBefore now b
    → NotBefore now (moved l ts b)
moved-NotBefore now ts unset b e h = h
moved-NotBefore now ts opened b e h = omega arith
moved-NotBefore now ts updated b e h = h
moved-NotBefore now ts closed b e h = tt

-- A date that no opening of a route passes, no event of that date passes either.
step-NotBefore :
    {D : Type 0} (now : Time) (a : Open) (ev : SpreadEvent D) (k : Text)
    → ev.timestamp ≡ now
    → NotBefore now (a k)
    → NotBefore now (step a ev k)
step-NotBefore now a ev k e h = elim (Bool-cases (list_beq (route_key ev) k)) [
  | inl hit ↦ rw hit (
      moved-NotBefore now ev.timestamp ev.lifecycle (a (route_key ev)) e
        (rw ((list_beq_iff (route_key ev) k).0 hit) h))
  | inr miss ↦ rw miss h
]

pub Runs-NotBefore :
    {D : Type 0} (now : Time) (a b : Open) (evs : List (SpreadEvent D)) (k : Text)
    → All (λ ev. ev.timestamp ≡ now) evs
    → Runs a evs b
    → NotBefore now (a k)
    → NotBefore now (b k)
Runs-NotBefore now a b [] k d r h = subst (λ x. NotBefore now (x k)) r h
Runs-NotBefore now a b (ev ∷ evs) k (e, es) (legal, r) h =
    Runs-NotBefore now (step a ev) b evs k es r (step-NotBefore now a ev k e h)

pub Timely-at :
    {D : Type 0} (now : Time) (a : Open) (evs : List (SpreadEvent D))
    → All (λ ev. ev.timestamp ≡ now) evs
    → OpenedBy now a
    → Timely a evs
Timely-at now a [] d h = tt
Timely-at now a (ev ∷ evs) (e, es) h = (
  subst (λ x. NotBefore x (a (route_key ev))) (sym e) (h (route_key ev)),
  Timely-at now (step a ev) evs es (λ k. step-NotBefore now a ev k e (h k)),
)
