-- ===== src/Protocol.antt =====
-- The contract between the aggregator and the tracker: which routes are open and since when, and
-- how a stream of lifecycle events moves that. It mentions neither table.
use mathlib.Core.Path.{fun_ext}
use crypto_screener.Base.{
  ◌≤◌, true, List, [], ◌∷◌, ◌++◌, ◌≡◌, sym, subst, arith, if◌then◌else◌, Option, none, some,
}
use crypto_screener.Base.Eq.{text_eq, ◌==◌, list_beq_iff}
use crypto_screener.Base.Map.{Map, lookup, is_some, insert, delete, lookup-insert, lookup-delete}
use crypto_screener.Base.Text.{Text}
use crypto_screener.Base.Time.{Time}
use crypto_screener.Domain.Market.{SpreadEvent, SignalLifecycle, unset, opened, updated, closed}
use crypto_screener.Aggregator.{route_key}

-- The open routes, by key, with the time each was opened.
abbrev pub Open : Type 0
Open = Text → Option Time

-- The open routes of a table, whose entries say when they were opened.
abbrev pub opening {ℓ} : {V : Type ℓ} → (V → Time) → Option V → Option Time
opening at none = none
opening at (some v) = some (at v)

abbrev pub table {ℓ} : {V : Type ℓ} → (V → Time) → Map Text V → Open
table at m k = opening at (lookup k m)

abbrev pub with_key : Open → Text → Option Time → Open
with_key a key b k = if key == k then b else a k

-- A route opens when it is not open, and is updated or closed when it is.
abbrev pub Allows : SignalLifecycle → Option Time → Type 0
Allows unset b = ⊥
Allows opened b = b ≡ none
Allows updated b = is_some b ≡ true
Allows closed b = is_some b ≡ true

abbrev pub moved : SignalLifecycle → Time → Option Time → Option Time
moved unset ts b = b
moved opened ts b = some ts
moved updated ts b = b
moved closed ts b = none

-- An event about an open route is not dated before the route was opened.
abbrev pub NotBefore : Time → Option Time → Type 0
NotBefore ts none = Unit {0}
NotBefore ts (some at) = at ≤ ts

module _ {D : Type 0} where
  abbrev pub Legal : Open → SpreadEvent D → Type 0
  Legal a ev = Allows ev.lifecycle (a (route_key ev))

  abbrev pub step : Open → SpreadEvent D → Open
  step a ev = with_key a (route_key ev) (moved ev.lifecycle ev.timestamp (a (route_key ev)))

  -- The events, each legal where it comes, lead from one set of open routes to the other.
  abbrev pub Runs : Open → List (SpreadEvent D) → Open → Type 0
  Runs a [] b = a ≡ b
  Runs a (ev ∷ evs) b = Legal a ev × Runs (step a ev) evs b

  abbrev pub Timely : Open → List (SpreadEvent D) → Type 0
  Timely a [] = Unit {0}
  Timely a (ev ∷ evs) = NotBefore ev.timestamp (a (route_key ev)) × Timely (step a ev) evs

  pub Runs-append :
      (a b c : Open) (evs fs : List (SpreadEvent D))
      → Runs a evs b
      → Runs b fs c
      → Runs a (evs ++ fs) c
  Runs-append a b c [] fs h k = subst (λ x. Runs x fs c) (sym h) k
  Runs-append a b c (ev ∷ evs) fs (h, hs) k = (h, Runs-append (step a ev) b c evs fs hs k)

  pub Runs-to :
      (a b c : Open) (evs : List (SpreadEvent D))
      → Runs a evs b
      → ((k : Text) → b k ≡ c k)
      → Runs a evs c
  Runs-to a b c evs h e = subst (Runs a evs) (fun_ext e) h

module _ {V : Type 0} (at : V → Time) (key : Text) (v : V) (m : Map Text V) where
  pub with_key-insert : with_key (table at m) key (some (at v)) ≡ table at (insert key v m)
  with_key-insert = fun_ext (λ k. ground (arith, lookup-insert key k v m))

  -- A new value under a key, with the time of the old one.
  pub with_key-same :
      lookup key m ≡ some v
      → (w : V) → at w ≡ at v
      → with_key (table at m) key (table at m key) ≡ table at (insert key w m)
  with_key-same h w e = fun_ext (λ k. ground (arith, lookup-insert key k w m, list_beq_iff key k))

  pub insert-same :
      lookup key m ≡ some v → (w : V) → at w ≡ at v → table at m ≡ table at (insert key w m)
  insert-same h w e = fun_ext (λ k. ground (arith, lookup-insert key k w m, list_beq_iff key k))

pub with_key-delete :
    {V : Type 0} (at : V → Time) (key : Text) (m : Map Text V)
    → with_key (table at m) key none ≡ table at (delete key m)
with_key-delete at key m = fun_ext (λ k. ground (arith, lookup-delete key k m))
