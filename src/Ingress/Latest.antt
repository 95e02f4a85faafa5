-- ===== src/Ingress/Latest.antt =====
-- The steps of a state of latest.go, against the ticks that were submitted.
use crypto_screener.Base.{
  Bool, true, false, List, [], ◌∷◌, Option, none, some, if◌then◌else◌, ◌≡◌, refl, sym, ◌∙◌, ap, inl,
  inr, Bool-cases, All, subst,
}
use crypto_screener.Base.Eq.{text_eq, pair_eq, ◌==◌}
use crypto_screener.Base.Map.{
  Map, lookup, insert, delete, lookup-insert, lookup-delete, All-insert, All-delete,
}
use crypto_screener.Domain.Market.{MarketTick}
use crypto_screener.Ingress.{
  TickKey, Coalescer, key_of, new_state, store_tick, take_next, take_first, send_hand, send_tick,
  drain_state,
}

module _ {D : Type 0} where
  -- What happens to a state, with the ticks that were submitted, the newest first. A tick is taken
  -- when none is in hand.
  pub data Run : List (MarketTick D) → Coalescer D → Type 0 where
    starts : Run [] new_state
    submits :
        {ts : List (MarketTick D)} {a : Coalescer D} (b : Coalescer D) (t : MarketTick D)
        → Run ts a
        → b ≡ store_tick a t
        → Run (t ∷ ts) b
    takes :
        {ts : List (MarketTick D)} {a : Coalescer D} (b : Coalescer D)
        → Run ts a
        → a.in_hand ≡ none
        → b ≡ take_next a
        → Run ts b
    sends :
        {ts : List (MarketTick D)} {a : Coalescer D} (b : Coalescer D)
        → Run ts a
        → b ≡ send_tick a
        → Run ts b
    drains :
        {ts : List (MarketTick D)} {a : Coalescer D} (b : Coalescer D)
        → Run ts a
        → b ≡ drain_state a
        → Run ts b

  -- The newest tick of a key.
  abbrev pub newest : TickKey → List (MarketTick D) → Option (MarketTick D)
  newest k [] = none
  newest k (t ∷ ts) = if key_of t == k then some t else newest k ts

  abbrev pub or_else : Option (MarketTick D) → Option (MarketTick D) → Option (MarketTick D)
  or_else none o = o
  or_else (some t) o = some t

  abbrev pub held : TickKey → Option (MarketTick D) → Option (MarketTick D)
  held k none = none
  held k (some t) = if key_of t == k then some t else none

  -- What waits of a key, or else is in hand, or else was sent last.
  abbrev pub known : TickKey → Coalescer D → Option (MarketTick D)
  known k s = or_else (lookup k s.latest) (or_else (held k s.in_hand) (newest k s.sent))

  record IsNewest (ts : List (MarketTick D)) (s : Coalescer D) : Type 0 where
    pub keyed : All (λ e. key_of e.1 ≡ e.0) s.latest
    pub newest_known : s.stopped ≡ false → (k : TickKey) → known k s ≡ newest k ts

  store-known :
      (s : Coalescer D) (t : MarketTick D) (k : TickKey) (o : Option (MarketTick D))
      → or_else (lookup k (insert (key_of t) t s.latest)) o
        ≡ (if key_of t == k then some t else or_else (lookup k s.latest) o)
  store-known s t k o = elim (Bool-cases (key_of t == k)) [
    | inl hit ↦ rw (lookup-insert (key_of t) k t s.latest, hit) refl
    | inr miss ↦ rw (lookup-insert (key_of t) k t s.latest, miss) refl
  ]

  IsNewest-if :
      (ts : List (MarketTick D)) (b : Bool) (x y : Coalescer D)
      → (b ≡ true → IsNewest ts x)
      → (b ≡ false → IsNewest ts y)
      → IsNewest ts (if b then x else y)
  IsNewest-if ts true x y h k = h refl
  IsNewest-if ts false x y h k = k refl

  submits-IsNewest :
      (ts : List (MarketTick D)) (s : Coalescer D) (t : MarketTick D)
      → IsNewest ts s
      → IsNewest (t ∷ ts) (store_tick s t)
  unfolding store_tick
  submits-IsNewest ts s t h =
      IsNewest-if (t ∷ ts) s.stopped s (record s { latest = insert (key_of t) t s.latest })
        (λ shut. record { keyed = h.keyed; newest_known = λ o. cc (sym shut ∙ o) })
        (λ open_. record {
          keyed = All-insert (λ e. key_of e.1 ≡ e.0) (key_of t) t s.latest h.keyed refl;
          newest_known = λ o k.
              store-known s t k (or_else (held k s.in_hand) (newest k s.sent))
              ∙ ap (λ x. if key_of t == k then some t else x) (h.newest_known open_ k);
        })

  send-known :
      (k : TickKey) (o : Option (MarketTick D)) (t : MarketTick D) (sent : List (MarketTick D))
      → or_else o (newest k (t ∷ sent)) ≡ or_else o (or_else (held k (some t)) (newest k sent))
  send-known k o t sent = elim (Bool-cases (key_of t == k)) [
    | inl hit ↦ rw hit refl
    | inr miss ↦ rw miss refl
  ]

  sends-IsNewest :
      (ts : List (MarketTick D)) (s : Coalescer D) (o : Option (MarketTick D))
      → s.in_hand ≡ o
      → IsNewest ts s
      → IsNewest ts (send_hand o s)
  sends-IsNewest ts s none e h = h
  sends-IsNewest ts s (some t) e h = record {
    keyed = h.keyed;
    newest_known = λ open_ k.
        send-known k (lookup k s.latest) t s.sent
        ∙ ap (λ x. or_else (lookup k s.latest) (or_else (held k x) (newest k s.sent))) (sym e)
        ∙ h.newest_known open_ k;
  }

  take-known :
      (k : TickKey) (e : TickKey × MarketTick D) (rest : Map TickKey (MarketTick D))
      (o : Option (MarketTick D))
      → key_of e.1 ≡ e.0
      → or_else (lookup k (delete e.0 (e ∷ rest))) (or_else (held k (some e.1)) o)
        ≡ or_else (lookup k (e ∷ rest)) o
  unfolding lookup
  take-known k e rest o named =
      ap (λ x. or_else x (or_else (held k (some e.1)) o)) (lookup-delete e.0 k (e ∷ rest))
      ∙ ap
          (λ x.
            or_else (if e.0 == k then none else lookup k (e ∷ rest))
              (or_else (if x == k then some e.1 else none) o))
          named
      ∙ elim (Bool-cases (e.0 == k)) [ inl hit ↦ rw hit refl | inr miss ↦ rw miss refl ]

  takes-IsNewest :
      (ts : List (MarketTick D)) (s : Coalescer D) (entries : Map TickKey (MarketTick D))
      → s.latest ≡ entries
      → s.in_hand ≡ none
      → IsNewest ts s
      → IsNewest ts (take_first entries s)
  takes-IsNewest ts s [] e idle h = h
  takes-IsNewest ts s (first ∷ rest) e idle h =
      let named = subst (All (λ e. key_of e.1 ≡ e.0)) e h.keyed in
      record {
        keyed = All-delete (λ e. key_of e.1 ≡ e.0) first.0 s.latest h.keyed;
        newest_known = λ open_ k.
            ap
              (λ m.
                or_else (lookup k (delete first.0 m))
                  (or_else (held k (some first.1)) (newest k s.sent)))
              e
            ∙ take-known k first rest (newest k s.sent) named.0
            ∙ ap (λ m. or_else (lookup k m) (newest k s.sent)) (sym e)
            ∙ ap (λ x. or_else (lookup k s.latest) (or_else (held k x) (newest k s.sent)))
                (sym idle)
            ∙ h.newest_known open_ k;
      }

  drains-IsNewest :
      (ts : List (MarketTick D)) (s : Coalescer D) → IsNewest ts s → IsNewest ts (drain_state s)
  unfolding drain_state
  drains-IsNewest ts s h = record { keyed = tt; newest_known = λ o. cc }

  Run-IsNewest : (ts : List (MarketTick D)) (s : Coalescer D) → Run ts s → IsNewest ts s
  unfolding send_tick take_next lookup
  Run-IsNewest ts s starts = record { keyed = tt; newest_known = λ o k. refl }
  Run-IsNewest ts s (submits {ts = us} {a = a} b t run e) =
      rw e (submits-IsNewest us a t (Run-IsNewest us a run))
  Run-IsNewest ts s (takes {a = a} b run idle e) =
      rw e (takes-IsNewest ts a a.latest refl idle (Run-IsNewest ts a run))
  Run-IsNewest ts s (sends {a = a} b run e) =
      rw e (sends-IsNewest ts a a.in_hand refl (Run-IsNewest ts a run))
  Run-IsNewest ts s (drains {a = a} b run e) = rw e (drains-IsNewest ts a (Run-IsNewest ts a run))

  -- After any submits, takes and sends, each tick taken only when none is in hand, on a state that
  -- is not stopped, the newest tick that was submitted for a key waits in the map, or none of the
  -- key waits and it is in hand, or else it is the last of the key that was sent.
  pub newest_waits :
      (ts : List (MarketTick D)) (s : Coalescer D)
      → Run ts s
      → s.stopped ≡ false
      → (k : TickKey) → known k s ≡ newest k ts
  newest_waits ts s run o k = (Run-IsNewest ts s run).newest_known o k
