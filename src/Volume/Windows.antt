-- ===== src/Volume/Windows.antt =====
-- What EstimateMarketVolume of volume_engine.go says of a window.
use crypto_screener.Base.{
  ℕ, zero, suc, ◌+◌, ◌-◌, ◌*◌, ◌<◌, ◌≤◌, true, not, ◌||◌, Option, none, some, eqb, eqb_iff, ◌≡◌,
  refl, sym, ap, arith, inl, inr, Bool-cases, Option-cases, subst,
}
use crypto_screener.Base.Eq.{nat_eq}
use crypto_screener.Base.Map.{Map, lookup, is_some, has_key}
use crypto_screener.Base.Time.{Time, minute}
use crypto_screener.Decimal.{Decimal, decimal_zero, add}
use crypto_screener.Volume.{VolumeSeries, VolumeBucket, unix}
use crypto_screener.Volume.Estimate.{
  VolumeEstimate, find_latest, sum_run, project, estimate_from, estimate_series,
}

module _ {D : Type 0} ⦃dec : Decimal D⦄ where
  -- The sum over a window, newest minute first, if every minute has a bucket.
  abbrev pub plus_quote : D → Option (VolumeBucket D) → D
  plus_quote total none = total
  plus_quote total (some b) = add total b.quote

  abbrev pub window_sum : ℕ → Time → Map ℕ (VolumeBucket D) → D → D
  window_sum zero t buckets total = total
  window_sum (suc n) t buckets total =
      window_sum n (t - minute) buckets (plus_quote total (lookup (unix t) buckets))

  -- Each of so many minutes up to `t` has a bucket.
  abbrev pub IsCovered : ℕ → Time → Map ℕ (VolumeBucket D) → Type 0
  IsCovered n t buckets = (i : ℕ) → i < n → has_key (unix (t - i * minute)) buckets ≡ true

  sum_run-Le :
      (n : ℕ) (t : Time) (buckets : Map ℕ (VolumeBucket D)) (total : D) (known : ℕ)
      → (sum_run n t buckets total known).1 ≤ known + n
  unfolding sum_run
  sum_run-Le zero t buckets total known = omega arith
  sum_run-Le (suc n) t buckets total known = elim (Option-cases (lookup (unix t) buckets)) [
    | inl e ↦ rw (e, sum_run) (omega arith)
    | inr (b, e) ↦
        rw (e, sum_run)
          (omega (arith, sum_run-Le n (t - minute) buckets (add total b.quote) (suc known)))
  ]

  later :
      (t : Time) (buckets : Map ℕ (VolumeBucket D)) (n : ℕ) {b : VolumeBucket D}
      → lookup (unix t) buckets ≡ some b
      → IsCovered n (t - minute) buckets
      → IsCovered (suc n) t buckets
  later t buckets n e all zero lt =
      subst (λ x. has_key (unix x) buckets ≡ true) (omega arith) (ap is_some e)
  later t buckets n e all (suc i) lt =
      subst (λ x. has_key (unix x) buckets ≡ true) (omega arith) (all i (omega arith))

  -- A run over all minutes is the sum of all of them.
  full_run :
      (n : ℕ) (t : Time) (buckets : Map ℕ (VolumeBucket D)) (total : D) (known : ℕ)
      → (sum_run n t buckets total known).1 ≡ known + n
      → ((sum_run n t buckets total known).0 ≡ window_sum n t buckets total) × IsCovered n t buckets
  unfolding sum_run
  full_run zero t buckets total known h = (refl, λ i lt. let no : ⊥ = omega arith in absurd no)
  full_run (suc n) t buckets total known h = elim (Option-cases (lookup (unix t) buckets)) [
    | inl e ↦ let no : ⊥ = omega (arith, rw (e, sum_run) at h) in absurd no
    | inr (b, e) ↦
        let h' = rw (e, sum_run) at h in
        let (sum, all) =
          full_run n (t - minute) buckets (add total b.quote) (suc known) (omega (arith, h')) in
        (rw (e, sum_run) sum, λ i lt. later t buckets n e all i lt)
  ]

  abbrev pub Covers : ℕ → Time → Map ℕ (VolumeBucket D) → VolumeEstimate D → Type 0
  Covers minutes end buckets r =
      (r.volume ≡ window_sum minutes end buckets decimal_zero) × IsCovered minutes end buckets

  project-Covers :
      (minutes : ℕ) (end : Time) (buckets : Map ℕ (VolumeBucket D))
      → let run = sum_run minutes end buckets decimal_zero 0 in
        (project minutes run).complete ≡ true → Covers minutes end buckets (project minutes run)
  unfolding project
  project-Covers minutes end buckets h =
      let run = sum_run minutes end buckets decimal_zero 0 in
      elim (Bool-cases (eqb run.1 0)) [
        | inl none_ ↦ cc (rw (none_, project) at h)
        | inr some_ ↦ elim (Bool-cases (eqb run.1 minutes)) [
          | inr part ↦ cc (rw (some_, part, project) at h)
          | inl full ↦
              rw (some_, full, project)
                (full_run minutes end buckets decimal_zero 0
                  (omega (arith, (eqb_iff run.1 minutes).0 full)))
        ]
      ]

  from_Covers :
      (minutes : ℕ) (end : Time) (buckets : Map ℕ (VolumeBucket D)) (latest : Option Time)
      → (estimate_from minutes end buckets latest).complete ≡ true
      → Covers minutes end buckets (estimate_from minutes end buckets latest)
  from_Covers minutes end buckets none h = cc h
  from_Covers minutes end buckets (some latest) h =
      elim (Bool-cases (eqb latest 0 || not (eqb latest end))) [
        | inl gap ↦ cc (rw gap at h)
        | inr now ↦
            let same : latest ≡ end = ground arith in
            rw now (
              subst
                (λ x.
                  Covers minutes end buckets
                    (project minutes (sum_run minutes x buckets decimal_zero 0)))
                (sym same) (project-Covers minutes end buckets (rw (← same) (rw now at h))))
      ]

  -- A window estimate that says it is complete is exactly the sum of the quote volumes of all
  -- minutes of the window, from the newest back, and each of these minutes has a bucket.
  pub estimate_series-Covers :
      (minutes : ℕ) (end : Time) (s : VolumeSeries D)
      → (estimate_series minutes end (some s)).complete ≡ true
      → Covers minutes end s.buckets (estimate_series minutes end (some s))
  unfolding estimate_series
  estimate_series-Covers minutes end s h =
      from_Covers minutes end s.buckets (find_latest minutes end s.buckets) h
