-- ===== src/Telegram/Interrupted.antt =====
-- sendReliable of internal/adapters/telegram/bot.go when its rounds come to an end, and when the bot
-- is closed meanwhile.
use crypto_screener.Base.{
  Bool, true, false, List, [], ◌∷◌, ◌++◌, Option, none, some, if◌then◌else◌, ◌≡◌, ◌≢◌, refl, inl,
  inr, ◌⊎◌, All, Option-cases, ap, sym, subst, ◌∙◌,
}
use crypto_screener.Base.Time.{Duration}
use crypto_screener.Telegram.{
  ApiError, Delayed, elapsed, cancelled, stopped, context_done, Round, Sent, delay_of,
  after_failure, after_answer, send_rounds, send_reliable,
}

-- A round that fails for now, and whose delay ends that way.
abbrev pub IsFailing : Delayed → Round → Type 0
IsFailing w r =
    (r.done_before ≡ false)
    × ((e : ApiError) × ((r.answer ≡ some e) × ((delay_of e ≢ none) × (r.delayed ≡ w))))

-- No attempt succeeded, and there is no error.
abbrev pub IsSilent : Sent → Type 0
IsSilent s = (s.1 ≡ some none) × All (λ a. a ≢ none) s.0

failing_round :
    (w : Delayed) (r : Round) (rounds : List Round)
    → IsFailing w r
    → (e : ApiError) × (d : Duration) × (send_rounds (r ∷ rounds)
        ≡ after_failure e (some d) w (send_rounds rounds))
unfolding send_rounds
failing_round w r rounds (open_, (e, (fails, (again, ends)))) = elim (Option-cases (delay_of e)) [
  | inl q ↦ absurd (again q)
  | inr (d, q) ↦ (
    e,
    d,
    ap
          (λ b.
            if b
            then ([], some (some context_done))
            else after_answer r.answer r.delayed (send_rounds rounds))
          open_
        ∙ ap (λ a. after_answer a r.delayed (send_rounds rounds)) fails
        ∙ ap (λ v. after_failure e (delay_of e) v (send_rounds rounds)) ends
        ∙ ap (λ o. after_failure e o w (send_rounds rounds)) q,
  )
]

IsSilent-rounds :
    (rounds : List Round) (last : Round) (later : List Round)
    → All (IsFailing elapsed) rounds
    → IsFailing stopped last
    → IsSilent (send_rounds (rounds ++ (last ∷ later)))
IsSilent-rounds [] last later h l =
    let (e, d, q) = failing_round stopped last later l in
    subst IsSilent (sym q) (refl, ((λ x. cc x), tt))
IsSilent-rounds (r ∷ rounds) last later (h, hs) l =
    let (e, d, q) = failing_round elapsed r (rounds ++ (last ∷ later)) h in
    let (verdict, answers) = IsSilent-rounds rounds last later hs l in
    subst IsSilent (sym q) (verdict, ((λ x. cc x), answers))

-- If each attempt of a reliable send failed with an error to retry, and the bot is closed during
-- the delay after the last of them, the caller gets no error although no attempt succeeded. The
-- send interval was over, the context was not done, and the delays before were over.
pub closed_while_retrying :
    (rounds : List Round) (last : Round) (later : List Round)
    → All (IsFailing elapsed) rounds
    → IsFailing stopped last
    → IsSilent (send_reliable elapsed (rounds ++ (last ∷ later)))
unfolding send_reliable
closed_while_retrying rounds last later h l = IsSilent-rounds rounds last later h l

abbrev IsOver : Option ApiError → Delayed → Type 0
IsOver a w = (a ≡ none) ⊎ (((e : ApiError) × ((a ≡ some e) × (delay_of e ≡ none))) ⊎ (w ≢ elapsed))

-- A round after which there is no other.
abbrev pub IsLast : Round → Type 0
IsLast r = (r.done_before ≡ true) ⊎ IsOver r.answer r.delayed

over_ends :
    (e : ApiError) (d : Option Duration) (w : Delayed) (rest : Sent)
    → delay_of e ≡ d
    → IsOver (some e) w
    → (after_failure e d w rest).1 ≢ none
over_ends e none w rest q h = λ x. cc x
over_ends e (some d) cancelled rest q h = λ x. cc x
over_ends e (some d) stopped rest q h = λ x. cc x
over_ends e (some d) elapsed rest q h = elim h [
  | inl sent ↦ cc sent
  | inr (inl (f, (same, final))) ↦ cc (same, final, q)
  | inr (inr more) ↦ absurd (more refl)
]

answer_ends :
    (a : Option ApiError) (w : Delayed) (rest : Sent)
    → IsOver a w
    → (after_answer a w rest).1 ≢ none
answer_ends none w rest h = λ x. cc x
answer_ends (some e) w rest h = over_ends e (delay_of e) w rest refl h

later_failure :
    (e : ApiError) (d : Option Duration) (w : Delayed) (rest : Sent)
    → rest.1 ≢ none
    → (after_failure e d w rest).1 ≢ none
later_failure e none w rest h = λ x. cc x
later_failure e (some d) elapsed rest h = h
later_failure e (some d) cancelled rest h = λ x. cc x
later_failure e (some d) stopped rest h = λ x. cc x

later_answer :
    (a : Option ApiError) (w : Delayed) (rest : Sent)
    → rest.1 ≢ none
    → (after_answer a w rest).1 ≢ none
later_answer none w rest h = λ x. cc x
later_answer (some e) w rest h = later_failure e (delay_of e) w rest h

done-if :
    (b : Bool) (s : Sent)
    → (b ≡ true) ⊎ (s.1 ≢ none)
    → (if b then ([], some (some context_done)) else s).1 ≢ none
done-if true s h = λ x. cc x
done-if false s (inl e) = cc e
done-if false s (inr n) = n

rounds_end :
    (before : List Round) (r : Round) (later : List Round)
    → IsLast r
    → (send_rounds (before ++ (r ∷ later))).1 ≢ none
unfolding send_rounds
rounds_end [] r later (inl e) = done-if r.done_before _ (inl e)
rounds_end [] r later (inr over) =
    done-if r.done_before _ (inr (answer_ends r.answer r.delayed (send_rounds later) over))
rounds_end (b ∷ before) r later h =
    done-if b.done_before _ (inr (later_answer b.answer b.delayed _ (rounds_end before r later h)))

-- A reliable send ends with a verdict, whatever rounds come before, as soon as one round brings a
-- success, an error that is not to retry, the end of the context, or a delay that is cut short.
pub send_reliable_ends :
    (w : Delayed) (before : List Round) (r : Round) (later : List Round)
    → IsLast r
    → (send_reliable w (before ++ (r ∷ later))).1 ≢ none
unfolding send_reliable
send_reliable_ends elapsed before r later h = rounds_end before r later h
send_reliable_ends cancelled before r later h = λ x. cc x
send_reliable_ends stopped before r later h = λ x. cc x
