-- ===== src/Chat/Waiting/Ends.antt =====
-- When the wait for a subscription ends, and when its polls do.
use freysa_spark_hackathon.Common.{
  ◌≡◌, ◌≢◌, refl, ◌∙◌, ap, Bool, true, false, List, [], ◌∷◌, ◌++◌, if◌then◌else◌,
}
use freysa_spark_hackathon.Chat.Waiting.{
  Promise, pending, resolved, rejected, Wait, Event, timed_out, polled, handle_event, waiting,
  run_wait,
}

abbrev pub has_timer : List Event → Bool
has_timer [] = false
has_timer (timed_out ∷ es) = true
has_timer (polled b ∷ es) = has_timer es

-- No poll found a listener.
abbrev pub Unheard : List Event → Type 0
Unheard [] = Unit
Unheard (timed_out ∷ es) = Unheard es
Unheard (polled b ∷ es) = (b ≡ false) × Unheard es

run_wait-append :
    (es fs : List Event) (w : Wait) → run_wait (es ++ fs) w ≡ run_wait fs (run_wait es w)
unfolding run_wait
run_wait-append [] fs w = refl
run_wait-append (e ∷ es) fs w = run_wait-append es fs (handle_event e w)

abbrev polls : Promise → Wait
polls p = record { promise = p; polling = true }

Unheard-rejected : (es : List Event) → Unheard es → run_wait es (polls rejected) ≡ polls rejected
unfolding run_wait handle_event
Unheard-rejected [] h = refl
Unheard-rejected (timed_out ∷ es) h = Unheard-rejected es h
Unheard-rejected (polled b ∷ es) (e, h) = rw e (Unheard-rejected es h)

Unheard-pending :
    (es : List Event)
    → Unheard es
    → run_wait es waiting ≡ polls (if has_timer es then rejected else pending)
unfolding run_wait handle_event
Unheard-pending [] h = refl
Unheard-pending (timed_out ∷ es) h = Unheard-rejected es h
Unheard-pending (polled b ∷ es) (e, h) = rw e (Unheard-pending es h)

abbrev stopped : Promise → Wait
stopped p = record { promise = p; polling = false }

stopped_stays : (es : List Event) (p : Promise) → p ≢ pending → run_wait es (stopped p) ≡ stopped p
unfolding run_wait handle_event
stopped_stays [] p h = refl
stopped_stays (timed_out ∷ es) pending h = absurd (h refl)
stopped_stays (timed_out ∷ es) resolved h = stopped_stays es resolved h
stopped_stays (timed_out ∷ es) rejected h = stopped_stays es rejected h
stopped_stays (polled b ∷ es) p h = stopped_stays es p h

heard :
    (es fs : List Event) (b : Bool)
    → run_wait (polled true ∷ fs) (polls (if b then rejected else pending))
      ≡ stopped (if b then rejected else resolved)
unfolding run_wait handle_event
heard es fs true = stopped_stays fs rejected (λ e. cc)
heard es fs false = stopped_stays fs resolved (λ e. cc)

-- As long as no poll finds a listener, the wait ends when the timer does, but the polls go on, after the
-- timer too and without an end. With the first poll that finds a listener they stop, and the wait has
-- ended, by that poll if the timer was not before it, whatever comes later.
pub run_wait_ends :
    (before after : List Event)
    → Unheard before
    → (run_wait before waiting
        ≡ record { promise = if has_timer before then rejected else pending; polling = true })
      × (run_wait (before ++ polled true ∷ after) waiting
          ≡ record { promise = if has_timer before then rejected else resolved; polling = false })
run_wait_ends before after h =
    let unheard = Unheard-pending before h in
    (
      unheard,
      run_wait-append before (polled true ∷ after) waiting
          ∙ (ap (run_wait (polled true ∷ after)) unheard ∙ heard before after (has_timer before)),
    )
