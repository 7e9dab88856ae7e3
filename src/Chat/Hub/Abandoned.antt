-- ===== src/Chat/Hub/Abandoned.antt =====
-- What becomes of the calls of `next` that wait when their subscription is cleaned up.
use mathlib.Core.Path.{subst}
use freysa_spark_hackathon.Common.{
  ◌≡◌, refl, sym, ap, ◌∙◌, ℕ, Bool, true, false, ◌&&◌, some, List, [], ◌∷◌, ◌++◌, String, get_elem?,
  if◌then◌else◌, append_assoc,
}
use text.Mathlib.Text.{◌==◌ as str_eq}
use native.Mathlib.Nat.{zero-add}
use native.Mathlib.Decide.{ℕ_discrete}
use freysa_spark_hackathon.Json.{JsonEngine}
use freysa_spark_hackathon.Chat.Types.{Message, ChatStorage}
use freysa_spark_hackathon.Chat.Subscriptions.{Subscription, take_next, handle_next}
use freysa_spark_hackathon.Chat.Hub.{
  Subscriber, starting, ending, Hub, modify, receive, hear, stop_listening, ask_next, start_jobs,
  end_jobs,
}
use freysa_spark_hackathon.Chat.Hub.Places.{
  get_elem?-map, get_elem?-append_left, get_elem?-modify, get_elem?-modify_other, All-append_parts,
  All-without, NoJob, start_jobs-NoJob, end_jobs-NoJob,
}
use freysa_spark_hackathon.Chat.Hub.Steps.{
  Step, subscribed, cleaned, called, emitted, awaited, tool_started, tool_ended, start_finished,
  end_finished, job_failed, world_changed, Reach, here, after,
}

-- A subscriber that was cleaned up, with these calls still waiting, after these deliveries.
abbrev pub IsWaiting : List (ℕ × Message) → List ℕ → Subscriber → Type 0
IsWaiting delivered calls s =
    (more : List ℕ) × (s.listening ≡ false)
    × (s.subscription.queue ≡ [])
    × (s.subscription.delivered ≡ delivered)
    × (s.subscription.resolvers ≡ calls ++ more)

-- The subscription at a place waits so, and no job is under way for it.
abbrev pub Abandoned : {W : Type 0} → ℕ → List (ℕ × Message) → List ℕ → Hub W → Type 0
Abandoned i delivered calls h =
    ((s : Subscriber) × (get_elem? h.subscribers i ≡ some s) × IsWaiting delivered calls s)
    × NoJob i h.jobs

take_next-waits :
    (call : ℕ) (queue : List Message) (s : Subscription)
    → queue ≡ []
    → take_next queue call s ≡ record s { resolvers = s.resolvers ++ (call ∷ []) }
take_next-waits call [] s e = refl
take_next-waits call (m ∷ ms) s e = cc

-- Nobody hears a message who does not listen.
deaf :
    (chat_id : String) (m : Message) (s : Subscriber) (b : Bool)
    → b ≡ false
    → (if b && str_eq s.chat_id chat_id then receive m s else s) ≡ s
deaf chat_id m s true e = cc
deaf chat_id m s false e = refl

module _ (d : List (ℕ × Message)) (cs : List ℕ) where
  hear-IsWaiting :
      (chat_id : String) (m : Message) (s : Subscriber)
      → IsWaiting d cs s
      → IsWaiting d cs (hear chat_id m s)
  hear-IsWaiting chat_id m s w =
      let same : hear chat_id m s ≡ s = deaf chat_id m s s.listening w.1 in
      subst (IsWaiting d cs) (sym same) w

  stop-IsWaiting : (s : Subscriber) → IsWaiting d cs s → IsWaiting d cs (stop_listening s)
  stop-IsWaiting s (more, l, q, e, r) = (more, refl, q, e, r)

  ask-IsWaiting : (call : ℕ) (s : Subscriber) → IsWaiting d cs s → IsWaiting d cs (ask_next call s)
  unfolding handle_next
  ask-IsWaiting call s (more, l, q, e, r) =
      let same = take_next-waits call s.subscription.queue s.subscription q in
      (
        more ++ (call ∷ []),
        l,
        rw same q,
        rw same e,
        rw same (ap (λ rs. rs ++ (call ∷ [])) r ∙ append_assoc cs more _),
      )

  module _ {W : Type 0} (storage : ChatStorage W) (engine : JsonEngine) (i : ℕ) where
    -- A change of the subscriber at some place keeps the one at `i` waiting, if it does where they are the
    -- same.
    modify-waits :
        (ss : List Subscriber) (j : ℕ) (f : Subscriber → Subscriber) {s : Subscriber}
        → get_elem? ss i ≡ some s
        → IsWaiting d cs s
        → ((t : Subscriber) → j ≡ i → IsWaiting d cs t → IsWaiting d cs (f t))
        → (t : Subscriber) × (get_elem? (modify ss j f) i ≡ some t) × IsWaiting d cs t
    modify-waits ss j f {s} e w keep = elim (ℕ_discrete j i) [
      | yes same ↦ (f s, rw same (get_elem?-modify ss i f e), keep s same w)
      | no other ↦ (s, get_elem?-modify_other ss j i f other ∙ e, w)
    ]

    Step-Abandoned :
        {h t : Hub W} → Step storage engine h t → Abandoned i d cs h → Abandoned i d cs t
    Step-Abandoned {h} (subscribed chat_id) ((s, e, w), n) =
        ((s, get_elem?-append_left h.subscribers _ i e, w), n)
    Step-Abandoned {h} (cleaned j) ((s, e, w), n) =
        (modify-waits h.subscribers j stop_listening e w (λ t q. stop-IsWaiting t), n)
    Step-Abandoned {h} (called j call) ((s, e, w), n) =
        (modify-waits h.subscribers j (ask_next call) e w (λ t q. ask-IsWaiting call t), n)
    Step-Abandoned {h} (emitted chat_id m) ((s, e, w), n) = (
      (
        hear chat_id m s,
        get_elem?-map (hear chat_id m) h.subscribers i e,
        hear-IsWaiting chat_id m s w,
      ),
      n,
    )
    Step-Abandoned (awaited name) a = a
    Step-Abandoned {h} (tool_started name) ((s, e, w), n) = (
      (s, e, w),
      All-append_parts _ h.jobs _ n (
          subst (λ k. NoJob k (start_jobs name 0 h.subscribers)) (zero-add i)
            (start_jobs-NoJob name 0 i h.subscribers e w.1)),
    )
    Step-Abandoned {h} (tool_ended event) ((s, e, w), n) = (
      (s, e, w),
      All-append_parts _ h.jobs _ n (
          subst (λ k. NoJob k (end_jobs h.tool_messages event 0 h.subscribers)) (zero-add i)
            (end_jobs-NoJob h.tool_messages event 0 i h.subscribers e w.1)),
    )
    Step-Abandoned {h} (start_finished earlier later j chat_id name m v e' stored) ((s, e, w), n) =
        let (other, rest) =
          All-without _ earlier (starting j chat_id name) later (subst (NoJob i) e' n) in
        (modify-waits h.subscribers j (receive m) e w (λ t q. absurd (other q)), rest)
    Step-Abandoned {h} (end_finished earlier later j chat_id event id m v e' stored)
          ((s, e, w), n) =
        let (other, rest) =
          All-without _ earlier (ending j chat_id event id) later (subst (NoJob i) e' n) in
        (modify-waits h.subscribers j (receive m) e w (λ t q. absurd (other q)), rest)
    Step-Abandoned (job_failed earlier later job v e') (a, n) =
        (a, (All-without _ earlier job later (subst (NoJob i) e' n)).1)
    Step-Abandoned (world_changed v) a = a

    -- Once a subscription is cleaned up with calls of `next` waiting, and no tool event under way for it, no
    -- order of events ever answers one of them: in every state that follows they still wait.
    pub Reach-Abandoned :
        {h t : Hub W} → Reach storage engine h t → Abandoned i d cs h → Abandoned i d cs t
    Reach-Abandoned here a = a
    Reach-Abandoned (after r st) a = Step-Abandoned st (Reach-Abandoned r a)
