-- ===== src/Chat/Hub/Settled.antt =====
-- Whoever listens is given the messages of its chat, and nobody else is.
use mathlib.Core.Path.{subst}
use freysa_spark_hackathon.Common.{
  ◌≡◌, refl, sym, ◌∙◌, inl, inr, ℕ, zero, suc, Bool, true, false, none, some, List, [], ◌∷◌, ◌++◌,
  map, String, get_elem?, All, if◌then◌else◌, append-nil, Bool-cases,
}
use freysa_spark_hackathon.Json.{JsonEngine}
use freysa_spark_hackathon.Chat.Types.{Message, ChatStorage}
use freysa_spark_hackathon.Chat.Subscriptions.{create_subscription}
use freysa_spark_hackathon.Chat.Subscriptions.Order.{
  emitted as message_event, called as call_event, IsSettled, seen, asked, handle-IsSettled,
  handle-Adds,
}
use freysa_spark_hackathon.Chat.Hub.{Subscriber, Hub, modify, receive, hears, hear, emit_to_chat}
use freysa_spark_hackathon.Chat.Hub.Places.{get_elem?-map, All-append_parts}
use freysa_spark_hackathon.Chat.Hub.Steps.{
  Step, subscribed, cleaned, called, emitted, awaited, tool_started, tool_ended, start_finished,
  end_finished, job_failed, world_changed, Reach, here, after,
}

-- Before any subscription is made.
abbrev pub empty_hub : {W : Type 0} → W → Hub W
empty_hub w = record {
  subscribers = [];
  tool_messages = λ key. none;
  jobs = [];
  waiters = [];
  world = w;
}

abbrev SubscriberSettled : Subscriber → Type 0
SubscriberSettled s = IsSettled s.subscription

abbrev HubSettled : {W : Type 0} → Hub W → Type 0
HubSettled h = All SubscriberSettled h.subscribers

module _ {A : Type 0} (P : A → Type 0) where
  All-map_self :
      (f : A → A) → ((x : A) → P x → P (f x)) → (xs : List A) → All P xs → All P (map f xs)
  All-map_self f keep [] h = tt
  All-map_self f keep (x ∷ xs) (p, h) = (keep x p, All-map_self f keep xs h)

  All-modify :
      (f : A → A)
      → ((x : A) → P x → P (f x))
      → (xs : List A) (i : ℕ) → All P xs
      → All P (modify xs i f)
  All-modify f keep [] i h = tt
  All-modify f keep (x ∷ xs) zero (p, h) = (keep x p, h)
  All-modify f keep (x ∷ xs) (suc i) (p, h) = (p, All-modify f keep xs i h)

  All-get_elem? : (xs : List A) (i : ℕ) {x : A} → All P xs → get_elem? xs i ≡ some x → P x
  All-get_elem? [] i h e = cc
  All-get_elem? (y ∷ xs) zero {x} (p, h) e = let same : y ≡ x = cc in subst P same p
  All-get_elem? (y ∷ xs) (suc i) (p, h) e = All-get_elem? xs i h e

receive-Settled :
    (m : Message) (s : Subscriber) → SubscriberSettled s → SubscriberSettled (receive m s)
receive-Settled m s h = handle-IsSettled (message_event m) s.subscription h

hear-yes :
    (chat_id : String) (m : Message) (s : Subscriber)
    → hears chat_id s ≡ true
    → hear chat_id m s ≡ receive m s
hear-yes chat_id m s e = go (hears chat_id s) e
  where
    go : (b : Bool) → b ≡ true → (if b then receive m s else s) ≡ receive m s
    go true e = refl
    go false e = cc

hear-no :
    (chat_id : String) (m : Message) (s : Subscriber)
    → hears chat_id s ≡ false
    → hear chat_id m s ≡ s
hear-no chat_id m s e = go (hears chat_id s) e
  where
    go : (b : Bool) → b ≡ false → (if b then receive m s else s) ≡ s
    go true e = cc
    go false e = refl

hear-Settled :
    (chat_id : String) (m : Message) (s : Subscriber)
    → SubscriberSettled s
    → SubscriberSettled (hear chat_id m s)
hear-Settled chat_id m s h = elim (Bool-cases (hears chat_id s)) [
  | inl e ↦ subst SubscriberSettled (sym (hear-yes chat_id m s e)) (receive-Settled m s h)
  | inr e ↦ subst SubscriberSettled (sym (hear-no chat_id m s e)) h
]

-- What an emission does to a subscriber that hears it: it has seen one message more, and a call waits for it
-- only if no message does. Any other subscriber is as it was.
abbrev pub Heard : Bool → Message → Subscriber → Subscriber → Type 0
Heard true m s t =
    (seen t.subscription ≡ seen s.subscription ++ (m ∷ []))
    × (asked t.subscription ≡ asked s.subscription)
    × IsSettled t.subscription
Heard false m s t = t ≡ s

hear-Heard :
    (b : Bool) (m : Message) (s : Subscriber)
    → SubscriberSettled s
    → Heard b m s (if b then receive m s else s)
hear-Heard true m s h =
    let q = s.subscription in
    let (new, old) = handle-Adds (message_event m) q.queue q.resolvers q.delivered h in
    (new, old ∙ append-nil _, receive-Settled m s h)
hear-Heard false m s h = refl

module _ {W : Type 0} (storage : ChatStorage W) (engine : JsonEngine) where
  Step-Settled : {h t : Hub W} → Step storage engine h t → HubSettled h → HubSettled t
  unfolding create_subscription
  Step-Settled {h} (subscribed chat_id) a = All-append_parts _ h.subscribers _ a (inl refl, tt)
  Step-Settled {h} (cleaned i) a = All-modify SubscriberSettled _ (λ s p. p) h.subscribers i a
  Step-Settled {h} (called i call) a =
      All-modify SubscriberSettled _ (λ s p. handle-IsSettled (call_event call) s.subscription p)
        h.subscribers i a
  Step-Settled {h} (emitted chat_id m) a =
      All-map_self SubscriberSettled _ (hear-Settled chat_id m) h.subscribers a
  Step-Settled (awaited name) a = a
  Step-Settled (tool_started name) a = a
  Step-Settled (tool_ended event) a = a
  Step-Settled {h} (start_finished earlier later i chat_id name m w e stored) a =
      All-modify SubscriberSettled _ (receive-Settled m) h.subscribers i a
  Step-Settled {h} (end_finished earlier later i chat_id event id m w e stored) a =
      All-modify SubscriberSettled _ (receive-Settled m) h.subscribers i a
  Step-Settled (job_failed earlier later job w e) a = a
  Step-Settled (world_changed w) a = a

  Reach-Settled : {h t : Hub W} → Reach storage engine h t → HubSettled h → HubSettled t
  Reach-Settled here a = a
  Reach-Settled (after r st) a = Step-Settled st (Reach-Settled r a)

  -- In every state that the service reaches, whatever happened before, a message that is emitted to a chat
  -- is given to each listening subscription of this chat, after all it has seen, and to no other; a call
  -- waits there afterwards only if no message does.
  pub emit_to_chat-Heard :
      {h : Hub W} (w : W) (chat_id : String) (m : Message) (i : ℕ) (s : Subscriber)
      → Reach storage engine (empty_hub w) h
      → get_elem? h.subscribers i ≡ some s
      → (t : Subscriber) × (get_elem? (emit_to_chat chat_id m h).subscribers i ≡ some t)
        × Heard (hears chat_id s) m s t
  emit_to_chat-Heard {h} w chat_id m i s r e = (
    hear chat_id m s,
    get_elem?-map (hear chat_id m) h.subscribers i e,
    hear-Heard (hears chat_id s) m s
        (All-get_elem? SubscriberSettled h.subscribers i (Reach-Settled r tt) e),
  )
