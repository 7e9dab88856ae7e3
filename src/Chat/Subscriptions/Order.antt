-- ===== src/Chat/Subscriptions/Order.antt =====
-- The order in which a subscription gives messages to calls.
use freysa_spark_hackathon.Common.{
  ◌≡◌, refl, ◌∙◌, ◌⊎◌, inl, inr, ℕ, List, [], ◌∷◌, ◌++◌, map, append_assoc, append-nil,
}
use freysa_spark_hackathon.Chat.Types.{Message}
use freysa_spark_hackathon.Chat.Subscriptions.{
  Subscription, create_subscription, message_listener, handle_next,
}

-- What happens to a subscription: a message of its chat is emitted, or `next` is called.
pub data Event : Type 0 where
  emitted : Message → Event
  called : ℕ → Event

abbrev pub handle : Event → Subscription → Subscription
handle (emitted m) s = message_listener m s
handle (called call) s = handle_next call s

abbrev pub run_events : List Event → Subscription → Subscription
run_events [] s = s
run_events (e ∷ es) s = run_events es (handle e s)

abbrev pub messages_of : List Event → List Message
messages_of [] = []
messages_of (emitted m ∷ es) = m ∷ messages_of es
messages_of (called call ∷ es) = messages_of es

abbrev pub calls_of : List Event → List ℕ
calls_of [] = []
calls_of (emitted m ∷ es) = calls_of es
calls_of (called call ∷ es) = call ∷ calls_of es

abbrev pub call_of : ℕ × Message → ℕ
call_of d = d.0

abbrev pub message_of : ℕ × Message → Message
message_of d = d.1

-- No message waits while a call waits.
abbrev pub IsSettled : Subscription → Type 0
IsSettled s = (s.queue ≡ []) ⊎ (s.resolvers ≡ [])

-- The messages and the calls that a subscription has seen.
abbrev pub seen : Subscription → List Message
seen s = map message_of s.delivered ++ s.queue

abbrev pub asked : Subscription → List ℕ
asked s = map call_of s.delivered ++ s.resolvers

abbrev pub holding : List Message → List ℕ → List (ℕ × Message) → Subscription
holding q rs d = record { queue = q; resolvers = rs; delivered = d }

handle-holding :
    (e : Event) (q : List Message) (rs : List ℕ) (d : List (ℕ × Message))
    → IsSettled (holding q rs d)
    → IsSettled (handle e (holding q rs d))
unfolding message_listener handle_next
handle-holding (emitted m) q [] d h = inr refl
handle-holding (emitted m) q (c ∷ rs) d (inl e) = inl e
handle-holding (emitted m) q (c ∷ rs) d (inr e) = cc
handle-holding (called c) [] rs d h = inl refl
handle-holding (called c) (m ∷ q) rs d (inl e) = cc
handle-holding (called c) (m ∷ q) rs d (inr e) = inr e

pub handle-IsSettled : (e : Event) (s : Subscription) → IsSettled s → IsSettled (handle e s)
handle-IsSettled e s h = handle-holding e s.queue s.resolvers s.delivered h

map-append : {A B : Type 0} (f : A → B) (xs ys : List A) → map f (xs ++ ys) ≡ map f xs ++ map f ys
map-append f [] ys = refl
map-append f (x ∷ xs) ys = rw (map-append f xs ys)

-- What an event adds to the messages and to the calls.
abbrev pub Adds : Event → Subscription → Subscription → Type 0
Adds e s t = (seen t ≡ seen s ++ messages_of (e ∷ [])) × (asked t ≡ asked s ++ calls_of (e ∷ []))

pub handle-Adds :
    (e : Event) (q : List Message) (rs : List ℕ) (d : List (ℕ × Message))
    → IsSettled (holding q rs d)
    → Adds e (holding q rs d) (handle e (holding q rs d))
unfolding message_listener handle_next
handle-Adds (emitted m) q [] d h = (simp (append_assoc), simp (append-nil))
handle-Adds (emitted m) q (c ∷ rs) d (inl e) =
    (simp (map-append, append_assoc, append-nil, e), simp (map-append, append_assoc, append-nil))
handle-Adds (emitted m) q (c ∷ rs) d (inr e) = cc
handle-Adds (called c) [] rs d h = (simp (append-nil), simp (append_assoc))
handle-Adds (called c) (m ∷ q) rs d (inl e) = cc
handle-Adds (called c) (m ∷ q) rs d (inr e) =
    (simp (map-append, append_assoc, append-nil), simp (map-append, append_assoc, append-nil, e))

messages_of-cons :
    (e : Event) (es : List Event) → messages_of (e ∷ es) ≡ messages_of (e ∷ []) ++ messages_of es
messages_of-cons (emitted m) es = refl
messages_of-cons (called c) es = refl

calls_of-cons : (e : Event) (es : List Event) → calls_of (e ∷ es) ≡ calls_of (e ∷ []) ++ calls_of es
calls_of-cons (emitted m) es = refl
calls_of-cons (called c) es = refl

run-Adds :
    (es : List Event) (s : Subscription)
    → IsSettled s
    → IsSettled (run_events es s)
      × (seen (run_events es s) ≡ seen s ++ messages_of es)
      × (asked (run_events es s) ≡ asked s ++ calls_of es)
run-Adds [] s h = (h, simp (append-nil), simp (append-nil))
run-Adds (e ∷ es) s h =
    let (settled, messages, calls) = run-Adds es (handle e s) (handle-IsSettled e s h) in
    let (m, c) = handle-Adds e s.queue s.resolvers s.delivered h in
    (
      settled,
      messages ∙ rw (m, messages_of-cons e es) (append_assoc (seen s) _ _),
      calls ∙ rw (c, calls_of-cons e es) (append_assoc (asked s) _ _),
    )

-- However emissions and calls interleave, what the calls were given and what the queue still holds are
-- the messages that were emitted, in their order, the calls that were answered and those that wait are
-- the calls that were made, in their order, and messages and calls do not wait at the same time.
pub run_events-InOrder :
    (es : List Event)
    → let s = run_events es create_subscription in
      (map message_of s.delivered ++ s.queue ≡ messages_of es)
      × (map call_of s.delivered ++ s.resolvers ≡ calls_of es)
      × ((s.queue ≡ []) ⊎ (s.resolvers ≡ []))
unfolding create_subscription
run_events-InOrder es =
    let (settled, messages, calls) = run-Adds es create_subscription (inl refl) in
    (messages, calls, settled)
