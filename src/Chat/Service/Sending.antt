-- ===== src/Chat/Service/Sending.antt =====
-- What a message that was sent leaves.
use freysa_spark_hackathon.Common.{
  ◌≡◌, ap, sym, ◌∙◌, none, some, [], ◌∷◌, ◌++◌, String, Result, ok, err, Run, throw, on_error,
  bind-eq-ok, required-eq-ok,
}
use freysa_spark_hackathon.Chat.Types.{Message, Chat, user}
use freysa_spark_hackathon.Chat.Service.{
  Parts, Serving, in_world, create_user_message, validate_chat, announced, send_message,
}

failing-eq-ok :
    {S A : Type 0} (e : String) (r : Result A × S) {a : A} {t : S}
    → on_error (λ _. throw e) r ≡ (ok a, t)
    → r ≡ (ok a, t)
failing-eq-ok e (ok b, s) h = h
failing-eq-ok e (err m, s) h = cc

module _ {W : Type 0} (parts : Parts W) where
  -- What an action on the world leaves of the service.
  abbrev Quiet : Serving W → Serving W → Type 0
  Quiet s t = (t.emitted ≡ s.emitted) × (t.pending ≡ s.pending)

  in_world-eq-ok :
      {A : Type 0} (m : Run W A) (s : Serving W) {a : A} {t : Serving W}
      → in_world parts m s ≡ (ok a, t)
      → (m s.world ≡ (ok a, t.world)) × Quiet s t
  unfolding in_world
  in_world-eq-ok m s e = (cc, (cc, cc))

  validate_chat-eq-ok :
      (id : String) (s : Serving W) {chat : Chat} {t : Serving W}
      → validate_chat parts id s ≡ (ok chat, t)
      → (parts.storage.get_chat id s.world ≡ (ok (some chat), t.world)) × Quiet s t
  unfolding validate_chat
  validate_chat-eq-ok id s e =
      let (found, u, got, needed) = bind-eq-ok _ _ _ e in
      let (read, (emitted, pending)) = in_world-eq-ok _ s got in
      let (is_some, same) = required-eq-ok _ _ _ needed in
      (rw (is_some, same) at read, (rw same at emitted, rw same at pending))

  announced-eq-ok :
      (chat_id : String) (n m : Message) (v t : Serving W)
      → announced parts chat_id n v ≡ (ok m, t)
      → (n ≡ m)
        × (t.world ≡ parts.while_waiting chat_id v.world)
        × (t.emitted ≡ v.emitted ++ ((chat_id, m, t.world) ∷ []))
        × (t.pending ≡ v.pending ++ (chat_id ∷ []))
  unfolding announced
  announced-eq-ok chat_id n m v t e = let same : n ≡ m = cc in (same, cc, rw (sym same) cc, cc)

  -- A message that is sent without an error was sent to a stored chat, and is stored with its text, the
  -- role of the user, no images, no tool calls and no arguments of them. The stored message is emitted to
  -- the chat in the world that the wait, which begins after the storing, leaves, and the chat's response is
  -- started.
  pub send_message-Sent :
      (chat_id text : String) (s t : Serving W) (m : Message)
      → send_message parts chat_id text s ≡ (ok m, t)
      → (chat : Chat) × (v : W) × (w : W) × (parts.storage.get_chat chat_id s.world
          ≡ (ok (some chat), v))
        × (parts.storage.create_message chat_id
              (record {
                text = some text;
                role = user;
                image_urls = some [];
                tool_calls = some [];
                tool_args = none;
              })
              v
            ≡ (ok m, w))
        × (t.world ≡ parts.while_waiting chat_id w)
        × (t.emitted ≡ s.emitted ++ ((chat_id, m, parts.while_waiting chat_id w) ∷ []))
        × (t.pending ≡ s.pending ++ (chat_id ∷ []))
  unfolding send_message create_user_message
  send_message-Sent chat_id text s t m e =
      let (chat, u, valid, rest) = bind-eq-ok _ _ _ (failing-eq-ok _ _ e) in
      let (read, (read_emitted, read_pending)) = validate_chat-eq-ok chat_id s valid in
      let (n, v, stored, done) = bind-eq-ok _ _ _ rest in
      let (wrote, (emitted, pending)) = in_world-eq-ok _ u stored in
      let (same, waited, told, started) = announced-eq-ok chat_id n m v t done in
      (
        chat,
        u.world,
        v.world,
        read,
        rw same at wrote,
        waited,
        rw (sym waited)
            (told ∙ ap (λ es. es ++ ((chat_id, m, t.world) ∷ [])) (emitted ∙ read_emitted)),
        started ∙ ap (λ ps. ps ++ (chat_id ∷ [])) (pending ∙ read_pending),
      )
