-- ===== src/Chat/Hub/Starts.antt =====
-- Whether a tool that has announced its start is let go on.
use freysa_spark_hackathon.Common.{
  ◌≡◌, refl, sym, ap, ◌∙◌, inl, inr, ℕ, zero, suc, ◌+◌, true, false, some, List, [], ◌∷◌, ◌++◌, map,
  String, get_elem?, append_assoc, arith, Bool-cases, ok, eq_refl,
}
use native.Mathlib.Nat.{zero-add}
use freysa_spark_hackathon.Json.{JsonEngine}
use freysa_spark_hackathon.Chat.Types.{Message, ChatStorage}
use freysa_spark_hackathon.Chat.Subscriptions.{start_input}
use freysa_spark_hackathon.Chat.Hub.{
  Subscriber, Job, starting, Hub, notice, start_jobs, pre_tool_call, finish_start,
}
use freysa_spark_hackathon.Chat.Hub.Steps.{Step, start_finished}

start_jobs-mem :
    (name : String) (k n : ℕ) (ss : List Subscriber) (s : Subscriber)
    → get_elem? ss n ≡ some s
    → s.listening ≡ true
    → (earlier : List Job) × (later : List Job) × (start_jobs name k ss
        ≡ earlier ++ (starting (k + n) s.chat_id name ∷ later))
unfolding start_jobs
start_jobs-mem name k n [] s e l = cc
start_jobs-mem name k zero (t ∷ ss) s e l =
    let same : t ≡ s = cc in
    let place : k ≡ k + 0 = omega arith in
    (
      [],
      start_jobs name (suc k) ss,
      rw (same, l) (ap (λ i. starting i s.chat_id name ∷ start_jobs name (suc k) ss) place),
    )
start_jobs-mem name k (suc n) (t ∷ ss) s e l =
    let (earlier, later, found) = start_jobs-mem name (suc k) n ss s e l in
    let place : suc k + n ≡ k + suc n = omega arith in
    let found_there = rw place at found in
    elim (Bool-cases t.listening) [
      | inl h ↦ (
        starting k t.chat_id name ∷ earlier,
        later,
        rw h (ap (λ js. starting k t.chat_id name ∷ js) found_there),
      )
      | inr h ↦ (earlier, later, rw h found_there)
    ]

map-append_parts :
    {A B : Type 0} (f : A → B) (xs ys : List A) → map f (xs ++ ys) ≡ map f xs ++ map f ys
map-append_parts f [] ys = refl
map-append_parts f (x ∷ xs) ys = rw (map-append_parts f xs ys)

notice_self :
    (name : String)
    → notice name (record { tool_name = name; resolved = false })
      ≡ record { tool_name = name; resolved = true }
notice_self name = rw (eq_refl name)

module _ {W : Type 0} (storage : ChatStorage W) (engine : JsonEngine) where
  -- While a subscription listens whose chat's storage stores the start's message, a tool that announces its
  -- start and waits is let go on by one step, the end of that subscription's listener.
  pub pre_tool_call-Resolved :
      (name : String) (h : Hub W) (i : ℕ) (s : Subscriber) (m : Message) (w : W)
      → get_elem? h.subscribers i ≡ some s
      → s.listening ≡ true
      → storage.create_message s.chat_id (start_input name) h.world ≡ (ok m, w)
      → (t : Hub W) × Step storage engine (pre_tool_call name h) t
        × (t.waiters
            ≡ map (notice name) h.waiters ++ (record { tool_name = name; resolved = true } ∷ []))
  pre_tool_call-Resolved name h i s m w e l stored =
      let (earlier, later, found) = start_jobs-mem name 0 i h.subscribers s e l in
      let place = rw (zero-add i) at found in
      let waiting = pre_tool_call name h in
      let jobs : waiting.jobs ≡ (h.jobs ++ earlier) ++ (starting i s.chat_id name ∷ later) =
        ap (λ js. h.jobs ++ js) place ∙ sym (append_assoc h.jobs earlier _) in
      (
        finish_start i s.chat_id name m
            (record waiting { jobs = (h.jobs ++ earlier) ++ later; world = w }),
        start_finished (h.jobs ++ earlier) later i s.chat_id name m w jobs stored,
        map-append_parts (notice name) h.waiters _
            ∙ ap (λ ws. map (notice name) h.waiters ++ (ws ∷ [])) (notice_self name),
      )
