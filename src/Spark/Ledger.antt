-- ===== src/Spark/Ledger.antt =====
-- What the payment server's replies say of the payments that were made.
use mathlib.Core.Path.{subst}
use freysa_spark_hackathon.Common.{
  ℕ, ◌≡◌, refl, ◌∙◌, ap, ◌⊎◌, inl, inr, Bool-cases, Option, none, some, List, ◌∷◌, String, Result,
  ok, err, Run, go_on, ◌>>=◌, required, lift, pure, sym,
}
use text.Mathlib.Text.{◌==◌ as str_eq}
use freysa_spark_hackathon.Json.{Json, Fields, JsonEngine, property}
use freysa_spark_hackathon.Agent.{
  Message, Choice, Tool, completed, completion_tool, get_entry, set_entry, entries_from, Agent,
  new_agent,
}
use freysa_spark_hackathon.Spark.Lightspark.{
  Lightspark, approval, interpolated, invoice_of, receipt, rejection, send_payment, execute_approve,
  execute_reject, approve_name, reject_name, approve_transfer_tool, reject_transfer_tool,
}
use freysa_spark_hackathon.Spark.Server.{spark_agent}

-- What a call of payInvoice adds to the payments that it has returned, newest first.
abbrev pub booked : Result (Option Fields) → List Fields → List Fields
booked (ok (some p)) ps = p ∷ ps
booked (ok none) ps = ps
booked (err e) ps = ps

module _ {W : Type 0} (engine : JsonEngine) (client : Lightspark W)
    (completions : List Message → List Json → Run W (List Choice)) where
  -- The payments that the client has returned so far are to be read off the world; nothing but payInvoice
  -- adds to them. Of the texts of the tools, the engine reads the receipts back, and no other.
  pub record Books : Type 0 where
    pub paid : W → List Fields
    pub by_model :
        (ms : List Message) (tools : List Json) (w : W) → paid (completions ms tools w).1 ≡ paid w
    pub by_invoice :
        (node : String) (amount : ℕ) (memo : String) (w : W)
        → paid (client.create_test_mode_invoice node amount memo w).1 ≡ paid w
    pub by_payment :
        (node invoice : String) (fee : ℕ) (w : W)
        → paid (client.pay_invoice node invoice fee w).1
          ≡ booked (client.pay_invoice node invoice fee w).0 (paid w)
    pub reads_receipt :
        (node invoice : String) (fee : ℕ) (w w' : W) (p : Fields) (reason : String)
        → client.pay_invoice node invoice fee w ≡ (ok (some p), w')
        → engine.parse (engine.stringify (receipt p reason)) ≡ some (receipt p reason)
    pub no_rejection : (explanation : String) → engine.parse (rejection explanation) ≡ none
    pub no_empty : engine.parse "" ≡ none

module _ {W : Type 0} {engine : JsonEngine} {client : Lightspark W}
    {completions : List Message → List Json → Run W (List Choice)}
    (books : Books engine client completions) where
  abbrev pub paid : W → List Fields
  paid = books.paid

  -- A tool's run that returns a receipt of the payment that it made, or makes no payment and returns no JSON.
  abbrev pub Booked : W → Result String × W → Type 0
  Booked w r =
      ((paid r.1 ≡ paid w) × ((text : String) → r.0 ≡ ok text → engine.parse text ≡ none))
      ⊎ ((p : Fields) × (reason : String) × (r.0 ≡ ok (engine.stringify (receipt p reason)))
          × (engine.parse (engine.stringify (receipt p reason)) ≡ some (receipt p reason))
          × (paid r.1 ≡ p ∷ paid w))

  paid_by :
      (reason invoice : String) (w v : W)
      → paid v ≡ paid w
      → (r : Result (Option Fields) × W) → client.pay_invoice client.node_id invoice 1000 v ≡ r
      → paid r.1 ≡ booked r.0 (paid v)
      → Booked w (
          go_on
            (λ p w'. (ok (engine.stringify (receipt p reason)), w'))
            (go_on (λ p. required p "Payment failed") r))
  paid_by reason invoice w v kept (ok (some p), w') e adds = inr (
    p,
    reason,
    refl,
    books.reads_receipt client.node_id invoice 1000 v w' p reason e,
    adds ∙ ap (λ ps. p ∷ ps) kept,
  )
  paid_by reason invoice w v kept (ok none, w') e adds = inl (adds ∙ kept, λ text h. cc)
  paid_by reason invoice w v kept (err m, w') e adds = inl (adds ∙ kept, λ text h. cc)

  invoiced_by :
      (reason : String) (w v : W) (o : Option String)
      → paid v ≡ paid w
      → Booked w (
          go_on
            (λ p w'. (ok (engine.stringify (receipt p reason)), w'))
            (go_on
              (λ i. client.pay_invoice client.node_id i 1000 >>= λ p. required p "Payment failed")
              (required o "Unable to create test invoice" v)))
  unfolding ◌>>=◌
  invoiced_by reason w v none kept = inl (kept, λ text h. cc)
  invoiced_by reason w v (some i) kept =
      paid_by reason i w v kept (client.pay_invoice client.node_id i 1000 v) refl
        (books.by_payment client.node_id i 1000 v)

  created_by :
      (reason : String) (w : W) (r : Result (Option String) × W)
      → paid r.1 ≡ paid w
      → Booked w (
          go_on
            (λ p w'. (ok (engine.stringify (receipt p reason)), w'))
            (go_on
              (λ created. required (invoice_of created) "Unable to create test invoice" >>= λ i.
                client.pay_invoice client.node_id i 1000 >>= λ p. required p "Payment failed")
              r))
  unfolding ◌>>=◌
  created_by reason w (ok created, v) kept = invoiced_by reason w v (invoice_of created) kept
  created_by reason w (err m, v) kept = inl (kept, λ text h. cc)

  approve_by :
      (r : Result (Option Json)) (w : W)
      → Booked w (
          (lift r >>= λ e. send_payment client (approval (interpolated e)) >>= λ p.
          pure (engine.stringify (receipt p (approval (interpolated e)))))
            w)
  unfolding send_payment ◌>>=◌
  approve_by (ok e) w =
      created_by (approval (interpolated e)) w
        (client.create_test_mode_invoice client.node_id 20000 (approval (interpolated e)) w)
        (books.by_invoice client.node_id 20000 (approval (interpolated e)) w)
  approve_by (err m) w = inl (refl, λ text h. cc)

  approve-Booked : (input : Json) (w : W) → Booked w (execute_approve client engine input w)
  unfolding execute_approve
  approve-Booked input w = approve_by (property input "explanation") w

  reject_by :
      (r : Result (Option Json)) (w : W)
      → Booked w ((lift r >>= λ e. pure (rejection (interpolated e))) w)
  unfolding ◌>>=◌
  reject_by (ok e) w = inl (
    refl,
    λ text h.
        let same : rejection (interpolated e) ≡ text = cc in
        ap engine.parse (sym same) ∙ books.no_rejection (interpolated e),
  )
  reject_by (err m) w = inl (refl, λ text h. cc)

  reject-Booked : (input : Json) (w : W) → Booked w (execute_reject input w)
  unfolding execute_reject
  reject-Booked input w = reject_by (property input "explanation") w

  completion-Booked : (input : Json) (w : W) → Booked w ((completion_tool W).execute input w)
  completion-Booked input w =
      inl (refl, λ text h. let same : "" ≡ text = cc in ap engine.parse (sym same) ∙ books.no_empty)

  module _ (system_prompt : String) where
    abbrev pub agent : Agent W
    agent = spark_agent engine client completions system_prompt

    registered :
        (name : String) (tool : Tool W)
        → get_entry name agent.tools_map ≡ some tool
        → (completion_tool W ≡ tool)
          ⊎ ((approve_transfer_tool client engine ≡ tool) ⊎ (reject_transfer_tool W ≡ tool))
    unfolding spark_agent new_agent entries_from set_entry get_entry approve_transfer_tool
        reject_transfer_tool
    registered name tool found = elim (Bool-cases (str_eq completed name)) [
      | inl e ↦ inl (cc (rw e at found))
      | inr e ↦ elim (Bool-cases (str_eq approve_name name)) [
        | inl f ↦ inr (inl (cc (rw (e, f) at found)))
        | inr f ↦ elim (Bool-cases (str_eq reject_name name)) [
          | inl g ↦ inr (inr (cc (rw (e, f, g) at found)))
          | inr g ↦ cc (rw (e, f, g) at found)
        ]
      ]
    ]

    pub tool-Booked :
        (name : String) (tool : Tool W)
        → get_entry name agent.tools_map ≡ some tool
        → (input : Json) (w : W) → Booked w (tool.execute input w)
    unfolding approve_transfer_tool reject_transfer_tool
    tool-Booked name tool found input w = elim (registered name tool found) [
      | inl e ↦ subst (λ t. Booked w (t.execute input w)) e (completion-Booked input w)
      | inr (inl e) ↦ subst (λ t. Booked w (t.execute input w)) e (approve-Booked input w)
      | inr (inr e) ↦ subst (λ t. Booked w (t.execute input w)) e (reject-Booked input w)
    ]
