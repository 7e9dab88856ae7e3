-- ===== src/Spark/Lightspark.antt =====
-- sendPayment of lightspark.ts, and the tools of tools/approveTransfer.ts and tools/rejectTransafer.ts.
use Prim.Native.String
use freysa_spark_hackathon.Common.{
  ℕ, true, false, Option, none, some, String, Run, pure, lift, required, ◌>>=◌, is_truthy,
  if◌then◌else◌,
}
use freysa_spark_hackathon.Json.{
  Json, null, bool, num, str, arr, obj, Items, nil, cons, Fields, end, field, JsonEngine, property,
}
use freysa_spark_hackathon.Agent.{Tool}

-- The client's calls: a node, an amount in satoshi and a memo to an invoice; a node, an invoice and the most
-- that it may cost in millisatoshi to a payment, an object.
pub record Lightspark (W : Type 0) : Type 0 where
  pub node_id : String
  pub create_test_mode_invoice : String → ℕ → String → Run W (Option String)
  pub pay_invoice : String → String → ℕ → Run W (Option Fields)

-- The text that a template literal makes of a value; objects keep the `toString` that they inherit.
unfoldable mutual
  pub text_of : Json → String
  text_of null = "null"
  text_of (bool true) = "true"
  text_of (bool false) = "false"
  text_of (num n) = n
  text_of (str s) = s
  text_of (arr items) = items_text items
  text_of (obj fields) = "[object Object]"

  pub items_text : Items → String
  items_text nil = ""
  items_text (cons null nil) = ""
  items_text (cons j nil) = text_of j
  items_text (cons null (cons k js)) = String.◌++◌ "," (items_text (cons k js))
  items_text (cons j (cons k js)) =
      String.◌++◌ (text_of j) (String.◌++◌ "," (items_text (cons k js)))

abbrev pub interpolated : Option Json → String
interpolated none = "undefined"
interpolated (some j) = text_of j

abbrev pub invoice_of : Option String → Option String
invoice_of none = none
invoice_of (some i) = if is_truthy i then some i else none

abbrev pub schema_of : String → String → String → Json
schema_of name description explanation = obj (
    field "type" (str "function") (
      field "function"
        (obj (
          field "name" (str name) (
            field "description" (str description) (
              field "parameters"
                (obj (
                  field "type" (str "object") (
                    field "properties"
                      (obj (
                        field "explanation"
                          (obj (
                            field "type" (str "string")
                              (field "description" (str explanation) end)))
                          end))
                      (field "required" (arr (cons (str "explanation") nil)) end))))
                end))))
        end))

abbrev pub approve_name : String
approve_name = "approveTransfer"

abbrev pub reject_name : String
reject_name = "rejectTransfer"

abbrev approve_schema : Json
approve_schema =
    schema_of approve_name "Approve the money transfer request and provide explanation"
      "Explanation for why the money transfer is approved"

abbrev reject_schema : Json
reject_schema =
    schema_of reject_name "Reject the money transfer request and provide explanation"
      "Explanation for why the money transfer is rejected"

abbrev pub approval : String → String
approval explanation = String.◌++◌ "Approved money transfer with explanation: " explanation

abbrev pub rejection : String → String
rejection explanation = String.◌++◌ "Rejected money transfer with explanation: " explanation

-- `{ payInvoice, reason }`.
abbrev pub receipt : Fields → String → Json
receipt payment reason = obj (field "payInvoice" (obj payment) (field "reason" (str reason) end))

module _ {W : Type 0} (client : Lightspark W) where
  unfoldable pub send_payment : String → Run W Fields
  send_payment reason = do
    created ← client.create_test_mode_invoice client.node_id 20000 reason
    invoice ← required (invoice_of created) "Unable to create test invoice"
    paid ← client.pay_invoice client.node_id invoice 1000
    required paid "Payment failed"

  unfoldable pub execute_approve : JsonEngine → Json → Run W String
  execute_approve engine input = do
    explanation ← lift (property input "explanation")
    payment ← send_payment (approval (interpolated explanation))
    pure (engine.stringify (receipt payment (approval (interpolated explanation))))

  unfoldable pub approve_transfer_tool : JsonEngine → Tool W
  approve_transfer_tool engine = record {
    name = approve_name;
    schema = approve_schema;
    execute = execute_approve engine;
  }

unfoldable pub execute_reject : {W : Type 0} → Json → Run W String
execute_reject input = do
  explanation ← lift (property input "explanation")
  pure (rejection (interpolated explanation))

unfoldable pub reject_transfer_tool : (W : Type 0) → Tool W
reject_transfer_tool W = record {
  name = reject_name;
  schema = reject_schema;
  execute = execute_reject;
}
