-- ===== src/Spark/Page.antt =====
-- The page of agent/examples/public/app.js: what it shows, and its functions. The HTML that
-- formatAgentResponse makes of a text is kept as that text.
pub mod Answers
pub mod Traffic
pub mod Waiting
pub mod Payments
mod Examples
use Prim.Native.String.{[] as no_text, ◌∷◌ as ◌∷ₜ◌, ◌++◌ as ◌++ₜ◌}
use Prim.Native.Char.{Char, code}
use text.Mathlib.Text.{◌==◌ as str_eq}
use freysa_spark_hackathon.Common.{
  ℕ, suc, ◌+◌, ◌-◌, Bool, true, false, ◌&&◌, ◌||◌, ◌==◌, leb, Option, none, some, List, [], ◌∷◌,
  ◌++◌, String, Result, ok, err, Run, pure, lift, catch, ◌>>=◌, ◌>>◌, is_truthy, if◌then◌else◌,
}
use freysa_spark_hackathon.Json.{Json, null, bool, num, str, arr, obj, property, truthy_property}
use freysa_spark_hackathon.Utils.Chunker.{is_space}
use freysa_spark_hackathon.Spark.Lightspark.{text_of}

pub data Status : Type 0 where
  idle thinking error : Status

-- `textContent`, or the argument of formatAgentResponse.
pub data Shown : Type 0 where
  plain formatted : String → Shown

-- A message of the chat history.
pub data Entry : Type 0 where
  user agent : Shown → Entry

-- `payment` is paymentInfo, absent where it is null or undefined; `timers` counts the timeouts that are
-- pending.
pub record Page : Type 0 where
  pub status : Status
  pub history : List Entry
  pub input : String
  pub disabled : Bool
  pub approved : Bool
  pub payment : Option Json
  pub details : String
  pub modal_open : Bool
  pub timers : ℕ

abbrev pub status_text : Status → String
status_text idle = "Idle"
status_text thinking = "Processing..."
status_text error = "Error"

abbrev pub loaded : Page
loaded = record {
  status = idle;
  history = [];
  input = "";
  disabled = false;
  approved = false;
  payment = none;
  details = "";
  modal_open = false;
  timers = 0;
}

-- `trim` removes the same characters as it does in chunkText.
unfoldable pub trim_start : String → String
trim_start no_text = no_text
trim_start (c ∷ₜ s) = let rest = trim_start s in if is_space (code c) then rest else c ∷ₜ s

unfoldable pub trim_end : String → String
trim_end no_text = no_text
trim_end (c ∷ₜ s) =
    let rest = trim_end s in if is_space (code c) && str_eq rest "" then no_text else c ∷ₜ rest

unfoldable pub trim : String → String
trim s = trim_end (trim_start s)

abbrev pub format_of : Json → Result Shown
format_of (str s) = ok (formatted s)
format_of _ = err "text.replace is not a function"

abbrev pub to_format : Result (Option Json) → Result Shown → Result Shown
to_format (ok (some response)) other = format_of response
to_format (ok none) other = other
to_format (err e) other = err e

-- `content.result && content.result.response`.
abbrev pub response_in : Result (Option Json) → Result (Option Json)
response_in (ok (some result)) = truthy_property result "response"
response_in (ok none) = ok none
response_in (err e) = err e

abbrev pub set_status : Status → Page → Page
set_status status page = record page { status = status }

abbrev pub add_entry : Entry → Page → Page
add_entry entry page = record page { history = page.history ++ entry ∷ [] }

abbrev pub update_status : Status → Run Page (Unit {0})
update_status status page = (ok tt, set_status status page)

-- `data.error || 'Something went wrong'`, in its template.
abbrev pub error_text : Option Json → String
error_text none = "Error: Something went wrong"
error_text (some e) = "Error: " ++ₜ text_of e

abbrev pub unreachable_text : String
unreachable_text = "Error: Could not connect to the agent. Please try again later."

-- `pretty` is JSON.stringify with an indentation of two.
module _ (pretty : Json → String) where
  -- What addMessage shows of the agent's content.
  unfoldable pub shown_content : Option Json → Result Shown
  shown_content none = ok (plain "")
  shown_content (some (str s)) = ok (plain s)
  shown_content (some (num n)) = ok (plain n)
  shown_content (some (bool b)) = ok (plain (text_of (bool b)))
  shown_content (some j) =
      to_format (response_in (truthy_property j "result")) (ok (formatted (pretty j)))

  unfoldable pub add_message : Option Json → Run Page (Unit {0})
  add_message content = do
    shown ← lift (shown_content content)
    λ page. (ok tt, add_entry (agent shown) page)

  abbrev details_of : Option Json → String
  details_of none = ""
  details_of (some j) = pretty j

  abbrev pub approve : Option Json → Page → Page
  approve payment page = record page {
    approved = true;
    payment = payment;
    details = details_of payment;
  }

  -- updateApprovalState, for a state that is truthy.
  unfoldable pub update_approval_state : Json → Run Page (Unit {0})
  update_approval_state state = do
    approved ← lift (truthy_property state "approved")
    payment ← lift (property state "payInvoice")
    λ page. (ok tt, elim approved [ none ↦ page | some _ ↦ approve payment page ])

  abbrev checked : Option Json → Run Page (Unit {0})
  checked none = pure tt
  checked (some state) = update_approval_state state

  abbrev later_idle : Run Page (Unit {0})
  later_idle page = (ok tt, record page { status = error; timers = suc page.timers })

  -- The answer of fetch: `response.ok` with the JSON of its body.
  unfoldable pub show_response : Bool → Json → Run Page (Unit {0})
  show_response true body = do
    result ← lift (property body "result")
    add_message result
    update_status idle
    state ← lift (truthy_property body "state")
    checked state
  show_response false body = do
    message ← lift (truthy_property body "error")
    add_message (some (str (error_text message)))
    later_idle

  unfoldable pub show_unreachable : String → Run Page (Unit {0})
  show_unreachable e = do add_message (some (str unreachable_text)); later_idle

  abbrev pub enabled : Page → Page
  enabled page = record page { disabled = false }

  -- The rest of sendMessage, from the answer of fetch or its error on.
  unfoldable pub receive : Result (Bool × Json) → Page → Page
  receive outcome page =
      enabled
        ((catch (do (fine, body) ← lift outcome; show_response fine body) show_unreachable page).1)

-- sendMessage up to fetch: the task that is sent, if any.
abbrev pub sending : String → Page → Option String × Page
sending message page =
    if is_truthy message
    then (
      some message,
      record page {
        history = page.history ++ user (plain message) ∷ [];
        input = "";
        disabled = true;
        status = thinking;
      },
    )
    else (none, page)

unfoldable pub submit : Page → Option String × Page
submit page = sending (trim page.input) page

-- The timeout of three seconds.
unfoldable pub time_out : Page → Page
time_out page = record page { status = idle; timers = page.timers - 1 }

abbrev pub open_modal : Page → Page
open_modal page = record page { modal_open = true }

abbrev pub close_modal : Page → Page
close_modal page = record page { modal_open = false }
