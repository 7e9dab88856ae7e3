-- ===== src/Api.antt =====
-- The OpenAI-compatible route: agent/src/api/openai and common/utils/http/headers.ts. The OpenAI
-- library is a parameter, and its response an object.
pub mod Replies
mod Examples
use text.Mathlib.Text.{◌==◌ as str_eq}
use freysa_spark_hackathon.Common.{
  ℕ, Bool, true, false, Option, none, some, List, [], ◌∷◌, String, Result, ok, err, Run, pure,
  throw, on_error, catch, required, ◌>>=◌, Text, is_truthy, or_else, if◌then◌else◌,
}
use freysa_spark_hackathon.Agent.{set_entry, get_entry}
use freysa_spark_hackathon.Utils.Canonicalize.{Entries, obj, canonicalize_json}
use freysa_spark_hackathon.Transactions.GrpcClient.{KeyPoolService}
use freysa_spark_hackathon.Transactions.SafeSignature.{Viem}
use freysa_spark_hackathon.Transactions.Signer.{Signer, Ethers, SafeKits, present}
use freysa_spark_hackathon.Transactions.Signer.{get_wallet_address, sign_message}

-- A header of a request: a text, a list of texts, or undefined.
pub data Header : Type 0 where
  single : String → Header
  several : List String → Header
  undefined : Header

abbrev pub Headers : Type 0
Headers = List (String × String)

-- `value[0] || ""`.
abbrev pub first_text : List String → String
first_text [] = ""
first_text (s ∷ ss) = s

-- One round of the loop.
unfoldable pub set_header : String → Header → Headers → Headers
set_header key (single s) parsed = set_entry key s parsed
set_header key (several ss) parsed = set_entry key (first_text ss) parsed
set_header key undefined parsed = parsed

unfoldable pub parse_from : Headers → List (String × Header) → Headers
parse_from parsed [] = parsed
parse_from parsed ((key, value) ∷ headers) = parse_from (set_header key value parsed) headers

unfoldable pub parse_headers : List (String × Header) → Headers
parse_headers headers = parse_from [] headers

-- What the handler sends: the response with the text that was signed, the signature and the signer's
-- address, or a status with an error.
pub data Reply : Type 0 where
  sent : Entries → Text → Text → Text → Reply
  failed : ℕ → String → Reply

abbrev pub authorization_error : String
authorization_error = "Authorization header is required"

-- `headers.authorization`, where it is neither undefined nor empty.
abbrev pub authorization_of : Headers → Option String
authorization_of headers = present (get_entry "authorization" headers)

module _ {W Body : Type 0} (create : Body → String → Run W Entries) where
  unfoldable pub completions : Body → Headers → Run W Entries
  completions params headers = do
    authorization ← required (authorization_of headers) authorization_error
    create params authorization

  unfoldable pub handle_completions : Body → Headers → Run W Entries
  handle_completions body headers = do
    authorization ← required (authorization_of headers) authorization_error
    completions body headers

  module _ (ethers : Ethers W) (kits : SafeKits W) (service : KeyPoolService W) (viem : Viem)
      (quote : Text → Text) where
    -- The body of the `try`; a handler without a signer throws a TypeError at signMessage.
    unfoldable pub answer : Option Signer → Body → Headers → Run W Reply
    answer none body headers = do
      response ← handle_completions body headers
      throw "Cannot read properties of undefined (reading 'signMessage')"
    answer (some signer) body headers = do
      response ← handle_completions body headers
      address ← get_wallet_address ethers kits service viem signer none
      let signed = canonicalize_json quote (obj response)
      signature ← sign_message ethers kits service viem signer signed none
      pure (sent response signed signature address)

    -- newOpenAICompletionsHandler.
    unfoldable pub handler : Option Signer → Body → List (String × Header) → Run W Reply
    handler signer body headers =
        catch (answer signer body (parse_headers headers)) (λ e. pure (failed 500 e))
