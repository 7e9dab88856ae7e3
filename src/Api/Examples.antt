-- ===== src/Api/Examples.antt =====
-- Requests to the route, with a private key and with a remote signer.
use freysa_spark_hackathon.Common.{
  ◌≡◌, refl, some, [], ◌∷◌, ℕ, ◌+◌, String, ok, Run, ◌>>=◌, Text, text_eq, List,
}
use freysa_spark_hackathon.Agent.{set_entry, get_entry}
use freysa_spark_hackathon.Utils.Canonicalize.{
  Entries, end, entry, null, canonicalize_json, sort, insert_key, find, join,
}
use freysa_spark_hackathon.Transactions.Signer.{
  sign_message, get_wallet_address, present, get_wallet_address_as, sign_message_as,
}
use freysa_spark_hackathon.Transactions.Signer.Samples.{ethers, kits, service, viem, wallet}
use freysa_spark_hackathon.Api.{
  Header, single, Reply, sent, set_header, parse_from, parse_headers, completions,
  handle_completions, answer, handler,
}
use freysa_spark_hackathon.Api.Replies.{SignedReply, handler-sent}

-- The model counts its calls.
abbrev create : String → String → Run ℕ Entries
create body key n = (ok (entry (b'a' ∷ []) null end), n + 1)

abbrev headers : List (String × Header)
headers = ("authorization", single "Bearer key") ∷ []

abbrev quote : Text → Text
quote s = s

-- `{"a":null}`.
abbrev signed : Text
signed = b'{' ∷ b'"' ∷ b'a' ∷ b'"' ∷ b':' ∷ b'n' ∷ b'u' ∷ b'l' ∷ b'l' ∷ b'}' ∷ []

abbrev reply : Reply
reply = sent (entry (b'a' ∷ []) null end) signed signed []

sent_run :
    handler create ethers kits service viem quote (some wallet) "body" headers 3 ≡ (ok reply, 4)
unfolding handler answer ◌>>=◌ handle_completions present get_entry parse_headers parse_from
    set_header set_entry completions get_wallet_address sign_message canonicalize_json join sort
    insert_key find text_eq get_wallet_address_as sign_message_as
sent_run = refl

handler-sent_example :
    SignedReply create ethers kits service viem quote wallet "body" headers 3 reply 4
handler-sent_example =
    handler-sent create ethers kits service viem quote wallet "body" headers 3 4
      (entry (b'a' ∷ []) null end) signed signed [] sent_run
