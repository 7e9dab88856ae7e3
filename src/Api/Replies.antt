-- ===== src/Api/Replies.antt =====
-- What the route replies: signed responses with a private key, and errors with a remote signer.
use freysa_spark_hackathon.Common.{
  ◌≡◌, refl, sym, ap, ◌∙◌, none, some, List, [], String, Result, ok, err, Run, pure, on_error,
  ◌>>=◌, go_on, bind-err, bind-eq-ok, required-eq-ok, Text,
}
use freysa_spark_hackathon.Utils.Canonicalize.{Entries, obj, canonicalize_json}
use freysa_spark_hackathon.Transactions.GrpcClient.{KeyPoolService}
use freysa_spark_hackathon.Transactions.SafeSignature.{Viem}
use freysa_spark_hackathon.Transactions.Signer.{
  SignerConfig, Signer, new_signer, present_index, Ethers, SafeKits,
}
use freysa_spark_hackathon.Transactions.Signer.{no_index, get_wallet_address, sign_message}
use freysa_spark_hackathon.Transactions.Signer.KeyIndex.{IsRemote, remote_needs_index}
use freysa_spark_hackathon.Api.{
  Header, Reply, sent, failed, parse_headers, authorization_of, completions, handle_completions,
  answer, handler,
}

module _ {W Body : Type 0} (create : Body → String → Run W Entries) (ethers : Ethers W)
    (kits : SafeKits W) (service : KeyPoolService W) (viem : Viem) (quote : Text → Text) where
  -- A call of the model that returns.
  abbrev pub Completed : Body → List (String × Header) → W → Entries → W → Type 0
  Completed body headers w response v =
      (key : String) × (authorization_of (parse_headers headers) ≡ some key)
      × (create body key w ≡ (ok response, v))

  handle_completions-eq-ok :
      (body : Body) (headers : List (String × Header)) (w v : W) (response : Entries)
      → handle_completions create body (parse_headers headers) w ≡ (ok response, v)
      → Completed body headers w response v
  unfolding handle_completions completions
  handle_completions-eq-ok body headers w v response e =
      let (key, u, checked, called) = bind-eq-ok _ _ _ e in
      let (found, same) = required-eq-ok _ _ _ checked in
      let (key', u', checked', asked) = bind-eq-ok _ _ _ called in
      let (found', same') = required-eq-ok _ _ _ checked' in
      (key', found', rw (sym same', sym same) at asked)

  -- A reply that is sent does not come from the handler of errors.
  sent-eq-ok :
      (r : Result Reply × W) (response : Entries) (signed signature address : Text) (t : W)
      → on_error (λ e. pure (failed 500 e)) r ≡ (ok (sent response signed signature address), t)
      → r ≡ (ok (sent response signed signature address), t)
  sent-eq-ok (ok reply, s) response signed signature address t e = e
  sent-eq-ok (err m, s) response signed signature address t e =
      absurd (not_failed (ap (λ p. p.0) e))
    where
      not_failed :
          ◌≡◌ {A = Result Reply} (ok (failed 500 m)) (ok (sent response signed signature address))
          → ⊥
      not_failed q = cc

  abbrev pub SignedReply : Signer → Body → List (String × Header) → W → Reply → W → Type 0
  SignedReply signer body headers w (failed status e) t = ⊥
  SignedReply signer body headers w (sent response signed signature address) t =
      (u : W) × (v : W) × Completed body headers w response u
      × (get_wallet_address ethers kits service viem signer none u ≡ (ok address, v))
      × (signed ≡ canonicalize_json quote (obj response))
      × (sign_message ethers kits service viem signer signed none v ≡ (ok signature, t))

  signed_reply :
      (signer : Signer) (body : Body) (headers : List (String × Header)) (w u v x t : W)
      (given : Entries) (found made : Text) (reply : Reply)
      → Completed body headers w given u
      → get_wallet_address ethers kits service viem signer none u ≡ (ok found, v)
      → sign_message ethers kits service viem signer (canonicalize_json quote (obj given)) none v
        ≡ (ok made, x)
      → pure (sent given (canonicalize_json quote (obj given)) made found) x ≡ (ok reply, t)
      → SignedReply signer body headers w reply t
  signed_reply signer body headers w u v x t given found made (failed status e) called asked signs
        done =
      absurd (cc)
  signed_reply signer body headers w u v x t given found made
        (sent response signed signature address) called asked signs done =
      let same_response : given ≡ response = cc in
      let same_signed : canonicalize_json quote (obj given) ≡ signed = cc in
      let same_signature : made ≡ signature = cc in
      let same_address : found ≡ address = cc in
      let same_state : x ≡ t = cc in
      (
        u,
        v,
        rw same_response at called,
        rw same_address at asked,
        sym same_signed ∙ ap (λ r. canonicalize_json quote (obj r)) same_response,
        rw (same_signed, same_signature, same_state) at signs,
      )

  -- A sent reply holds the model's response, the canonical text of that response, a signature of this
  -- text by the signer, and the signer's address.
  pub handler-sent :
      (signer : Signer) (body : Body) (headers : List (String × Header)) (w t : W)
      (response : Entries) (signed signature address : Text)
      → handler create ethers kits service viem quote (some signer) body headers w
        ≡ (ok (sent response signed signature address), t)
      → SignedReply signer body headers w (sent response signed signature address) t
  unfolding handler answer
  handler-sent signer body headers w t response signed signature address e =
      let (given, u, called, rest) = bind-eq-ok _ _ _ (sent-eq-ok _ _ _ _ _ _ e) in
      let (found, v, asked, signing) = bind-eq-ok _ _ _ rest in
      let (made, x, signs, done) = bind-eq-ok _ _ _ signing in
      signed_reply signer body headers w u v x t given found made _
        (handle_completions-eq-ok body headers w u given called) asked signs done

  abbrev FailsFrom : Signer → Result Entries × W → Type 0
  FailsFrom signer r =
      (e : String) × (v : W) × (on_error (λ m. pure (failed 500 m))
          (go_on
            (λ response. get_wallet_address ethers kits service viem signer none >>= λ address.
              sign_message ethers kits service viem signer (canonicalize_json quote (obj response))
                none
              >>= λ signature.
                  pure (sent response (canonicalize_json quote (obj response)) signature address))
            r)
        ≡ (ok (failed 500 e), v))

  remote_fails :
      (signer : Signer) (r : Result Entries × W)
      → ((u : W) → get_wallet_address ethers kits service viem signer none u ≡ (err no_index, u))
      → FailsFrom signer r
  remote_fails signer (err e, u) none_there = (e, u, refl)
  remote_fails signer (ok response, u) none_there =
      (no_index, u, rw (bind-err _ _ u (none_there u)) refl)

  -- With a signer whose key is held by the key pool service, the route answers every request with status
  -- 500, whatever the model returns.
  pub handler_remote :
      (config : SignerConfig) (signer : Signer) (body : Body) (headers : List (String × Header))
      (w : W)
      → IsRemote config
      → new_signer config ≡ ok signer
      → (e : String) × (v : W) × (handler create ethers kits service viem quote
            (some signer)
            body
            headers
            w
          ≡ (ok (failed 500 e), v))
  unfolding handler answer ◌>>=◌ present_index
  handler_remote config signer body headers w remote made = remote_fails signer _ λ u.
      (remote_needs_index ethers kits service viem config signer none [] [] [] none u remote made
        refl).1
