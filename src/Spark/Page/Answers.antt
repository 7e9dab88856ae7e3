-- ===== src/Spark/Page/Answers.antt =====
-- What the page does with any answer of fetch.
use freysa_spark_hackathon.Common.{
  ◌≡◌, refl, ◌≢◌, inl, inr, Bool, true, false, Bool-cases, Option, none, some, [], ◌∷◌, ◌++◌,
  String, Result, ok, err, on_error, go_on, lift, ◌>>=◌, if◌then◌else◌,
}
use freysa_spark_hackathon.Json.{
  Json, null, bool, num, str, arr, obj, get_field, property, truthy_property, truthy_json,
}
use freysa_spark_hackathon.Spark.Page.{
  idle, thinking, Shown, agent, Page, shown_content, add_message, approve, update_approval_state,
  checked, show_response, show_unreachable, receive, enabled, error_text, update_status, add_entry,
  set_status, later_idle,
}

-- One more message of the agent; the button is enabled, and the page is not waiting.
abbrev pub Settled : Page → Page → Type 0
Settled p q =
    (x : Shown) × (q.history ≡ p.history ++ agent x ∷ [])
    × (q.disabled ≡ false)
    × (q.status ≢ thinking)

-- A property of a value that is truthy can be read.
truthy-property :
    (v : Json) (k : String) → truthy_json v ≡ true → (o : Option Json) × (property v k ≡ ok o)
unfolding truthy_json property
truthy-property null k h = cc
truthy-property (bool b) k h = (none, refl)
truthy-property (num n) k h = (none, refl)
truthy-property (str s) k h = (none, refl)
truthy-property (arr js) k h = (none, refl)
truthy-property (obj fs) k h = (get_field k fs, refl)

abbrev truthy_part : Option Json → Option Json
truthy_part none = none
truthy_part (some v) = if truthy_json v then some v else none

truthy_property-ok :
    (v : Json) (k : String) (o : Option Json)
    → property v k ≡ ok o
    → truthy_property v k ≡ ok (truthy_part o)
unfolding truthy_property
truthy_property-ok v k none e = rw (e, truthy_property) refl
truthy_property-ok v k (some u) e = rw (e, truthy_property) refl

-- The same for one property that could be read: any other can.
property_again :
    (v : Json) (k l : String) {o : Option Json}
    → property v k ≡ ok o
    → (u : Option Json) × (property v l ≡ ok u)
unfolding property
property_again null k l e = cc
property_again (bool b) k l e = (none, refl)
property_again (num n) k l e = (none, refl)
property_again (str s) k l e = (none, refl)
property_again (arr js) k l e = (none, refl)
property_again (obj fs) k l e = (get_field l fs, refl)

module _ (pretty : Json → String) where
  -- An update that returns and leaves the history and the status.
  abbrev Quiet : Page → Result (Unit {0}) × Page → Type 0
  Quiet p r = (r.0 ≡ ok tt) × (r.1.history ≡ p.history) × (r.1.status ≡ p.status)

  update-Quiet :
      (v : Json) (p : Page) → truthy_json v ≡ true → Quiet p (update_approval_state pretty v p)
  unfolding update_approval_state ◌>>=◌
  update-Quiet v p h =
      let (o, e) = truthy-property v "approved" h in
      let (q, f) = truthy-property v "payInvoice" h in
      rw (truthy_property-ok v "approved" o e, f) (by_approved (truthy_part o) q)
    where
      by_approved :
          (o q : Option Json)
          → Quiet p (ok tt, elim o as (λ _. Page) [ none ↦ p | some _ ↦ approve pretty q p ])
      by_approved none q = (refl, refl, refl)
      by_approved (some v) q = (refl, refl, refl)

  checked-Quiet : (o : Option Json) (p : Page) → Quiet p (checked pretty (truthy_part o) p)
  checked-Quiet none p = (refl, refl, refl)
  checked-Quiet (some v) p = elim (Bool-cases (truthy_json v)) [
    | inl e ↦ rw e (update-Quiet v p e)
    | inr e ↦ rw e (refl, refl, refl)
  ]

  abbrev caught : Result (Unit {0}) × Page → Page
  caught r = (on_error (show_unreachable pretty) r).1

  -- What has not shown anything yet, and threw.
  unreached : (p : Page) (e : String) → Settled p (enabled pretty (caught (err e, p)))
  unfolding show_unreachable add_message shown_content ◌>>=◌
  unreached p e = (_, refl, refl, λ h. cc)

  refused :
      (p : Page) (r : Result (Option Json))
      → Settled p (
          enabled pretty (
            caught (
              go_on
                (λ m. add_message pretty (some (str (error_text m))) >>= λ _. later_idle pretty)
                (r, p))))
  unfolding add_message shown_content ◌>>=◌
  refused p (ok m) = (_, refl, refl, λ h. cc)
  refused p (err e) = unreached p e

  answered :
      (p : Page) (x : Shown) (r : Result (Unit {0}) × Page)
      → Quiet (set_status idle (add_entry (agent x) p)) r
      → Settled p (enabled pretty (caught r))
  answered p x (ok u, q) (e, h, st) = (x, h, refl, λ w. cc)
  answered p x (err m, q) (e, h, st) = cc

  shown :
      (p : Page) (body : Json) (o : Option Json) (s : Result Shown)
      → property body "state" ≡ ok o
      → Settled p (
          enabled pretty (
            caught (
              go_on
                (λ _. update_status idle >>= λ _.
                  lift (truthy_property body "state") >>= λ state. checked pretty state)
                (go_on (λ x page. (ok tt, add_entry (agent x) page)) (s, p)))))
  unfolding ◌>>=◌
  shown p body o (err m) e = unreached p m
  shown p body o (ok x) e =
      rw (truthy_property-ok body "state" o e) (answered p x _ (checked-Quiet o _))

  responded :
      (p : Page) (body : Json) (r : Result (Option Json))
      → property body "result" ≡ r
      → Settled p (
          enabled pretty (
            caught (
              go_on
                (λ result. add_message pretty result >>= λ _. update_status idle >>= λ _.
                  lift (truthy_property body "state") >>= λ state. checked pretty state)
                (r, p))))
  unfolding add_message ◌>>=◌
  responded p body (err m) e = unreached p m
  responded p body (ok result) e =
      let (state, f) = property_again body "result" "state" e in
      shown p body state (shown_content pretty result) f

  -- Whatever fetch gives, an answer of any status with any JSON in its body or an error, the page then
  -- shows one more message of the agent, the button is enabled, and the page is not waiting.
  pub receive-Settled :
      (outcome : Result (Bool × Json)) (p : Page) → Settled p (receive pretty outcome p)
  unfolding receive show_response ◌>>=◌
  receive-Settled (err e) p = unreached p e
  receive-Settled (ok (true, body)) p = responded p body (property body "result") refl
  receive-Settled (ok (false, body)) p = refused p (truthy_property body "error")
