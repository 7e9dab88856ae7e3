-- ===== src/Tools/Widgets/Arguments.antt =====
-- What the chat's listener reads of a donation widget.
use text.Mathlib.Text.{◌==◌ as str_eq}
use freysa_spark_hackathon.Common.{
  ◌≡◌, refl, ap, ◌∙◌, inl, inr, false, none, some, [], ◌∷◌, String, Bool-cases, eq_iff, ok,
}
use freysa_spark_hackathon.Json.{
  Json, str, obj, nil, cons, end, field, JsonEngine, get_field, property, truthy_property,
  truthy_json,
}
use freysa_spark_hackathon.Chat.Subscriptions.{end_args, named_arg, tool_arg, both, tool_args_of}
use freysa_spark_hackathon.Tools.Widgets.{donate_name, donation, widget_data, execute_donate}

-- A text that parses is not empty, where the empty text does not parse.
parsed_full :
    (engine : JsonEngine) (text : String) (j : Json)
    → engine.parse "" ≡ none
    → engine.parse text ≡ some j
    → str_eq text "" ≡ false
parsed_full engine text j empty parsed = elim (Bool-cases (str_eq text "")) [
  | inl e ↦ let same : text ≡ "" = (eq_iff text "").0 e in let clash = rw same at parsed in cc
  | inr e ↦ e
]

abbrev call : String → String → Json
call name text = obj (field "name" (str name) (field "arguments" (str text) end))

call-name :
    (name text : String)
    → str_eq name "" ≡ false
    → truthy_property (call name text) "name" ≡ ok (some (str name))
unfolding truthy_property property get_field truthy_json
call-name name text n = rw n refl

call-arguments :
    (name text : String)
    → str_eq text "" ≡ false
    → truthy_property (call name text) "arguments" ≡ ok (some (str text))
unfolding truthy_property property get_field truthy_json
call-arguments name text t = rw t refl

tool_arg-call :
    (engine : JsonEngine) (name text : String)
    → str_eq name "" ≡ false
    → str_eq text "" ≡ false
    → tool_arg engine (call name text) ≡ some (record { name = str name; arguments = text })
tool_arg-call engine name text n t =
    ap (λ p. named_arg engine p (truthy_property (call name text) "arguments"))
      (call-name name text n)
    ∙ ap (λ p. named_arg engine (ok (some (str name))) p) (call-arguments name text t)

tool_args_of-widget :
    (engine : JsonEngine) (name text : String)
    → str_eq name "" ≡ false
    → str_eq text "" ≡ false
    → tool_args_of engine (cons (call name text) nil)
      ≡ some (record { name = str name; arguments = text } ∷ [])
unfolding tool_args_of
tool_args_of-widget engine name text n t =
    ap (λ a. both engine a (some [])) (tool_arg-call engine name text n t)

-- Where the engine reads back the two values that the tool prints, and does not read the empty text: of the
-- text that DonateTool returns, the chat's listener takes one argument, the widget's name with the text of
-- the donation's message.
pub end_args-donate :
    (engine : JsonEngine) (message : String)
    → engine.parse "" ≡ none
    → engine.parse (engine.stringify (donation message)) ≡ some (donation message)
    → engine.parse (execute_donate engine message) ≡ some (widget_data engine message)
    → end_args engine donate_name (some (execute_donate engine message))
      ≡ record { name = str donate_name; arguments = engine.stringify (donation message) } ∷ []
unfolding end_args widget_data
end_args-donate engine message empty inner outer =
    let printed = parsed_full engine (execute_donate engine message) _ empty outer in
    let given = parsed_full engine (engine.stringify (donation message)) _ empty inner in
    let args =
      tool_args_of-widget engine donate_name (engine.stringify (donation message)) refl given in
    rw (printed, outer, args) refl
