-- ===== src/Tools/Widgets/Examples.antt =====
-- A donation under an engine that prints two values.
use text.Mathlib.Text.{◌==◌ as str_eq}
use freysa_spark_hackathon.Common.{none, some, String, if◌then◌else◌}
use freysa_spark_hackathon.Json.{Json, arr, JsonEngine, str, obj, nil, cons, end, field}
use freysa_spark_hackathon.Tools.Widgets.{donate_name, donation}

abbrev printed : Json → String
printed (arr items) = "[widget]"
printed j = "{message}"

abbrev widget : Json
widget =
    arr (cons (obj (field "name" (str donate_name) (field "arguments" (str "{message}") end))) nil)

abbrev engine : JsonEngine
engine = record {
  parse = λ s.
      if str_eq s "[widget]"
      then some widget
      else if str_eq s "{message}"
      then some (donation "thanks")
      else none;
  stringify = printed;
}
