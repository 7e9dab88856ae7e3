-- ===== src/Agent/Tools.antt =====
-- Which tool a name stands for.
use text.Mathlib.Text.{◌==◌ as str_eq}
use freysa_spark_hackathon.Common.{
  ◌≡◌, refl, ◌∙◌, Option, none, some, List, [], ◌∷◌, map, String, arith, eq_iff, if◌then◌else◌,
}
use freysa_spark_hackathon.Agent.Types.{
  completion_tool, AgentConfig, set_entry, entries_from, get_entry, entry_of, new_agent,
}

module _ {ℓ} {V : Type ℓ} where
  -- The value of the last entry with a key.
  abbrev pub last_entry : String → List (String × V) → Option V
  last_entry k [] = none
  last_entry k ((j, v) ∷ es) = elim (last_entry k es) [
    | some w ↦ some w
    | none ↦ if str_eq j k then some v else none
  ]

  abbrev or_entry : Option V → Option V → Option V
  or_entry (some v) o = some v
  or_entry none o = o

  get_entry-set_entry :
      (k j : String) (v : V) (m : List (String × V))
      → get_entry k (set_entry j v m) ≡ (if str_eq j k then some v else get_entry k m)
  unfolding get_entry set_entry
  get_entry-set_entry k j v [] = refl
  get_entry-set_entry k j v ((i, w) ∷ m) =
      ground (arith, eq_iff j k, eq_iff i k, eq_iff i j, get_entry-set_entry k j v m)

  get_entry-entries_from :
      (k : String) (m es : List (String × V))
      → get_entry k (entries_from m es) ≡ or_entry (last_entry k es) (get_entry k m)
  unfolding entries_from
  get_entry-entries_from k m [] = refl
  get_entry-entries_from k m ((j, v) ∷ es) =
      get_entry-entries_from k (set_entry j v m) es
      ∙ rw (get_entry-set_entry k j v m) (ground arith)

  or_entry-none : (o : Option V) → or_entry o none ≡ o
  or_entry-none none = refl
  or_entry-none (some v) = refl

  get_entry-object :
      (k : String) (es : List (String × V)) → get_entry k (entries_from [] es) ≡ last_entry k es
  unfolding get_entry
  get_entry-object k es = get_entry-entries_from k [] es ∙ or_entry-none (last_entry k es)

-- In an agent that the constructor makes, a name stands for the last tool of that name in the
-- configuration, and "Completed" for the completion tool where the configuration has no other.
pub new_agent_tools :
    {W : Type 0} (config : AgentConfig W) (name : String)
    → get_entry name (new_agent config).tools_map
      ≡ (elim (last_entry name (map entry_of config.tools)) [
        | some tool ↦ some tool
        | none ↦ if str_eq "Completed" name then some (completion_tool W) else none
      ])
unfolding new_agent
new_agent_tools {W} config name =
    get_entry-object name (map entry_of (completion_tool W ∷ config.tools))
