-- ===== src/Tools/Widgets.antt =====
-- The tools of agent/src/common/tools that only make a text of their input: DonateTool of donate.ts,
-- PlanTool of plan.ts and GenerateNFTTool of nftCollection.ts.
pub mod Arguments
mod Examples
use Prim.Native.String
use freysa_spark_hackathon.Common.{List, String}
use freysa_spark_hackathon.Json.{Json, str, arr, obj, nil, cons, end, field, JsonEngine}

abbrev pub donate_name : String
donate_name = "widget_createDonateWidget"

-- `{ message: input.message }`.
abbrev pub donation : String → Json
donation message = obj (field "message" (str message) end)

unfoldable pub widget_data : JsonEngine → String → Json
widget_data engine message = arr (
    cons
      (obj (
        field "name" (str donate_name)
          (field "arguments" (str (engine.stringify (donation message))) end)))
      nil)

unfoldable pub execute_donate : JsonEngine → String → String
execute_donate engine message = engine.stringify (widget_data engine message)

abbrev pub execute_plan : String → String
execute_plan plan = plan

-- The count is the text of the number.
abbrev pub execute_nft : String → String → String → String → String
execute_nft style_prompt lore collection_name count = String.◌++◌ "Generated NFT collection " (
    String.◌++◌ collection_name (
      String.◌++◌ " with " (
        String.◌++◌ count (
          String.◌++◌ " artworks using style prompt: "
            (String.◌++◌ style_prompt (String.◌++◌ " and lore: " lore))))))
