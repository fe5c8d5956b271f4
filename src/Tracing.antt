-- ===== src/Tracing.antt =====
-- mcp_server/src/sap_agent_mcp/tracing.py: what a span carries of a tool call. The substitutions of the
-- two regular expressions and json.dumps are arguments; the exporter is a library. A value is what JSON
-- makes of it: a text, a list or tuple, a dictionary, or anything that is neither.
pub mod Small
use test_analyst_agent.Common.{
  ℕ, zero, suc, String, Bool, true, false, Option, none, some, List, [], ◌∷◌, ◌++◌, first_letters,
  str_eq, if◌then◌else◌,
}

mutual
  pub data Value : Type 0 where
    text : String → Value
    list : Items → Value
    dict : Fields → Value
    scalar : String → Value

  pub data Items : Type 0 where
    no_items : Items
    item : Value → Items → Items

  pub data Fields : Type 0 where
    no_fields : Fields
    entry : String → Value → Fields → Fields

abbrev pub max_text : ℕ
max_text = 4000

abbrev pub max_rows : ℕ
max_rows = 5

module _ (hide_email hide_phone : String → String) (dumps : Value → String) where
  unfoldable mutual
    -- mask
    pub mask : Value → Value
    mask (text s) = text (first_letters max_text (hide_phone (hide_email s)))
    mask (list xs) = list (mask_items max_rows xs)
    mask (dict fs) = dict (mask_fields fs)
    mask (scalar s) = scalar s

    -- [mask(item) for item in value[:n]]
    pub mask_items : ℕ → Items → Items
    mask_items zero xs = no_items
    mask_items (suc n) no_items = no_items
    mask_items (suc n) (item x xs) = item (mask x) (mask_items n xs)

    pub mask_fields : Fields → Fields
    mask_fields no_fields = no_fields
    mask_fields (entry key x fs) = entry key (mask x) (mask_fields fs)

  -- _json
  unfoldable pub json_text : Value → String
  unfolding mask
  json_text v = first_letters 8000 (dumps (mask v))

  abbrev pub Attribute : Type 0
  Attribute = String × String

  abbrev session_attribute : Option String → List Attribute
  session_attribute none = []
  session_attribute (some trace) =
      if str_eq trace "" then [] else ("langfuse.session.id", trace) ∷ []

  abbrev pub payload_attribute : String → Option Value → List Attribute
  payload_attribute key none = []
  payload_attribute key (some v) = (key, json_text v) ∷ []

  -- Tracing.tool with Span.output: the attributes of a call's span, none where there is no tracer
  unfoldable pub span_attributes :
      Bool → String → Option String → Option Value → Value → List Attribute
  unfolding json_text
  span_attributes enabled user trace input output =
      if enabled
      then (("langfuse.user.id", user) ∷ [])
        ++ session_attribute trace
        ++ payload_attribute "langfuse.observation.input" input
        ++ payload_attribute "langfuse.observation.output" (some output)
      else []
