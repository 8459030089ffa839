-- ===== src/Registry.antt =====
-- src/openmuse/registry.py: the host's registry of tools. A descriptor is a copy of the manifest at
-- registration. A tool object is what the code reads of it: `name` and `risk` as `getattr` finds
-- them, its manifest, and `run`, which acts on the outside world `W`.
pub mod Laws
mod Tests
use openmuse.Common.{
  String, ◌≡◌, Bool, true, false, not, ◌&&◌, ◌||◌, Option, none, some, List, [], ◌∷◌, map, ◌==◌,
  if◌then◌else◌, Dict, lookup, insert, contains, Outcome, ok, err, value_error, ◌>>=◌, ◌>>◌,
  raise_if, or_raise,
}
use openmuse.Common.Json.{Json, Fields, get}
use openmuse.Policy.{Risk, risk_value}

pub record Tool (W : Type 0) : Type 0 where
  pub name : Option String
  pub risk : Option Risk
  pub manifest : Fields
  pub run : Fields → W → Outcome String × W

pub record RegisteredTool (W : Type 0) : Type 0 where
  pub tool : Tool W
  pub risk : Risk
  pub descriptor : Fields

abbrev pub is_text : Option Json → String → Bool
is_text (some (Json.str t)) s = t == s
is_text _ s = false

-- `schema is None or isinstance(schema, dict)`
abbrev pub is_schema : Option Json → Bool
is_schema none = true
is_schema (some Json.null) = true
is_schema (some (Json.obj fs)) = true
is_schema _ = false

module _ {W : Type 0} where
  -- The name and the risk that pass the first check of `add`.
  unfoldable pub identity : Tool W → Option (String × Risk)
  identity t = elim t.name [
    | none ↦ none
    | some name ↦ elim t.risk [
      | none ↦ none
      | some risk ↦ if name == "" then none else some (name, risk)
    ]
  ]

  unfoldable pub register :
      Dict (RegisteredTool W) → Tool W → String × Risk → Outcome (Dict (RegisteredTool W))
  register tools tool (name, risk) = do
    raise_if
        (not (is_text (get "name" tool.manifest) name)
          || not (is_text (get "risk" tool.manifest) (risk_value risk)))
        (value_error "tool manifest does not match its declared identity")
    raise_if (not (is_schema (get "schema" tool.manifest)))
        (value_error "tool schema must be an object")
    raise_if (contains name tools) (value_error "duplicate tool")
    ok (insert name (record { tool = tool; risk = risk; descriptor = tool.manifest }) tools)

  -- `ToolRegistry.add`
  unfoldable pub add : Dict (RegisteredTool W) → Tool W → Outcome (Dict (RegisteredTool W))
  add tools tool = do
    found ← or_raise (identity tool) (value_error "tool requires a name and valid risk")
    register tools tool found

  -- `ToolRegistry.__init__`
  unfoldable pub add_all :
      Dict (RegisteredTool W) → List (Tool W) → Outcome (Dict (RegisteredTool W))
  add_all tools [] = ok tools
  add_all tools (t ∷ ts) = do tools' ← add tools t; add_all tools' ts

  unfoldable pub descriptor : Dict (RegisteredTool W) → String → Option (RegisteredTool W)
  descriptor tools name = lookup name tools

  -- `ToolRegistry.get`
  unfoldable pub get_tool : Dict (RegisteredTool W) → String → Option (Tool W)
  get_tool tools name = elim (lookup name tools) [ none ↦ none | some e ↦ some e.tool ]

  unfoldable pub catalogue : Dict (RegisteredTool W) → List Fields
  catalogue tools = map (λ e. e.1.descriptor) tools
