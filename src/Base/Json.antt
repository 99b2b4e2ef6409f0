-- ===== src/Base/Json.antt =====
-- The values that Python's `json` reads and writes. A number is its literal.
use Prim.Native.String.{String}
use mathlib.Core.Bool.{Bool}
use mathlib.Core.Option.{Option, none, some}
use prd_agent.Base.Tests.{◌==◌, text_key, if◌then◌else◌}

mutual
  pub data Json : Type 0 where
    null : Json
    bool : Bool → Json
    number : String → Json
    string : String → Json
    array : Items → Json
    object : Fields → Json

  pub data Items : Type 0 where
    nil : Items
    item : Json → Items → Items

  pub data Fields : Type 0 where
    end : Fields
    field : String → Json → Fields → Fields

-- fields.get(name)
unfoldable pub get_field : String → Fields → Option Json
get_field name end = none
get_field name (field key value fields) =
    let rest = get_field name fields in if key == name then some value else rest
