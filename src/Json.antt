-- ===== src/Json.antt =====
-- JSON values as JSON.parse gives them to the frontend: errors of frontend/src/api.ts and the rules
-- of frontend/src/lib/rules-json.ts and website-routing-rules.ts are read from them. A number is
-- natural, or another number, of which no code reads more than that it is none.
use garage_admin_console.Base.{ℕ, Bool, Option, none, some, Text, ◌==◌, if◌then◌else◌}

mutual
  pub data Json : Type 0 where
    null other_number : Json
    boolean : (b : Bool) → Json
    number : (n : ℕ) → Json
    string : (s : Text) → Json
    array : (items : Items) → Json
    object : (fields : Fields) → Json

  pub data Items : Type 0 where
    nil : Items
    item : (value : Json) (items : Items) → Items

  pub data Fields : Type 0 where
    end : Fields
    field : (key : Text) (value : Json) (fields : Fields) → Fields

-- `value[key]`, where the keys are distinct, as JSON.parse makes them
unfoldable pub lookup : Text → Fields → Option Json
lookup k end = none
lookup k (field j value fields) = let rest = lookup k fields in if j == k then some value else rest

-- `typeof value === 'string'`, and then the string
abbrev pub as_string : Option Json → Option Text
as_string (some (string s)) = some s
as_string _ = none

-- `JSON.parse`, with nothing where it throws
abbrev pub Parser : Type 0
Parser = Text → Option Json
