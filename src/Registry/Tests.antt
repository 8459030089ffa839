-- ===== src/Registry/Tests.antt =====
-- A registry of two tools (registry.py).
use openmuse.Common.{
  ℕ, String, ◌≡◌, refl, some, [], ◌∷◌, Dict, lookup, insert, ok, err, value_error,
}
use openmuse.Common.Json.{Json, Fields, field, end, get}
use openmuse.Policy.{Risk}
use openmuse.Registry.{Tool, RegisteredTool, identity, register, add, add_all, descriptor}

abbrev described : String → String → Fields
described name risk = field "name" (Json.str name) (field "risk" (Json.str risk) end)

abbrev clock : Tool ℕ
clock = record {
  name = some "clock";
  risk = some Risk.read;
  manifest = described "clock" "read";
  run = λ fs n. (ok "", n);
}

abbrev mail : Tool ℕ
mail = record {
  name = some "mail";
  risk = some Risk.write;
  manifest = described "mail" "write";
  run = λ fs n. (ok "", n);
}

abbrev as_entry : Tool ℕ → Risk → RegisteredTool ℕ
as_entry t risk = record { tool = t; risk = risk; descriptor = t.manifest }

abbrev one : Dict (RegisteredTool ℕ)
one = ("clock", as_entry clock Risk.read) ∷ []

abbrev two : Dict (RegisteredTool ℕ)
two = ("clock", as_entry clock Risk.read) ∷ ("mail", as_entry mail Risk.write) ∷ []

program : Unit {0}
unfolding identity register add add_all descriptor lookup insert get
program = tt

adds : add one mail ≡ ok two
unfolding program
adds = refl

adds_all : add_all [] (clock ∷ mail ∷ []) ≡ ok two
unfolding program
adds_all = refl

-- A name is registered once.
adds_once : add two mail ≡ err (value_error "duplicate tool")
unfolding program
adds_once = refl
