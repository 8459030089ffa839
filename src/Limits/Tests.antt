-- ===== src/Limits/Tests.antt =====
-- Two retries of three, and a code that is used once (evidence.py, ephemeral.py).
use openmuse.Common.{◌≡◌, refl, Bool, true, false, List, [], ◌∷◌, lookup, erase, ok}
use openmuse.Limits.{RetryBudget, take, EphemeralBroker, consume}
use openmuse.Limits.Once.{granted}

abbrev twice : RetryBudget
twice = record { maximum = 2; attempts = 0 }

abbrev asked : List Bool
asked = true ∷ false ∷ true ∷ true ∷ []

grants_two : granted twice asked ≡ 2
unfolding granted take
grants_two = refl

abbrev codes_held : EphemeralBroker
codes_held = ("h", record { value = "123"; expires = 9; bound = "login" }) ∷ []

gives : consume codes_held "h" "login" 9 ≡ (ok "123", [])
unfolding consume lookup erase
gives = refl
