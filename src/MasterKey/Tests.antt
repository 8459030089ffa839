-- ===== src/MasterKey/Tests.antt =====
-- A chain over two OS stores, and a store that keeps its key (keyring_keys.py).
use openmuse.Common.{Text, ◌≡◌, refl, false, some, [], ◌∷◌}
use openmuse.MasterKey.{Backend, backend, nothing, chained, is_os_store, Base64}

abbrev mac : Backend
mac = backend "keyring.backends.macOS" "Keyring" nothing

abbrev plain : Backend
plain = backend "keyrings.alt.file" "PlaintextKeyring" nothing

abbrev chain : Backend
chain = backend "keyring.backends.chainer" "ChainerBackend" (chained mac nothing)

refused :
    is_os_store
      (backend "keyring.backends.chainer" "ChainerBackend" (chained mac (chained plain nothing)))
    ≡ false
unfolding is_os_store
refused = refl

abbrev key : Text
key =
    1 ∷ 2 ∷ 3 ∷ 4 ∷ 5 ∷ 6 ∷ 7 ∷ 8 ∷ 1 ∷ 2 ∷ 3 ∷ 4 ∷ 5 ∷ 6 ∷ 7 ∷ 8 ∷ 1 ∷ 2 ∷ 3 ∷ 4 ∷ 5 ∷ 6 ∷ 7 ∷ 8
    ∷ 1 ∷ 2 ∷ 3 ∷ 4 ∷ 5 ∷ 6 ∷ 7 ∷ 8 ∷ []

abbrev toy : Base64
toy = record { encode = λ k. "k"; decode = λ s. some key }
