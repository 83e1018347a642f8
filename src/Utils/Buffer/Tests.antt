-- ===== src/Utils/Buffer/Tests.antt =====
-- The theorems on buffers at small buffers.
use common.Base.{ℕ, ◌≡◌, refl, List, [], ◌∷◌, some, Bool, true, ok, ◌↔◌}
use common.Utils.Buffer.{Buffer, copy, equal}
use common.Utils.Buffer.Contents.{Owns, copy_lem, equal_lem}

abbrev two : List ℕ
two = 1 ∷ 2 ∷ []

abbrev three : List ℕ
three = 1 ∷ 2 ∷ 3 ∷ []

abbrev two_bytes : Buffer
two_bytes = record { m_buffer = some (1 ∷ 2 ∷ []); m_size = 2 }

two_bytes-Owns : Owns two_bytes (1 ∷ 2 ∷ [])
two_bytes-Owns = record { points = refl; size = refl }

abbrev three_bytes : Buffer
three_bytes = record { m_buffer = some (1 ∷ 2 ∷ 3 ∷ []); m_size = 3 }

three_bytes-Owns : Owns three_bytes (1 ∷ 2 ∷ 3 ∷ [])
three_bytes-Owns = record { points = refl; size = refl }

copy_lem_example : copy (λ i. 0xCD) two_bytes ≡ ok two_bytes
copy_lem_example = copy_lem (λ i. 0xCD) two_bytes (1 ∷ 2 ∷ []) two_bytes-Owns

equal_lem_example : (d : Bool) × (equal two_bytes three_bytes ≡ ok d) × ((d ≡ true) ↔ (two ≡ three))
equal_lem_example = equal_lem two_bytes three_bytes two three two_bytes-Owns three_bytes-Owns
