-- ===== src/GitWire/Examples.antt =====
-- Small messages, and instances of the theorems. Every text is taken for a UUID.
use idk.Common.{ℕ, ◌≡◌, refl, List, [], ◌∷◌, Bool, true, Text, codes, ok, arith, All, length, ◌≤◌}
use idk.GitWire.{from_bytes}
use idk.GitWire.Paths.{FileName, join, name-good, segments-plain, from_bytes-names, from_bytes-join}

abbrev any_text : Text → Bool
any_text id = true

abbrev two : List ℕ
two = 4 ∷ 0 ∷ []

abbrev upper : Text
upper = codes "ABCDEF0123ABCDEF0123ABCDEF0123ABCDEF0123"

abbrev lower : Text
lower = codes "abcdef0123abcdef0123abcdef0123abcdef0123"

abbrev source_dir : List ℕ
source_dir = codes "src"

abbrev source_file : List ℕ
source_file = codes "a.rs"

source_dir-FileName : FileName source_dir
source_dir-FileName = name-good source_dir (segments-plain source_dir refl).0 refl

source_file-FileName : FileName source_file
source_file-FileName = name-good source_file (segments-plain source_file refl).0 refl

from_bytes-names_example :
    (first : List ℕ) × (rest : List (List ℕ)) × (codes "src/a.rs" ≡ join first rest)
    × FileName first
    × All FileName rest
    × (length (codes "src/a.rs") ≤ 8192)
    × (codes "src/a.rs" ≡ codes "src/a.rs")
unfolding from_bytes
from_bytes-names_example = from_bytes-names (codes "src/a.rs") (codes "src/a.rs") refl

from_bytes-join_example :
    from_bytes (join source_dir (source_file ∷ [])) ≡ ok (join source_dir (source_file ∷ []))
from_bytes-join_example =
    from_bytes-join source_dir (source_file ∷ []) source_dir-FileName (source_file-FileName, tt)
      (omega arith)
