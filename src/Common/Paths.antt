-- ===== src/Common/Paths.antt =====
-- `std::path`: a path is its text, or its bytes where they are no UTF-8. Two paths are equal when their
-- components are; separators that repeat and components `.` make no difference.
use Prim.Native.Nat.{ℕ, ◌+◌, ◌/◌, ◌%◌}
use mathlib.Core.Bool.{Bool, true, false, ◌&&◌, ◌||◌, not}
use mathlib.Core.Option.{Option, none, some}
use mathlib.Core.List.{List, [], ◌∷◌, ◌++◌}
use idk.Common.Tests.{ltb, ◌==◌, if◌then◌else◌}
use idk.Common.Lists.{is_empty}
use idk.Common.Equality.{Text, text_eq}

pub data FilePath : Type 0 where
  utf8 : Text → FilePath
  raw : List ℕ → FilePath

-- `to_str`
abbrev pub to_str : FilePath → Option Text
to_str (utf8 s) = some s
to_str (raw bs) = none

abbrev starts_with_slash : List ℕ → Bool
starts_with_slash [] = false
starts_with_slash (c ∷ s) = c == b'/'

abbrev pub is_absolute : FilePath → Bool
is_absolute (utf8 s) = starts_with_slash s
is_absolute (raw bs) = starts_with_slash bs

abbrev cons_first : ℕ → List (List ℕ) → List (List ℕ)
cons_first c [] = (c ∷ []) ∷ []
cons_first c (p ∷ ps) = (c ∷ p) ∷ ps

-- `split(|b| b == b'/')`
abbrev pub segments : List ℕ → List (List ℕ)
segments [] = [] ∷ []
segments (c ∷ s) = let rest = segments s in if c == b'/' then [] ∷ rest else cons_first c rest

-- `components` behind the root; a leading `.` of a relative path stays.
abbrev named : List (List ℕ) → List (List ℕ)
named [] = []
named (p ∷ ps) =
    let rest = named ps in if is_empty p || text_eq p (b'.' ∷ []) then rest else p ∷ rest

abbrev leading : Bool → List (List ℕ) → List (List ℕ)
leading absolute [] = []
leading absolute (p ∷ ps) =
    if not absolute && text_eq p (b'.' ∷ []) then p ∷ named ps else named (p ∷ ps)

abbrev pub components : List ℕ → Bool × List (List ℕ)
components s = (starts_with_slash s, leading (starts_with_slash s) (segments s))

abbrev segments_eq : List (List ℕ) → List (List ℕ) → Bool
segments_eq [] [] = true
segments_eq [] (q ∷ qs) = false
segments_eq (p ∷ ps) [] = false
segments_eq (p ∷ ps) (q ∷ qs) = text_eq p q && segments_eq ps qs

abbrev same_bool : Bool → Bool → Bool
same_bool true b = b
same_bool false b = not b

abbrev components_eq : Bool × List (List ℕ) → Bool × List (List ℕ) → Bool
components_eq (a, ps) (b, qs) = same_bool a b && segments_eq ps qs

-- A text is never equal to bytes that are no UTF-8.
pub path_eq : FilePath → FilePath → Bool
path_eq (utf8 s) (utf8 t) = components_eq (components s) (components t)
path_eq (raw s) (raw t) = components_eq (components s) (components t)
path_eq _ _ = false

-- UTF-8
abbrev pub encode_char : ℕ → List ℕ
encode_char c =
    if ltb c 0x80
    then c ∷ []
    else if ltb c 0x800
    then (0xc0 + c / 64) ∷ (0x80 + c % 64) ∷ []
    else if ltb c 0x10000
    then (0xe0 + c / 4096) ∷ (0x80 + c / 64 % 64) ∷ (0x80 + c % 64) ∷ []
    else (0xf0 + c / 262144) ∷ (0x80 + c / 4096 % 64) ∷ (0x80 + c / 64 % 64) ∷ (0x80 + c % 64) ∷ []

abbrev pub encode : Text → List ℕ
encode [] = []
encode (c ∷ s) = encode_char c ++ encode s

abbrev pub path_bytes : FilePath → List ℕ
path_bytes (utf8 s) = encode s
path_bytes (raw bs) = bs

abbrev starts_segments : List (List ℕ) → List (List ℕ) → Bool
starts_segments ps [] = true
starts_segments [] (q ∷ qs) = false
starts_segments (p ∷ ps) (q ∷ qs) = text_eq p q && starts_segments ps qs

abbrev starts_components : Bool × List (List ℕ) → Bool × List (List ℕ) → Bool
starts_components (a, ps) (b, qs) = same_bool a b && starts_segments ps qs

-- `Path::starts_with`, by components
pub path_starts_with : FilePath → FilePath → Bool
path_starts_with p q = starts_components (components (path_bytes p)) (components (path_bytes q))
