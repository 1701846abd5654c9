-- ===== src/Common/Utf8.antt =====
-- What the source uses of `str`, `char` and UTF-8 decoding. A text is a list of code points, a byte
-- string a list of numbers below 256.
use Prim.Native.Nat.{ℕ, ◌+◌, ◌-◌, ◌*◌, ◌≤◌}
use mathlib.Core.Path.{◌≡◌, refl}
use mathlib.Core.Bool.{Bool, true, false, ◌||◌}
use mathlib.Core.Option.{Option, none, some}
use mathlib.Core.List.{List, [], ◌∷◌, ◌++◌}
use native.Mathlib.Omega.{arith}
use idk.Common.Tests.{ltb, leb, ◌==◌, if◌then◌else◌, within}
use idk.Common.Lists.{any, every}
use idk.Common.Equality.{Text}

-- `char::len_utf8`
abbrev pub len_utf8 : ℕ → ℕ
len_utf8 c = if ltb c 0x80 then 1 else if ltb c 0x800 then 2 else if ltb c 0x10000 then 3 else 4

-- `str::len`
abbrev pub byte_len : Text → ℕ
byte_len [] = 0
byte_len (c ∷ s) = len_utf8 c + byte_len s

-- `char::is_control`: the category Cc.
abbrev pub is_control : ℕ → Bool
is_control c = ltb c 0x20 || within 0x7f 0x9f c

-- `char::is_whitespace`: the property White_Space.
abbrev pub is_whitespace : ℕ → Bool
is_whitespace c =
    within 0x9 0xd c
    || c == 0x20
    || c == 0x85
    || c == 0xa0
    || c == 0x1680
    || within 0x2000 0x200a c
    || within 0x2028 0x2029 c
    || c == 0x202f
    || c == 0x205f
    || c == 0x3000

-- `text.trim().is_empty()`
abbrev pub is_blank : Text → Bool
is_blank = every is_whitespace

abbrev pub is_ascii_digit : ℕ → Bool
is_ascii_digit c = within b'0' b'9' c

abbrev pub is_ascii_hexdigit : ℕ → Bool
is_ascii_hexdigit c = is_ascii_digit c || within b'a' b'f' c || within b'A' b'F' c

-- `str::contains(c)`
abbrev pub contains_char : ℕ → Text → Bool
contains_char c = any (λ x. x == c)

-- `starts_with` and `strip_prefix`, on texts and on byte strings.
unfoldable pub strip_prefix : List ℕ → List ℕ → Option (List ℕ)
strip_prefix [] s = some s
strip_prefix (p ∷ ps) [] = none
strip_prefix (p ∷ ps) (c ∷ s) = if p == c then strip_prefix ps s else none

-- A UTF-8 decoder in the middle of a text: `more` continuation bytes are wanted, the next one between
-- `low` and `high`.
pub data Decoder : Type 0 where
  ready : Decoder
  pending : (more code low high : ℕ) → Decoder

pub data Decoded : Type 0 where
  nothing : Decoded
  char : ℕ → Decoded
  invalid : Decoded

abbrev pub decode_first : ℕ → Decoder × Decoded
decode_first b =
    if ltb b 0x80
    then (ready, char b)
    else if within 0xc2 0xdf b
    then (pending 1 (b - 0xc0) 0x80 0xbf, nothing)
    else if b == 0xe0
    then (pending 2 0 0xa0 0xbf, nothing)
    else if b == 0xed
    then (pending 2 0xd 0x80 0x9f, nothing)
    else if within 0xe1 0xef b
    then (pending 2 (b - 0xe0) 0x80 0xbf, nothing)
    else if b == 0xf0
    then (pending 3 0 0x90 0xbf, nothing)
    else if b == 0xf4
    then (pending 3 4 0x80 0x8f, nothing)
    else if within 0xf1 0xf3 b
    then (pending 3 (b - 0xf0) 0x80 0xbf, nothing)
    else (ready, invalid)

abbrev pub replacement : ℕ
replacement = 0xfffd

abbrev pub emitted : Decoded → Text
emitted nothing = []
emitted (char c) = c ∷ []
emitted invalid = replacement ∷ []

-- A byte that cannot continue ends the sequence with one replacement, and begins anew.
unfoldable pub decode_byte : Decoder → ℕ → Decoder × Text
decode_byte ready b = let (d, r) = decode_first b in (d, emitted r)
decode_byte (pending more code low high) b =
    if within low high b
    then (if leb more 1
        then (ready, (code * 64 + (b - 0x80)) ∷ [])
        else (pending (more - 1) (code * 64 + (b - 0x80)) 0x80 0xbf, []))
    else (let (d, r) = decode_first b in (d, replacement ∷ emitted r))

-- `String::from_utf8_lossy`
unfoldable pub decode_lossy : Decoder → List ℕ → Text
decode_lossy ready [] = []
decode_lossy (pending more code low high) [] = replacement ∷ []
decode_lossy d (b ∷ bs) = let (d', out) = decode_byte d b in out ++ decode_lossy d' bs

unfoldable pub from_utf8_lossy : List ℕ → Text
unfolding decode_lossy decode_byte
from_utf8_lossy bs = decode_lossy ready bs

-- `str::from_utf8`, where any invalid sequence is an error.
unfoldable pub decode_strict : Decoder → List ℕ → Option Text
decode_strict ready [] = some []
decode_strict (pending more code low high) [] = none
decode_strict ready (b ∷ bs) = elim (decode_first b).1 [
  | nothing ↦ decode_strict (decode_first b).0 bs
  | char c ↦ elim (decode_strict (decode_first b).0 bs) [ none ↦ none | some t ↦ some (c ∷ t) ]
  | invalid ↦ none
]
decode_strict (pending more code low high) (b ∷ bs) = elim (within low high b) [
  | true ↦ elim (leb more 1) [
    | true ↦ elim (decode_strict ready bs) [
      | none ↦ none
      | some t ↦ some ((code * 64 + (b - 0x80)) ∷ t)
    ]
    | false ↦ decode_strict (pending (more - 1) (code * 64 + (b - 0x80)) 0x80 0xbf) bs
  ]
  | false ↦ none
]

unfoldable pub from_utf8 : List ℕ → Option Text
unfolding decode_strict
from_utf8 bs = decode_strict ready bs

-- "é" and a stray byte.
from_utf8_lossy_test :
    from_utf8_lossy (0x68 ∷ 0xc3 ∷ 0xa9 ∷ 0xff ∷ []) ≡ 0x68 ∷ 0xe9 ∷ replacement ∷ []
unfolding from_utf8_lossy
from_utf8_lossy_test = refl

from_utf8_test : from_utf8 (0xed ∷ 0x95 ∷ 0x9c ∷ []) ≡ some (0xd55c ∷ [])
unfolding from_utf8
from_utf8_test = refl

pub len_utf8-pos : (c : ℕ) → 1 ≤ len_utf8 c
len_utf8-pos c = ground arith
