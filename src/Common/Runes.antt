-- ===== src/Common/Runes.antt =====
-- Go's `for _, r := range s`: the UTF-8 decoder of a string, and the encoder it undoes.
use Prim.Native.Nat.{ℕ, zero, suc, ◌+◌, ◌-◌, ◌*◌, ◌/◌, ◌%◌, ◌≤◌, ◌<◌}
use mathlib.Core.Path.{◌≡◌, refl}
use mathlib.Core.Logic.{◌⊎◌, inl, inr}
use mathlib.Core.Bool.{Bool, ◌&&◌}
use mathlib.Core.List.{List, [], ◌∷◌, ◌++◌}
use native.Mathlib.Omega.{arith}
use workspaces.Common.Tests.{ltb, leb, ◌==◌, if◌then◌else◌, Bool-cases}
use workspaces.Common.Lists.{All}
use workspaces.Common.Strings.{Text, encode_rune}

-- `utf8.RuneError`
abbrev pub rune_error : ℕ
rune_error = 0xFFFD

abbrev within : ℕ → ℕ → ℕ → Bool
within lo hi b = leb lo b && leb b hi

abbrev tail_byte : ℕ → Bool
tail_byte = within 0x80 0xBF

-- The bounds of the second byte, from the first.
second_low : ℕ → ℕ
second_low b = if b == 0xE0 then 0xA0 else if b == 0xF0 then 0x90 else 0x80

second_high : ℕ → ℕ
second_high b = if b == 0xED then 0x9F else if b == 0xF4 then 0x8F else 0xBF

decode_two : ℕ → Text → ℕ × ℕ
decode_two b (c ∷ s) = if tail_byte c then (b % 32 * 64 + c % 64, 2) else (rune_error, 1)
decode_two b _ = (rune_error, 1)

decode_three : ℕ → Text → ℕ × ℕ
unfolding second_low second_high
decode_three b (c ∷ d ∷ s) =
    if within (second_low b) (second_high b) c && tail_byte d
    then (b % 16 * 4096 + c % 64 * 64 + d % 64, 3)
    else (rune_error, 1)
decode_three b _ = (rune_error, 1)

decode_four : ℕ → Text → ℕ × ℕ
unfolding second_low second_high
decode_four b (c ∷ d ∷ e ∷ s) =
    if within (second_low b) (second_high b) c && tail_byte d && tail_byte e
    then (b % 8 * 262144 + c % 64 * 4096 + d % 64 * 64 + e % 64, 4)
    else (rune_error, 1)
decode_four b _ = (rune_error, 1)

-- `utf8.DecodeRuneInString` of a byte and those behind it: the rune and its width.
unfoldable pub decode_rune : ℕ → Text → ℕ × ℕ
unfolding decode_two decode_three decode_four
decode_rune b s =
    if ltb b 0x80
    then (b, 1)
    else if within 0xC2 0xDF b
    then decode_two b s
    else if within 0xE0 0xEF b
    then decode_three b s
    else if within 0xF0 0xF4 b
    then decode_four b s
    else (rune_error, 1)

decode_two_above : (b : ℕ) (s : Text) → 0xC2 ≤ b → b ≤ 0xDF → 0x80 ≤ (decode_two b s).0
unfolding decode_two
decode_two_above b [] l h = omega arith
decode_two_above b (c ∷ s) l h = ground arith

decode_three_above : (b : ℕ) (s : Text) → 0xE0 ≤ b → b ≤ 0xEF → 0x80 ≤ (decode_three b s).0
unfolding decode_three second_low second_high
decode_three_above b [] l h = omega arith
decode_three_above b (c ∷ []) l h = omega arith
decode_three_above b (c ∷ d ∷ s) l h = ground arith

decode_four_above : (b : ℕ) (s : Text) → 0xF0 ≤ b → b ≤ 0xF4 → 0x80 ≤ (decode_four b s).0
unfolding decode_four second_low second_high
decode_four_above b [] l h = omega arith
decode_four_above b (c ∷ []) l h = omega arith
decode_four_above b (c ∷ d ∷ []) l h = omega arith
decode_four_above b (c ∷ d ∷ e ∷ s) l h = ground arith

-- A rune below 0x80 is the one byte that encodes it.
decode_rune_ascii : (b : ℕ) (s : Text) → (decode_rune b s).0 < 0x80 → decode_rune b s ≡ (b, 1)
unfolding decode_rune
decode_rune_ascii b s h =
    ground (arith, h, decode_two_above b s, decode_three_above b s, decode_four_above b s)

-- The runes from a position on; the first argument counts the bytes of the last rune still to skip.
runes_from : ℕ → Text → List ℕ
runes_from k [] = []
runes_from zero (b ∷ s) = (decode_rune b s).0 ∷ runes_from ((decode_rune b s).1 - 1) s
runes_from (suc k) (b ∷ s) = runes_from k s

unfoldable pub runes : Text → List ℕ
unfolding runes_from decode_rune
runes s = runes_from 0 s

-- The first rune of a text, either the first byte or none below 0x80.
pub runes-cases :
    (b : ℕ) (s : Text)
    → (runes (b ∷ s) ≡ b ∷ runes s)
      ⊎ ((r : ℕ) × (rs : List ℕ) × (runes (b ∷ s) ≡ r ∷ rs) × (0x80 ≤ r))
unfolding runes_from runes
runes-cases b s = elim (Bool-cases (ltb (decode_rune b s).0 0x80)) [
  | inl low ↦ inl (rw (decode_rune_ascii b s (ground arith)) refl)
  | inr high ↦ inr (_, _, refl, ground arith)
]

abbrev pub encode_all : List ℕ → Text
encode_all [] = []
encode_all (r ∷ rs) = encode_rune r ++ encode_all rs

-- A code point that UTF-8 encodes: no surrogate, and none above the last plane.
abbrev pub IsScalar : ℕ → Type 0
IsScalar r = (r < 0xD800) ⊎ ((0xE000 ≤ r) × (r < 0x110000))

decode_rune_one : (r : ℕ) (s : Text) → r < 0x80 → decode_rune r s ≡ (r, 1)
unfolding decode_rune
decode_rune_one r s h = ground arith

decode_rune_two :
    (r : ℕ) (s : Text)
    → 0x80 ≤ r
    → r < 0x800
    → decode_rune (0xC0 + r / 64) ((0x80 + r % 64) ∷ s) ≡ (r, 2)
unfolding decode_rune
decode_rune_two r s l h = ground arith

decode_rune_three :
    (r : ℕ) (s : Text)
    → 0x800 ≤ r
    → r < 0x10000
    → IsScalar r
    → decode_rune (0xE0 + r / 4096) ((0x80 + r / 64 % 64) ∷ (0x80 + r % 64) ∷ s) ≡ (r, 3)
unfolding decode_rune
decode_rune_three r s l h scalar = ground arith

decode_rune_four :
    (r : ℕ) (s : Text)
    → 0x10000 ≤ r
    → r < 0x110000
    → decode_rune
        (0xF0 + r / 262144)
        ((0x80 + r / 4096 % 64) ∷ (0x80 + r / 64 % 64) ∷ (0x80 + r % 64) ∷ s)
      ≡ (r, 4)
unfolding decode_rune
decode_rune_four r s l h = ground arith

runes_from-encode_rune :
    (r : ℕ) (s : Text) → IsScalar r → runes_from 0 (encode_rune r ++ s) ≡ r ∷ runes_from 0 s
unfolding runes_from encode_rune
runes_from-encode_rune r s scalar =
    ground
      (arith, decode_rune_one r s, decode_rune_two r s, decode_rune_three r s, decode_rune_four r s)

-- A range over an encoded text meets the code points that were encoded.
pub runes-encode_all : (rs : List ℕ) → All IsScalar rs → runes (encode_all rs) ≡ rs
unfolding runes_from runes
runes-encode_all [] h = refl
runes-encode_all (r ∷ rs) (hr, hrs) =
    rw (runes_from-encode_rune r (encode_all rs) hr, runes-encode_all rs hrs)
