-- ===== src/Prelude/Text.antt =====
-- Python's `str.strip` and the emptiness of a text.
use Prim.Native.Nat.{ℕ, suc}
use Prim.Native.Char.{Char, code}
use Prim.Native.String.{String}
use mathlib.Core.Bool.{Bool, true, false, ◌&&◌, ◌||◌}
use dalm_backend.Prelude.Tests.{if◌then◌else◌, leb, nat_beq}

-- `str.isspace` of one code point.
abbrev is_space : ℕ → Bool
is_space c =
    leb 9 c && leb c 13
    || leb 28 c && leb c 32
    || nat_beq c 133
    || nat_beq c 160
    || nat_beq c 5760
    || leb 8192 c && leb c 8202
    || leb 8232 c && leb c 8233
    || nat_beq c 8239
    || nat_beq c 8287
    || nat_beq c 12288

abbrev pub is_empty : String → Bool
is_empty String.[] = true
is_empty (String.◌∷◌ c s) = false

abbrev blank : Char → Bool
blank c = is_space (code c)

lstrip : String → String
lstrip String.[] = String.[]
lstrip (String.◌∷◌ c text) =
    let shorter = lstrip text in if blank c then shorter else String.◌∷◌ c text

rstrip : String → String
rstrip String.[] = String.[]
rstrip (String.◌∷◌ c text) =
    let shorter = rstrip text in
    if blank c && is_empty shorter then String.[] else String.◌∷◌ c shorter

unfoldable pub strip : String → String
unfolding lstrip rstrip
strip s = rstrip (lstrip s)

-- `len` of a text, in code points.
unfoldable pub text_length : String → ℕ
text_length String.[] = 0
text_length (String.◌∷◌ c text) = suc (text_length text)
