-- ===== src/Prelude/Text.antt =====
-- Lengths of texts in bytes, and blank texts.
use Prim.Native.Nat.{ℕ, ◌+◌}
use mathlib.Core.Bool.{Bool, true, ◌&&◌, ◌||◌}
use Prim.Native.String.{String}
use Prim.Native.Char.{code}
use mews.Prelude.Tests.{ltb, leb, ◌==◌, if◌then◌else◌}

utf8_width : ℕ → ℕ
utf8_width c = if ltb c 128 then 1 else if ltb c 2048 then 2 else if ltb c 65536 then 3 else 4

-- `str::len`: the bytes of the text in UTF-8.
unfoldable pub byte_len : String → ℕ
unfolding utf8_width
byte_len String.[] = 0
byte_len (String.◌∷◌ c s) = utf8_width (code c) + byte_len s

-- char::is_whitespace
is_whitespace : ℕ → Bool
is_whitespace c =
    (leb 9 c && leb c 13)
    || c == 32
    || c == 133
    || c == 160
    || c == 5760
    || (leb 8192 c && leb c 8202)
    || c == 8232
    || c == 8233
    || c == 8239
    || c == 8287
    || c == 12288

-- `value.trim().is_empty()`
unfoldable pub is_blank : String → Bool
unfolding is_whitespace
is_blank String.[] = true
is_blank (String.◌∷◌ c s) = is_whitespace (code c) && is_blank s
