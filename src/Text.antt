-- ===== src/Text.antt =====
-- Texts of posts, prompts and summaries: Go strings as lists of bytes, and what the code uses of the
-- packages strings and unicode/utf8 on them.
pub mod Truncate
use Prim.Native.String.{◌++◌ as str_append}
use feedium.Prelude.{
  String, ◌/◌, ◌%◌, ℕ, zero, suc, ◌+◌, ◌-◌, Bool, true, false, not, ◌||◌, ◌&&◌, List, [], ◌∷◌, ◌==◌,
  ltb, leb, length, take, get_elem?, Option, none, some, if◌then◌else◌,
}

abbrev pub Text : Type 0
Text = List ℕ

-- utf8.RuneStart: not a continuation byte 10xxxxxx.
abbrev pub rune_start : ℕ → Bool
rune_start b = ltb b 128 || leb 192 b

-- utf8.RuneStart(s[n]); Go panics where n is out of range, which the caller rules out.
abbrev pub starts_at : Text → ℕ → Bool
starts_at [] n = true
starts_at (b ∷ bs) zero = rune_start b
starts_at (b ∷ bs) (suc n) = starts_at bs n

-- The loop of truncateUTF8: the largest boundary that is at most n.
unfoldable pub boundary : Text → ℕ → ℕ
boundary s zero = zero
boundary s (suc n) = let before = boundary s n in if starts_at s (suc n) then suc n else before

unfoldable pub truncate_utf8 : Text → ℕ → Text
unfolding boundary
truncate_utf8 s n = if leb (length s) n then s else take (boundary s n) s

-- unicode.IsSpace of the rune at the head, as its width in bytes; 0 where it is no space.
abbrev ascii_space : ℕ → Bool
ascii_space b = (leb 9 b && leb b 13) || b == 32

abbrev space2 : ℕ → ℕ → Bool
space2 a b = a == 194 && (b == 133 || b == 160)

abbrev space3 : ℕ → ℕ → ℕ → Bool
space3 a b c =
    (a == 225 && b == 154 && c == 128)
    || (a == 226 && b == 128 && ((leb 128 c && leb c 138) || c == 168 || c == 169 || c == 175))
    || (a == 226 && b == 129 && c == 159)
    || (a == 227 && b == 128 && c == 128)

unfoldable pub space_width : Text → ℕ
space_width [] = 0
space_width (a ∷ []) = if ascii_space a then 1 else 0
space_width (a ∷ b ∷ []) = if ascii_space a then 1 else if space2 a b then 2 else 0
space_width (a ∷ b ∷ c ∷ bs) =
    if ascii_space a then 1 else if space2 a b then 2 else if space3 a b c then 3 else 0

-- `strings.TrimSpace(s) == ""`: only spaces, where the first `skip` bytes are already read.
blank_from : ℕ → Text → Bool
unfolding space_width
blank_from skip [] = true
blank_from (suc skip) (b ∷ bs) = blank_from skip bs
blank_from zero (b ∷ bs) =
    let w = space_width (b ∷ bs) in
    let rest = blank_from (w - 1) bs in if w == 0 then false else rest

unfoldable pub is_blank : Text → Bool
unfolding blank_from
is_blank s = blank_from 0 s

-- `len(strings.Fields(s))`; `inside` says that the last rune read is part of a field.
fields_from : Bool → ℕ → Text → ℕ
unfolding space_width
fields_from inside skip [] = 0
fields_from inside (suc skip) (b ∷ bs) = fields_from inside skip bs
fields_from inside zero (b ∷ bs) =
    let w = space_width (b ∷ bs) in
    let space = w == 0 in
    let rest = fields_from space (w - 1) bs in if space && not inside then suc rest else rest

unfoldable pub word_count : Text → ℕ
unfolding fields_from
word_count s = fields_from false 0 s

-- fmt's %d of a natural number below 10 ^ 20.
abbrev digit : ℕ → String
digit zero = "0"
digit (suc zero) = "1"
digit (suc (suc zero)) = "2"
digit (suc (suc (suc zero))) = "3"
digit (suc (suc (suc (suc zero)))) = "4"
digit (suc (suc (suc (suc (suc zero))))) = "5"
digit (suc (suc (suc (suc (suc (suc zero)))))) = "6"
digit (suc (suc (suc (suc (suc (suc (suc zero))))))) = "7"
digit (suc (suc (suc (suc (suc (suc (suc (suc zero)))))))) = "8"
digit (suc (suc (suc (suc (suc (suc (suc (suc (suc n))))))))) = "9"

digits : ℕ → ℕ → String
digits zero n = ""
digits (suc fuel) n =
    let rest = digits fuel (n / 10) in
    if ltb n 10 then digit n else str_append rest (digit (n % 10))

unfoldable pub decimal : ℕ → String
unfolding digits
decimal n = digits 20 n
