-- ===== src/Base/Strings.antt =====
-- Strings of the source: sequences of UTF-16 code units, with the methods that the source calls.
use Prim.Native.Char.{code}
use Prim.Native.String.{String}
use Prim.Native.Nat.{ℕ}
use mathlib.Core.Path.{◌≡◌, refl}
use mathlib.Core.Logic.{◌↔◌}
use mathlib.Core.Bool.{Bool, true, false, ◌&&◌, ◌||◌}
use mathlib.Core.List.{List, [], ◌∷◌, reverse}
use native.Mathlib.Omega.{arith}
use odin_sentinel.Base.Tests.{ltb, leb, ◌==◌, if◌then◌else◌}

abbrev pub Text : Type 0
Text = List ℕ

-- An ASCII literal.
abbrev pub text : String → Text
text String.[] = []
text (String.◌∷◌ c s) = code c ∷ text s

-- a === b
unfoldable pub same : Text → Text → Bool
same [] [] = true
same [] (y ∷ ys) = false
same (x ∷ xs) [] = false
same (x ∷ xs) (y ∷ ys) = (x == y) && same xs ys

same→eq : (a b : Text) → same a b ≡ true → a ≡ b
unfolding same
same→eq [] [] h = refl
same→eq [] (y ∷ ys) h = ground arith
same→eq (x ∷ xs) [] h = ground arith
same→eq (x ∷ xs) (y ∷ ys) h = ground (arith, same→eq xs ys)

pub same_self : (a : Text) → same a a ≡ true
unfolding same
same_self [] = refl
same_self (x ∷ xs) = ground (arith, same_self xs)

pub same_iff : (a b : Text) → (same a b ≡ true) ↔ (a ≡ b)
same_iff a b = (same→eq a b, λ e. rw e (same_self b))

pub same_comm : (a b : Text) → same a b ≡ same b a
unfolding same
same_comm [] [] = refl
same_comm [] (y ∷ b) = refl
same_comm (x ∷ a) [] = refl
same_comm (x ∷ a) (y ∷ b) = ground (arith, same_comm a b)

-- The white space that trim() removes.
unfoldable pub is_space : ℕ → Bool
is_space c =
    (leb 9 c && leb c 13)
    || (c == 32)
    || (c == 0xA0)
    || (c == 0x1680)
    || (leb 0x2000 c && leb c 0x200A)
    || (c == 0x2028)
    || (c == 0x2029)
    || (c == 0x202F)
    || (c == 0x205F)
    || (c == 0x3000)
    || (c == 0xFEFF)

trim_start : Text → Text
unfolding is_space
trim_start [] = []
trim_start (c ∷ cs) = if is_space c then trim_start cs else c ∷ cs

-- s.trim()
unfoldable pub trim : Text → Text
unfolding trim_start
trim s = reverse (trim_start (reverse (trim_start s)))

-- s.trim() === ""
unfoldable pub is_blank : Text → Bool
unfolding is_space
is_blank [] = true
is_blank (c ∷ cs) = is_space c && is_blank cs

-- s.startsWith(t)
unfoldable pub starts_with : Text → Text → Bool
starts_with s [] = true
starts_with [] (y ∷ ys) = false
starts_with (x ∷ xs) (y ∷ ys) = (x == y) && starts_with xs ys

-- s.includes(t)
unfoldable pub includes : Text → Text → Bool
unfolding starts_with
includes [] t = starts_with [] t
includes (x ∷ xs) t = starts_with (x ∷ xs) t || includes xs t

unfoldable pub push_head : ℕ → List Text → List Text
push_head c [] = (c ∷ []) ∷ []
push_head c (line ∷ rest) = (c ∷ line) ∷ rest

-- s.split("\n") and the like, for a separator of one code unit.
unfoldable pub split : ℕ → Text → List Text
unfolding push_head
split sep [] = [] ∷ []
split sep (c ∷ cs) = let rest = split sep cs in if c == sep then [] ∷ rest else push_head c rest

-- a < b, by code units.
unfoldable pub text_lt : Text → Text → Bool
text_lt [] [] = false
text_lt [] (y ∷ ys) = true
text_lt (x ∷ xs) [] = false
text_lt (x ∷ xs) (y ∷ ys) = ltb x y || ((x == y) && text_lt xs ys)

pub is_alnum : ℕ → Bool
is_alnum c = (leb b'A' c && leb c b'Z') || (leb b'a' c && leb c b'z') || (leb b'0' c && leb c b'9')

segment_char : ℕ → Bool
unfolding is_alnum
segment_char c = is_alnum c || (c == b'.') || (c == b'_') || (c == b'-')

segment_rest : Text → Bool
unfolding segment_char
segment_rest [] = true
segment_rest (c ∷ cs) = segment_char c && segment_rest cs

-- /^[A-Za-z0-9][A-Za-z0-9._-]*$/.test(s), which slots, scopes and harness ids share.
unfoldable pub is_segment : Text → Bool
unfolding is_alnum segment_rest
is_segment [] = false
is_segment (c ∷ cs) = is_alnum c && segment_rest cs

pub is_blank-empty : is_blank [] ≡ true
unfolding is_blank
is_blank-empty = refl

trim_test : trim (text "  a b ") ≡ text "a b"
unfolding trim
trim_test = refl

split_test : split b',' (text "a,,b") ≡ text "a" ∷ text "" ∷ text "b" ∷ []
unfolding split
split_test = refl

segment_test : (is_segment (text "s-1.x") ≡ true) × (is_segment (text "../x") ≡ false)
unfolding is_segment
segment_test = (refl, refl)
