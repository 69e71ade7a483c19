-- ===== src/Prelude/Text.antt =====
-- Rust's `str` as the list of its code points, with the operations of the standard library that
-- the program calls on it.
use Prim.Native.Char.{code}
use Prim.Native.String.{String}
use Prim.Native.Nat.{ℕ, ◌+◌, ◌/◌, ◌%◌}
use mathlib.Core.Path.{◌≡◌, refl}
use mathlib.Core.Logic.{◌↔◌}
use mathlib.Core.Bool.{Bool, true, false, ◌&&◌, ◌||◌}
use mathlib.Core.List.{List, [], ◌∷◌, ◌++◌, map}
use native.Mathlib.Omega.{arith}
use rootmode.Prelude.Tests.{ltb, leb, ◌==◌, if◌then◌else◌}
use rootmode.Prelude.Lists.{all}

abbrev pub Text : Type 0
Text = List ℕ

-- A literal of the source.
abbrev pub text : String → Text
text String.[] = []
text (String.◌∷◌ c s) = code c ∷ text s

-- Equality of texts, `==` of `str`.
unfoldable pub text_eq : Text → Text → Bool
text_eq [] [] = true
text_eq [] (b ∷ bs) = false
text_eq (a ∷ as') [] = false
text_eq (a ∷ as') (b ∷ bs) = a == b && text_eq as' bs

pub text_eq_iff : (a b : Text) → (text_eq a b ≡ true) ↔ (a ≡ b)
unfolding text_eq
text_eq_iff [] [] = ((λ _. refl), (λ _. refl))
text_eq_iff [] (b ∷ bs) = ((λ h. cc), (λ h. cc))
text_eq_iff (a ∷ as') [] = ((λ h. cc), (λ h. cc))
text_eq_iff (a ∷ as') (b ∷ bs) =
    ((λ h. ground (arith, text_eq_iff as' bs)), (λ h. ground (arith, text_eq_iff as' bs)))

-- `u8::to_ascii_lowercase`, on a code point.
unfoldable pub ascii_lower : ℕ → ℕ
ascii_lower c = if leb 65 c && leb c 90 then c + 32 else c

-- `str::eq_ignore_ascii_case`.
unfoldable pub eq_ignore_ascii_case : Text → Text → Bool
unfolding text_eq ascii_lower
eq_ignore_ascii_case a b = text_eq (map ascii_lower a) (map ascii_lower b)

-- `Ord` of `str`: the order of the bytes, which is that of the code points.
unfoldable pub text_lt : Text → Text → Bool
text_lt [] [] = false
text_lt [] (b ∷ bs) = true
text_lt (a ∷ as') [] = false
text_lt (a ∷ as') (b ∷ bs) = ltb a b || (a == b && text_lt as' bs)

pub text_lt_irrefl : (a : Text) → text_lt a a ≡ false
unfolding text_lt
text_lt_irrefl [] = refl
text_lt_irrefl (a ∷ as') = ground (arith, text_lt_irrefl as')

pub text_lt_trans : (a b c : Text) → text_lt a b ≡ true → text_lt b c ≡ true → text_lt a c ≡ true
unfolding text_lt
text_lt_trans [] [] c p q = cc
text_lt_trans [] (b ∷ bs) [] p q = cc
text_lt_trans [] (b ∷ bs) (c ∷ cs) p q = refl
text_lt_trans (a ∷ as') [] c p q = cc
text_lt_trans (a ∷ as') (b ∷ bs) [] p q = cc
text_lt_trans (a ∷ as') (b ∷ bs) (c ∷ cs) p q = ground (arith, text_lt_trans as' bs cs)

pub text_lt_total : (a b : Text) → text_eq a b ≡ false → text_lt a b ≡ false → text_lt b a ≡ true
unfolding text_lt text_eq
text_lt_total [] [] p q = cc
text_lt_total [] (b ∷ bs) p q = cc
text_lt_total (a ∷ as') [] p q = refl
text_lt_total (a ∷ as') (b ∷ bs) p q = ground (arith, text_lt_total as' bs)

pub text_lt_asymm :
    (a b : Text) → text_lt a b ≡ true → (text_eq a b ≡ false) × (text_lt b a ≡ false)
text_lt_asymm a b h =
    ground (arith, text_eq_iff a b, text_lt_irrefl a, text_lt_irrefl b, text_lt_trans a b a)

-- `str::as_bytes`: the UTF-8 bytes of one code point, and of a text.
unfoldable pub utf8_char : ℕ → List ℕ
utf8_char c =
    if ltb c 0x80
    then c ∷ []
    else if ltb c 0x800
    then (0xc0 + c / 64) ∷ (0x80 + c % 64) ∷ []
    else if ltb c 0x10000
    then (0xe0 + c / 4096) ∷ (0x80 + c / 64 % 64) ∷ (0x80 + c % 64) ∷ []
    else (0xf0 + c / 262144) ∷ (0x80 + c / 4096 % 64) ∷ (0x80 + c / 64 % 64) ∷ (0x80 + c % 64) ∷ []

unfoldable pub utf8 : Text → List ℕ
unfolding utf8_char
utf8 [] = []
utf8 (c ∷ t) = utf8_char c ++ utf8 t

-- `str::strip_prefix(p).unwrap_or(s)` and `str::trim_start_matches(p)`, for `p` = "0x".
unfoldable pub strip_0x : Text → Text
strip_0x [] = []
strip_0x (a ∷ []) = a ∷ []
strip_0x (a ∷ b ∷ t) = if a == b'0' && b == b'x' then t else a ∷ b ∷ t

unfoldable pub trim_0x : Text → Text
trim_0x [] = []
trim_0x (a ∷ []) = a ∷ []
trim_0x (a ∷ b ∷ t) = let rest = trim_0x t in if a == b'0' && b == b'x' then rest else a ∷ b ∷ t

-- `str::to_lowercase`: by the ASCII rule on ASCII text. The Unicode tables are an argument.
unfoldable pub to_lowercase : (Text → Text) → Text → Text
unfolding ascii_lower
to_lowercase unicode t = if all (λ c. ltb c 0x80) t then map ascii_lower t else unicode t
