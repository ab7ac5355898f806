-- ===== src/Base/Text.antt =====
-- Go's `strings` functions over texts. A text is walked by characters; `TrimSpace` removes what
-- `unicode.IsSpace` accepts, and `ToLower` is that of ASCII.
use Prim.Native.Nat.{ℕ}
use Prim.Native.Char.{Char, code}
use Prim.Native.String.{String, [], ◌∷◌, ◌++◌, compare}
use mathlib.Core.Path.{◌≡◌, refl, ap₂}
use mathlib.Core.Bool.{Bool, true, false, ◌&&◌, ◌||◌}
use mathlib.Core.Option.{Option, none, some}
use mathlib.Core.Logic.{◌≢◌, inl, inr}
use text.Mathlib.TextLemmas.{nil-append, cons-append}
use text.Mathlib.TextEquality.{Char-path, eq_iff}
use mathlib.Core.List.{List}
use text.Mathlib.Text.{◌==◌, is_lt}
use native.Mathlib.Omega.{arith}
use testudo_operator.Base.Tests.{Bool-cases, leb, nat_eq, if◌then◌else◌}

-- `a < b` on Go strings: the order of the bytes.
abbrev pub text_lt : String → String → Bool
text_lt a b = is_lt (compare a b)

-- `unicode.IsSpace`.
unfoldable pub is_space : ℕ → Bool
is_space c =
    (leb 9 c && leb c 13)
    || nat_eq c 32
    || nat_eq c 0x85
    || nat_eq c 0xa0
    || nat_eq c 0x1680
    || (leb 0x2000 c && leb c 0x200a)
    || nat_eq c 0x2028
    || nat_eq c 0x2029
    || nat_eq c 0x202f
    || nat_eq c 0x205f
    || nat_eq c 0x3000

trim_left : String → String
unfolding is_space
trim_left [] = []
trim_left (c ∷ s) = let rest = trim_left s in if is_space (code c) then rest else c ∷ s

trim_right : String → String
unfolding is_space
trim_right [] = []
trim_right (c ∷ s) = let r = trim_right s in if r == "" && is_space (code c) then [] else c ∷ r

-- `strings.TrimSpace`.
unfoldable pub trim_space : String → String
unfolding trim_left trim_right
trim_space s = trim_right (trim_left s)

-- What follows a prefix, if the text has that prefix.
unfoldable pub strip_prefix : String → String → Option String
strip_prefix s [] = some s
strip_prefix [] (d ∷ t) = none
strip_prefix (c ∷ s) (d ∷ t) =
    let rest = strip_prefix s t in if nat_eq (code c) (code d) then rest else none

abbrev pub is_some {ℓ} : {A : Type ℓ} → Option A → Bool
is_some none = false
is_some (some a) = true

-- `strings.HasPrefix`.
unfoldable pub has_prefix : String → String → Bool
unfolding strip_prefix
has_prefix s t = is_some (strip_prefix s t)

-- `strings.Contains`.
unfoldable pub contains : String → String → Bool
unfolding has_prefix
contains [] t = has_prefix [] t
contains (c ∷ s) t = let rest = contains s t in has_prefix (c ∷ s) t || rest

-- `strings.HasSuffix`.
unfoldable pub has_suffix : String → String → Bool
has_suffix [] t = t == []
has_suffix (c ∷ s) t = let rest = has_suffix s t in (c ∷ s) == t || rest

-- `strings.TrimSuffix`.
unfoldable pub trim_suffix : String → String → String
trim_suffix [] t = []
trim_suffix (c ∷ s) t = let rest = trim_suffix s t in if (c ∷ s) == t then [] else c ∷ rest

abbrev push_head : Char → List String → List String
push_head c List.[] = List.◌∷◌ (c ∷ []) List.[]
push_head c (List.◌∷◌ s r) = List.◌∷◌ (c ∷ s) r

-- `strings.Split` by a separator of one character, given by its number.
unfoldable pub split : ℕ → String → List String
split d [] = List.◌∷◌ [] List.[]
split d (c ∷ s) =
    let rest = split d s in if nat_eq (code c) d then List.◌∷◌ [] rest else push_head c rest

-- `strings.Join`.
unfoldable pub join : String → List String → String
join sep List.[] = []
join sep (List.◌∷◌ s List.[]) = s
join sep (List.◌∷◌ s (List.◌∷◌ t r)) = s ++ sep ++ join sep (List.◌∷◌ t r)

lower_table : String → String → Char → Char
lower_table (u ∷ us) (l ∷ ls) c =
    let rest = lower_table us ls c in if nat_eq (code c) (code u) then l else rest
lower_table us ls c = c

-- `strings.ToLower` on ASCII.
unfoldable pub to_lower : String → String
unfolding lower_table
to_lower [] = []
to_lower (c ∷ s) =
    lower_table "ABCDEFGHIJKLMNOPQRSTUVWXYZ" "abcdefghijklmnopqrstuvwxyz" c ∷ to_lower s

-- A character up to case, where the other text of `strings.EqualFold` is ASCII: beside the capital
-- letters, the long s and the Kelvin sign fold to ASCII.
fold_case : String → String
unfolding lower_table
fold_case [] = []
fold_case (c ∷ s) =
    lower_table "ABCDEFGHIJKLMNOPQRSTUVWXYZſK" "abcdefghijklmnopqrstuvwxyzsk" c ∷ fold_case s

-- `strings.EqualFold` with an ASCII text.
unfoldable pub equal_fold : String → String → Bool
unfolding fold_case
equal_fold s t = fold_case s == fold_case t

-- Texts that the comparison tells apart.
pub apart : (s t : String) → s == t ≡ false → s ≢ t
apart s t h e = ground (arith, eq_iff s t)

pub strip_prefix-append : (t s : String) → strip_prefix (t ++ s) t ≡ some s
unfolding strip_prefix
strip_prefix-append [] s = rw nil-append
strip_prefix-append (c ∷ t) s = rw cons-append (ground (arith, strip_prefix-append t s))

pub strip_prefix_eq : (s t r : String) → strip_prefix s t ≡ some r → s ≡ t ++ r
unfolding strip_prefix
strip_prefix_eq s [] r h = rw nil-append (cc)
strip_prefix_eq [] (d ∷ t) r h = cc
strip_prefix_eq (c ∷ s) (d ∷ t) r h = elim (Bool-cases (nat_eq (code c) (code d))) [
  | inl same ↦
      let e : c ≡ d = Char-path c d (ground arith) in
      rw cons-append (ap₂ ◌∷◌ e (strip_prefix_eq s t r (rw same at h)))
  | inr other ↦ ground arith
]

trim_example : trim_space "  a b\t\n" ≡ "a b"
unfolding trim_space
trim_example = refl

split_example : join "." (split b'/' "a/b//c") ≡ "a.b..c"
unfolding join split
split_example = refl

search_example :
    (contains "x {{ y" "{{" ≡ true)
    × (has_suffix "/a/-" "/-" ≡ true)
    × (trim_suffix "reg.io/" "/" ≡ "reg.io")
    × (to_lower "ReMove" ≡ "remove")
unfolding contains has_suffix trim_suffix to_lower
search_example = (refl, refl, refl, refl)
