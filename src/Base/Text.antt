-- ===== src/Base/Text.antt =====
-- Text: the functions of Go's `strings` and `strconv` that the server uses.
use Prim.Native.Nat.{ℕ, zero, suc, ◌+◌, ◌/◌, ◌%◌}
use Prim.Native.Char.{Char, code}
use Prim.Native.String
use Prim.Native.String.{String, compare, slice}
use Prim.Native.Nat.{Ordering}
use mathlib.Core.Path.{◌≡◌, refl, subst}
use mathlib.Core.Logic.{inl, inr}
use mathlib.Core.Bool.{Bool, true, false, ◌||◌, ◌&&◌}
use mathlib.Core.Option
use mathlib.Core.Option.{Option, none, some}
use mathlib.Core.List.{List, [], ◌∷◌}
use native.Mathlib.Omega.{arith}
use text.Mathlib.TextLemmas.{nil-append, cons-append}
unfoldable pub use text.Mathlib.Text.{◌==◌}
use super_mario_bros_wonder.Base.Tests.{if◌then◌else◌, eqb, ltb, leb, Option-cases}

-- Go's `+` on strings.
infixl 65 ◌⊕◌
abbrev pub ◌⊕◌ : String → String → String
s ⊕ t = String.◌++◌ s t

-- `a < b` and `a <= b` on strings.
abbrev pub str_lt : String → String → Bool
str_lt a b = elim (compare a b) [ Ordering.lt ↦ true | _ ↦ false ]

abbrev pub str_le : String → String → Bool
str_le a b = elim (compare a b) [ Ordering.gt ↦ false | _ ↦ true ]

-- The text behind the last `/`, if there is one (`strings.LastIndexByte`).
unfoldable pub after_last_slash : String → Option String
after_last_slash String.[] = none
after_last_slash (String.◌∷◌ c s) = elim (after_last_slash s) [
  | some t ↦ some t
  | none ↦ if eqb (code c) b'/' then some s else none
]

-- The text before the last `/`.
unfoldable pub before_last_slash : String → Option String
before_last_slash String.[] = none
before_last_slash (String.◌∷◌ c s) = elim (before_last_slash s) [
  | some t ↦ some (String.◌∷◌ c t)
  | none ↦ if eqb (code c) b'/' then some "" else none
]

-- `strings.TrimPrefix`, as an option: the rest of the text behind the prefix.
unfoldable pub strip_prefix : String → String → Option String
strip_prefix String.[] s = some s
strip_prefix (String.◌∷◌ c p) String.[] = none
strip_prefix (String.◌∷◌ c p) (String.◌∷◌ d s) =
    if eqb (code c) (code d) then strip_prefix p s else none

abbrev pub is_some {ℓ} : {A : Type ℓ} → Option A → Bool
is_some none = false
is_some (some a) = true

-- `strings.HasPrefix(s, p)`
abbrev pub has_prefix : String → String → Bool
has_prefix s p = is_some (strip_prefix p s)

-- `strings.Count(s, "/")`
unfoldable pub slashes : String → ℕ
slashes String.[] = 0
slashes (String.◌∷◌ c s) = if eqb (code c) b'/' then suc (slashes s) else slashes s

abbrev first_part : Char → List String → List String
first_part c [] = String.◌∷◌ c "" ∷ []
first_part c (p ∷ ps) = String.◌∷◌ c p ∷ ps

-- `strings.Split` at a character
unfoldable pub split : ℕ → String → List String
split sep String.[] = "" ∷ []
split sep (String.◌∷◌ c s) =
    if eqb (code c) sep then "" ∷ split sep s else first_part c (split sep s)

digit : ℕ → String
digit d = slice "0123456789" d (d + 1)

-- Decimal digits; more fuel than the number has digits is enough.
decimal_from : ℕ → ℕ → String → String
decimal_from zero n acc = acc
decimal_from (suc fuel) n acc =
    let rest = decimal_from fuel (n / 10) (digit (n % 10) ⊕ acc) in
    if ltb n 10 then digit n ⊕ acc else rest

-- `fmt.Sprintf("%d", n)`
unfoldable pub decimal : ℕ → String
unfolding decimal_from digit
decimal n = decimal_from (suc n) n ""

pub after_last_slash-append :
    (s t : String) → after_last_slash t ≡ none → after_last_slash (s ⊕ ("/" ⊕ t)) ≡ some t
unfolding after_last_slash
after_last_slash-append String.[] t h = rw (nil-append, cons-append, nil-append, h)
after_last_slash-append (String.◌∷◌ c s) t h =
    rw cons-append (rw (after_last_slash-append s t h, after_last_slash))

-- What stands behind the last slash holds none.
pub after_last_slash-eq-none :
    (s : String) {t : String} → after_last_slash s ≡ some t → after_last_slash t ≡ none
unfolding after_last_slash
after_last_slash-eq-none String.[] h = cc
after_last_slash-eq-none (String.◌∷◌ c s) {t} h = elim (Option-cases (after_last_slash s)) [
  | inl e ↦ ground (arith, e)
  | inr (u, e) ↦
      subst (λ x. after_last_slash x ≡ none) {x = u} {y = t} (ground (arith, e))
        (after_last_slash-eq-none s e)
]

sample_split : split b'/' "docs/p/1" ≡ "docs" ∷ "p" ∷ "1" ∷ []
unfolding split
sample_split = refl

sample_decimal : decimal 1050 ≡ "1050"
unfolding decimal
sample_decimal = refl

is_space : ℕ → Bool
is_space c = eqb c 32 || (leb 9 c && leb c 13)

trim_left : String → String
trim_left String.[] = ""
trim_left (String.◌∷◌ c s) = if is_space (code c) then trim_left s else String.◌∷◌ c s

trim_right : String → String
trim_right String.[] = ""
trim_right (String.◌∷◌ c s) =
    let t = trim_right s in if (t == "") && is_space (code c) then "" else String.◌∷◌ c t

-- `strings.TrimSpace`, of a header value, which is ASCII
unfoldable pub trim_space : String → String
unfolding trim_left trim_right is_space
trim_space s = trim_right (trim_left s)

lower : ℕ → ℕ
lower c = if leb b'A' c && leb c b'Z' then c + 32 else c

-- The rest of the text behind a prefix in lower case, the case of letters aside
-- (`strings.EqualFold` on the first bytes).
unfoldable pub strip_prefix_fold : String → String → Option String
unfolding lower
strip_prefix_fold String.[] s = some s
strip_prefix_fold (String.◌∷◌ c p) String.[] = none
strip_prefix_fold (String.◌∷◌ c p) (String.◌∷◌ d s) =
    if eqb (code c) (lower (code d)) then strip_prefix_fold p s else none

-- `strings.Contains(s, string(c))`
unfoldable pub contains_char : ℕ → String → Bool
contains_char c String.[] = false
contains_char c (String.◌∷◌ d s) = eqb (code d) c || contains_char c s

-- `sort.Strings`
unfoldable pub insert_sorted : String → List String → List String
insert_sorted x [] = x ∷ []
insert_sorted x (y ∷ ys) = if str_le x y then x ∷ y ∷ ys else y ∷ insert_sorted x ys

unfoldable pub sort : List String → List String
sort [] = []
sort (x ∷ xs) = insert_sorted x (sort xs)

-- `strings.Cut(s, sep)`: what stands before and behind the first place where `sep` stands.
unfoldable pub split_once : String → String → Option (String × String)
split_once sep String.[] = Option.map (λ rest. ("", rest)) (strip_prefix sep "")
split_once sep (String.◌∷◌ c s) = elim (strip_prefix sep (String.◌∷◌ c s)) [
  | some rest ↦ some ("", rest)
  | none ↦ Option.map (λ p. (String.◌∷◌ c p.0, p.1)) (split_once sep s)
]
