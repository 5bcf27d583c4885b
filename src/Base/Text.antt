-- ===== src/Base/Text.antt =====
-- The text functions of Go's `strings` that the program calls.
use Prim.Native.Char.{Char, code}
use Prim.Native.Nat.{ℕ, ◌+◌}
use Prim.Native.String.{String}
use mathlib.Core.Path.{◌≡◌, refl}
use mathlib.Core.List.{List, [], ◌∷◌}
use mathlib.Core.Bool.{Bool, true, false, ◌&&◌, ◌||◌}
use feed_flow.Base.Tests.{leb, ◌==◌, if◌then◌else◌}

-- `unicode.IsSpace`.
abbrev pub is_space : Char → Bool
is_space c =
    let n = code c in
    (leb 9 n && leb n 13)
    || n == 32
    || n == 133
    || n == 160
    || n == 5760
    || (leb 8192 n && leb n 8202)
    || n == 8232
    || n == 8233
    || n == 8239
    || n == 8287
    || n == 12288

abbrev pub is_empty : String → Bool
is_empty String.[] = true
is_empty (String.◌∷◌ c s) = false

-- What `strings.TrimSpace` leaves on the left.
unfoldable pub trim_left : String → String
trim_left String.[] = String.[]
trim_left (String.◌∷◌ c s) = if is_space c then trim_left s else String.◌∷◌ c s

unfoldable pub trim_right : String → String
trim_right String.[] = String.[]
trim_right (String.◌∷◌ c s) =
    let rest = trim_right s in if is_empty rest && is_space c then String.[] else String.◌∷◌ c rest

unfoldable pub trim_space : String → String
unfolding trim_left trim_right
trim_space s = trim_right (trim_left s)

-- Go's `len` of a string: the bytes of its UTF-8.
abbrev pub char_bytes : Char → ℕ
char_bytes c =
    let n = code c in
    if leb n 127 then 1 else if leb n 2047 then 2 else if leb n 65535 then 3 else 4

unfoldable pub byte_len : String → ℕ
byte_len String.[] = 0
byte_len (String.◌∷◌ c s) = char_bytes c + byte_len s

abbrev pub reverse_onto : String → String → String
reverse_onto out String.[] = out
reverse_onto out (String.◌∷◌ c s) = reverse_onto (String.◌∷◌ c out) s

abbrev pub reversed : String → String
reversed s = reverse_onto String.[] s

-- `strings.Fields`: the words between white space; `word` is read back to front so far.
unfoldable pub fields_from : String → String → List String
fields_from word String.[] = if is_empty word then [] else reversed word ∷ []
fields_from word (String.◌∷◌ c s) =
    let next = fields_from (String.◌∷◌ c word) s in
    let parted = fields_from String.[] s in
    if is_space c then (if is_empty word then parted else reversed word ∷ parted) else next

unfoldable pub fields : String → List String
unfolding fields_from
fields s = fields_from String.[] s

-- The letters that fold to one another, as far as an ASCII text is concerned: the Kelvin sign
-- folds to k and the long s to s.
abbrev pub folded : Char → ℕ
folded c =
    let n = code c in
    if leb 65 n && leb n 90 then n + 32 else if n == 8490 then 107 else if n == 383 then 115 else n

-- `strings.EqualFold` with an ASCII text.
unfoldable pub equal_fold : String → String → Bool
equal_fold String.[] String.[] = true
equal_fold String.[] (String.◌∷◌ d t) = false
equal_fold (String.◌∷◌ c s) String.[] = false
equal_fold (String.◌∷◌ c s) (String.◌∷◌ d t) = folded c == folded d && equal_fold s t

byte_len_test : byte_len "aé" ≡ 3
unfolding byte_len
byte_len_test = refl

trim_test : trim_space "  a b\n" ≡ "a b"
unfolding trim_space
trim_test = refl

fields_test : fields "  Bearer  abc " ≡ "Bearer" ∷ "abc" ∷ []
unfolding fields
fields_test = refl

equal_fold_test : equal_fold "bEARER" "Bearer" ≡ true
unfolding equal_fold
equal_fold_test = refl
