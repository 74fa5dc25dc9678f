-- ===== src/Common/Text.antt =====
-- `strings` on ASCII text, a character a byte: trimming, splitting, fields (the part that cmd/ uses).
use Prim.Native.Nat.{ℕ}
use Prim.Native.Char.{code}
use Prim.Native.String.{String}
use mathlib.Core.Path.{◌≡◌, refl}
use mathlib.Core.Bool.{Bool, true, ◌&&◌, ◌||◌}
use mathlib.Core.List.{List, [], ◌∷◌, ◌++◌}
use conuredb.Common.Tests.{◌==◌, leb, if◌then◌else◌}
use conuredb.Common.Bytes.{Bytes}

-- The bytes of an ASCII text. `String` has its own `[]` and `∷`.
abbrev pub codes : String → Bytes
codes String.[] = []
codes (String.◌∷◌ c s) = code c ∷ codes s

abbrev pub is_space : ℕ → Bool
is_space b = (leb 9 b && leb b 13) || b == 32

abbrev pub starts_space : Bytes → Bool
starts_space [] = true
starts_space (b ∷ bs) = is_space b

unfoldable pub trim_left : Bytes → Bytes
trim_left [] = []
trim_left (b ∷ bs) = if is_space b then trim_left bs else b ∷ bs

-- The rest is trimmed first; a space is left out when nothing follows it.
abbrev pub keep_unless_last : ℕ → Bytes → Bytes
keep_unless_last b [] = if is_space b then [] else b ∷ []
keep_unless_last b (c ∷ cs) = b ∷ c ∷ cs

unfoldable pub trim_right : Bytes → Bytes
trim_right [] = []
trim_right (b ∷ bs) = keep_unless_last b (trim_right bs)

-- `strings.TrimSpace`.
unfoldable pub trim_space : Bytes → Bytes
trim_space s = trim_right (trim_left s)

abbrev pub prepend : ℕ → List Bytes → List Bytes
prepend b [] = (b ∷ []) ∷ []
prepend b (w ∷ ws) = (b ∷ w) ∷ ws

-- `strings.Split` at one character.
unfoldable pub split_on : ℕ → Bytes → List Bytes
split_on c [] = [] ∷ []
split_on c (b ∷ bs) = let rest = split_on c bs in if b == c then [] ∷ rest else prepend b rest

-- `strings.Fields`.
unfoldable pub fields : Bytes → List Bytes
fields [] = []
fields (b ∷ bs) =
    let rest = fields bs in
    if is_space b then rest else (if starts_space bs then (b ∷ []) ∷ rest else prepend b rest)

-- `strings.Join` with one character.
unfoldable pub join_with : ℕ → List Bytes → Bytes
join_with c [] = []
join_with c (w ∷ []) = w
join_with c (w ∷ v ∷ ws) = w ++ (c ∷ join_with c (v ∷ ws))

-- What `strings.Cut` leaves before the first `c`: the whole text when there is none.
unfoldable pub cut_before : ℕ → Bytes → Bytes
cut_before c [] = []
cut_before c (b ∷ bs) = if b == c then [] else b ∷ cut_before c bs

-- `strings.TrimSuffix(s, "\n")`.
unfoldable pub trim_newline : Bytes → Bytes
trim_newline [] = []
trim_newline (b ∷ []) = if b == 10 then [] else b ∷ []
trim_newline (b ∷ c ∷ cs) = b ∷ trim_newline (c ∷ cs)

pub trim_newline-append : (v : Bytes) → trim_newline (v ++ (10 ∷ [])) ≡ v
unfolding trim_newline
trim_newline-append [] = refl
trim_newline-append (b ∷ []) = refl
trim_newline-append (b ∷ c ∷ cs) = rw (trim_newline-append (c ∷ cs))
