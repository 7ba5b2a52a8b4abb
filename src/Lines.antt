-- ===== src/Lines.antt =====
-- Texts and their lines: `split` and `join`.
use Prim.Native.Char.{Char, code}
use world_wide_woo.Common.{String, Bool, false, ◌&&◌, List, [], ◌∷◌, ◌==◌, if◌then◌else◌}
use world_wide_woo.Decimal.{append}

-- `split("\n")`: the lines of a text, at least one.
abbrev pub onto_first : Char → List String → List String
onto_first c [] = String.◌∷◌ c "" ∷ []
onto_first c (l ∷ ls) = String.◌∷◌ c l ∷ ls

unfoldable pub split_lines : String → List String
split_lines String.[] = "" ∷ []
split_lines (String.◌∷◌ c s) =
    let rest = split_lines s in if code c == 10 then "" ∷ rest else onto_first c rest

-- `join("\n")`.
unfoldable pub join_lines : List String → String
unfolding append
join_lines [] = ""
join_lines (l ∷ []) = l
join_lines (l ∷ m ∷ ls) = append l (append "\n" (join_lines (m ∷ ls)))

abbrev pub starts_with_newline : String → Bool
starts_with_newline String.[] = false
starts_with_newline (String.◌∷◌ c s) = code c == 10

-- `split(/\r?\n/)`.
unfoldable pub split_crlf : String → List String
split_crlf String.[] = "" ∷ []
split_crlf (String.◌∷◌ c s) =
    let rest = split_crlf s in
    if code c == 10
    then "" ∷ rest
    else if (code c == 13) && starts_with_newline s
    then rest
    else onto_first c rest
