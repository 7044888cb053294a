-- ===== src/Host/Options/Lines.antt =====
-- Lines, blanks and keys of the configuration (host/src/main.c, trim, load_config).
use cec_controller.Common.{ℕ, zero, suc, Bool, ◌||◌, List, [], ◌∷◌, ◌++◌, ◌==◌, if◌then◌else◌, Text}

abbrev is_blank : ℕ → Bool
is_blank c = c == 32 || c == 9

unfoldable pub trim_start : Text → Text
trim_start [] = []
trim_start (c ∷ text) = let rest = trim_start text in if is_blank c then rest else c ∷ text

abbrev attach : ℕ → Text → Text
attach c [] = if is_blank c || (c == 13 || c == 10) then [] else c ∷ []
attach c (d ∷ text) = c ∷ d ∷ text

unfoldable pub trim_end : Text → Text
trim_end [] = []
trim_end (c ∷ text) = attach c (trim_end text)

unfoldable pub trim : Text → Text
unfolding trim_start trim_end
trim text = trim_end (trim_start text)

-- fgets: the lines of a text, each with its end, in pieces of up to 4159 characters.
abbrev end_line : Text → List Text
end_line [] = []
end_line (c ∷ line) = (c ∷ line) ∷ []

unfoldable pub lines_of : ℕ → Text → Text → List Text
lines_of room line [] = end_line line
lines_of room line (c ∷ text) =
    let ended = (line ++ (c ∷ [])) ∷ lines_of 4158 [] text in
    elim room [
      | zero ↦ ended
      | suc less ↦
          let longer = lines_of less (line ++ (c ∷ [])) text in if c == 10 then ended else longer
    ]
