-- ===== src/Config/Comments.antt =====
-- Comments and lines that assign nothing.
use livesh.Prelude.{
  ℕ, ◌≡◌, refl, ap, ◌∙◌, false, List, [], ◌∷◌, ◌++◌, arith, Bytes, map, codes, before, trim,
  eq_bytes,
}
use livesh.Config.{Config, Parsing, parse_line, parse_stripped, parse_lines, assign}

before-append :
    (sep : ℕ) (line comment : Bytes) → before sep (line ++ (sep ∷ comment)) ≡ before sep line
unfolding before
before-append sep [] comment = ground arith
before-append sep (c ∷ line) comment = ground (arith, before-append sep line comment)

-- A line with its comment.
abbrev pub with_comment : Bytes × Bytes → Bytes
with_comment (line, comment) = line ++ (b'#' ∷ comment)

parse_line-with_comment :
    (line comment : Bytes) (p : Parsing)
    → parse_line (with_comment (line, comment)) p ≡ parse_line line p
unfolding parse_line
parse_line-with_comment line comment p =
    ap (λ l. parse_stripped (trim l) p) (before-append b'#' line comment)

-- Comments behind the lines of a file, whatever they hold, change nothing of the configuration.
pub parse_lines-with_comment :
    (lines : List (Bytes × Bytes)) (p : Parsing)
    → parse_lines (map with_comment lines) p ≡ parse_lines (map (λ l. l.0) lines) p
unfolding parse_lines
parse_lines-with_comment [] p = refl
parse_lines-with_comment ((line, comment) ∷ lines) p =
    parse_lines-with_comment lines (parse_line (with_comment (line, comment)) p)
    ∙ ap (parse_lines (map (λ l. l.0) lines)) (parse_line-with_comment line comment p)

-- An assignment in another section than `limits` changes no limit.
pub assign-limits :
    (section key value : Bytes) (c : Config)
    → eq_bytes section (codes "limits") ≡ false
    → (assign section key value c).limits ≡ c.limits
unfolding assign
assign-limits section key value c h = ground arith
