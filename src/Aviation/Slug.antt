-- ===== src/Aviation/Slug.antt =====
-- `normalize_airline_slug` of aviation/master_data/normalize.py. The decomposition to ASCII, `lower`
-- and `strip` are Python's; the regular expressions work on what they leave.
pub mod Shape
pub mod Fixed
use Prim.Native.Char.{Char, code}
use Prim.Native.String.{String}
use sky_trax_project.Prelude.{ℕ, Bool, true, false, not, ◌&&◌, ◌||◌, leb, ◌==◌, if◌then◌else◌}

abbrev pub is_dash : Char → Bool
is_dash c = code c == b'-'

-- `[a-z0-9]`
abbrev pub is_plain : Char → Bool
is_plain c = leb b'a' (code c) && leb (code c) b'z' || leb b'0' (code c) && leb (code c) b'9'

-- `\s`, on ASCII
abbrev pub is_space : Char → Bool
is_space c = leb 9 (code c) && leb (code c) 13 || leb 28 (code c) && leb (code c) 32

-- `\w`, on ASCII
abbrev pub is_word : Char → Bool
is_word c = is_plain c || leb b'A' (code c) && leb (code c) b'Z' || code c == b'_'

-- `[\s_]`
abbrev pub is_gap : Char → Bool
is_gap c = is_space c || code c == b'_'

-- `re.sub(r"[^\w\s-]", "", text)`
unfoldable pub drop_marks : String → String
drop_marks String.[] = String.[]
drop_marks (String.◌∷◌ c s) =
    let rest = drop_marks s in
    if is_word c || is_space c || is_dash c then String.◌∷◌ c rest else rest

abbrev pub starts : (Char → Bool) → String → Bool
starts p String.[] = false
starts p (String.◌∷◌ c s) = p c

-- `re.sub(r"[…]+", "-", text)`: a run of such characters leaves one dash, where it ends.
unfoldable pub dash_runs : (Char → Bool) → String → String
dash_runs p String.[] = String.[]
dash_runs p (String.◌∷◌ c s) =
    let rest = dash_runs p s in
    if p c then (if starts p s then rest else String.◌∷◌ "-" rest) else String.◌∷◌ c rest

-- `text.strip("-")`, from the left and from the right
unfoldable pub strip_left : String → String
strip_left String.[] = String.[]
strip_left (String.◌∷◌ c s) = let rest = strip_left s in if is_dash c then rest else String.◌∷◌ c s

abbrev pub no_text : String → Bool
no_text String.[] = true
no_text (String.◌∷◌ _ _) = false

unfoldable pub strip_right : String → String
strip_right String.[] = String.[]
strip_right (String.◌∷◌ c s) =
    let rest = strip_right s in if no_text rest && is_dash c then String.[] else String.◌∷◌ c rest

-- What the regular expressions make of a text.
unfoldable pub slugify : String → String
unfolding drop_marks dash_runs strip_left strip_right
slugify text = strip_right (strip_left (dash_runs is_dash (dash_runs is_gap (drop_marks text))))

-- Python's functions on the way to ASCII.
pub record Folding : Type 0 where
  pub to_ascii : String → String
  pub lower : String → String
  pub strip : String → String

-- `normalize_airline_slug`
unfoldable pub normalize_airline_slug : Folding → String → String
unfolding slugify
normalize_airline_slug f name = slugify (f.strip (f.lower (f.to_ascii name)))
