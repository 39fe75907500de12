-- ===== src/Core/Normalize.antt =====
-- crates/asli-core/src/normalize.rs. A text is the list of its Unicode scalar values, and a `Cow`
-- is the text that it holds.
pub mod Lines
pub mod Platform
pub mod Blank
pub mod Runs
use asli.Prelude.{ℕ, ◌==◌, if◌then◌else◌, Bool, true, false, not, ◌&&◌, List, [], ◌∷◌}
use asli.Prelude.Text.{trim, contains_char, is_empty}

pub data LineEnding : Type 0 where
  crlf lf : LineEnding

-- `cfg!(windows)` is the argument.
pub native : Bool → LineEnding
native windows = if windows then crlf else lf

abbrev pub bom : ℕ
bom = 0xfeff

abbrev pub nul : ℕ
nul = 0

abbrev pub cr : ℕ
cr = 13

abbrev pub newline : ℕ
newline = 10

unfoldable pub strip_prefix : ℕ → List ℕ → List ℕ
strip_prefix c [] = []
strip_prefix c (d ∷ ds) = if d == c then ds else d ∷ ds

unfoldable pub strip_suffix : ℕ → List ℕ → List ℕ
strip_suffix c [] = []
strip_suffix c (d ∷ []) = if d == c then [] else d ∷ []
strip_suffix c (d ∷ e ∷ ds) = d ∷ strip_suffix c (e ∷ ds)

-- One character that is kept or turned into a newline.
abbrev pub line_char : ℕ → ℕ
line_char c = if c == cr then newline else c

-- The loop over `chars().peekable()`: a newline behind a carriage return is taken with it.
unfoldable pub convert_lines : List ℕ → List ℕ
convert_lines [] = []
convert_lines (c ∷ []) = line_char c ∷ []
convert_lines (c ∷ d ∷ rest) =
    let pair = newline ∷ convert_lines rest in
    let single = line_char c ∷ convert_lines (d ∷ rest) in
    if c == cr && d == newline then pair else single

-- The text without a leading byte order mark and a trailing NUL.
unfoldable pub stripped : List ℕ → List ℕ
unfolding strip_prefix strip_suffix
stripped input = strip_suffix nul (strip_prefix bom input)

unfoldable pub normalize : List ℕ → List ℕ
unfolding stripped convert_lines contains_char
normalize input =
    let text = stripped input in if contains_char text cr then convert_lines text else text

-- `text.replace('\n', "\r\n")`
pub replace_newlines : List ℕ → List ℕ
replace_newlines [] = []
replace_newlines (c ∷ rest) =
    let tail = replace_newlines rest in if c == newline then cr ∷ newline ∷ tail else c ∷ tail

pub to_platform : List ℕ → LineEnding → List ℕ
unfolding replace_newlines contains_char
to_platform text lf = text
to_platform text crlf = if contains_char text newline then replace_newlines text else text

unfoldable pub is_syncable : List ℕ → Bool
unfolding trim
is_syncable text = not (is_empty (trim text))
