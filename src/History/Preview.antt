-- ===== src/History/Preview.antt =====
-- crates/asli-history/src/lib.rs: what a listing shows of an entry.
use asli.Prelude.{
  ℕ, zero, suc, ◌+◌, ◌-◌, ◌==◌, ltb, leb, if◌then◌else◌, Bool, true, false, ◌&&◌, ◌||◌, List, [],
  ◌∷◌, ◌++◌, map, length, take,
}
use asli.Prelude.Text.{is_whitespace, trim}
use asli.History.{Content, text, image_png, Entry, len}

abbrev pub preview_chars : ℕ
preview_chars = 120

abbrev pub ellipsis : ℕ
ellipsis = 0x2026

abbrev pub space : ℕ
space = 32

-- `char::is_control`, the Unicode category Cc.
unfoldable pub is_control : ℕ → Bool
is_control c = leb c 31 || (leb 127 c && leb c 159)

-- `String::pop` and `ends_with(' ')`.
unfoldable pub pop_char : List ℕ → List ℕ
pop_char [] = []
pop_char (c ∷ []) = []
pop_char (c ∷ d ∷ cs) = c ∷ pop_char (d ∷ cs)

unfoldable pub ends_with_space : List ℕ → Bool
ends_with_space [] = false
ends_with_space (c ∷ []) = c == space
ends_with_space (c ∷ d ∷ cs) = ends_with_space (d ∷ cs)

-- The loop that makes room for the ellipsis; a round for each character is enough.
unfoldable pub shorten : ℕ → List ℕ → ℕ → List ℕ
unfolding pop_char ends_with_space
shorten zero out count = out
shorten (suc rounds) out count =
    let less = shorten rounds (pop_char out) (count - 1) in
    if ltb preview_chars (count + 1) || ends_with_space out then less else out

-- The loop over the characters that are left.
unfoldable pub preview_from : List ℕ → ℕ → Bool → List ℕ → List ℕ
unfolding shorten is_control
preview_from out count gap [] = out
preview_from out count gap (c ∷ cs) =
    let needed = (if gap then 1 else 0) + 1 in
    let skipped = preview_from out count (ltb 0 count) cs in
    let shown =
      preview_from ((if gap then out ++ (space ∷ []) else out) ++ (c ∷ [])) (count + needed) false
        cs in
    if is_whitespace c || is_control c
    then skipped
    else if ltb preview_chars (count + needed)
    then shorten (length out) out count ++ (ellipsis ∷ [])
    else shown

unfoldable pub preview : List ℕ → List ℕ
unfolding preview_from
preview t = preview_from [] 0 false t

-- `str::lines().count()`: whether a line has begun, and what is left.
unfoldable pub lines_from : Bool → List ℕ → ℕ
lines_from begun [] = if begun then 1 else 0
lines_from begun (c ∷ cs) =
    let ended = lines_from false cs in
    let going_on = lines_from true cs in if c == 10 then suc ended else going_on

unfoldable pub line_count : List ℕ → ℕ
unfolding lines_from
line_count t = lines_from false (trim t)

pub data Kind : Type 0 where
  text_kind image_png_kind : Kind

pub record Summary : Type 0 where
  pub id : List ℕ
  pub ts_ms : ℕ
  pub kind : Kind
  pub bytes : ℕ
  pub preview_text : List ℕ
  pub lines : ℕ
  pub device_id : List ℕ

-- The kind, the preview and the lines of a content.
unfoldable pub shown_of : Content → Kind × List ℕ × ℕ
unfolding preview line_count
shown_of (text t) = (text_kind, preview t, line_count t)
shown_of (image_png bytes) = (image_png_kind, [], 0)

unfoldable pub summary : Entry → Summary
unfolding shown_of
summary e = record {
  id = e.id;
  ts_ms = e.ts_ms;
  kind = (shown_of e.content).0;
  bytes = len e.content;
  preview_text = (shown_of e.content).1;
  lines = (shown_of e.content).2;
  device_id = e.device_id;
}

unfoldable pub list : List Entry → List Summary
unfolding summary
list es = map summary es

unfoldable pub list_recent : List Entry → ℕ → List Summary
unfolding summary
list_recent es limit = map summary (take limit es)
