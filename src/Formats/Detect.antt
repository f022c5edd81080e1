-- ===== src/Formats/Detect.antt =====
-- formats.rs: `detect_format`. A confidence is in hundredths; the evidence is a text for people.
use shapeport.Prelude.{
  ℕ, Text, text_eq, codes, contains, starts_with, is_empty, leb, take, not, Bool, true, false, ◌&&◌,
  ◌||◌, ◌==◌, ◌+◌, Option, none, some, List, [], ◌∷◌, ◌++◌, if◌then◌else◌,
}
use shapeport.Host.{Host}
use shapeport.Functions.Args.{is_prefix}
use shapeport.Security.Components.{PathBuf, file_name}
use shapeport.Security.Files.{Bytes}
use shapeport.Formats.{FormatId}
use shapeport.Formats.Adapters.{Adapters}

pub record Detection : Type 0 where
  pub format : FormatId
  pub confidence : ℕ

-- What follows the last dot, if there is a dot that is not the first character.
unfoldable pub last_extension : Text → Option Text
unfolding contains
last_extension [] = none
last_extension (c ∷ s) =
    let later = last_extension s in
    if contains b'.' s then later else if c == b'.' then some s else none

-- `Path::extension`
unfoldable pub extension : PathBuf → Option Text
unfolding last_extension file_name contains
extension path = elim (file_name path) [
  | none ↦ none
  | some name ↦ elim name [
    | [] ↦ none
    | c ∷ s ↦
        if contains b'.' s
        then last_extension (c ∷ s)
        else if c == b'.'
        then none
        else last_extension (c ∷ s)
  ]
]

unfoldable pub to_ascii_lowercase : Text → Text
to_ascii_lowercase [] = []
to_ascii_lowercase (c ∷ s) = (if leb b'A' c && leb c b'Z' then c + 32 else c) ∷ to_ascii_lowercase s

abbrev format_of_extension : Text → Option FormatId
format_of_extension ext =
    if text_eq ext (codes "json")
    then some FormatId.json
    else if text_eq ext (codes "jsonl") || text_eq ext (codes "ndjson")
    then some FormatId.jsonl
    else if text_eq ext (codes "yaml") || text_eq ext (codes "yml")
    then some FormatId.yaml
    else if text_eq ext (codes "csv")
    then some FormatId.csv
    else if text_eq ext (codes "tsv")
    then some FormatId.tsv
    else if text_eq ext (codes "parquet")
    then some FormatId.parquet
    else if text_eq ext (codes "arrow") || text_eq ext (codes "ipc")
    then some FormatId.arrow_ipc
    else none

unfoldable pub format_from_path : PathBuf → Option FormatId
unfolding extension to_ascii_lowercase text_eq
format_from_path path = elim (extension path) [
  | none ↦ none
  | some ext ↦ format_of_extension (to_ascii_lowercase ext)
]

-- The texts between newlines, and `str::lines`: without a last empty one, and without a last `\r`.
unfoldable pub split_lines : Text → Text → List Text
split_lines current [] = if is_empty current then [] else current ∷ []
split_lines current (c ∷ s) =
    let closed = split_lines [] s in
    let longer = split_lines (current ++ c ∷ []) s in
    if c == b'\n' then current ∷ closed else longer

unfoldable pub strip_return : Text → Text
strip_return [] = []
strip_return (c ∷ s) =
    let rest = strip_return s in
    if is_empty s then (if c == b'\r' then [] else c ∷ []) else c ∷ rest

-- A `\r` goes only where a newline followed it.
unfoldable pub strip_returns : Bool → List Text → List Text
unfolding strip_return
strip_returns ends [] = []
strip_returns ends (line ∷ []) = (if ends then strip_return line else line) ∷ []
strip_returns ends (line ∷ next ∷ rest) = strip_return line ∷ strip_returns ends (next ∷ rest)

unfoldable pub ends_with_newline : Text → Bool
ends_with_newline [] = false
ends_with_newline (c ∷ []) = c == b'\n'
ends_with_newline (a ∷ b ∷ s) = ends_with_newline (b ∷ s)

unfoldable pub lines : Text → List Text
unfolding split_lines strip_returns ends_with_newline
lines text = strip_returns (ends_with_newline text) (split_lines [] text)

abbrev detected : FormatId → ℕ → Detection
detected format confidence = record { format = format; confidence = confidence }

module _ (host : Host) (adapters : Adapters) where
  -- The loop of `looks_like_jsonl`, with whether a line was seen.
  unfoldable pub all_json_lines : Bool → List Text → Bool
  unfolding starts_with
  all_json_lines seen [] = seen
  all_json_lines seen (line ∷ rest) =
      let text : Text = host.trim line in
      let later = all_json_lines (if is_empty text then seen else true) rest in
      if is_empty text
      then later
      else if starts_with b'{' text && adapters.is_json text
      then later
      else false

  unfoldable pub looks_like_jsonl : Text → Bool
  unfolding all_json_lines lines
  looks_like_jsonl text = all_json_lines false (take 8 (lines text))

  unfoldable pub probe_text : Bytes → Detection
  unfolding looks_like_jsonl starts_with contains
  probe_text bytes =
      let text : Text = adapters.from_utf8_lossy bytes in
      let trimmed : Text = adapters.trim_start text in
      if starts_with b'{' trimmed || starts_with b'[' trimmed
      then (if adapters.is_json trimmed
          then detected FormatId.json 95
          else detected FormatId.jsonl 60)
      else if looks_like_jsonl text
      then detected FormatId.jsonl 90
      else if contains b':' trimmed && not (contains b',' trimmed)
      then detected FormatId.yaml 55
      else detected FormatId.csv 50

  -- The format that a path's name shows, if there is a path.
  abbrev from_path : Option PathBuf → Option FormatId
  from_path none = none
  from_path (some path) = format_from_path path

  unfoldable pub detect_bytes : Bytes → Option PathBuf → Detection
  unfolding probe_text is_prefix format_from_path
  detect_bytes bytes path =
      if is_prefix (codes "PAR1") bytes
      then detected FormatId.parquet 100
      else if is_prefix (codes "ARROW1") bytes
      then detected FormatId.arrow_ipc 100
      else (elim (from_path path) [ some format ↦ detected format 85 | none ↦ probe_text bytes ])

  unfoldable pub detect_format : Bytes → Option PathBuf → Option FormatId → Detection
  unfolding detect_bytes
  detect_format bytes path (some format) = detected format 100
  detect_format bytes path none = detect_bytes bytes path
