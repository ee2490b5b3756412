-- ===== src/Input.antt =====
-- Package input (internal/input/input.go): the links of arguments and lines.
pub mod Distinct
mod Tests
use mtproto_checker.Common.{
  Bool, Bytes, List, [], equal, err, if◌then◌else◌, ok, suc, zero, ℕ, ◌++◌, ◌==◌, ◌||◌, ◌∷◌,
}
use mtproto_checker.Common.Text.{codes, has_prefix, is_empty, trim, trim_space}
use mtproto_checker.Common.Keys.{member}
use mtproto_checker.Proxy.Link.{Platform, key, parse}

-- `ExtractStrict`: every argument that is not blank.
unfoldable pub extract_strict : List Bytes → List Bytes
extract_strict [] = []
extract_strict (line ∷ lines) =
    let rest = extract_strict lines in
    if is_empty (trim_space line) then rest else trim_space line ∷ rest

-- A line that begins with one of the three comment markers is dropped.
unfoldable pub strip_comment : Bytes → Bytes
strip_comment line =
    let trimmed = trim_space line in
    if has_prefix trimmed (codes "#")
      || has_prefix trimmed (codes "//")
      || has_prefix trimmed (codes ";")
    then []
    else line

-- The cut set ".,;)".
abbrev pub is_trailing : ℕ → Bool
is_trailing c = c == b'.' || c == b',' || c == b';' || c == b')'

-- Up to `n` rounds of the replacement of entities, until nothing changes.
unfoldable pub unescape_rounds : (Bytes → Bytes) → ℕ → Bytes → Bytes
unescape_rounds replace zero link = link
unescape_rounds replace (suc n) link =
    let again = unescape_rounds replace n (replace link) in
    if equal (replace link) link then link else again

unfoldable pub unescape : (Bytes → Bytes) → Bytes → Bytes
unfolding unescape_rounds
unescape replace link = unescape_rounds replace 3 link

-- What Go's regexp and strings.Replacer do of `Extract`: the links in a line, the test of a host
-- and port, and one replacement of the entities.
pub record Patterns : Type 0 where
  pub find_links : Bytes → List Bytes
  pub is_host_port : Bytes → Bool
  pub replace : Bytes → Bytes

module _ (patterns : Patterns) where
  unfoldable pub unescape_all : List Bytes → List Bytes
  unfolding unescape
  unescape_all [] = []
  unescape_all (link ∷ links) =
      unescape patterns.replace (trim is_trailing link) ∷ unescape_all links

  -- What one line of `Extract` appends.
  unfoldable pub line_links : Bytes → List Bytes → List Bytes
  line_links line [] = if patterns.is_host_port line then line ∷ [] else []
  line_links line (link ∷ links) = unescape_all (link ∷ links)

  unfoldable pub extract : List Bytes → List Bytes
  extract [] = []
  extract (l ∷ lines) =
      let line = trim_space (strip_comment l) in
      let rest = extract lines in
      if is_empty line then rest else line_links line (patterns.find_links line) ++ rest

module _ (os : Platform) where
  -- The key that `Dedup` knows a link by: its target's, or the link where it has no target.
  unfoldable pub link_key : Bytes → Bytes
  link_key link = elim (parse os link) [ ok target ↦ key os target | err e ↦ link ]

  -- The loop of `Dedup` from `seen` on.
  unfoldable pub dedup_from : List Bytes → List Bytes → List Bytes
  dedup_from seen [] = []
  dedup_from seen (link ∷ links) =
      let skipped = dedup_from seen links in
      let kept = dedup_from (link_key link ∷ seen) links in
      if member (link_key link) seen then skipped else link ∷ kept

  unfoldable pub dedup : List Bytes → List Bytes
  unfolding dedup_from
  dedup links = dedup_from [] links

  -- `Collect`, from the lines that the files, the standard input and the addresses gave.
  unfoldable pub collect : Patterns → List Bytes → List Bytes → List Bytes
  unfolding extract_strict extract dedup
  collect patterns args lines = dedup (extract_strict args ++ extract patterns lines)
