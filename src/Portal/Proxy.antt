-- ===== src/Portal/Proxy.antt =====
-- The portal's table in the operator's configuration: portal/configure_reverse_proxy.py, on the code
-- points of the file.
pub mod RoundTrip
pub mod Tests
use cascade_vpn.Base.{
  ℕ, String, Bool, true, false, ◌&&◌, ◌||◌, not, Option, none, some, List, [], ◌∷◌, ◌++◌, ◌==◌,
  if◌then◌else◌, Result, ok, err, codes, Parts, cut, occurs, occurrences, without_first,
}

abbrev pub newline : ℕ
newline = 10

abbrev pub bridge_marker : List ℕ
bridge_marker = codes "# --- managed by ttx-bridge: do not edit below this line ---"

abbrev pub block_start : List ℕ
block_start = codes "# --- managed by ffknd-portal: reverse_proxy start ---"

abbrev pub block_end : List ℕ
block_end = codes "# --- managed by ffknd-portal: reverse_proxy end ---"

-- The lines between the markers, without the last line's end.
abbrev pub body_lines : List ℕ
body_lines =
    codes
      "# Обычные HTTP-запросы; VPN authority-form CONNECT не совпадает с '/'.\n[reverse_proxy]\nserver_address = \"127.0.0.1:8080\"\npath_mask = \"/\"\nh3_backward_compatibility = false"

-- `PORTAL_BLOCK_BODY`, which is also `LEGACY_PORTAL_BLOCK`
abbrev pub block_body : List ℕ
block_body = body_lines ++ codes "\n"

-- `PORTAL_BLOCK`
abbrev pub block : List ℕ
block = block_start ++ (codes "\n" ++ (block_body ++ (block_end ++ codes "\n")))

-- `PORTAL_INSERTION`
abbrev pub insertion : List ℕ
insertion = codes "\n" ++ block

-- The messages of `ManagedBlockError`.
pub data BlockError : Type 0 where
  malformed duplicated modified legacy_duplicated : BlockError

abbrev pub has_markers : List ℕ → Bool
has_markers text = occurs block_start text || occurs block_end text

abbrev pub with_insertion : List ℕ → Option Parts → List ℕ
with_insertion text none = text ++ insertion
with_insertion text (some (before, managed)) = before ++ (insertion ++ (bridge_marker ++ managed))

-- `read_text`, of the decoded characters: each of "\r\n" and "\r" is read as "\n". The test says that
-- "\r" came before.
unfoldable pub read_from : Bool → List ℕ → List ℕ
read_from returned [] = []
read_from returned (c ∷ s) =
    let after_return = read_from true s in
    let rest = read_from false s in
    if c == 13
    then newline ∷ after_return
    else if returned && (c == newline)
    then rest
    else c ∷ rest

abbrev pub read_text : List ℕ → List ℕ
read_text = read_from false

-- The work of `ensure_reverse_proxy` on the text that was read; the test is that of
-- `REVERSE_PROXY_TABLE`.
unfoldable pub ensure_text : (List ℕ → Bool) → List ℕ → Result BlockError (Option (List ℕ))
ensure_text has_table text =
    if has_markers text
    then if (occurrences block text == 1)
        && (occurrences block_start text == 1)
        && (occurrences block_end text == 1)
      then ok none
      else err malformed
    else if has_table text
    then ok none
    else ok (some (with_insertion text (cut bridge_marker text)))

abbrev owned : List ℕ → List ℕ
owned text = if occurrences insertion text == 1 then insertion else block

-- `ensure_reverse_proxy`: the new file, where it is written; writing changes no line end.
unfoldable pub ensure_reverse_proxy : (List ℕ → Bool) → List ℕ → Result BlockError (Option (List ℕ))
unfolding ensure_text read_from
ensure_reverse_proxy has_table file = ensure_text has_table (read_text file)

-- The work of `remove_reverse_proxy` on the text that was read.
unfoldable pub remove_text : List ℕ → Result BlockError (Option (List ℕ))
remove_text text =
    if has_markers text
    then if not ((occurrences block_start text == 1) && (occurrences block_end text == 1))
      then err duplicated
      else if not (occurrences block text == 1)
      then err modified
      else ok (some (without_first (owned text) text))
    else if occurrences block_body text == 0
    then ok none
    else if not (occurrences block_body text == 1)
    then err legacy_duplicated
    else ok (some (without_first block_body text))

-- `remove_reverse_proxy`
unfoldable pub remove_reverse_proxy : List ℕ → Result BlockError (Option (List ℕ))
unfolding remove_text read_from
remove_reverse_proxy file = remove_text (read_text file)
