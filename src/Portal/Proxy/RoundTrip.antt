-- ===== src/Portal/Proxy/RoundTrip.antt =====
-- What is added is removed again without a trace.
use mathlib.Core.List.{append-nil}
use cascade_vpn.Base.{
  ℕ, ◌≡◌, refl, ap, sym, ◌∙◌, Bool, true, false, any, ◌||◌, ◌==◌, Option, none, some, ok, List, [],
  ◌∷◌, ◌++◌, arith, codes, Parts, cut, occurs, occurrences, without_first, begins, Fresh,
  line-Fresh, longer-Fresh, after-Fresh, cut_split, occurs-left, occurs-right, occurs_line,
  occurs-cons, occurs_longer, occurs_after, occurs_once, count-Fresh, count_once,
  without_first-Fresh,
}
use cascade_vpn.Portal.Proxy.{
  newline, bridge_marker, block_start, block_end, body_lines, block_body, block, insertion,
  with_insertion, read_from, read_text, ensure_text, remove_text, ensure_reverse_proxy,
  remove_reverse_proxy,
}

-- The text around the place of the insertion, in which neither marker occurs.
module _ (before after : List ℕ) (no_start : occurs block_start (before ++ after) ≡ false)
    (no_end : occurs block_end (before ++ after) ≡ false) where
  abbrev updated : List ℕ
  updated = before ++ (insertion ++ after)

  start-before : occurs block_start before ≡ false
  start-before = occurs-left block_start before after no_start

  start-after : occurs block_start after ≡ false
  start-after = occurs-right block_start before after no_start

  start_tail : List ℕ
  start_tail = codes "\n" ++ (block_body ++ (block_end ++ (newline ∷ after)))

  -- The start marker does not occur in the rest of the block.
  start-tail : occurs block_start start_tail ≡ false
  unfolding codes begins cut start_tail
  start-tail =
      occurs_line newline block_start (codes "\n" ++ (block_body ++ block_end)) after refl refl
        (occurs-cons block_start newline after ∙ start-after)

  start_once : occurrences block_start updated ≡ 1
  unfolding codes begins start_tail
  start_once =
      count-Fresh block_start before (insertion ++ after)
        (line-Fresh newline block_start before (block ++ after) refl start-before)
      ∙ count_once 35 _ (newline ∷ []) start_tail (refl, tt) start-tail

  end-before : occurs block_end before ≡ false
  end-before = occurs-left block_end before after no_end

  end-after : occurs block_end (newline ∷ after) ≡ false
  unfolding codes begins
  end-after = occurs-cons block_end newline after ∙ occurs-right block_end before after no_end

  -- The lines of the block before the end marker.
  upper_lines : List ℕ
  upper_lines = codes "\n" ++ (block_start ++ (codes "\n" ++ body_lines))

  end_once : occurrences block_end updated ≡ 1
  unfolding codes begins cut upper_lines
  end_once =
      count-Fresh block_end before (insertion ++ after)
        (line-Fresh newline block_end before (block ++ after) refl end-before)
      ∙ count-Fresh block_end upper_lines (newline ∷ (block_end ++ (newline ∷ after)))
          (line-Fresh newline block_end upper_lines (block_end ++ (newline ∷ after)) refl refl)
      ∙ count_once 35 _ (newline ∷ []) (newline ∷ after) (refl, tt) end-after

  block-Fresh : Fresh block before (insertion ++ after)
  unfolding codes
  block-Fresh =
      longer-Fresh block_start (codes "\n" ++ (block_body ++ (block_end ++ codes "\n"))) before
        (insertion ++ after)
        (line-Fresh newline block_start before (block ++ after) refl start-before)

  block-after : occurs block after ≡ false
  block-after =
      occurs_longer block_start (codes "\n" ++ (block_body ++ (block_end ++ codes "\n"))) after
        start-after

  block_once : occurrences block updated ≡ 1
  unfolding codes begins
  block_once =
      count-Fresh block before (insertion ++ after) block-Fresh
      ∙ count_once 35 _ (newline ∷ []) after (refl, tt) block-after

  insertion-Fresh : Fresh insertion before (insertion ++ after)
  unfolding codes begins
  insertion-Fresh = after-Fresh newline block before (insertion ++ after) refl block-Fresh

  insertion_once : occurrences insertion updated ≡ 1
  unfolding codes
  insertion_once =
      count_once newline block before after insertion-Fresh
        (occurs_after newline 35 _ after block-after)

  insertion_removed : without_first insertion updated ≡ before ++ after
  unfolding codes
  insertion_removed = without_first-Fresh newline block before after insertion-Fresh

  pub remove_updated : remove_text updated ≡ ok (some (before ++ after))
  unfolding remove_text
  remove_updated = ground (
    arith,
    occurs_once block_start updated start_once,
    start_once,
    end_once,
    block_once,
    insertion_once,
    insertion_removed,
  )

  pub ensure_updated : (has_table : List ℕ → Bool) → ensure_text has_table updated ≡ ok none
  unfolding ensure_text
  ensure_updated has_table =
      ground (arith, occurs_once block_start updated start_once, start_once, end_once, block_once)

-- What an addition that wrote the file has established: where the table went, in a text without the
-- markers.
record Inserted (text updated : List ℕ) : Type 0 where
  before : List ℕ
  after : List ℕ
  joined : text ≡ before ++ after
  made : updated ≡ before ++ (insertion ++ after)
  no_start : occurs block_start text ≡ false
  no_end : occurs block_end text ≡ false

passed :
    (has_table : List ℕ → Bool) (text updated : List ℕ)
    → ensure_text has_table text ≡ ok (some updated)
    → (with_insertion text (cut bridge_marker text) ≡ updated)
      × (occurs block_start text ≡ false)
      × (occurs block_end text ≡ false)
unfolding ensure_text
passed has_table text updated h = ground arith

inserted :
    (has_table : List ℕ → Bool) (text updated : List ℕ)
    → ensure_text has_table text ≡ ok (some updated)
    → Inserted text updated
unfolding codes
inserted has_table text updated h =
    let (made, no_start, no_end) = passed has_table text updated h in
    by_marker made no_start no_end (cut bridge_marker text) refl
  where
    by_marker :
        with_insertion text (cut bridge_marker text) ≡ updated
        → occurs block_start text ≡ false
        → occurs block_end text ≡ false
        → (parts : Option Parts) → cut bridge_marker text ≡ parts
        → Inserted text updated
    by_marker made no_start no_end none e = record {
      before = text;
      after = [];
      joined = sym (append-nil text);
      made = sym made ∙ ap (with_insertion text) e;
      no_start = no_start;
      no_end = no_end;
    }
    by_marker made no_start no_end (some (before, managed)) e = record {
      before = before;
      after = bridge_marker ++ managed;
      joined = cut_split bridge_marker text before managed e;
      made = sym made ∙ ap (with_insertion text) e;
      no_start = no_start;
      no_end = no_end;
    }

module _ (has_table : List ℕ → Bool) (text updated : List ℕ) where
  remove_text-ensure_text :
      ensure_text has_table text ≡ ok (some updated) → remove_text updated ≡ ok (some text)
  remove_text-ensure_text h =
      let i = inserted has_table text updated h in
      ap remove_text i.made
      ∙ remove_updated i.before i.after (ap (occurs block_start) (sym i.joined) ∙ i.no_start)
          (ap (occurs block_end) (sym i.joined) ∙ i.no_end)
      ∙ ap (λ t. ok (some t)) (sym i.joined)

  ensure_text_twice :
      ensure_text has_table text ≡ ok (some updated) → ensure_text has_table updated ≡ ok none
  ensure_text_twice h =
      let i = inserted has_table text updated h in
      ap (ensure_text has_table) i.made
      ∙ ensure_updated i.before i.after (ap (occurs block_start) (sym i.joined) ∙ i.no_start)
          (ap (occurs block_end) (sym i.joined) ∙ i.no_end) has_table

abbrev pub is_return : ℕ → Bool
is_return c = c == 13

any-append : (p : ℕ → Bool) (xs ys : List ℕ) → any p (xs ++ ys) ≡ (any p xs || any p ys)
any-append p [] ys = refl
any-append p (x ∷ xs) ys = ground (arith, any-append p xs ys)

-- What was read has no "\r", and a text without one is read as it is.
any-read_from : (returned : Bool) (file : List ℕ) → any is_return (read_from returned file) ≡ false
unfolding read_from
any-read_from returned [] = refl
any-read_from returned (c ∷ file) =
    let after_return = any-read_from true file in
    let rest = any-read_from false file in ground arith

pub read_text-plain : (file : List ℕ) → any is_return file ≡ false → read_text file ≡ file
unfolding read_from
read_text-plain [] h = refl
read_text-plain (c ∷ file) h = ground (arith, read_text-plain file)

insertion_plain : any is_return insertion ≡ false
unfolding codes
insertion_plain = refl

module _ (has_table : List ℕ → Bool) (file updated : List ℕ) where
  abbrev text : List ℕ
  text = read_text file

  -- The new file is read as it is.
  updated_read : ensure_text has_table text ≡ ok (some updated) → read_text updated ≡ updated
  updated_read h =
      let i = inserted has_table text updated h in
      read_text-plain updated (
        ap (any is_return) i.made
        ∙ plain i.before i.after (sym (ap (any is_return) i.joined) ∙ any-read_from false file))
    where
      plain :
          (before after : List ℕ)
          → any is_return (before ++ after) ≡ false
          → any is_return (before ++ (insertion ++ after)) ≡ false
      plain before after h = ground (
        arith,
        any-append is_return before after,
        any-append is_return before (insertion ++ after),
        any-append is_return insertion after,
        insertion_plain,
      )

  -- After an addition that wrote the file, a removal gives back the text that was read before: every
  -- character of the file, except that a line end "\r\n" or "\r" is now "\n".
  pub remove-ensure :
      ensure_reverse_proxy has_table file ≡ ok (some updated)
      → remove_reverse_proxy updated ≡ ok (some (read_text file))
  unfolding ensure_reverse_proxy remove_reverse_proxy
  remove-ensure h =
      ap remove_text (updated_read h) ∙ remove_text-ensure_text has_table text updated h

  -- After an addition that wrote the file, another one leaves it as it is.
  pub ensure_twice :
      ensure_reverse_proxy has_table file ≡ ok (some updated)
      → ensure_reverse_proxy has_table updated ≡ ok none
  unfolding ensure_reverse_proxy
  ensure_twice h =
      ap (ensure_text has_table) (updated_read h) ∙ ensure_text_twice has_table text updated h
