-- ===== src/Portal/Pages.antt =====
-- The files that the portal shows: `list_references`, `get_reference` and `_serve_static` of
-- portal/app/main.py.
use Prim.Native.String.{count}
use text.Mathlib.Text.{starts_with}
use cascade_vpn.Base.{
  ℕ, ◌≡◌, String, Bool, false, ◌&&◌, ◌||◌, not, Option, none, some, List, [], ◌∷◌, ◌++◌, take, any,
  any_char, leb, ◌==◌, str_eq, if◌then◌else◌, ok, err, ◌>>=◌, ◌>>◌, refuse, or_raise, all_chars,
}
use cascade_vpn.Portal.Request.{ApiError, Api, internal, not_found}

pub record Article : Type 0 where
  pub slug : String
  pub title : String
  pub summary : String
  pub tags : List String

-- The components of a resolved path.
abbrev pub Components : Type 0
Components = List String

-- Where a path leads to: outside the directory, to no file, or to a file with its bytes.
pub data Located : Type 0 where
  outside no_file : Located
  file : List ℕ → Located

-- The two directories, and the functions of the standard library that are called on paths and
-- lines; `none` is an exception.
pub record Shelf : Type 0 where
  -- the stem and the lines of every `*.md`, sorted by path; none for a missing directory
  pub articles : Option (List (String × Option (List String)))
  -- `reference_dir.resolve()` and `static_dir.resolve()`
  pub reference_root : Components
  pub static_root : Components
  -- `(reference_dir / f"{slug}.md").resolve()` and `(root / relative).resolve()`
  pub article_path : String → Components
  pub static_path : String → Components
  -- the bytes, where `is_file()`
  pub bytes_at : Components → Option (List ℕ)
  -- `Path(relative).parts`
  pub parts : String → List String
  -- `unquote(path, errors="strict")`
  pub unquote : String → Option String
  pub strip : String → String
  pub strip_slashes : String → String
  pub ends_with : String → String → Bool
  -- `text[:n]` and `text[n:]`
  pub clip : ℕ → String → String
  pub skip : ℕ → String → String
  -- `stem.replace("-", " ").title()`
  pub title_of_stem : String → String
  -- `text[len("<!-- tags:") : -len("-->")].split(",")`
  pub tags_between : String → List String
  -- the text that `read_text` makes of the bytes
  pub decode : List ℕ → Option String

-- `path.relative_to(root)`, which raises where the path is not under the root.
unfoldable pub relative_to : Components → Components → Option Components
relative_to [] path = some path
relative_to (r ∷ root) [] = none
relative_to (r ∷ root) (p ∷ path) =
    let rest = relative_to root path in if str_eq r p then rest else none

-- `[a-z0-9-]`
pub is_slug_char : ℕ → Bool
is_slug_char c = (leb 97 c && leb c 122) || (leb 48 c && leb c 57) || c == 45

-- `[a-z0-9-]{1,64}`
pub is_slug : String → Bool
unfolding is_slug_char
is_slug slug = leb 1 (count slug) && leb (count slug) 64 && all_chars is_slug_char slug

module _ (shelf : Shelf) where
  file_of : Option (List ℕ) → Located
  file_of none = no_file
  file_of (some bytes) = file bytes

  -- What a path leads to, by its place below the root.
  locate : Option Components → Components → Located
  unfolding file_of
  locate none path = outside
  locate (some rest) path = file_of (shelf.bytes_at path)

  tag_list : List String → List String
  tag_list [] = []
  tag_list (tag ∷ tags) =
      let rest = tag_list tags in
      let stripped = shelf.strip tag in
      if str_eq stripped "" then rest else shelf.clip 30 stripped ∷ rest

  abbrev is_plain : String → Bool
  is_plain line =
      not (str_eq line "") && not (any (starts_with line) ("#" ∷ "<!--" ∷ "```" ∷ "- " ∷ []))

  -- The loop over the lines, up to the first plain one.
  read_lines : Article → List String → Article
  unfolding tag_list
  read_lines a [] = a
  read_lines a (line ∷ lines) =
      let stripped = shelf.strip line in
      let titled =
        read_lines (record a { title = shelf.clip 120 (shelf.strip (shelf.skip 2 stripped)) })
          lines in
      let tagged =
        read_lines (record a { tags = take 10 (tag_list (shelf.tags_between stripped)) }) lines in
      let rest = read_lines a lines in
      if starts_with stripped "# "
      then titled
      else if starts_with stripped "<!-- tags:" && shelf.ends_with stripped "-->"
      then tagged
      else if is_plain stripped
      then record a { summary = shelf.clip 240 stripped }
      else rest

  abbrev untitled : String → Article
  untitled stem = record { slug = stem; title = shelf.title_of_stem stem; summary = ""; tags = [] }

  read_articles : List (String × Option (List String)) → Api (List Article)
  unfolding is_slug read_lines
  read_articles [] = ok []
  read_articles ((stem, content) ∷ files) =
      let rest = read_articles files in
      if not (is_slug stem) then rest else (do
        lines ← or_raise content internal
        articles ← rest
        ok (read_lines (untitled stem) lines ∷ articles))

  -- `PortalApplication.list_references`
  pub list_references : Api (List Article)
  unfolding read_articles
  list_references = elim shelf.articles [ none ↦ ok [] | some files ↦ read_articles files ]

  find_article : String → List Article → Option Article
  find_article slug [] = none
  find_article slug (a ∷ articles) =
      let rest = find_article slug articles in if str_eq a.slug slug then some a else rest

  located_article : String → Located → Api (Option (Article × String))
  unfolding list_references find_article
  located_article slug outside = ok none
  located_article slug no_file = ok none
  located_article slug (file bytes) = do
    content ← or_raise (shelf.decode bytes) internal
    articles ← list_references
    ok (elim (find_article slug articles) [ none ↦ none | some a ↦ some (a, content) ])

  -- `PortalApplication.get_reference`
  pub get_reference : String → Api (Option (Article × String))
  unfolding located_article locate
  get_reference slug = located_article slug (
      locate (relative_to shelf.reference_root (shelf.article_path slug)) (shelf.article_path slug))

  abbrev bad_path : ApiError
  bad_path = record { status = 400; code = "path" }

  abbrev relative_of : String → String
  relative_of decoded =
      if str_eq decoded "/"
      then "index.html"
      else if starts_with decoded "/static/"
      then shelf.skip 8 decoded
      else shelf.strip_slashes decoded

  abbrev pub is_hidden : String → Bool
  is_hidden relative = any (λ part. starts_with part ".") (shelf.parts relative)

  file_at : String → Located → Api (List ℕ)
  file_at relative outside = err not_found
  file_at relative no_file = err not_found
  file_at relative (file bytes) = if is_hidden relative then err not_found else ok bytes

  -- `_serve_static`: the bytes of the file.
  unfoldable pub serve_static : String → Api (List ℕ)
  unfolding file_at locate
  serve_static raw_path = do
    decoded ← or_raise (shelf.unquote raw_path) bad_path
    refuse (any_char (λ c. c == 0 || c == 92) decoded) bad_path
    file_at (relative_of decoded) (
        locate (relative_to shelf.static_root (shelf.static_path (relative_of decoded)))
          (shelf.static_path (relative_of decoded)))

  -- What a static request may show: a file whose resolved path continues that of the directory, and
  -- no part of whose name begins with a dot.
  pub record IsPublic (bytes : List ℕ) : Type 0 where
    pub relative : String
    pub rest : Components
    pub inside : shelf.static_path relative ≡ shelf.static_root ++ rest
    pub stored : shelf.bytes_at (shelf.static_root ++ rest) ≡ some bytes
    pub visible : is_hidden relative ≡ false
