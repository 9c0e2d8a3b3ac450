-- ===== src/DocMenu/Html.antt =====
-- The tags of a text of HTML, and whether they are nested: a reading of what docs/html/menu.js writes.
use cring.Prelude.{ℕ, List, [], ◌∷◌, ◌++◌, Option, none, some, Bool, ◌||◌}
use cring.Prelude.{◌==◌, if◌then◌else◌}
use cring.DocSearch.Text.{Text, codes, same_text}

-- Between tags, in one, or in an attribute's value; with what has been read of the tag.
pub data Reading : Type 0 where
  outside : Reading
  in_tag in_value : Text → Reading

abbrev pub read : Reading → ℕ → Reading
read outside c = if c == b'<' then in_tag [] else outside
read (in_tag t) c =
    if c == b'>'
    then outside
    else if c == b'"'
    then in_value (t ++ (c ∷ []))
    else in_tag (t ++ (c ∷ []))
read (in_value t) c = if c == b'"' then in_tag (t ++ (c ∷ [])) else in_value (t ++ (c ∷ []))

abbrev pub emit : Reading → ℕ → List Text → List Text
emit outside c ts = ts
emit (in_tag t) c ts = if c == b'>' then t ∷ ts else ts
emit (in_value t) c ts = ts

abbrev pub tags : Reading → Text → List Text
tags r [] = []
tags r (c ∷ t) = emit r c (tags (read r c) t)

-- The name is what stands before the first space.
abbrev pub tag_name : Text → Text
tag_name [] = []
tag_name (c ∷ t) = let rest = tag_name t in if c == b' ' then [] else c ∷ rest

-- The elements without content.
abbrev pub is_void : Text → Bool
is_void name = same_text name (codes "img") || same_text name (codes "input")

-- The elements that are open, innermost first; `none` behind a closing tag that is not that of the innermost.
abbrev pub closed_by : Text → List Text → Option (List Text)
closed_by name [] = none
closed_by name (o ∷ os) = if same_text name o then some os else none

abbrev pub opened_by : Text → List Text → Option (List Text)
opened_by name os = if is_void name then some os else some (name ∷ os)

abbrev pub step : Text → List Text → Option (List Text)
step [] os = opened_by [] os
step (c ∷ t) os = if c == b'/' then closed_by t os else opened_by (tag_name (c ∷ t)) os

abbrev pub step_open : Text → Option (List Text) → Option (List Text)
step_open t none = none
step_open t (some os) = step t os

abbrev pub nest : Option (List Text) → List Text → Option (List Text)
nest o [] = o
nest o (t ∷ ts) = nest (step_open t o) ts

-- The tags with a name.
abbrev pub named : Text → List Text → List Text
named name [] = []
named name (t ∷ ts) =
    let rest = named name ts in if same_text (tag_name t) name then t ∷ rest else rest
