-- ===== src/DocSearch/Create.antt =====
-- search.js: `createResults`, which draws the results of the generated `searchData`.
use cring.Prelude.{ℕ, suc, List, [], ◌∷◌, ◌++◌, pos, Bool, true, false}
use cring.DocSearch.Text.{Text}
use cring.DocSearch.Page.{ElementId, item, child}
use cring.DocSearch.Rows.{unset, Row}

-- `searchData[e]`: an id, and a name with the places at which it stands.
pub record Place : Type 0 where
  pub url : Text
  pub in_parent : Bool
  pub scope : Text

pub record Datum : Type 0 where
  pub id : Text
  pub name : Text
  pub places : List Place

-- What a link's `onkeydown`, `onkeypress` and `onkeyup` call.
pub data Action : Type 0 where
  nav_call : (index : ℕ) → Action
  nav_child_call : (index child : ℕ) → Action

pub data Href : Type 0 where
  to_url : Text → Href
  toggle_call : (row : Text) → Href

-- An `a` element; `in_parent` says whether its `target` is `_parent`.
pub record Link : Type 0 where
  pub id : ElementId
  pub action : Action
  pub href : Href
  pub in_parent : Bool
  pub html : Text

-- What the entry holds behind its link: a `span`, or the `div` of class `SRChildren`.
pub data Below : Type 0 where
  scope : Text → Below
  children : List Link → Below

-- A `div` of class `SRResult` with a `div` of class `SREntry` in it.
pub record Drawn : Type 0 where
  pub id : Text
  pub link : Link
  pub below : Below

abbrev pub sr_id : Text → Text
sr_id id = b'S' ∷ b'R' ∷ b'_' ∷ id

-- The loop over the places, from child `c` on.
unfoldable pub create_children : (e c : ℕ) → List Place → List Link
create_children e c [] = []
create_children e c (p ∷ ps) =
    record {
      id = child (pos e) (pos c);
      action = nav_child_call e c;
      href = to_url p.url;
      in_parent = p.in_parent;
      html = p.scope;
    }
    ∷ create_children e (suc c) ps

-- A round of the loop. A result with one place is a single result.
unfoldable pub create_result : ℕ → (id name : Text) → List Place → Drawn
unfolding create_children
create_result e id name (p ∷ []) = record {
  id = sr_id id;
  link = record {
    id = item (pos e);
    action = nav_call e;
    href = to_url p.url;
    in_parent = p.in_parent;
    html = name;
  };
  below = scope p.scope;
}
create_result e id name ps = record {
  id = sr_id id;
  link = record {
    id = item (pos e);
    action = nav_call e;
    href = toggle_call (sr_id id);
    in_parent = false;
    html = name;
  };
  below = children (create_children e 0 ps);
}

unfoldable pub create_results : ℕ → List Datum → List Drawn
unfolding create_result
create_results e [] = []
create_results e (d ∷ ds) = create_result e d.id d.name d.places ∷ create_results (suc e) ds

-- The `div` elements, in the order of the document.
abbrev pub inner_rows : Below → List Row
inner_rows (scope t) = []
inner_rows (children ls) = record { id = []; is_result = false; display = unset } ∷ []

abbrev pub rows_of : List Drawn → List Row
rows_of [] = []
rows_of (d ∷ ds) =
    record { id = d.id; is_result = true; display = unset }
    ∷ record { id = []; is_result = false; display = unset }
    ∷ (inner_rows d.below ++ rows_of ds)
