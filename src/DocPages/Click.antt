-- ===== src/DocPages/Click.antt =====
-- docs/html/dynsections.js: what a click on a section and on a table of inherited members does.
use cring.Prelude.{
  ℕ, List, [], ◌∷◌, ◌≡◌, refl, ◌∙◌, Option, none, some, Bool, true, false, not, Bool-cases, arith,
  inl, inr,
}
use cring.Prelude.{if◌then◌else◌}
use cring.DocSearch.Text.{Text}
use cring.DocPages.Query.{Query, QueryLaws, css_none, css_table_row, set_src}
use cring.DocPages.Sections.{
  Ended, returned, threw, open_png, closed_png, renamed, all, close_section, open_section,
  set_image, toggle_visibility, toggle_inherit, first_visible, src_of,
}
use cring.DocPages.Changes.{mem, all-Keeps, all-Sets}
use cring.DocPages.Section.{
  IsSection, IsSection-set_src, visible-close_section, visible-open_section, has-close_section,
  has-open_section, part-close_section, part-open_section, summary_id, content_id, trigger_id,
  renamed-append, image,
}

abbrev pub document : {D : Type 0} → Ended D → D
document (returned d) = d
document (threw d) = d

abbrev pub is_thrown : {D : Type 0} → Ended D → Bool
is_thrown (returned d) = false
is_thrown (threw d) = true

abbrev pub is_none : Option Text → Bool
is_none none = true
is_none (some t) = false

module _ {D : Type 0} {Q : Query D} (L : QueryLaws Q) where
  toggle_visibility-close :
      (link summary content trigger : ℕ) (stem : Text) (d : D)
      → IsSection Q link summary content trigger stem true d
      → toggle_visibility Q link d
        ≡ returned (
            all Q
              (set_src (image stem false))
              (trigger ∷ [])
              (close_section Q link (summary ∷ []) (content ∷ []) d))
  unfolding toggle_visibility set_image
  toggle_visibility-close link summary content trigger stem d s =
      rw (s.summary_found, s.content_found, s.trigger_found)
        (rw (s.content_visible, s.trigger_src, renamed-append 8 stem open_png closed_png refl) refl)

  toggle_visibility-open :
      (link summary content trigger : ℕ) (stem : Text) (d : D)
      → IsSection Q link summary content trigger stem false d
      → toggle_visibility Q link d
        ≡ returned (
            all Q
              (set_src (image stem true))
              (trigger ∷ [])
              (open_section Q link (summary ∷ []) (content ∷ []) d))
  unfolding toggle_visibility set_image
  toggle_visibility-open link summary content trigger stem d s =
      rw (s.summary_found, s.content_found, s.trigger_found)
        (rw (s.content_visible, s.trigger_src, renamed-append 10 stem closed_png open_png refl)
          refl)

  -- With jQuery's laws, for a section whose summary, content and image are found by their ids, and
  -- which is open or closed in all of its parts: a click on its link returns, and the section is
  -- then closed or open in all of its parts, its content, its summary, the classes of the link and
  -- the image, so that the next click undoes it.
  pub toggle_visibility-IsSection :
      (link summary content trigger : ℕ) (stem : Text) (is_open : Bool) (d : D)
      → IsSection Q link summary content trigger stem is_open d
      → (d' : D) × (toggle_visibility Q link d ≡ returned d')
        × IsSection Q link summary content trigger stem (not is_open) d'
  toggle_visibility-IsSection link summary content trigger stem true d s = (
    _,
    toggle_visibility-close link summary content trigger stem d s,
    IsSection-set_src L link summary content trigger stem false _
        (part-close_section L summary_id link _ _ d ∙ s.summary_found)
        (part-close_section L content_id link _ _ d ∙ s.content_found)
        (part-close_section L trigger_id link _ _ d ∙ s.trigger_found) s.apart
        (
          visible-close_section L link _ _ d content ∙ ground arith,
          visible-close_section L link _ _ d summary ∙ ground arith,
        )
        (has-close_section L link _ _ d),
  )
  toggle_visibility-IsSection link summary content trigger stem false d s = (
    _,
    toggle_visibility-open link summary content trigger stem d s,
    IsSection-set_src L link summary content trigger stem true _
        (part-open_section L summary_id link _ _ d ∙ s.summary_found)
        (part-open_section L content_id link _ _ d ∙ s.content_found)
        (part-open_section L trigger_id link _ _ d ∙ s.trigger_found) s.apart
        (
          visible-open_section L link _ _ d content ∙ ground arith,
          visible-open_section L link _ _ d summary ∙ ground arith,
        )
        (has-open_section L link _ _ d),
  )

  visible-set_image :
      (es : List ℕ) (f : Text → Text) (o : Option Text) (d : D) (j : ℕ)
      → ((Q.read (document (set_image Q es f o d)) j).visible ≡ (Q.read d j).visible)
        × (is_thrown (set_image Q es f o d) ≡ is_none o)
  unfolding set_image
  visible-set_image es f none d j = (refl, refl)
  visible-set_image es f (some t) d j = (all-Keeps L (λ e. e.visible) _ _ _ j (λ e. refl), refl)

  -- With jQuery's laws, `toggleInherit` hides the rows if the first of them is visible and shows
  -- them otherwise, all of them and no other element. It throws exactly if there is no image or it
  -- has no `src`, and the rows are then hidden or shown all the same.
  pub toggle_inherit-visible :
      (id : Text) (d : D) (j : ℕ)
      → ((Q.read (document (toggle_inherit Q id d)) j).visible ≡ (
          if mem j (Q.inherit_rows d id)
          then not (first_visible Q d (Q.inherit_rows d id))
          else (Q.read d j).visible))
        × (is_thrown (toggle_inherit Q id d) ≡ is_none (src_of Q d (Q.header_images d id)))
  unfolding toggle_inherit
  toggle_inherit-visible id d j =
      let images = Q.header_images d id in
      elim (Bool-cases (first_visible Q d (Q.inherit_rows d id))) [
        | inl h ↦
            let step = visible-set_image images (renamed 8 closed_png) (src_of Q d images) _ j in
            rw h (
              step.0
                  ∙ all-Sets L (λ e. e.visible) css_none (Q.inherit_rows d id) d false j
                      (λ e. refl),
              step.1,
            )
        | inr h ↦
            let step = visible-set_image images (renamed 10 open_png) (src_of Q d images) _ j in
            rw h (
              step.0
                  ∙ all-Sets L (λ e. e.visible) css_table_row (Q.inherit_rows d id) d true j
                      (λ e. refl),
              step.1,
            )
      ]
