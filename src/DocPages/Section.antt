-- ===== src/DocPages/Section.antt =====
-- docs/html/dynsections.js: a section that a click opens and closes.
use cring.Prelude.{ℕ, List, [], ◌∷◌, ◌++◌, ◌≡◌, refl, ap, ◌∙◌, some, Bool, true, false, not, arith}
use cring.Prelude.{◌==◌, if◌then◌else◌, length, length-append, take}
use cring.DocSearch.Text.{Text}
use cring.DocPages.Query.{Query, QueryLaws, Change, set_src, opened, closed}
use cring.DocPages.Sections.{open_png, closed_png, renamed, all, close_section, open_section}
use cring.DocPages.Changes.{mem, all-Keeps, all-Sets, apply-Keeps, apply-Sets, all-moves}
use cring.DocPages.Moves.{id-apply}

take-append : (xs ys : Text) → take (length xs) (xs ++ ys) ≡ xs
take-append [] ys = refl
take-append (x ∷ xs) ys = ap (λ zs. x ∷ zs) (take-append xs ys)

-- Another name in place of the last characters of a path.
pub renamed-append :
    (n : ℕ) (stem old name : Text) → length old ≡ n → renamed n name (stem ++ old) ≡ stem ++ name
renamed-append n stem old name h =
    ap (λ (k : ℕ). take k (stem ++ old) ++ name) (omega (arith, length-append stem old))
    ∙ ap (λ xs. xs ++ name) (take-append stem old)

abbrev pub image : Text → Bool → Text
image stem is_open = stem ++ (if is_open then open_png else closed_png)

abbrev pub content_id : Text → Text
content_id base = base ++ (b'-' ∷ b'c' ∷ b'o' ∷ b'n' ∷ b't' ∷ b'e' ∷ b'n' ∷ b't' ∷ [])

abbrev pub summary_id : Text → Text
summary_id base = base ++ (b'-' ∷ b's' ∷ b'u' ∷ b'm' ∷ b'm' ∷ b'a' ∷ b'r' ∷ b'y' ∷ [])

abbrev pub trigger_id : Text → Text
trigger_id base = base ++ (b'-' ∷ b't' ∷ b'r' ∷ b'i' ∷ b'g' ∷ b'g' ∷ b'e' ∷ b'r' ∷ [])

-- A section: its link, its summary, its content and its image; it is open or closed.
pub record IsSection {D : Type 0} (Q : Query D) (link summary content trigger : ℕ) (stem : Text)
    (is_open : Bool) (d : D) : Type 0 where
  pub summary_found : Q.with_id d (summary_id (Q.read d link).id) ≡ summary ∷ []
  pub content_found : Q.with_id d (content_id (Q.read d link).id) ≡ content ∷ []
  pub trigger_found : Q.with_id d (trigger_id (Q.read d link).id) ≡ trigger ∷ []
  pub apart : (summary == content) ≡ false
  pub content_visible : (Q.read d content).visible ≡ is_open
  pub summary_visible : (Q.read d summary).visible ≡ not is_open
  pub link_opened : (Q.read d link).has opened ≡ is_open
  pub link_closed : (Q.read d link).has closed ≡ not is_open
  pub trigger_src : (Q.read d trigger).src ≡ some (image stem is_open)

module _ {D : Type 0} {Q : Query D} (L : QueryLaws Q) where
  pub visible-close_section :
      (link : ℕ) (summary content : List ℕ) (d : D) (j : ℕ)
      → (Q.read (close_section Q link summary content d) j).visible
        ≡ (if mem j summary then true else (if mem j content then false else (Q.read d j).visible))
  unfolding close_section
  visible-close_section link summary content d j =
      apply-Keeps L (λ e. e.visible) _ link _ j (λ e. refl)
      ∙ apply-Keeps L (λ e. e.visible) _ link _ j (λ e. refl)
      ∙ all-Sets L (λ e. e.visible) _ _ _ true j (λ e. refl)
      ∙ ap (λ v. if mem j summary then true else v)
          (all-Sets L (λ e. e.visible) _ _ _ false j (λ e. refl))

  pub visible-open_section :
      (link : ℕ) (summary content : List ℕ) (d : D) (j : ℕ)
      → (Q.read (open_section Q link summary content d) j).visible
        ≡ (if mem j summary then false else (if mem j content then true else (Q.read d j).visible))
  unfolding open_section
  visible-open_section link summary content d j =
      apply-Keeps L (λ e. e.visible) _ link _ j (λ e. refl)
      ∙ apply-Keeps L (λ e. e.visible) _ link _ j (λ e. refl)
      ∙ all-Sets L (λ e. e.visible) _ _ _ false j (λ e. refl)
      ∙ ap (λ v. if mem j summary then false else v)
          (all-Sets L (λ e. e.visible) _ _ _ true j (λ e. refl))

  pub has-close_section :
      (link : ℕ) (summary content : List ℕ) (d : D)
      → ((Q.read (close_section Q link summary content d) link).has opened ≡ false)
        × ((Q.read (close_section Q link summary content d) link).has closed ≡ true)
  unfolding close_section
  has-close_section link summary content d = (
    apply-Sets L (λ e. e.has opened) _ false link _ link (λ e. refl) ∙ ground arith,
    apply-Keeps L (λ e. e.has closed) _ link _ link (λ e. refl)
        ∙ apply-Sets L (λ e. e.has closed) _ true link _ link (λ e. refl)
        ∙ ground arith,
  )

  pub has-open_section :
      (link : ℕ) (summary content : List ℕ) (d : D)
      → ((Q.read (open_section Q link summary content d) link).has opened ≡ true)
        × ((Q.read (open_section Q link summary content d) link).has closed ≡ false)
  unfolding open_section
  has-open_section link summary content d = (
    apply-Sets L (λ e. e.has opened) _ true link _ link (λ e. refl) ∙ ground arith,
    apply-Keeps L (λ e. e.has closed) _ link _ link (λ e. refl)
        ∙ apply-Sets L (λ e. e.has closed) _ false link _ link (λ e. refl)
        ∙ ground arith,
  )

  part-apply :
      (part : Text → Text) (link : ℕ) (c : Change) (e : ℕ) (d : D)
      → Q.with_id (Q.apply c e d) (part (Q.read (Q.apply c e d) link).id)
        ≡ Q.with_id d (part (Q.read d link).id)
  part-apply part link c e d =
      L.with_id_apply c e d _ ∙ ap (λ t. Q.with_id d (part t)) (id-apply L link c e d)

  pub part-close_section :
      (part : Text → Text) (link : ℕ) (summary content : List ℕ) (d : D)
      → (let d' = close_section Q link summary content d in
          Q.with_id d' (part (Q.read d' link).id) ≡ Q.with_id d (part (Q.read d link).id))
  unfolding close_section
  part-close_section part link summary content d =
      let look : D → List ℕ = λ d. Q.with_id d (part (Q.read d link).id) in
      part-apply part link _ _ _
      ∙ part-apply part link _ _ _
      ∙ all-moves Q look (part-apply part link) _ _ _
      ∙ all-moves Q look (part-apply part link) _ _ d

  pub part-open_section :
      (part : Text → Text) (link : ℕ) (summary content : List ℕ) (d : D)
      → (let d' = open_section Q link summary content d in
          Q.with_id d' (part (Q.read d' link).id) ≡ Q.with_id d (part (Q.read d link).id))
  unfolding open_section
  part-open_section part link summary content d =
      let look : D → List ℕ = λ d. Q.with_id d (part (Q.read d link).id) in
      part-apply part link _ _ _
      ∙ part-apply part link _ _ _
      ∙ all-moves Q look (part-apply part link) _ _ _
      ∙ all-moves Q look (part-apply part link) _ _ d

  -- The new image completes what the classes and the visibility say.
  pub IsSection-set_src :
      (link summary content trigger : ℕ) (stem : Text) (b : Bool) (d : D)
      → (Q.with_id d (summary_id (Q.read d link).id) ≡ summary ∷ [])
      → (Q.with_id d (content_id (Q.read d link).id) ≡ content ∷ [])
      → (Q.with_id d (trigger_id (Q.read d link).id) ≡ trigger ∷ [])
      → ((summary == content) ≡ false)
      → ((Q.read d content).visible ≡ b) × ((Q.read d summary).visible ≡ not b)
      → ((Q.read d link).has opened ≡ b) × ((Q.read d link).has closed ≡ not b)
      → IsSection Q link summary content trigger stem b
          (all Q (set_src (image stem b)) (trigger ∷ []) d)
  IsSection-set_src link summary content trigger stem b d s c t apart v h =
      let part : (p : Text → Text) → _ = λ p.
        all-moves Q (λ d. Q.with_id d (p (Q.read d link).id)) (part-apply p link)
          (set_src (image stem b)) (trigger ∷ []) d in
      record {
        summary_found = part summary_id ∙ s;
        content_found = part content_id ∙ c;
        trigger_found = part trigger_id ∙ t;
        apart = apart;
        content_visible = all-Keeps L (λ e. e.visible) _ _ _ content (λ e. refl) ∙ v.0;
        summary_visible = all-Keeps L (λ e. e.visible) _ _ _ summary (λ e. refl) ∙ v.1;
        link_opened = all-Keeps L (λ e. e.has opened) _ _ _ link (λ e. refl) ∙ h.0;
        link_closed = all-Keeps L (λ e. e.has closed) _ _ _ link (λ e. refl) ∙ h.1;
        trigger_src =
            all-Sets L (λ e. e.src) _ _ _ (some (image stem b)) trigger (λ e. refl) ∙ ground arith;
      }
