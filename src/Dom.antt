-- ===== src/Dom.antt =====
-- What a component renders (JSX), as a tree over the actions of its handlers. A handler is the list
-- of the callback calls that it makes. Attributes that only style the page (`className`, sizes,
-- icons of a button) are left out of the trees; text, links, handlers and the attributes that
-- enable, label or select stay.
use http_tunnels.Prelude.{
  String, Bool, false, not, List, [], ◌∷◌, ◌++◌, map, ◌≡◌, refl, ap, str_eq, if◌then◌else◌,
  flat_map,
}

pub data Attr (A : Type 0) : Type 0 where
  prop : String → String → Attr A
  flag : String → Bool → Attr A
  on_click : List A → Attr A
  on_submit : List A → Attr A
  on_change : (String → List A) → Attr A
  on_open_change : (Bool → List A) → Attr A

mutual
  pub data Node (A : Type 0) : Type 0 where
    text : String → Node A
    el : String → List (Attr A) → Nodes A → Node A

  pub data Nodes (A : Type 0) : Type 0 where
    nil : Nodes A
    cons : Node A → Nodes A → Nodes A

module _ {A : Type 0} where
  -- The children of an element.
  abbrev pub kids : List (Node A) → Nodes A
  kids [] = nil
  kids (n ∷ ns) = cons n (kids ns)

  -- An element without attributes, and one that holds only text.
  abbrev pub box : String → List (Node A) → Node A
  box tag ns = el tag [] (kids ns)

  abbrev pub label : String → String → Node A
  label tag s = box tag (text s ∷ [])

  -- `<Link to={href}>`
  abbrev pub link : String → List (Node A) → Node A
  link href ns = el "Link" (prop "to" href ∷ []) (kids ns)

  -- `cond ? <x/> : null`, as a list of children
  abbrev pub when : Bool → List (Node A) → List (Node A)
  when b ns = if b then ns else []

  -- The element is disabled: its `disabled` attribute is true.
  abbrev pub disabled : List (Attr A) → Bool
  disabled [] = false
  disabled (flag k b ∷ attrs) = if str_eq k "disabled" then b else disabled attrs
  disabled (a ∷ attrs) = disabled attrs

  -- The element is a dialog that is closed: its `open` attribute is false, and what it holds is not
  -- rendered.
  abbrev pub closed : List (Attr A) → Bool
  closed [] = false
  closed (flag k b ∷ attrs) = if str_eq k "open" then not b else closed attrs
  closed (a ∷ attrs) = closed attrs

  abbrev pub click_of : List (Attr A) → List (List A)
  click_of [] = []
  click_of (on_click h ∷ attrs) = h ∷ click_of attrs
  click_of (a ∷ attrs) = click_of attrs

  abbrev pub submit_of : List (Attr A) → List (List A)
  submit_of [] = []
  submit_of (on_submit h ∷ attrs) = h ∷ submit_of attrs
  submit_of (a ∷ attrs) = submit_of attrs

  -- Where an element leads: `to`, `href`.
  abbrev pub target_of : List (Attr A) → List String
  target_of [] = []
  target_of (prop k v ∷ attrs) =
      if str_eq k "to"
      then v ∷ target_of attrs
      else if str_eq k "href"
      then v ∷ target_of attrs
      else target_of attrs
  target_of (a ∷ attrs) = target_of attrs

abbrev mutual
  -- What a click can run: the click handlers of the elements that are not disabled, outside of
  -- closed dialogs.
  pub clicks : {A : Type 0} → Node A → List (List A)
  clicks (text s) = []
  clicks (el tag attrs ns) =
      (if disabled attrs then [] else click_of attrs) ++ (if closed attrs then [] else clicks_of ns)

  pub clicks_of : {A : Type 0} → Nodes A → List (List A)
  clicks_of nil = []
  clicks_of (cons n ns) = clicks n ++ clicks_of ns

abbrev mutual
  pub submits : {A : Type 0} → Node A → List (List A)
  submits (text s) = []
  submits (el tag attrs ns) = submit_of attrs ++ submits_of ns

  pub submits_of : {A : Type 0} → Nodes A → List (List A)
  submits_of nil = []
  submits_of (cons n ns) = submits n ++ submits_of ns

abbrev mutual
  pub targets : {A : Type 0} → Node A → List String
  targets (text s) = []
  targets (el tag attrs ns) = target_of attrs ++ targets_of ns

  pub targets_of : {A : Type 0} → Nodes A → List String
  targets_of nil = []
  targets_of (cons n ns) = targets n ++ targets_of ns

abbrev mutual
  -- The text of a tree, in reading order.
  pub texts : {A : Type 0} → Node A → List String
  texts (text s) = s ∷ []
  texts (el tag attrs ns) = texts_of ns

  pub texts_of : {A : Type 0} → Nodes A → List String
  texts_of nil = []
  texts_of (cons n ns) = texts n ++ texts_of ns

-- The values of one attribute in an attribute list.
abbrev props_named : {A : Type 0} → String → List (Attr A) → List String
props_named name [] = []
props_named name (prop k v ∷ attrs) =
    if str_eq k name then v ∷ props_named name attrs else props_named name attrs
props_named name (a ∷ attrs) = props_named name attrs

abbrev mutual
  -- The values of one attribute at the elements of one tag.
  pub values_of : {A : Type 0} → String → String → Node A → List String
  values_of tag name (text s) = []
  values_of tag name (el t attrs ns) =
      (if str_eq t tag then props_named name attrs else []) ++ values_in tag name ns

  pub values_in : {A : Type 0} → String → String → Nodes A → List String
  values_in tag name nil = []
  values_in tag name (cons n ns) = values_of tag name n ++ values_in tag name ns

module _ {A B : Type 0} where
  abbrev pub lift_attr : (A → B) → Attr A → Attr B
  lift_attr f (prop k v) = prop k v
  lift_attr f (flag k b) = flag k b
  lift_attr f (on_click h) = on_click (map f h)
  lift_attr f (on_submit h) = on_submit (map f h)
  lift_attr f (on_change h) = on_change (λ v. map f (h v))
  lift_attr f (on_open_change h) = on_open_change (λ b. map f (h b))

-- A child's tree in its parent, which handles the child's actions by `f`.
abbrev mutual
  pub lift : {A B : Type 0} → (A → B) → Node A → Node B
  lift f (text s) = text s
  lift f (el tag attrs ns) = el tag (map (lift_attr f) attrs) (lift_all f ns)

  pub lift_all : {A B : Type 0} → (A → B) → Nodes A → Nodes B
  lift_all f nil = nil
  lift_all f (cons n ns) = cons (lift f n) (lift_all f ns)

module _ {A B : Type 0} where
  pub clicks_of-map :
      (f : B → Node A) (xs : List B) → clicks_of (kids (map f xs)) ≡ flat_map (λ x. clicks (f x)) xs
  clicks_of-map f [] = refl
  clicks_of-map f (x ∷ xs) = ap (λ r. clicks (f x) ++ r) (clicks_of-map f xs)

  pub targets_of-map :
      (f : B → Node A) (xs : List B)
      → targets_of (kids (map f xs)) ≡ flat_map (λ x. targets (f x)) xs
  targets_of-map f [] = refl
  targets_of-map f (x ∷ xs) = ap (λ r. targets (f x) ++ r) (targets_of-map f xs)

  pub texts_of-map :
      (f : B → Node A) (xs : List B) → texts_of (kids (map f xs)) ≡ flat_map (λ x. texts (f x)) xs
  texts_of-map f [] = refl
  texts_of-map f (x ∷ xs) = ap (λ r. texts (f x) ++ r) (texts_of-map f xs)

  -- Items without clicks make a list without clicks.
  pub clicks_of-map_nil :
      (f : B → Node A) (xs : List B)
      → ((x : B) → clicks (f x) ≡ [])
      → clicks_of (kids (map f xs)) ≡ []
  clicks_of-map_nil f [] h = refl
  clicks_of-map_nil f (x ∷ xs) h = rw (h x) (clicks_of-map_nil f xs h)

  pub values_in-map_nil :
      (tag name : String) (f : B → Node A) (xs : List B)
      → ((x : B) → values_of tag name (f x) ≡ [])
      → values_in tag name (kids (map f xs)) ≡ []
  values_in-map_nil tag name f [] h = refl
  values_in-map_nil tag name f (x ∷ xs) h = rw (h x) (values_in-map_nil tag name f xs h)
