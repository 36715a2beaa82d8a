-- ===== src/Chunking/Metadata/Nodes.antt =====
-- services/chunking/strategies/metadata_chunking/base_metadata_chunker.py: the kinds and the names
-- of nodes.
use deputydev_core.Prelude.{
  ℕ, List, [], ◌∷◌, ◌++◌, Bool, false, true, ◌||◌, Option, none, some, any_of, if◌then◌else◌,
}
use deputydev_core.Py.Chars.{Text, codes, text_eq}
use deputydev_core.Chunking.Data.{HierarchyObject}
use deputydev_core.Chunking.Metadata.{Point}

-- `name` is the text of the child in the field "name", if there is one.
pub record NodeInfo : Type 0 where
  pub type : Text
  pub start_point : Point
  pub end_point : Point
  pub start_byte : ℕ
  pub end_byte : ℕ
  pub text : Text
  pub name : Option Text

mutual
  pub data Node : Type 0 where
    node : NodeInfo → Forest → Node

  pub data Forest : Type 0 where
    none_left : Forest
    and_then : Node → Forest → Forest

abbrev pub info : Node → NodeInfo
info (node i children) = i

abbrev pub children_of : Node → Forest
children_of (node i children) = children

-- The identifiers of a language.
pub record Grammar : Type 0 where
  pub function_definition : List Text
  pub class_definition : List Text
  pub function_identifier : List Text
  pub class_identifier : List Text
  pub decorator : Text
  pub function_class_wrapper : List Text
  pub namespace : List Text
  pub namespace_identifier : List Text

-- `x in xs`
unfoldable pub is_in : Text → List Text → Bool
unfolding text_eq
is_in x xs = any_of (λ y. text_eq y x) xs

unfoldable pub any_child : List Text → Forest → Bool
any_child types none_left = false
any_child types (and_then child rest) = is_in (info child).type types || any_child types rest

module _ (grammar : Grammar) where
  abbrev pub is_wrapper : Node → Bool
  is_wrapper n = is_in (info n).type grammar.function_class_wrapper

  -- The type of the node or, in a wrapper, of a child of it.
  unfoldable pub has_type : List Text → Node → Bool
  unfolding any_child is_in
  has_type types n =
      if is_wrapper n then any_child types (children_of n) else is_in (info n).type types

  unfoldable pub is_function_node : Node → Bool
  unfolding has_type
  is_function_node n = has_type grammar.function_definition n

  unfoldable pub is_class_node : Node → Bool
  unfolding has_type
  is_class_node n = has_type grammar.class_definition n

  unfoldable pub is_namespace_node : Node → Bool
  unfolding is_in
  is_namespace_node n = is_in (info n).type grammar.namespace

  abbrev pub breakable_types : List Text
  breakable_types = grammar.function_definition ++ (grammar.class_definition ++ grammar.namespace)

  unfoldable pub is_node_breakable : Node → Bool
  unfolding has_type
  is_node_breakable n = has_type breakable_types n

  abbrev pub identifier_types : List Text
  identifier_types =
      grammar.function_identifier ++ (grammar.class_identifier ++ grammar.namespace_identifier)

  abbrev pub nested_types : List Text
  nested_types =
      grammar.class_definition ++ (grammar.function_definition ++ grammar.namespace_identifier)

  -- The first child that is an identifier.
  unfoldable pub child_identifier : Forest → Option Text
  unfolding is_in
  child_identifier none_left = none
  child_identifier (and_then child rest) =
      let later = child_identifier rest in
      if is_in (info child).type identifier_types then some (info child).text else later

  -- `if name: return name`
  abbrev pub or_later : Option Text → Option Text → Option Text
  or_later none later = later
  or_later (some []) later = later
  or_later (some (c ∷ s)) later = some (c ∷ s)

  unfoldable mutual
    unfolding child_identifier is_in

    pub extract_name : Node → Option Text
    extract_name (node i children) =
        let nested = extract_nested children in
        elim i.name [
          | some name ↦ some name
          | none ↦ elim (is_in i.type identifier_types) [
            | true ↦ some i.text
            | false ↦ elim (child_identifier children) [ some name ↦ some name | none ↦ nested ]
          ]
        ]

    pub extract_nested : Forest → Option Text
    extract_nested none_left = none
    extract_nested (and_then child rest) =
        let name = extract_name child in
        let later = extract_nested rest in
        if is_in (info child).type nested_types then or_later name later else later

  -- The item of a node for its hierarchy, if it has a name.
  unfoldable pub item_of : Text → Bool → Option Text → List HierarchyObject
  item_of type breakable none = []
  item_of type breakable (some []) = []
  item_of type breakable (some (c ∷ s)) =
      record { type = type; value = c ∷ s; is_breakable_node = breakable } ∷ []

  unfoldable pub own_hierarchy : Node → List HierarchyObject
  unfolding is_function_node is_class_node is_namespace_node extract_name item_of
  own_hierarchy n =
      if is_function_node n
      then item_of (codes "FUNCTION") true (extract_name n)
      else if is_class_node n
      then item_of (codes "CLASS") true (extract_name n)
      else if is_namespace_node n
      then item_of (info n).type false (extract_name n)
      else []

  unfoldable mutual
    unfolding own_hierarchy

    pub get_breakable_node_hierarchy : Node → List HierarchyObject
    get_breakable_node_hierarchy (node i children) =
        own_hierarchy (node i children) ++ children_hierarchy children

    pub children_hierarchy : Forest → List HierarchyObject
    children_hierarchy none_left = []
    children_hierarchy (and_then child rest) =
        get_breakable_node_hierarchy child ++ children_hierarchy rest
