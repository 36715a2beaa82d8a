-- ===== src/Chunking/Metadata/Javascript.antt =====
-- services/chunking/strategies/metadata_chunking/javascript_metadata_chunker.py: the grammar, and the
-- methods that replace those of Nodes.
use deputydev_core.Prelude.{
  [], ◌∷◌, ◌++◌, Bool, false, true, ◌&&◌, ◌||◌, Option, none, some, if◌then◌else◌,
}
use deputydev_core.Py.Chars.{Text, codes, text_eq}
use deputydev_core.Chunking.Metadata.Nodes.{
  Node, Forest, node, none_left, and_then, info, children_of, Grammar, is_in, any_child, is_wrapper,
  breakable_types, identifier_types, nested_types, child_identifier, or_later,
}

abbrev pub javascript_grammar : Grammar
javascript_grammar = record {
  function_definition =
      codes "method_definition"
      ∷ codes "function_declaration"
      ∷ codes "generator_function_declaration"
      ∷ [];
  class_definition = codes "class_declaration" ∷ codes "abstract_class_declaration" ∷ [];
  function_identifier = codes "property_identifier" ∷ codes "identifier" ∷ [];
  class_identifier = codes "type_identifier" ∷ [];
  decorator = codes "NA";
  function_class_wrapper = codes "expression_statement" ∷ [];
  namespace = codes "namespace" ∷ codes "internal_module" ∷ [];
  namespace_identifier = codes "identifier" ∷ [];
}

-- A declarator among the children that has an identifier of its own.
unfoldable pub declares_name : Forest → Bool
unfolding text_eq any_child
declares_name none_left = false
declares_name (and_then child rest) =
    (text_eq (info child).type (codes "variable_declarator")
      && any_child (codes "identifier" ∷ []) (children_of child))
    || declares_name rest

unfoldable pub is_lexical_declaration : Node → Bool
unfolding text_eq declares_name
is_lexical_declaration n =
    text_eq (info n).type (codes "lexical_declaration") && declares_name (children_of n)

unfoldable pub is_pair_function : Node → Bool
unfolding text_eq any_child
is_pair_function n =
    text_eq (info n).type (codes "pair")
    && any_child (codes "function_expression" ∷ []) (children_of n)

module _ (grammar : Grammar) where
  unfoldable pub is_function_node : Node → Bool
  unfolding is_lexical_declaration is_pair_function any_child is_in
  is_function_node n =
      if is_lexical_declaration n || is_pair_function n
      then true
      else if is_wrapper grammar n
      then any_child grammar.function_definition (children_of n)
      else is_in (info n).type grammar.function_definition

  -- Unlike for functions, a wrapper is looked at first.
  unfoldable pub is_node_breakable : Node → Bool
  unfolding is_lexical_declaration is_pair_function any_child is_in
  is_node_breakable n =
      if is_wrapper grammar n
      then any_child (breakable_types grammar) (children_of n)
      else if is_lexical_declaration n || is_pair_function n
      then true
      else is_in (info n).type (breakable_types grammar)

  unfoldable mutual
    unfolding child_identifier is_in

    -- The field "name" is not asked for.
    pub extract_name : Node → Option Text
    extract_name (node i children) =
        let nested = extract_nested children in
        elim (is_in i.type (identifier_types grammar)) [
          | true ↦ some i.text
          | false ↦ elim (child_identifier grammar children) [
            | some name ↦ some name
            | none ↦ nested
          ]
        ]

    pub extract_nested : Forest → Option Text
    extract_nested none_left = none
    extract_nested (and_then child rest) =
        let name = extract_name child in
        let later = extract_nested rest in
        if is_in (info child).type (nested_types grammar ++ codes "variable_declarator" ∷ [])
        then or_later grammar name later
        else later
