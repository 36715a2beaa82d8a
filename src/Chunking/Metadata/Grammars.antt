-- ===== src/Chunking/Metadata/Grammars.antt =====
-- The identifiers of the languages whose chunkers change nothing else: python_metadata_chunker.py,
-- java_metadata_chunker.py, kotlin_metadata_chunker.py, ruby_metadata_chunker.py,
-- swift_metadata_chunker.py and typescript_metadata_chunker.py of services/chunking/strategies/metadata_chunking.
use deputydev_core.Prelude.{[], ◌∷◌}
use deputydev_core.Py.Chars.{codes}
use deputydev_core.Chunking.Metadata.Nodes.{Grammar}

abbrev pub python_grammar : Grammar
python_grammar = record {
  function_definition = codes "function_definition" ∷ [];
  class_definition = codes "class_definition" ∷ [];
  function_identifier = codes "identifier" ∷ [];
  class_identifier = codes "identifier" ∷ [];
  decorator = codes "decorator";
  function_class_wrapper = codes "decorated_definition" ∷ [];
  namespace = codes "NA" ∷ [];
  namespace_identifier = [];
}

abbrev pub java_grammar : Grammar
java_grammar = record {
  function_definition =
      codes "method_declaration"
      ∷ codes "function_declaration"
      ∷ codes "constructor_declaration"
      ∷ codes "lambda_expression"
      ∷ codes "annotation_type_declaration"
      ∷ [];
  class_definition =
      codes "class_declaration"
      ∷ codes "abstract_class_declaration"
      ∷ codes "interface_declaration"
      ∷ codes "enum_declaration"
      ∷ [];
  function_identifier = codes "identifier" ∷ [];
  class_identifier = codes "identifier" ∷ [];
  decorator = codes "NA";
  function_class_wrapper = [];
  namespace = codes "NA" ∷ [];
  namespace_identifier = [];
}

abbrev pub kotlin_grammar : Grammar
kotlin_grammar = record {
  function_definition =
      codes "function_declaration"
      ∷ codes "lambda_expression"
      ∷ codes "anonymous_function"
      ∷ codes "constructor_declaration"
      ∷ [];
  class_definition =
      codes "class_declaration" ∷ codes "object_declaration" ∷ codes "interface_declaration" ∷ [];
  function_identifier = codes "simple_identifier" ∷ [];
  class_identifier = codes "type_identifier" ∷ [];
  decorator = codes "NA";
  function_class_wrapper = [];
  namespace = [];
  namespace_identifier = [];
}

abbrev pub ruby_grammar : Grammar
ruby_grammar = record {
  function_definition = codes "method" ∷ codes "singleton_method" ∷ codes "class_method" ∷ [];
  class_definition = codes "class" ∷ codes "singleton_class" ∷ [];
  function_identifier = codes "identifier" ∷ codes "constant" ∷ [];
  class_identifier = codes "constant" ∷ [];
  decorator = codes "NA";
  function_class_wrapper = [];
  namespace = codes "module" ∷ [];
  namespace_identifier = codes "constant" ∷ [];
}

abbrev pub swift_grammar : Grammar
swift_grammar = record {
  function_definition =
      codes "function_declaration"
      ∷ codes "method_declaration"
      ∷ codes "initializer_declaration"
      ∷ codes "subscript_declaration"
      ∷ codes "operator_declaration"
      ∷ codes "init_declaration"
      ∷ [];
  class_definition =
      codes "class_declaration"
      ∷ codes "struct_declaration"
      ∷ codes "enum_declaration"
      ∷ codes "protocol_declaration"
      ∷ codes "extension_declaration"
      ∷ [];
  function_identifier = codes "simple_identifier" ∷ codes "identifier" ∷ [];
  class_identifier = codes "simple_identifier" ∷ codes "identifier" ∷ codes "type_identifier" ∷ [];
  decorator = codes "NA";
  function_class_wrapper = [];
  namespace = [];
  namespace_identifier = [];
}

abbrev pub typescript_grammar : Grammar
typescript_grammar = record {
  function_definition =
      codes "method_definition"
      ∷ codes "function_declaration"
      ∷ codes "generator_function_declaration"
      ∷ [];
  class_definition = codes "class_declaration" ∷ codes "abstract_class_declaration" ∷ [];
  function_identifier = codes "property_identifier" ∷ codes "identifier" ∷ [];
  class_identifier = codes "type_identifier" ∷ [];
  decorator = codes "NA";
  function_class_wrapper = codes "expression_statement" ∷ [];
  namespace = codes "namespace" ∷ codes "internal_module" ∷ [];
  namespace_identifier = codes "identifier" ∷ [];
}
