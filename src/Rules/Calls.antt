-- ===== src/Rules/Calls.antt =====
-- src/shadowops/rules/engine.py: what the rules ask of a node of a syntax tree.
use shadowops.Prelude.{
  ℕ, String, Bool, true, false, ◌&&◌, ◌||◌, Option, none, some, List, [], ◌∷◌, str_eq,
  if◌then◌else◌,
}
use shadowops.Rules.{StaticFinding}
use shadowops.Rules.Syntax.{
  text, boolean, nothing, Node, Nodes, call, keyword, attribute, name, constant, raise_statement,
  pass_statement, expression_statement, function_definition, another_node, end, ◌⨾◌,
}

-- `_function`: the first definition of a function of that name; FunctionDef and AsyncFunctionDef alike.
unfoldable pub function_named : String → Nodes → Option Node
function_named wanted end = none
function_named wanted (function_definition l c id arguments body others ⨾ rest) =
    let further = function_named wanted rest in
    if str_eq id wanted then some (function_definition l c id arguments body others) else further
function_named wanted (_ ⨾ rest) = function_named wanted rest

-- The attribute of the variable of that name.
unfoldable pub attribute_of : String → Node → Option String
attribute_of variable (attribute _ _ (name _ _ id) attr) =
    if str_eq id variable then some attr else none
attribute_of variable _ = none

-- `_op_call`, with `isinstance(expression, ast.Call)` before it.
unfoldable pub op_call : Node → Option String
unfolding attribute_of
op_call (call _ _ function _ _) = attribute_of "op" function
op_call _ = none

unfoldable pub is_call_of : String → Node → Bool
unfolding op_call
is_call_of operation node = elim (op_call node) [ none ↦ false | some o ↦ str_eq o operation ]

-- `_keyword`
unfoldable pub keyword_value : String → Nodes → Option Node
keyword_value wanted end = none
keyword_value wanted (keyword l c (some arg) value ⨾ rest) =
    let further = keyword_value wanted rest in if str_eq arg wanted then some value else further
keyword_value wanted (_ ⨾ rest) = keyword_value wanted rest

unfoldable pub keywords_of : Node → Nodes
keywords_of (call _ _ _ _ keywords) = keywords
keywords_of _ = end

unfoldable pub arguments_of : Node → Nodes
arguments_of (call _ _ _ args _) = args
arguments_of _ = end

-- `_DESTRUCTIVE_CALLS`
unfoldable pub is_destructive : String → Bool
is_destructive operation =
    str_eq operation "drop_table" || str_eq operation "drop_column" || str_eq operation "drop_index"

unfoldable pub line_of : Node → ℕ
line_of (call l _ _ _ _) = l
line_of (keyword l _ _ _) = l
line_of (attribute l _ _ _) = l
line_of (name l _ _) = l
line_of (constant l _ _) = l
line_of (raise_statement l _ _) = l
line_of (pass_statement l _) = l
line_of (expression_statement l _ _) = l
line_of (function_definition l _ _ _ _ _) = l
line_of (another_node l _ _) = l

unfoldable pub column_of : Node → ℕ
column_of (call _ c _ _ _) = c
column_of (keyword _ c _ _) = c
column_of (attribute _ c _ _) = c
column_of (name _ c _) = c
column_of (constant _ c _) = c
column_of (raise_statement _ c _) = c
column_of (pass_statement _ c) = c
column_of (expression_statement _ c _) = c
column_of (function_definition _ c _ _ _ _) = c
column_of (another_node _ c _) = c

-- The findings of a rule at the nodes of a walk.
unfoldable pub gather : (Node → Option StaticFinding) → List Node → List StaticFinding
gather rule [] = []
gather rule (node ∷ nodes) =
    let rest = gather rule nodes in elim (rule node) [ none ↦ rest | some f ↦ f ∷ rest ]

unfoldable pub is_pass : Node → Bool
is_pass (pass_statement _ _) = true
is_pass _ = false

unfoldable pub is_docstring : Node → Bool
is_docstring (expression_statement _ _ (constant _ _ (text _))) = true
is_docstring _ = false

-- The body without the texts that stand as statements.
unfoldable pub statements_of : Nodes → List Node
unfolding is_docstring
statements_of end = []
statements_of (node ⨾ rest) =
    let further = statements_of rest in if is_docstring node then further else node ∷ further

unfoldable pub all_pass : List Node → Bool
unfolding is_pass
all_pass [] = true
all_pass (node ∷ nodes) = is_pass node && all_pass nodes

unfoldable pub only_pass : List Node → Bool
unfolding all_pass
only_pass [] = false
only_pass (node ∷ nodes) = all_pass (node ∷ nodes)

-- `_is_not_implemented`
unfoldable pub is_not_implemented : Node → Bool
is_not_implemented (name _ _ id) = str_eq id "NotImplementedError"
is_not_implemented (call _ _ (name _ _ id) _ _) = str_eq id "NotImplementedError"
is_not_implemented _ = false

-- A `raise` whose exception, its first part, is NotImplementedError.
unfoldable pub gives_up : Node → Bool
unfolding is_not_implemented
gives_up (raise_statement _ _ (exc ⨾ _)) = is_not_implemented exc
gives_up _ = false

unfoldable pub is_false : Option Node → Bool
is_false (some (constant _ _ (boolean false))) = true
is_false _ = false

-- The server default is there and is not the constant None.
unfoldable pub has_default : Option Node → Bool
has_default none = false
has_default (some (constant _ _ nothing)) = false
has_default (some _) = true

-- `postgresql_concurrently` is absent, or a constant other than True.
unfoldable pub not_concurrent : Option Node → Bool
not_concurrent none = true
not_concurrent (some (constant _ _ (boolean true))) = false
not_concurrent (some (constant _ _ _)) = true
not_concurrent (some _) = false

unfoldable pub second_of : Nodes → Option Node
second_of (_ ⨾ second ⨾ _) = some second
second_of _ = none

-- A call of `sa.Column`.
unfoldable pub is_column : Node → Bool
unfolding attribute_of
is_column (call _ _ function _ _) = elim (attribute_of "sa" function) [
  | none ↦ false
  | some a ↦ str_eq a "Column"
]
is_column _ = false

unfoldable pub if_column : Option Node → Option Node
unfolding is_column
if_column none = none
if_column (some candidate) = if is_column candidate then some candidate else none

-- `_column_argument`
unfoldable pub column_argument : Node → Option Node
unfolding if_column second_of arguments_of keyword_value keywords_of
column_argument node = elim (second_of (arguments_of node)) [
  | none ↦ if_column (keyword_value "column" (keywords_of node))
  | some candidate ↦ if_column (some candidate)
]
