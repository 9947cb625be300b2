-- ===== src/Ast.antt =====
-- cypherast/ast.py: the IR of the library. Every Python subclass of `AstNode` is a constructor of
-- one type, its arguments those of the class's `arg_types`, in that order. An argument that may be
-- `None` is an `OptNode`, an `Option` or (a flag that is only tested) a `Bool`; a list that may be
-- `None` is read as the empty list, as the code does by `or []`. The subclasses of `Binary`
-- differ in their class alone, which is `BinaryOp`. Tuples inside an argument (map entries, CASE
-- arms, map projection entries) have types of their own, since `walk` and `transform` do not enter
-- them. A float is carried by the 64 bits of its IEEE 754 double.
pub mod Walk
pub mod Transform
pub mod Equality
pub mod Kind
use Prim.Native.Nat.{ℕ}
use cypherast.Prelude.{String, Bool, List, Option}
use cypherast.Prelude.Int.{ℤ}

pub data Direction : Type 0 where
  outgoing incoming both : Direction

pub data BinaryOp : Type 0 where
  add sub mul div modulo pow : BinaryOp
  eq neq lt lte gt gte : BinaryOp
  and or xor : BinaryOp
  is_in starts_with ends_with contains regex_match : BinaryOp

mutual
  pub data AstNode : Type 0 where
    -- literals and atoms
    null star : AstNode
    boolean : Bool → AstNode
    integer : ℤ → AstNode
    float : ℕ → AstNode
    string parameter identifier property_selector : String → AstNode
    -- expressions
    property : AstNode → (name : String) → AstNode
    label_predicate : AstNode → (labels : AstNode) → AstNode
    map_literal : Entries → AstNode
    list_literal : AstNodes → AstNode
    list_subscript : AstNode → (index : AstNode) → AstNode
    list_slice : AstNode → (start stop : OptNode) → AstNode
    range : (start stop : OptNode) → AstNode
    alias : AstNode → (as_name : AstNode) → AstNode
    binary : BinaryOp → AstNode → (expression : AstNode) → AstNode
    not_expr neg : AstNode → AstNode
    is_null : AstNode → (not_ : Bool) → AstNode
    function_call : (name : String) → AstNodes → (distinct : Bool) → AstNode
    case_expr : OptNode → Arms → (default : OptNode) → AstNode
    coalesce : AstNodes → AstNode
    list_comprehension : (variable source : AstNode) → (condition projection : OptNode) → AstNode
    quantifier : (name : String) → (variable source : AstNode) → (condition : OptNode) → AstNode
    list_lambda :
        (name : String)
        → (variable source expression : AstNode) → (accumulator initial : OptNode) → AstNode
    pattern_comprehension :
        (variable : OptNode)
        → (pattern : AstNode) → (condition : OptNode) → (projection : AstNode) → AstNode
    map_projection : AstNode → ProjectionEntries → AstNode
    pattern_predicate : (pattern : AstNode) → (not_ : Bool) → AstNode
    count_subquery : AstNode → AstNode
    -- patterns
    label_expression : (labels : List String) → (expression : Option String) → AstNode
    node_pattern : (variable labels properties condition : OptNode) → AstNode
    relationship_pattern :
        (variable : OptNode)
        → (types : List String) → (properties : OptNode) → Direction
        → (min_hops max_hops : Option ℕ) → (variable_length : Bool) → (condition : OptNode)
        → (memgraph_quantifier : Option String)
        → (memgraph_weight_expr memgraph_total_weight : OptNode) → AstNode
    path_pattern : (variable : OptNode) → (elements : AstNodes) → AstNode
    pattern : (paths : AstNodes) → AstNode
    shortest_path : AstNode → (all_ : Bool) → AstNode
    relationship_lambda : (relationship node expression : AstNode) → AstNode
    quantified_path : AstNode → (min_hops max_hops : Option ℕ) → AstNode
    -- clauses
    match_clause :
        (pattern : AstNode)
        → (optional : Bool) → (condition : OptNode) → (hints : List String) → (search_of : OptNode)
        → AstNode
    where_clause : AstNode → AstNode
    with_clause :
        (expressions : AstNodes)
        → (distinct : Bool) → (condition order_of skip_of limit_of group_by_of : OptNode) → AstNode
    return_clause :
        (expressions : AstNodes)
        → (distinct : Bool) → (order_of skip_of limit_of group_by_of : OptNode) → AstNode
    for_clause : (expression alias_of : AstNode) → AstNode
    group_by : AstNodes → AstNode
    unwind : (expression alias_of : AstNode) → AstNode
    order : AstNodes → AstNode
    ordered : AstNode → (desc : Bool) → (nulls : Option String) → AstNode
    skip limit : AstNode → AstNode
    create : (pattern : AstNode) → AstNode
    merge : (pattern : AstNode) → (actions : AstNodes) → AstNode
    on_create on_match : (actions : AstNodes) → AstNode
    set_clause : (items : AstNodes) → AstNode
    set_item : AstNode → (expression : OptNode) → (op : Option String) → AstNode
    delete : (expressions : AstNodes) → (detach : Bool) → AstNode
    remove_clause : (items : AstNodes) → AstNode
    remove_labels : AstNode → (labels : AstNode) → AstNode
    foreach : (variable expression : AstNode) → (clauses : AstNodes) → AstNode
    call_subquery :
        (query : AstNode)
        → (variables : AstNodes) → (optional in_transactions : Bool) → (transaction_rows : OptNode)
        → AstNode
    filter_item : (variable : AstNode) → (predicate : OptNode) → AstNode
    filter_clause : (items : AstNodes) → AstNode
    let_clause : (items : AstNodes) → AstNode
    load_csv :
        (url alias_of : AstNode) → (with_headers : Bool) → (fieldterminator : OptNode) → AstNode
    search_clause :
        (variable : AstNode)
        → (index_name : String) → (vector_expr : AstNode) → (limit_of score_alias : OptNode)
        → AstNode
    when_branch : (condition query : AstNode) → AstNode
    when_query : (branches : AstNodes) → (default : OptNode) → AstNode
    admin_statement : (text : String) → AstNode
    call_procedure :
        (name : String) → (expressions : AstNodes) → (yield_of condition : OptNode) → AstNode
    union : (left right : AstNode) → (distinct : Bool) → AstNode
    query : (clauses : AstNodes) → AstNode
    cypher : AstNode → (version : Option String) → AstNode
    -- GQL only
    next : AstNode → (expression : AstNode) → AstNode
    insert_clause : (pattern : AstNode) → AstNode
    create_graph_type : (name : String) → (body : OptNode) → AstNode
    graph_type_ref session_command transaction_command : String → AstNode
    binding_table value_table : (columns : List String) → AstNode
    use_graph : (graph : String) → AstNode
    yield : (expressions : AstNodes) → AstNode
    placeholder : (name : Option String) → AstNode

  -- a list of nodes
  pub data AstNodes : Type 0 where
    nil : AstNodes
    cons : AstNode → AstNodes → AstNodes

  -- a node, or `None`
  pub data OptNode : Type 0 where
    absent : OptNode
    present : AstNode → OptNode

  -- `Map.entries`: a list of pairs of a key and a node
  pub data Entries : Type 0 where
    end : Entries
    entry : (key : String) → AstNode → Entries → Entries

  -- `Case.ifs`: a list of pairs (condition, result)
  pub data Arms : Type 0 where
    no_arm : Arms
    arm : (condition result : AstNode) → Arms → Arms

  -- `MapProjection.entries`: nodes (`Star`, `PropertySelector`), pairs, and bare names
  pub data ProjectionEntries : Type 0 where
    finish : ProjectionEntries
    node_entry : AstNode → ProjectionEntries → ProjectionEntries
    pair_entry : (key : String) → AstNode → ProjectionEntries → ProjectionEntries
    name_entry : String → ProjectionEntries → ProjectionEntries

infixr 65 ◌+++◌
-- Python's `+` on lists of nodes.
abbrev pub ◌+++◌ : AstNodes → AstNodes → AstNodes
nil +++ ns = ns
cons m ms +++ ns = cons m (ms +++ ns)

-- The nodes as a list.
abbrev pub to_list : AstNodes → List AstNode
to_list nil = List.[]
to_list (cons n ns) = List.◌∷◌ n (to_list ns)

abbrev pub of_list : List AstNode → AstNodes
of_list List.[] = nil
of_list (List.◌∷◌ n ns) = cons n (of_list ns)
