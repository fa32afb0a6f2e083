-- ===== src/Rules/Syntax.antt =====
-- The syntax trees of Python that the rules look at, as far as they tell them apart, and `ast.walk`.
use shadowops.Prelude.{ℕ, String, Bool, Option, List, [], ◌∷◌, ◌++◌, ◌≡◌, ◌⊎◌, inl, inr, Memᴰ}
use mathlib.Core.List.Memᴰ

pub data Value : Type 0 where
  text : String → Value
  boolean : Bool → Value
  nothing : Value
  another_value : Value

-- Each node starts with its line and its column. Statements and expressions of other kinds, and the
-- parts of a function beside its body, are `another_node`, with the children that they have.
mutual
  pub data Node : Type 0 where
    call : ℕ → ℕ → Node → Nodes → Nodes → Node
    keyword : ℕ → ℕ → Option String → Node → Node
    attribute : ℕ → ℕ → Node → String → Node
    name : ℕ → ℕ → String → Node
    constant : ℕ → ℕ → Value → Node
    raise_statement : ℕ → ℕ → Nodes → Node
    pass_statement : ℕ → ℕ → Node
    expression_statement : ℕ → ℕ → Node → Node
    function_definition : ℕ → ℕ → String → Node → Nodes → Nodes → Node
    another_node : ℕ → ℕ → Nodes → Node

  pub data Nodes : Type 0 where
    end : Nodes
    ◌⨾◌ : Node → Nodes → Nodes

infixr 67 ◌⨾◌
-- The nodes of two trees by their depths.
unfoldable pub merge : List (List Node) → List (List Node) → List (List Node)
merge [] ys = ys
merge (x ∷ xs) [] = x ∷ xs
merge (x ∷ xs) (y ∷ ys) = (x ++ y) ∷ merge xs ys

-- The nodes of a tree by their depths, from left to right.
unfoldable mutual
  pub levels : Node → List (List Node)
  levels (call l c function args keywords) =
      (call l c function args keywords ∷ [])
      ∷ merge (levels function) (merge (levels_of args) (levels_of keywords))
  levels (keyword l c arg value) = (keyword l c arg value ∷ []) ∷ levels value
  levels (attribute l c value attr) = (attribute l c value attr ∷ []) ∷ levels value
  levels (name l c id) = (name l c id ∷ []) ∷ []
  levels (constant l c value) = (constant l c value ∷ []) ∷ []
  levels (raise_statement l c parts) = (raise_statement l c parts ∷ []) ∷ levels_of parts
  levels (pass_statement l c) = (pass_statement l c ∷ []) ∷ []
  levels (expression_statement l c value) = (expression_statement l c value ∷ []) ∷ levels value
  levels (function_definition l c id arguments body others) =
      (function_definition l c id arguments body others ∷ [])
      ∷ merge (levels arguments) (merge (levels_of body) (levels_of others))
  levels (another_node l c parts) = (another_node l c parts ∷ []) ∷ levels_of parts

  pub levels_of : Nodes → List (List Node)
  levels_of end = []
  levels_of (node ⨾ nodes) = merge (levels node) (levels_of nodes)

unfoldable pub flat : List (List Node) → List Node
flat [] = []
flat (x ∷ xs) = x ++ flat xs

-- `ast.walk`: it goes breadth first, which is depth by depth.
unfoldable pub walk : Node → List Node
unfolding levels flat
walk node = flat (levels node)

-- A node is in a tree: it is the tree or in one of its children.
unfoldable mutual
  pub Within : Node → Node → Type 0
  Within x (call l c function args keywords) =
      (x ≡ call l c function args keywords)
      ⊎ (Within x function ⊎ (WithinAny x args ⊎ WithinAny x keywords))
  Within x (keyword l c arg value) = (x ≡ keyword l c arg value) ⊎ Within x value
  Within x (attribute l c value attr) = (x ≡ attribute l c value attr) ⊎ Within x value
  Within x (name l c id) = x ≡ name l c id
  Within x (constant l c value) = x ≡ constant l c value
  Within x (raise_statement l c parts) = (x ≡ raise_statement l c parts) ⊎ WithinAny x parts
  Within x (pass_statement l c) = x ≡ pass_statement l c
  Within x (expression_statement l c value) = (x ≡ expression_statement l c value) ⊎ Within x value
  Within x (function_definition l c id arguments body others) =
      (x ≡ function_definition l c id arguments body others)
      ⊎ (Within x arguments ⊎ (WithinAny x body ⊎ WithinAny x others))
  Within x (another_node l c parts) = (x ≡ another_node l c parts) ⊎ WithinAny x parts

  pub WithinAny : Node → Nodes → Type 0
  WithinAny x end = ⊥
  WithinAny x (node ⨾ nodes) = Within x node ⊎ WithinAny x nodes

merge_left : (x : Node) (a b : List (List Node)) → Memᴰ x (flat a) → Memᴰ x (flat (merge a b))
unfolding flat merge
merge_left x [] b m = elim m [ ]
merge_left x (y ∷ ys) [] m = m
merge_left x (y ∷ ys) (z ∷ zs) m = elim (Memᴰ.append_cases y m) [
  | inl here ↦ Memᴰ.append_left (flat (merge ys zs)) (Memᴰ.append_left z here)
  | inr rest ↦ Memᴰ.append_right (y ++ z) (merge_left x ys zs rest)
]

merge_right : (x : Node) (a b : List (List Node)) → Memᴰ x (flat b) → Memᴰ x (flat (merge a b))
unfolding flat merge
merge_right x [] b m = m
merge_right x (y ∷ ys) [] m = elim m [ ]
merge_right x (y ∷ ys) (z ∷ zs) m = elim (Memᴰ.append_cases z m) [
  | inl here ↦ Memᴰ.append_left (flat (merge ys zs)) (Memᴰ.append_right y here)
  | inr rest ↦ Memᴰ.append_right (y ++ z) (merge_right x ys zs rest)
]

-- A walk meets every node of its tree.
mutual
  unfolding levels flat Within

  pub meets : (x n : Node) → Within x n → Memᴰ x (flat (levels n))
  meets x (call l c f a k) (inl e) = Memᴰ.head e
  meets x (call l c f a k) (inr (inl w)) =
      Memᴰ.tail (merge_left x (levels f) (merge (levels_of a) (levels_of k)) (meets x f w))
  meets x (call l c f a k) (inr (inr (inl w))) = Memᴰ.tail (
      merge_right x (levels f) (merge (levels_of a) (levels_of k))
        (merge_left x (levels_of a) (levels_of k) (meets_any x a w)))
  meets x (call l c f a k) (inr (inr (inr w))) = Memᴰ.tail (
      merge_right x (levels f) (merge (levels_of a) (levels_of k))
        (merge_right x (levels_of a) (levels_of k) (meets_any x k w)))
  meets x (keyword l c a v) (inl e) = Memᴰ.head e
  meets x (keyword l c a v) (inr w) = Memᴰ.tail (meets x v w)
  meets x (attribute l c v a) (inl e) = Memᴰ.head e
  meets x (attribute l c v a) (inr w) = Memᴰ.tail (meets x v w)
  meets x (name l c i) e = Memᴰ.head e
  meets x (constant l c v) e = Memᴰ.head e
  meets x (raise_statement l c p) (inl e) = Memᴰ.head e
  meets x (raise_statement l c p) (inr w) = Memᴰ.tail (meets_any x p w)
  meets x (pass_statement l c) e = Memᴰ.head e
  meets x (expression_statement l c v) (inl e) = Memᴰ.head e
  meets x (expression_statement l c v) (inr w) = Memᴰ.tail (meets x v w)
  meets x (function_definition l c i a b o) (inl e) = Memᴰ.head e
  meets x (function_definition l c i a b o) (inr (inl w)) =
      Memᴰ.tail (merge_left x (levels a) (merge (levels_of b) (levels_of o)) (meets x a w))
  meets x (function_definition l c i a b o) (inr (inr (inl w))) = Memᴰ.tail (
      merge_right x (levels a) (merge (levels_of b) (levels_of o))
        (merge_left x (levels_of b) (levels_of o) (meets_any x b w)))
  meets x (function_definition l c i a b o) (inr (inr (inr w))) = Memᴰ.tail (
      merge_right x (levels a) (merge (levels_of b) (levels_of o))
        (merge_right x (levels_of b) (levels_of o) (meets_any x o w)))
  meets x (another_node l c p) (inl e) = Memᴰ.head e
  meets x (another_node l c p) (inr w) = Memᴰ.tail (meets_any x p w)

  pub meets_any : (x : Node) (ns : Nodes) → WithinAny x ns → Memᴰ x (flat (levels_of ns))
  meets_any x end w = absurd w
  meets_any x (n ⨾ ns) (inl w) = merge_left x (levels n) (levels_of ns) (meets x n w)
  meets_any x (n ⨾ ns) (inr w) = merge_right x (levels n) (levels_of ns) (meets_any x ns w)

pub walk-Within : (x n : Node) → Within x n → Memᴰ x (walk n)
unfolding walk
walk-Within x n w = meets x n w
