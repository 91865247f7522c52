-- ===== src/Pxf/Parser/Columns.antt =====
-- crates/protowire-pxf/src/dataset_paths.rs, lines 11 to 77: `column_path_error`, which parser.rs
-- calls. A HashMap from segments to node indices is an association list.
use protowire_rust.Prelude.{
  ℕ, zero, suc, ◌+◌, List, [], ◌∷◌, ◌++◌, Bool, true, false, ◌&&◌, ◌||◌, Option, none, some, ◌==◌,
  if◌then◌else◌, length, get_or, ◌⊎◌, inl, inr,
}
use protowire_rust.Pxf.Parser.State.{Reason, empty_segment, column_overlap, column_twice}

unfoldable pub same_text : List ℕ → List ℕ → Bool
same_text [] [] = true
same_text [] (d ∷ t) = false
same_text (c ∷ s) [] = false
same_text (c ∷ s) (d ∷ t) = c == d && same_text s t

-- A character in front of the first segment.
unfoldable pub grow : ℕ → List (List ℕ) → List (List ℕ)
grow c [] = (c ∷ []) ∷ []
grow c (t ∷ ts) = (c ∷ t) ∷ ts

-- `c.split('.')`
unfoldable pub segments : List ℕ → List (List ℕ)
unfolding grow
segments [] = [] ∷ []
segments (c ∷ s) = let rest = segments s in if c == b'.' then [] ∷ rest else grow c rest

-- `c.starts_with('.') || c.ends_with('.') || c.contains("..")`
unfoldable pub starts_with_dot : List ℕ → Bool
starts_with_dot [] = false
starts_with_dot (c ∷ s) = c == b'.'

unfoldable pub ends_with_dot : List ℕ → Bool
ends_with_dot [] = false
ends_with_dot (c ∷ []) = c == b'.'
ends_with_dot (c ∷ d ∷ s) = ends_with_dot (d ∷ s)

unfoldable pub has_two_dots : List ℕ → Bool
has_two_dots [] = false
has_two_dots (c ∷ []) = false
has_two_dots (c ∷ d ∷ s) = c == b'.' && d == b'.' || has_two_dots (d ∷ s)

pub record PathNode : Type 0 where
  pub children : List (List ℕ × ℕ)
  pub column : Option ℕ
  pub first : ℕ

abbrev pub root : PathNode
root = record { children = []; column = none; first = 0 }

abbrev pub node_at : List PathNode → ℕ → PathNode
node_at nodes i = get_or nodes i root

unfoldable pub child : List (List ℕ × ℕ) → List ℕ → Option ℕ
unfolding same_text
child [] seg = none
child ((key, next) ∷ rest) seg = if same_text key seg then some next else child rest seg

unfoldable pub update : ℕ → (PathNode → PathNode) → List PathNode → List PathNode
update i change [] = []
update zero change (n ∷ ns) = change n ∷ ns
update (suc i) change (n ∷ ns) = n ∷ update i change ns

abbrev pub column_name : List (List ℕ) → ℕ → List ℕ
column_name cols i = get_or cols i []

-- The loop over the segments of column `i`: the column that ends on the way, or the nodes, the
-- node of the whole path and whether a node was made.
pub data Walk : Type 0 where
  blocked : ℕ → Walk
  walked : List PathNode → ℕ → Bool → Walk

unfoldable pub walk : ℕ → List (List ℕ) → List PathNode → ℕ → Bool → Walk
unfolding child update
walk i [] nodes at created = walked nodes at created
walk i (seg ∷ segs) nodes at created = elim (node_at nodes at).column [
  | some prev ↦ blocked prev
  | none ↦ elim (child (node_at nodes at).children seg) [
    | some next ↦ walk i segs nodes next created
    | none ↦
        let next = length nodes in
        let made : PathNode = record { children = []; column = none; first = i } in
        let grown =
          update at (λ n. record n { children = n.children ++ ((seg, next) ∷ []) })
            (nodes ++ (made ∷ [])) in
        walk i segs grown next true
  ]
]

-- The rest of the round of column `i`, which is `c`: an error, or the nodes after it.
unfoldable pub place_column : List (List ℕ) → ℕ → List ℕ → Walk → Reason ⊎ List PathNode
unfolding update
place_column cols i c (blocked prev) = inl (column_overlap c (column_name cols prev))
place_column cols i c (walked nodes at created) = elim (node_at nodes at).column [
  | some prev ↦ inl (column_twice c)
  | none ↦
      if created
      then inr (update at (λ n. record n { column = some i }) nodes)
      else inl (column_overlap c (column_name cols (node_at nodes at).first))
]

unfoldable pub columns_loop :
    List (List ℕ) → ℕ → List PathNode → List (List ℕ) → Option (ℕ × Reason)
unfolding starts_with_dot ends_with_dot has_two_dots segments walk place_column
columns_loop cols i nodes [] = none
columns_loop cols i nodes (c ∷ rest) =
    elim (starts_with_dot c || ends_with_dot c || has_two_dots c) [
      | true ↦ some (i, empty_segment c)
      | false ↦ elim (place_column cols i c (walk i (segments c) nodes 0 false)) [
        | inl reason ↦ some (i, reason)
        | inr placed ↦ columns_loop cols (i + 1) placed rest
      ]
    ]

unfoldable pub column_path_error : List (List ℕ) → Option (ℕ × Reason)
unfolding columns_loop
column_path_error cols = columns_loop cols 0 (root ∷ []) cols
