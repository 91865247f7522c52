-- ===== src/Pxf/Dedent.antt =====
-- crates/protowire-pxf/src/lexer.rs, lines 806 to 830: `dedent`, with what it uses of `str`.
use protowire_rust.Prelude.{
  ℕ, zero, suc, List, [], ◌∷◌, ◌++◌, map, Bool, true, false, ◌&&◌, ◌||◌, Option, none, some, leb,
  ◌==◌, if◌then◌else◌, length, get_or, drop,
}

-- `strip_prefix` of a text
unfoldable pub strip_prefix : List ℕ → List ℕ → Option (List ℕ)
strip_prefix [] s = some s
strip_prefix (c ∷ cs) [] = none
strip_prefix (c ∷ cs) (b ∷ bs) = let rest = strip_prefix cs bs in if c == b then rest else none

-- A byte put in front of the first of the lines.
unfoldable pub onto_first : ℕ → List (List ℕ) → List (List ℕ)
onto_first b [] = (b ∷ []) ∷ []
onto_first b (line ∷ lines) = (b ∷ line) ∷ lines

-- `split('\n')`, which has one line at least
unfoldable pub split_lines : List ℕ → List (List ℕ)
unfolding onto_first
split_lines [] = [] ∷ []
split_lines (b ∷ bs) =
    let rest = split_lines bs in if b == b'\n' then [] ∷ rest else onto_first b rest

-- `join("\n")`
unfoldable pub join_lines : List (List ℕ) → List ℕ
join_lines [] = []
join_lines (line ∷ []) = line
join_lines (line ∷ next ∷ lines) = line ++ (b'\n' ∷ join_lines (next ∷ lines))

-- The last line, and those before it.
unfoldable pub last_line : List (List ℕ) → List ℕ
last_line [] = []
last_line (line ∷ []) = line
last_line (line ∷ next ∷ lines) = last_line (next ∷ lines)

unfoldable pub pop_line : List (List ℕ) → List (List ℕ)
pop_line [] = []
pop_line (line ∷ []) = []
pop_line (line ∷ next ∷ lines) = line ∷ pop_line (next ∷ lines)

-- The length of the white-space character (Unicode's White_Space) at the front, in UTF-8; 0 if
-- there is none.
unfoldable pub space_length : List ℕ → ℕ
space_length [] = 0
space_length (b ∷ bs) =
    let second = get_or bs 0 0 in
    let third = get_or bs 1 0 in
    if leb 0x09 b && leb b 0x0d || b == 0x20
    then 1
    else if b == 0xc2 && (second == 0x85 || second == 0xa0)
    then 2
    else if b == 0xe1 && second == 0x9a && third == 0x80
    then 3
    else if b == 0xe2
        && second == 0x80
        && (leb 0x80 third && leb third 0x8a || third == 0xa8 || third == 0xa9 || third == 0xaf)
    then 3
    else if b == 0xe2 && second == 0x81 && third == 0x9f
    then 3
    else if b == 0xe3 && second == 0x80 && third == 0x80
    then 3
    else 0

-- `trim().is_empty()`; a round takes a byte at least, so `length` rounds are enough.
unfoldable pub all_space : (fuel : ℕ) → List ℕ → Bool
unfolding space_length
all_space fuel [] = true
all_space zero (b ∷ bs) = false
all_space (suc fuel) (b ∷ bs) = elim (space_length (b ∷ bs)) [
  | zero ↦ false
  | suc n ↦ all_space fuel (drop (suc n) (b ∷ bs))
]

unfoldable pub strip_indent : List ℕ → List ℕ → List ℕ
unfolding strip_prefix
strip_indent indent line = elim (strip_prefix indent line) [ none ↦ line | some rest ↦ rest ]

unfoldable pub drop_first_newline : List ℕ → List ℕ
drop_first_newline [] = []
drop_first_newline (b ∷ bs) = if b == b'\n' then bs else b ∷ bs

unfoldable pub dedent : List ℕ → List ℕ
unfolding drop_first_newline split_lines last_line all_space pop_line strip_indent join_lines
dedent text =
    let lines = split_lines (drop_first_newline text) in
    let last = last_line lines in
    if all_space (length last) last
    then join_lines (map (strip_indent last) (pop_line lines))
    else join_lines lines
