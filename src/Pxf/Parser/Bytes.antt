-- ===== src/Pxf/Parser/Bytes.antt =====
-- crates/protowire-pxf/src/parser.rs, lines 871 to 1023, and `decode_base64` of decode.rs: functions
-- on bytes. An index is none where the source has -1. A loop of a search gets the length of the
-- input for its rounds, since each moves on by a byte.
use protowire_rust.Prelude.{
  ℕ, zero, suc, ◌+◌, ◌-◌, ◌*◌, ◌/◌, ◌%◌, ◌^◌, List, [], ◌∷◌, ◌++◌, Bool, true, false, not, ◌&&◌,
  Option, none, some, leb, ltb, ◌==◌, if◌then◌else◌, length, get_or, replicate, bit_or,
}

abbrev pub byte : List ℕ → ℕ → ℕ
byte input i = get_or input i 0

abbrev pub within : List ℕ → ℕ → Bool
within input i = ltb i (length input)

-- The `while` of a string or bytes literal, from behind its quote.
unfoldable pub skip_quoted : (fuel : ℕ) → List ℕ → ℕ → Option ℕ
skip_quoted zero input j = none
skip_quoted (suc fuel) input j =
    let behind_escape = skip_quoted fuel input (j + 2) in
    let behind = skip_quoted fuel input (j + 1) in
    if not (within input j)
    then none
    else if byte input j == b'\\'
    then (if within input (j + 1) then behind_escape else none)
    else if byte input j == b'"'
    then some (j + 1)
    else if byte input j == b'\n'
    then none
    else behind

-- The `while` of a triple-quoted string.
unfoldable pub skip_triple : (fuel : ℕ) → List ℕ → ℕ → Option ℕ
skip_triple zero input k = none
skip_triple (suc fuel) input k =
    let behind = skip_triple fuel input (k + 1) in
    if not (within input (k + 2))
    then none
    else if byte input k == b'"' && byte input (k + 1) == b'"' && byte input (k + 2) == b'"'
    then some (k + 3)
    else behind

unfoldable pub skip_string : List ℕ → ℕ → Option ℕ
unfolding skip_triple skip_quoted
skip_string input j =
    if within input (j + 2) && byte input (j + 1) == b'"' && byte input (j + 2) == b'"'
    then skip_triple (length input) input (j + 3)
    else skip_quoted (length input) input (j + 1)

unfoldable pub skip_bytes : List ℕ → ℕ → Option ℕ
unfolding skip_quoted
skip_bytes input j = skip_quoted (length input) input (j + 2)

unfoldable pub skip_eol : (fuel : ℕ) → List ℕ → ℕ → ℕ
skip_eol zero input j = j
skip_eol (suc fuel) input j =
    let behind = skip_eol fuel input (j + 1) in
    if within input j && not (byte input j == b'\n') then behind else j

unfoldable pub skip_comment : (fuel : ℕ) → List ℕ → ℕ → Option ℕ
skip_comment zero input j = none
skip_comment (suc fuel) input j =
    let behind = skip_comment fuel input (j + 1) in
    if not (within input (j + 1))
    then none
    else if byte input j == b'*' && byte input (j + 1) == b'/'
    then some (j + 2)
    else behind

-- Where the search goes on behind what starts at `i`, if that is neither brace.
unfoldable pub skip_element : List ℕ → ℕ → Option ℕ
unfolding skip_string skip_bytes skip_eol skip_comment
skip_element input i =
    let ch = byte input i in
    let next = byte input (i + 1) in
    if ch == b'"'
    then skip_string input i
    else if ch == b'b' && within input (i + 1) && next == b'"'
    then skip_bytes input i
    else if ch == b'#'
    then some (skip_eol (length input) input (i + 1))
    else if ch == b'/' && within input (i + 1) && next == b'/'
    then some (skip_eol (length input) input (i + 2))
    else if ch == b'/' && within input (i + 1) && next == b'*'
    then skip_comment (length input) input (i + 2)
    else some (i + 1)

unfoldable pub brace_loop : (fuel : ℕ) → List ℕ → ℕ → ℕ → Option ℕ
unfolding skip_element
brace_loop zero input depth i = none
brace_loop (suc fuel) input depth i =
    let deeper = brace_loop fuel input (depth + 1) (i + 1) in
    let shallower = brace_loop fuel input (depth - 1) (i + 1) in
    if not (within input i)
    then none
    else if byte input i == b'{'
    then deeper
    else if byte input i == b'}'
    then (if depth == 1 then some i else shallower)
    else elim (skip_element input i) [ none ↦ none | some j ↦ brace_loop fuel input depth j ]

unfoldable pub find_matching_brace : List ℕ → ℕ → Option ℕ
unfolding brace_loop
find_matching_brace input open_offset = brace_loop (length input) input 1 (open_offset + 1)

-- The digit that a character of base64 stands for.
unfoldable pub base64_digit : ℕ → Option ℕ
base64_digit b =
    if leb b'A' b && leb b b'Z'
    then some (b - b'A')
    else if leb b'a' b && leb b b'z'
    then some (b - b'a' + 26)
    else if leb b'0' b && leb b b'9'
    then some (b - b'0' + 52)
    else if b == b'+'
    then some 62
    else if b == b'/'
    then some 63
    else none

-- parser.rs, the loop of `decode_base64`: `buf` and `bits` are of type u32. Other characters are
-- passed over.
unfoldable pub decode_loop : ℕ → ℕ → List ℕ → List ℕ
unfolding base64_digit
decode_loop buf bits [] = []
decode_loop buf bits (b ∷ bs) =
    let passed = decode_loop buf bits bs in
    if b == b'=' then [] else elim (base64_digit b) [
      | none ↦ passed
      | some v ↦
          let joined = bit_or (buf * 2 ^ 6 % 2 ^ 32) v in
          elim (leb 8 (bits + 6)) [
            | true ↦
                (joined / 2 ^ (bits - 2) % 2 ^ 8)
                ∷ decode_loop (joined % 2 ^ (bits - 2)) (bits - 2) bs
            | false ↦ decode_loop joined (bits + 6) bs
          ]
    ]

unfoldable pub decode_base64 : List ℕ → List ℕ
unfolding decode_loop
decode_base64 s = decode_loop 0 0 s

-- decode.rs, lines 2476 to 2498: `buf` keeps the bits that are written, and another character
-- fails.
unfoldable pub strict_loop : ℕ → ℕ → List ℕ → Option (List ℕ)
unfolding base64_digit
strict_loop buf bits [] = some []
strict_loop buf bits (b ∷ bs) = if b == b'=' then some [] else elim (base64_digit b) [
  | none ↦ none
  | some v ↦
      let joined = bit_or (buf * 2 ^ 6 % 2 ^ 32) v in
      elim (leb 8 (bits + 6)) [
        | true ↦ elim (strict_loop joined (bits - 2) bs) [
          | none ↦ none
          | some out ↦ some ((joined / 2 ^ (bits - 2) % 2 ^ 8) ∷ out)
        ]
        | false ↦ strict_loop joined (bits + 6) bs
      ]
]

-- decode.rs, lines 2460 to 2475: padded to a multiple of four characters.
unfoldable pub strict_decode_base64 : List ℕ → Option (List ℕ)
unfolding strict_loop
strict_decode_base64 s = strict_loop 0 0 (s ++ replicate ((4 - length s % 4) % 4) b'=')
