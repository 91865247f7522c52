-- ===== src/Pxf/Format.antt =====
-- crates/protowire-pxf/src/format.rs, and `ident_safe_entry_name` of keyed.rs: an AST printed as PXF
-- text. Each function gives what the source pushes to `out`.
pub mod Base64
pub mod Valid
pub mod Literal
pub mod Literals
pub mod Quoting
pub mod Strings
use protowire_rust.Prelude.{
  ℕ, zero, suc, ◌+◌, ◌*◌, ◌/◌, ◌^◌, List, [], ◌∷◌, ◌++◌, Bool, true, false, not, ◌&&◌, ◌||◌, ◌==◌,
  if◌then◌else◌, codes, get_or, bit_and, bit_or,
}
use protowire_rust.Pxf.Chars.{is_alphabetic, is_digit}
use protowire_rust.Pxf.Lexer.Quoted.{text_eq}
use protowire_rust.Pxf.Ast.{
  Comment, Value, Values, Entry, Entries, Document, Head, nil, cons, end, entry,
}
use protowire_rust.Pxf.Ast

-- keyed.rs, `ident_safe_entry_name`.
unfoldable pub all_name_bytes : List ℕ → Bool
unfolding is_digit
all_name_bytes [] = true
all_name_bytes (c ∷ s) =
    (is_alphabetic c || is_digit c || c == b'_' || c == b'.') && all_name_bytes s

unfoldable pub ident_safe_entry_name : List ℕ → Bool
unfolding all_name_bytes
ident_safe_entry_name [] = false
ident_safe_entry_name (c ∷ s) =
    let text = c ∷ s in
    if text_eq text (codes "true") || text_eq text (codes "false") || text_eq text (codes "null")
    then false
    else if not (is_alphabetic c || c == b'_')
    then false
    else all_name_bytes s

unfoldable pub needs_quoting : List ℕ → Bool
unfolding ident_safe_entry_name
needs_quoting s = not (ident_safe_entry_name s)

-- The characters that are escaped are of one byte, and the bytes of the others stay as they are.
unfoldable pub quote_byte : ℕ → List ℕ
quote_byte c =
    if c == b'\\'
    then b'\\' ∷ b'\\' ∷ []
    else if c == b'"'
    then b'\\' ∷ b'"' ∷ []
    else if c == b'\n'
    then b'\\' ∷ b'n' ∷ []
    else if c == b'\t'
    then b'\\' ∷ b't' ∷ []
    else if c == b'\r'
    then b'\\' ∷ b'r' ∷ []
    else c ∷ []

unfoldable pub quote_bytes : List ℕ → List ℕ
unfolding quote_byte
quote_bytes [] = []
quote_bytes (c ∷ s) = quote_byte c ++ quote_bytes s

unfoldable pub quote_string : List ℕ → List ℕ
unfolding quote_bytes
quote_string s = b'"' ∷ (quote_bytes s ++ (b'"' ∷ []))

abbrev pub alphabet : List ℕ
alphabet = codes "ABCDEFGHIJKLMNOPQRSTUVWXYZabcdefghijklmnopqrstuvwxyz0123456789+/"

-- The character of the six bits of `n` from bit `k` on.
unfoldable pub digit_at : (k n : ℕ) → ℕ
digit_at k n = get_or alphabet (bit_and (n / 2 ^ k) 0x3f) 0

unfoldable pub encode_base64 : List ℕ → List ℕ
unfolding digit_at
encode_base64 [] = []
encode_base64 (a ∷ []) = let n = a * 2 ^ 16 in digit_at 18 n ∷ digit_at 12 n ∷ codes "=="
encode_base64 (a ∷ b ∷ []) =
    let n = bit_or (a * 2 ^ 16) (b * 2 ^ 8) in
    digit_at 18 n ∷ digit_at 12 n ∷ digit_at 6 n ∷ codes "="
encode_base64 (a ∷ b ∷ c ∷ s) =
    let n = bit_or (bit_or (a * 2 ^ 16) (b * 2 ^ 8)) c in
    digit_at 18 n ∷ digit_at 12 n ∷ digit_at 6 n ∷ digit_at 0 n ∷ encode_base64 s

unfoldable pub write_indent : (indent : List ℕ) → (level : ℕ) → List ℕ
write_indent indent zero = []
write_indent indent (suc level) = indent ++ write_indent indent level

unfoldable pub write_comments : (indent : List ℕ) → List Comment → (level : ℕ) → List ℕ
unfolding write_indent
write_comments indent [] level = []
write_comments indent (c ∷ cs) level =
    write_indent indent level ++ (c.text ++ (b'\n' ∷ write_comments indent cs level))

unfoldable pub write_number : (raw prec : List ℕ) → List ℕ
write_number raw [] = raw
write_number raw (c ∷ prec) = raw ++ (b'p' ∷ c ∷ prec)

-- The key of an entry, quoted or not.
unfoldable pub write_key : Bool → List ℕ → List ℕ
unfolding quote_string
write_key quoted key = if quoted then quote_string key else key

-- A comment behind an entry, and the end of the line.
unfoldable pub write_trailing : List ℕ → List ℕ
write_trailing [] = b'\n' ∷ []
write_trailing (c ∷ comment) = b' ' ∷ c ∷ (comment ++ (b'\n' ∷ []))

-- No comma behind the last element.
unfoldable pub comma_before : Values → List ℕ
comma_before nil = []
comma_before (cons v vs) = b',' ∷ []

unfoldable mutual
  unfolding quote_string encode_base64 write_number write_indent comma_before needs_quoting
      write_comments write_key write_trailing

  pub format_value : (indent : List ℕ) → Value → (level : ℕ) → List ℕ
  format_value indent (Value.string s) level = quote_string s.value
  format_value indent (Value.int i) level = write_number i.raw i.prec
  format_value indent (Value.float f) level = write_number f.raw f.prec
  format_value indent (Value.bool b) level = if b.value then codes "true" else codes "false"
  format_value indent (Value.bytes bv) level = b'b' ∷ b'"' ∷ (encode_base64 bv.value ++ (b'"' ∷ []))
  format_value indent (Value.null n) level = codes "null"
  format_value indent (Value.ident i) level = i.name
  format_value indent (Value.timestamp t) level = t.raw
  format_value indent (Value.duration d) level = d.raw
  format_value indent (Value.list pos vs) level =
      b'[' ∷ b'\n' ∷ (format_elements indent vs level ++ (write_indent indent level ++ (b']' ∷ [])))
  format_value indent (Value.block pos es) level =
      b'{'
      ∷ b'\n'
      ∷ (format_entries indent es (level + 1) ++ (write_indent indent level ++ (b'}' ∷ [])))

  pub format_elements : (indent : List ℕ) → Values → (level : ℕ) → List ℕ
  format_elements indent nil level = []
  format_elements indent (cons v vs) level =
      write_indent indent (level + 1)
      ++ (format_value indent v (level + 1)
          ++ (comma_before vs ++ (b'\n' ∷ format_elements indent vs level)))

  pub format_entry : (indent : List ℕ) → Entry → (level : ℕ) → List ℕ
  format_entry indent (Entry.assignment h v) level =
      write_comments indent h.leading_comments level
      ++ (write_indent indent level
          ++ (write_key h.quoted h.key
              ++ (codes " = "
                  ++ (format_value indent v level ++ write_trailing h.trailing_comment))))
  format_entry indent (Entry.map_entry h v) level =
      write_comments indent h.leading_comments level
      ++ (write_indent indent level
          ++ (write_key (h.quoted && needs_quoting h.key) h.key
              ++ (codes ": "
                  ++ (format_value indent v level ++ write_trailing h.trailing_comment))))
  format_entry indent (Entry.block_entry h es) level =
      write_comments indent h.leading_comments level
      ++ (write_indent indent level
          ++ (write_key h.quoted h.key
              ++ (b' '
                  ∷ b'{'
                  ∷ b'\n'
                  ∷ (format_entries indent es (level + 1)
                      ++ (write_indent indent level ++ (b'}' ∷ b'\n' ∷ []))))))
  format_entry indent (Entry.type_entry t) level =
      write_comments indent t.leading_comments level
      ++ (write_indent indent level ++ (codes "@type = " ++ (quote_string t.url ++ (b'\n' ∷ []))))

  pub format_entries : (indent : List ℕ) → Entries → (level : ℕ) → List ℕ
  format_entries indent end level = []
  format_entries indent (entry e es) level =
      format_entry indent e level ++ format_entries indent es level

-- The line of the type, where there is one.
unfoldable pub write_type : List ℕ → List ℕ
write_type [] = []
write_type (c ∷ url) = codes "@type " ++ (c ∷ (url ++ (b'\n' ∷ b'\n' ∷ [])))

unfoldable pub format_with_options : (indent : List ℕ) → Document → List ℕ
unfolding write_type write_comments format_entries
format_with_options indent doc =
    write_type doc.type_url
    ++ (write_comments indent doc.leading_comments 0 ++ format_entries indent doc.entries 0)

unfoldable pub format : Document → List ℕ
unfolding format_with_options
format doc = format_with_options (codes "  ") doc

-- A cell of a dataset.
unfoldable pub format_value_text : Value → List ℕ
unfolding format_value
format_value_text val = format_value (codes "  ") val 0
