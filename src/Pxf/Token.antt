-- ===== src/Pxf/Token.antt =====
-- crates/protowire-pxf/src/token.rs: tokens and positions. A text is its list of bytes.
use protowire_rust.Prelude.{ℕ, List, [], codes}

pub data TokenKind : Type 0 where
  eof illegal newline comment ident string int float bool null bytes timestamp duration : TokenKind
  l_brace r_brace l_bracket r_bracket l_paren r_paren equals colon comma : TokenKind
  at_type at_directive at_dataset at_proto : TokenKind

unfoldable pub name : TokenKind → List ℕ
name eof = codes "EOF"
name illegal = codes "ILLEGAL"
name newline = codes "newline"
name comment = codes "comment"
name ident = codes "identifier"
name string = codes "string"
name int = codes "integer"
name float = codes "float"
name bool = codes "bool"
name null = codes "null"
name bytes = codes "bytes"
name timestamp = codes "timestamp"
name duration = codes "duration"
name l_brace = codes "{"
name r_brace = codes "}"
name l_bracket = codes "["
name r_bracket = codes "]"
name l_paren = codes "("
name r_paren = codes ")"
name equals = codes "="
name colon = codes ":"
name comma = codes ","
name at_type = codes "@type"
name at_directive = codes "@<directive>"
name at_dataset = codes "@dataset"
name at_proto = codes "@proto"

pub record Position : Type 0 where
  pub line : ℕ
  pub column : ℕ
  pub offset : ℕ

unfoldable pub with_offset : ℕ → ℕ → ℕ → Position
with_offset line column offset = record { line = line; column = column; offset = offset }

pub record Token : Type 0 where
  pub kind : TokenKind
  pub value : List ℕ
  pub pos : Position
  pub prec : List ℕ

abbrev pub new : TokenKind → List ℕ → Position → Token
new kind value pos = record { kind = kind; value = value; pos = pos; prec = [] }
