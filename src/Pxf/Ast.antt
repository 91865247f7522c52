-- ===== src/Pxf/Ast.antt =====
-- crates/protowire-pxf/src/ast.rs: documents, entries and values. A struct that holds values or
-- entries is the arguments of its constructor.
use protowire_rust.Prelude.{ℕ, List, Bool, Option, codes}
use protowire_rust.Pxf.Token.{Position}

pub record Comment : Type 0 where
  pub pos : Position
  pub text : List ℕ

pub record StringVal : Type 0 where
  pub pos : Position
  pub value : List ℕ

pub record IntVal : Type 0 where
  pub pos : Position
  pub raw : List ℕ
  pub prec : List ℕ

pub record FloatVal : Type 0 where
  pub pos : Position
  pub raw : List ℕ
  pub prec : List ℕ

pub record BoolVal : Type 0 where
  pub pos : Position
  pub value : Bool

pub record BytesVal : Type 0 where
  pub pos : Position
  pub value : List ℕ

pub record NullVal : Type 0 where
  pub pos : Position

pub record IdentVal : Type 0 where
  pub pos : Position
  pub name : List ℕ

pub record TimestampVal : Type 0 where
  pub pos : Position
  pub raw : List ℕ

pub record DurationVal : Type 0 where
  pub pos : Position
  pub raw : List ℕ

pub record TypeEntry : Type 0 where
  pub pos : Position
  pub url : List ℕ
  pub leading_comments : List Comment

-- An entry's position, its key and whether the key is quoted, and the comments before it. The
-- comment behind a value is what the parser leaves empty.
pub record Head : Type 0 where
  pub pos : Position
  pub key : List ℕ
  pub quoted : Bool
  pub leading_comments : List Comment
  pub trailing_comment : List ℕ

mutual
  pub data Value : Type 0 where
    string : StringVal → Value
    int : IntVal → Value
    float : FloatVal → Value
    bool : BoolVal → Value
    bytes : BytesVal → Value
    null : NullVal → Value
    ident : IdentVal → Value
    timestamp : TimestampVal → Value
    duration : DurationVal → Value
    list : Position → Values → Value
    block : Position → Entries → Value

  pub data Values : Type 0 where
    nil : Values
    cons : Value → Values → Values

  pub data Entry : Type 0 where
    assignment : Head → Value → Entry
    map_entry : Head → Value → Entry
    block_entry : Head → Entries → Entry
    type_entry : TypeEntry → Entry

  pub data Entries : Type 0 where
    end : Entries
    entry : Entry → Entries → Entries

unfoldable pub value_pos : Value → Position
value_pos (string v) = v.pos
value_pos (int v) = v.pos
value_pos (float v) = v.pos
value_pos (bool v) = v.pos
value_pos (bytes v) = v.pos
value_pos (null v) = v.pos
value_pos (ident v) = v.pos
value_pos (timestamp v) = v.pos
value_pos (duration v) = v.pos
value_pos (list pos vs) = pos
value_pos (block pos es) = pos

unfoldable pub entry_pos : Entry → Position
entry_pos (assignment h v) = h.pos
entry_pos (map_entry h v) = h.pos
entry_pos (block_entry h es) = h.pos
entry_pos (type_entry t) = t.pos

pub record Directive : Type 0 where
  pub pos : Position
  pub name : List ℕ
  pub prefixes : List (List ℕ)
  pub type_name : List ℕ
  pub body : List ℕ
  pub has_body : Bool
  pub leading_comments : List Comment

pub record DatasetRow : Type 0 where
  pub pos : Position
  pub cells : List (Option Value)

pub record DatasetDirective : Type 0 where
  pub pos : Position
  pub type_name : List ℕ
  pub columns : List (List ℕ)
  pub rows : List DatasetRow
  pub leading_comments : List Comment

pub data ProtoShape : Type 0 where
  anonymous named source descriptor : ProtoShape

unfoldable pub shape_name : ProtoShape → List ℕ
shape_name anonymous = codes "anonymous"
shape_name named = codes "named"
shape_name source = codes "source"
shape_name descriptor = codes "descriptor"

pub record ProtoDirective : Type 0 where
  pub pos : Position
  pub shape : ProtoShape
  pub type_name : List ℕ
  pub body : List ℕ
  pub leading_comments : List Comment

pub record Document : Type 0 where
  pub type_url : List ℕ
  pub directives : List Directive
  pub datasets : List DatasetDirective
  pub protos : List ProtoDirective
  pub body_offset : ℕ
  pub entries : Entries
  pub leading_comments : List Comment
