-- ===== src/Wire/RoundTrip.antt =====
-- Each method of `Reader` in wire.rs against the method of `Writer` that it undoes: on the bytes
-- that the writer holds after the call, whatever follows them, read from where the call began.
use protowire_rust.Prelude.{
  ℕ, ◌+◌, ◌≤◌, ◌<◌, ◌^◌, ◌%◌, List, ◌++◌, length, drop, drop-append, length-append, append_assoc,
  le→ltb, some, true, ◌≡◌, arith, subst,
}
use protowire_rust.Wire.Types.{Result, ok, WireType}
use protowire_rust.Wire.Utf8.{is_utf8}
use protowire_rust.Wire.Bytes.{
  to_le_bytes, from_le_bytes, length-to_le_bytes, from_le_bytes-to_le_bytes,
}
use protowire_rust.Wire.Writer
use protowire_rust.Wire.Writer.{Writer}
use protowire_rust.Wire.Reader
use protowire_rust.Wire.Reader.{Reader}
use protowire_rust.Wire.Varint.{varint_bytes, varint_reads, varint-groups}
use protowire_rust.Wire.Numbers.{
  tag_bytes, tag_writes, tag_reads, IsFieldNumber, zigzag_bits-lt, zigzag_bits-lt32,
  unzigzag-zigzag32, unzigzag-zigzag64,
}
use protowire_rust.Wire.Fields.{
  delimited, length-delimited, bytes_writes, bytes_view_reads, string_reads, slice_front,
  front_fits,
}

-- A reader like `r` over what `w'` holds and `rest`, at the end of what `w` holds.
abbrev pub reopen : Reader → Writer → Writer → List ℕ → Reader
reopen r w w' rest = record r { bytes_in = w'.buf ++ rest; pos = length w.buf }

-- `read` gives back `v` from what `w'` holds behind `w`, and stops at its end, before `rest`.
abbrev pub ReadsBack :
    {A : Type 0} → (Reader → Result (A × Reader)) → A → (w w' : Writer) → Reader → List ℕ → Type 0
ReadsBack read v w w' r rest = read (reopen r w w' rest) ≡ ok (v, reopen r w' w' rest)

abbrev Appended : Writer → List ℕ → Writer
Appended w bs = record w { buf = w.buf ++ bs }

reads_back :
    {A : Type 0} (read : Reader → Result (A × Reader)) (v : A) (w : Writer) (bs : List ℕ)
    (r : Reader) (rest : List ℕ)
    → (drop (length w.buf) ((w.buf ++ bs) ++ rest) ≡ bs ++ rest
        → read (reopen r w (Appended w bs) rest)
          ≡ ok (v, record (reopen r w (Appended w bs) rest) { pos = length w.buf + length bs }))
    → ReadsBack read v w (Appended w bs) r rest
reads_back read v w bs r rest reads =
    rw (length-append w.buf bs)
      (reads (rw (append_assoc w.buf bs rest) (drop-append w.buf (bs ++ rest))))

-- Any u64 that `Writer::varint` writes is read back by `Reader::varint`, whatever follows it.
pub varint-varint :
    (v : ℕ) (w : Writer) (r : Reader) (rest : List ℕ)
    → v < 2 ^ 64
    → ReadsBack Reader.varint v w (Writer.varint v w) r rest
varint-varint v w r rest h =
    rw (varint-groups v w h) (
      reads_back Reader.varint v w (varint_bytes v) r rest (λ ahead. varint_reads v _ rest h ahead))

zigzag32_reads :
    (v : ℕ) (q : Reader) (rest : List ℕ)
    → v < 2 ^ 32
    → drop q.pos q.bytes_in ≡ varint_bytes (Writer.zigzag_bits 32 v) ++ rest
    → Reader.zigzag32 q
      ≡ ok (v, record q { pos = q.pos + length (varint_bytes (Writer.zigzag_bits 32 v)) })
unfolding Reader.zigzag32
zigzag32_reads v q rest h ahead =
    let u = Writer.zigzag_bits 32 v in
    let small = zigzag_bits-lt32 v h in
    let narrow : u % 2 ^ 32 ≡ u = omega arith in
    rw (varint_reads u q rest (omega arith) ahead, narrow, unzigzag-zigzag32 v h)

zigzag64_reads :
    (v : ℕ) (q : Reader) (rest : List ℕ)
    → v < 2 ^ 64
    → drop q.pos q.bytes_in ≡ varint_bytes (Writer.zigzag_bits 64 v) ++ rest
    → Reader.zigzag64 q
      ≡ ok (v, record q { pos = q.pos + length (varint_bytes (Writer.zigzag_bits 64 v)) })
unfolding Reader.zigzag64
zigzag64_reads v q rest h ahead = rw (
  varint_reads (Writer.zigzag_bits 64 v) q rest (zigzag_bits-lt v h) ahead,
  unzigzag-zigzag64 v h,
)

zigzag32_writes :
    (v : ℕ) (w : Writer)
    → v < 2 ^ 32
    → Writer.zigzag32 v w ≡ record w { buf = w.buf ++ varint_bytes (Writer.zigzag_bits 32 v) }
unfolding Writer.zigzag32
zigzag32_writes v w h =
    varint-groups (Writer.zigzag_bits 32 v) w (omega (arith, zigzag_bits-lt32 v h))

zigzag64_writes :
    (v : ℕ) (w : Writer)
    → v < 2 ^ 64
    → Writer.zigzag64 v w ≡ record w { buf = w.buf ++ varint_bytes (Writer.zigzag_bits 64 v) }
unfolding Writer.zigzag64
zigzag64_writes v w h = varint-groups (Writer.zigzag_bits 64 v) w (zigzag_bits-lt v h)

-- The bit pattern of any i32 that `Writer::zigzag32` writes is read back by `Reader::zigzag32`.
pub zigzag32-zigzag32 :
    (v : ℕ) (w : Writer) (r : Reader) (rest : List ℕ)
    → v < 2 ^ 32
    → ReadsBack Reader.zigzag32 v w (Writer.zigzag32 v w) r rest
zigzag32-zigzag32 v w r rest h =
    rw (zigzag32_writes v w h)
      (reads_back Reader.zigzag32 v w _ r rest (λ ahead. zigzag32_reads v _ rest h ahead))

-- The bit pattern of any i64 that `Writer::zigzag64` writes is read back by `Reader::zigzag64`.
pub zigzag64-zigzag64 :
    (v : ℕ) (w : Writer) (r : Reader) (rest : List ℕ)
    → v < 2 ^ 64
    → ReadsBack Reader.zigzag64 v w (Writer.zigzag64 v w) r rest
zigzag64-zigzag64 v w r rest h =
    rw (zigzag64_writes v w h)
      (reads_back Reader.zigzag64 v w _ r rest (λ ahead. zigzag64_reads v _ rest h ahead))

module _ (n : ℕ) (v : ℕ) (q : Reader) (rest : List ℕ)
    (ahead : drop q.pos q.bytes_in ≡ to_le_bytes n v ++ rest) where
  whole_inside : 0 < n → q.pos + n ≤ length q.bytes_in
  whole_inside pos =
      ground
        (arith, length-to_le_bytes n v, front_fits q.bytes_in (to_le_bytes n v) rest q.pos ahead)

  slice_value : v < 256 ^ n → from_le_bytes (Reader.slice q.bytes_in q.pos n) ≡ v
  slice_value h =
      subst (λ k. from_le_bytes (Reader.slice q.bytes_in q.pos k) ≡ v) (length-to_le_bytes n v)
        (rw (slice_front q.bytes_in (to_le_bytes n v) rest q.pos ahead)
          (from_le_bytes-to_le_bytes n v h))

fixed32_reads :
    (v : ℕ) (q : Reader) (rest : List ℕ)
    → v < 2 ^ 32
    → drop q.pos q.bytes_in ≡ to_le_bytes 4 v ++ rest
    → Reader.fixed32 q ≡ ok (v, record q { pos = q.pos + length (to_le_bytes 4 v) })
unfolding Reader.fixed32
fixed32_reads v q rest h ahead = rw (
  le→ltb (length q.bytes_in) (q.pos + 4) (whole_inside 4 v q rest ahead (omega arith)),
  slice_value 4 v q rest ahead h,
  length-to_le_bytes 4 v,
)

fixed64_reads :
    (v : ℕ) (q : Reader) (rest : List ℕ)
    → v < 2 ^ 64
    → drop q.pos q.bytes_in ≡ to_le_bytes 8 v ++ rest
    → Reader.fixed64 q ≡ ok (v, record q { pos = q.pos + length (to_le_bytes 8 v) })
unfolding Reader.fixed64
fixed64_reads v q rest h ahead = rw (
  le→ltb (length q.bytes_in) (q.pos + 8) (whole_inside 8 v q rest ahead (omega arith)),
  slice_value 8 v q rest ahead h,
  length-to_le_bytes 8 v,
)

-- Any u32 is read back by `fixed32`, and so is its bit pattern by `float`.
pub fixed32-fixed32 :
    (v : ℕ) (w : Writer) (r : Reader) (rest : List ℕ)
    → v < 2 ^ 32
    → ReadsBack Reader.fixed32 v w (Writer.fixed32 v w) r rest
      × ReadsBack Reader.float v w (Writer.float v w) r rest
unfolding Writer.fixed32 Writer.float Reader.float
fixed32-fixed32 v w r rest h =
    let back =
      reads_back Reader.fixed32 v w (to_le_bytes 4 v) r rest
        (λ ahead. fixed32_reads v _ rest h ahead) in
    (back, back)

-- Any u64 is read back by `fixed64`, and so is its bit pattern by `double`.
pub fixed64-fixed64 :
    (v : ℕ) (w : Writer) (r : Reader) (rest : List ℕ)
    → v < 2 ^ 64
    → ReadsBack Reader.fixed64 v w (Writer.fixed64 v w) r rest
      × ReadsBack Reader.double v w (Writer.double v w) r rest
unfolding Writer.fixed64 Writer.double Reader.double
fixed64-fixed64 v w r rest h =
    let back =
      reads_back Reader.fixed64 v w (to_le_bytes 8 v) r rest
        (λ ahead. fixed64_reads v _ rest h ahead) in
    (back, back)

inside :
    (s : List ℕ) (w : Writer) (rest : List ℕ)
    → length (w.buf ++ delimited s) + length rest < 2 ^ 64
    → length s < 2 ^ 64
inside s w rest h = omega (arith, length-append w.buf (delimited s), length-delimited s)

string_writes :
    (s : List ℕ) (w : Writer)
    → length s < 2 ^ 64
    → Writer.string s w ≡ record w { buf = w.buf ++ delimited s }
unfolding Writer.string
string_writes s w h = bytes_writes s w h

bytes_reads :
    (s : List ℕ) (q : Reader) (rest : List ℕ)
    → length q.bytes_in < 2 ^ 64
    → drop q.pos q.bytes_in ≡ delimited s ++ rest
    → Reader.bytes q ≡ ok (s, record q { pos = q.pos + length (delimited s) })
unfolding Reader.bytes
bytes_reads s q rest small ahead = bytes_view_reads s q rest small ahead

-- Bytes are read back, when the whole input has a length that 64 bits hold.
pub bytes-bytes :
    (s : List ℕ) (w : Writer) (r : Reader) (rest : List ℕ)
    → length (w.buf ++ delimited s) + length rest < 2 ^ 64
    → ReadsBack Reader.bytes s w (Writer.bytes s w) r rest
bytes-bytes s w r rest small = rw (bytes_writes s w (inside s w rest small)) (
    reads_back Reader.bytes s w (delimited s) r rest
      (λ ahead. bytes_reads s _ rest (rw length-append small) ahead))

-- A string of UTF-8 is read back, when the whole input has a length that 64 bits hold.
pub string-string :
    (s : List ℕ) (w : Writer) (r : Reader) (rest : List ℕ)
    → length (w.buf ++ delimited s) + length rest < 2 ^ 64
    → is_utf8 s ≡ true
    → ReadsBack Reader.string s w (Writer.string s w) r rest
string-string s w r rest small text = rw (string_writes s w (inside s w rest small)) (
    reads_back Reader.string s w (delimited s) r rest
      (λ ahead. string_reads s _ rest (rw length-append small) ahead text))

-- A tag with a field number from 1 to 2 ^ 29 - 1 is written, and it is read back.
pub tag-tag :
    (n : ℕ) (wt : WireType) (w : Writer) (r : Reader) (rest : List ℕ)
    → IsFieldNumber n
    → (w' : Writer) × (Writer.tag n wt w ≡ some w') × ReadsBack Reader.tag (n, wt) w w' r rest
tag-tag n wt w r rest num = (
  Appended w (tag_bytes n wt),
  tag_writes n wt w num,
  reads_back Reader.tag (n, wt) w (tag_bytes n wt) r rest
      (λ ahead. tag_reads n wt _ rest num ahead),
)
