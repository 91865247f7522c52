-- ===== src/Wire/Fields.antt =====
-- Length-delimited and fixed-width fields of wire.rs, read back at the bytes that the writer
-- leaves; and each reader method against its writer method.
use protowire_rust.Prelude.{
  ℕ, ◌+◌, ◌^◌, ◌≤◌, ◌<◌, List, ◌++◌, true, length, drop, take-append, length-append, length-drop,
  drop-add, drop-append, append_assoc, ◌≡◌, ap, arith,
}
use protowire_rust.Wire.Types.{ok, Error}
use protowire_rust.Wire.Utf8.{is_utf8}
use protowire_rust.Wire.Writer
use protowire_rust.Wire.Writer.{Writer}
use protowire_rust.Wire.Reader
use protowire_rust.Wire.Reader.{Reader, slice}
use protowire_rust.Wire.Varint.{varint_bytes, varint_reads, varint-groups, length-varint_bytes}

-- A length and that many bytes.
unfoldable pub delimited : List ℕ → List ℕ
delimited s = varint_bytes (length s) ++ s

pub length-delimited :
    (s : List ℕ) → length (delimited s) ≡ length (varint_bytes (length s)) + length s
unfolding delimited
length-delimited s = length-append (varint_bytes (length s)) s

pub bytes_writes :
    (s : List ℕ) (w : Writer)
    → length s < 2 ^ 64
    → Writer.bytes s w ≡ record w { buf = w.buf ++ delimited s }
unfolding Writer.bytes delimited
bytes_writes s w h =
    rw (varint-groups (length s) w h)
      (ap (λ b. record w { buf = b }) (append_assoc w.buf (varint_bytes (length s)) s))

-- What is known of a list from what stands at a position.
module _ (d front rest : List ℕ) (pos : ℕ) (ahead : drop pos d ≡ front ++ rest) where
  pub drop_past : drop (pos + length front) d ≡ rest
  drop_past = rw (drop-add pos (length front) d, ahead) (drop-append front rest)

  pub slice_front : slice d pos (length front) ≡ front
  slice_front = rw ahead (take-append front rest)

  pub front_fits : 0 < length front → pos + length front ≤ length d
  front_fits h = omega (arith, length-drop pos d, ap length ahead, length-append front rest)

pub fit_length_fits :
    (e : Error) (n : ℕ) (r : Reader)
    → length r.bytes_in < 2 ^ 64
    → r.pos + n ≤ length r.bytes_in
    → Reader.fit_length e n r ≡ ok n
unfolding Reader.fit_length
fit_length_fits e n r small fits = ground arith

module _ (s : List ℕ) (r : Reader) (rest : List ℕ) (small : length r.bytes_in < 2 ^ 64)
    (ahead : drop r.pos r.bytes_in ≡ delimited s ++ rest) where
  pub prefix_ahead : drop r.pos r.bytes_in ≡ varint_bytes (length s) ++ (s ++ rest)
  unfolding delimited
  prefix_ahead = rw (← append_assoc (varint_bytes (length s)) s rest) ahead

  pub whole_fits : r.pos + length (varint_bytes (length s)) + length s ≤ length r.bytes_in
  whole_fits = omega (
    arith,
    length-delimited s,
    length-varint_bytes (length s),
    front_fits r.bytes_in (delimited s) rest r.pos ahead
        (omega (arith, length-delimited s, length-varint_bytes (length s))),
  )

  pub bytes_view_reads :
      Reader.bytes_view r ≡ ok (s, record r { pos = r.pos + length (delimited s) })
  unfolding Reader.bytes_view
  bytes_view_reads =
      let k = length (varint_bytes (length s)) in
      rw
        (
          varint_reads (length s) r (s ++ rest) (omega (arith, whole_fits)) prefix_ahead,
          fit_length_fits _ (length s) (record r { pos = r.pos + k }) small whole_fits,
          slice_front r.bytes_in s rest (r.pos + k)
              (drop_past r.bytes_in (varint_bytes (length s)) (s ++ rest) r.pos prefix_ahead),
        )
        (ground (arith, length-delimited s))

  pub string_reads :
      is_utf8 s ≡ true → Reader.string r ≡ ok (s, record r { pos = r.pos + length (delimited s) })
  unfolding Reader.string
  string_reads valid = rw (bytes_view_reads, valid)
