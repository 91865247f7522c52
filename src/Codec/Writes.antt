-- ===== src/Codec/Writes.antt =====
-- What the encoding functions of codec.rs append to a writer at a given depth, and what they do at
-- the depth limit.
use protowire_rust.Prelude.{
  ℕ, ◌+◌, ◌≤◌, ◌<◌, ◌^◌, List, [], ◌++◌, true, false, length, Option, some, ◌≡◌, arith,
  append_assoc, append-nil,
}
use protowire_rust.Wire.Types.{WireType}
use protowire_rust.Wire.Writer
use protowire_rust.Wire.Writer.{Writer}
use protowire_rust.Wire.Varint.{varint_bytes, varint-groups}
use protowire_rust.Wire.Numbers.{tag_bytes, tag_writes, IsFieldNumber}
use protowire_rust.Wire.Fields.{delimited, bytes_writes}
use protowire_rust.Codec.{
  Message, ◌>>=?◌, nested_bytes, write_message, MapEntryField, entry_fields, write_map_entry,
}

-- At this depth and limit, `f` appends `bs` and does nothing else.
abbrev pub Writes : ℕ → ℕ → (Writer → Option Writer) → List ℕ → Type 0
Writes depth limit f bs =
    (w : Writer)
    → w.depth ≡ depth
    → w.max_depth ≡ limit
    → f w ≡ some (record w { buf = w.buf ++ bs })

module _ (depth limit : ℕ) where
  pub Writes-nil : Writes depth limit (λ w. some w) []
  Writes-nil w hd hl = rw (append-nil w.buf)

  pub Writes-append :
      (f g : Writer → Option Writer) (xs ys : List ℕ)
      → Writes depth limit f xs
      → Writes depth limit g ys
      → Writes depth limit (λ w. f w >>=? g) (xs ++ ys)
  Writes-append f g xs ys hf hg w hd hl =
      rw (hf w hd hl, hg (record w { buf = w.buf ++ xs }) hd hl, append_assoc w.buf xs ys)

  -- A tag, and a body that always succeeds.
  pub Writes-field :
      (n : ℕ) (wt : WireType) (f : Writer → Writer) (body : List ℕ)
      → IsFieldNumber n
      → Writes depth limit (λ w. some (f w)) body
      → Writes depth limit (λ w. Writer.tag n wt w >>=? λ w'. some (f w')) (tag_bytes n wt ++ body)
  Writes-field n wt f body num hf =
      Writes-append (Writer.tag n wt) (λ w. some (f w)) (tag_bytes n wt) body
        (λ w hd hl. tag_writes n wt w num) hf

  pub Writes-varint :
      (v : ℕ) → v < 2 ^ 64 → Writes depth limit (λ w. some (Writer.varint v w)) (varint_bytes v)
  Writes-varint v h w hd hl = rw (varint-groups v w h)

  pub Writes-bytes :
      (s : List ℕ)
      → length s < 2 ^ 64
      → Writes depth limit (λ w. some (Writer.bytes s w)) (delimited s)
  Writes-bytes s h w hd hl = rw (bytes_writes s w h)

  Writes-delimited :
      (s : List ℕ)
      → length s < 2 ^ 64
      → Writes depth limit (λ w. some (Writer.raw s (Writer.varint (length s) w))) (delimited s)
  unfolding Writer.bytes
  Writes-delimited s h = Writes-bytes s h

  abbrev pub below : Writer → Writer
  below w = record { buf = []; depth = w.depth + 1; max_depth = w.max_depth; exceeded = false }

  nested-Writes :
      {M : Type 0} (m : Message M) (msg : M) (bs : List ℕ)
      → depth < limit
      → Writes (depth + 1) limit (m.encode_to msg) bs
      → (w : Writer) → w.depth ≡ depth
      → w.max_depth ≡ limit
      → nested_bytes ⦃m = m⦄ msg w ≡ some (w, some bs)
  unfolding nested_bytes
  nested-Writes m msg bs room inner w hd hl = ground (arith, inner (below w))

  -- A nested message whose fields are `bs` one descent down.
  pub write_message-Writes :
      {M : Type 0} (m : Message M) (n : ℕ) (msg : M) (bs : List ℕ)
      → IsFieldNumber n
      → depth < limit
      → length bs < 2 ^ 64
      → Writes (depth + 1) limit (m.encode_to msg) bs
      → Writes depth limit
          (write_message ⦃m = m⦄ n msg)
          (tag_bytes n WireType.length_delimited ++ delimited bs)
  write_message-Writes m n msg bs num room small inner w hd hl =
      let nested = nested-Writes m msg bs room inner w hd hl in
      let field =
        Writes-field n WireType.length_delimited
          (λ w'. Writer.raw bs (Writer.varint (length bs) w')) (delimited bs) num
          (Writes-delimited bs small) w hd hl in
      unfold write_message in cc (nested, field)

  -- A map entry whose two fields are `bs` one descent down.
  pub write_map_entry-Writes :
      {K V : Type 0} (k : MapEntryField K) (v : MapEntryField V) (n : ℕ) (key : K) (value : V)
      (bs : List ℕ)
      → IsFieldNumber n
      → depth < limit
      → length bs < 2 ^ 64
      → Writes (depth + 1) limit (entry_fields ⦃k = k⦄ ⦃v = v⦄ key value) bs
      → Writes depth limit
          (write_map_entry ⦃k = k⦄ ⦃v = v⦄ n key value)
          (tag_bytes n WireType.length_delimited ++ delimited bs)
  write_map_entry-Writes k v n key value bs num room small inner w hd hl =
      let field =
        Writes-field n WireType.length_delimited
          (λ w'. Writer.raw bs (Writer.varint (length bs) w')) (delimited bs) num
          (Writes-delimited bs small) w hd hl in
      unfold write_map_entry in ground (arith, inner (below w), field)

-- At the limit nothing is written, and the refusal is recorded.
pub write_message-refused :
    {M : Type 0} (m : Message M) (n : ℕ) (msg : M) (w : Writer)
    → w.max_depth ≤ w.depth
    → write_message ⦃m = m⦄ n msg w ≡ some (record w { exceeded = true })
unfolding write_message
write_message-refused m n msg w h = ground arith

pub write_map_entry-refused :
    {K V : Type 0} (k : MapEntryField K) (v : MapEntryField V) (n : ℕ) (key : K) (value : V)
    (w : Writer)
    → w.max_depth ≤ w.depth
    → write_map_entry ⦃k = k⦄ ⦃v = v⦄ n key value w ≡ some (record w { exceeded = true })
unfolding write_map_entry
write_map_entry-refused k v n key value w h = ground arith
