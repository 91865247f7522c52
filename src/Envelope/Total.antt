-- ===== src/Envelope/Total.antt =====
-- Termination of the decoder of crates/protowire-envelope/src/codec.rs, one message type at a time.
use protowire_rust.Prelude.{
  ℕ, List, Bool, true, false, if◌then◌else◌, ◌==◌, ◌≡◌, ◌≢◌, refl, sym, arith, inl, inr, subst,
}
use protowire_rust.Wire.Types.{
  WireType, Limits, Result, ok, err, stuck, ◌>>=◌, >>=-eq-ok, >>=-eq-stuck, ok-injective,
}
use protowire_rust.Wire.Reader
use protowire_rust.Wire.Reader.{Reader}
use protowire_rust.Wire.Bounds.{
  Forward, Forward-weaken, string_bounds, skip_bounds, bytes_view_bounds, varint_pair,
}
use protowire_rust.Wire.Answers.{
  string-ne-stuck, skip-ne-stuck, bytes_view-ne-stuck, varint-ne-stuck, push_element-ne-stuck,
}
use protowire_rust.Codec.{Message, read_message, unmarshal_with}
use protowire_rust.Codec.Total.{
  IsTotal, read_message-Forward, read_message-ne-stuck, unmarshal_with-ne-stuck,
}
use protowire_rust.Envelope.Defs.{Text, FieldError, AppError, Envelope}
use protowire_rust.Envelope.Format.{
  set_string, push_string, skip_field, field_error_message, merge_field_error, MetadataEntry,
  metadata_entry_message, merge_metadata_entry, app_error_message, merge_app_error, merge_detail,
  merge_metadata, check_entry, envelope_message, merge_envelope,
}

-- What is wanted of each branch of `merge_field`.
abbrev Good : {M : Type 0} → Reader → Result (M × Reader) → Type 0
Good {M} r y = ((x : M × Reader) → y ≡ ok x → Forward 0 r x.1) × (y ≢ stuck)

choose :
    {M : Type 0} {r : Reader} (b : Bool) {x y : Result (M × Reader)}
    → Good r x
    → Good r y
    → Good r (if b then x else y)
choose true g h = g
choose false g h = h

-- A read that is good, and what is done with its value next.
after :
    {A M : Type 0} (r : Reader) (y : Result (A × Reader)) (f : A × Reader → Result (M × Reader))
    → ((x : A × Reader) → y ≡ ok x → Forward 1 r x.1)
    → y ≢ stuck
    → ((x : A × Reader) (z : M × Reader) → f x ≡ ok z → z.1 ≡ x.1)
    → ((x : A × Reader) → f x ≢ stuck)
    → Good r (y >>= f)
after r y f forward answers keeps next = (
  λ z e.
      let (x, ex, k) = >>=-eq-ok y f e in
      subst (λ q. Forward 0 r q) (sym (keeps x z k)) (Forward-weaken (forward x ex)),
  λ e. elim (>>=-eq-stuck y f e) [ inl s ↦ answers s | inr (x, ex, k) ↦ next x k ],
)

then_ok :
    {A B : Type 0} (y : Result A) (g : A → B) → y ≢ stuck → (y >>= λ (a : A). ok (g a)) ≢ stuck
then_ok (ok a) g h e = cc
then_ok (err w) g h e = cc
then_ok stuck g h e = h refl

module _ {M : Type 0} where
  set_string-Good : (update : Text → M) (r : Reader) → Good r (set_string update r)
  set_string-Good update r =
      after r (Reader.string r) (λ x. ok (update x.0, x.1)) (λ x e. string_bounds r x.1 x.0 e)
        (string-ne-stuck r) (λ x z e. cc) (λ x e. cc)

  push_string-Good :
      (update : List Text → M) (args : List Text) (r : Reader) → Good r (push_string update args r)
  push_string-Good update args r =
      after r (Reader.string r) _ (λ x e. string_bounds r x.1 x.0 e) (string-ne-stuck r)
        (λ x z e. let (a, ea, k) = >>=-eq-ok (Reader.push_element args x.0 x.1) _ e in cc k)
        (λ x. then_ok (Reader.push_element args x.0 x.1) _ (push_element-ne-stuck args x.0 x.1))

  skip_field-Good : (wt : WireType) (msg : M) (r : Reader) → Good r (skip_field wt msg r)
  skip_field-Good wt msg r = (
    λ z e.
        (let (q, eq, k) = >>=-eq-ok (Reader.skip wt r) _ e in
          subst (λ (y : M × Reader). Forward 0 r y.1) (ok-injective k)
            (Forward-weaken (skip_bounds wt r q eq))),
    λ e. elim (>>=-eq-stuck (Reader.skip wt r) _ e) [
      | inl s ↦ skip-ne-stuck wt r s
      | inr (q, eq, k) ↦ cc k
    ],
  )

pub field_error-IsTotal : IsTotal field_error_message
unfolding merge_field_error
field_error-IsTotal = record {
  forward = λ num wt e r x h. (good num wt e r).0 x;
  answers = λ num wt e r h. (good num wt e r).1;
}
  where
    good :
        (num : ℕ) (wt : WireType) (e : FieldError) (r : Reader)
        → Good r (merge_field_error num wt e r)
    good num wt e r = choose (num == 1) (set_string-Good _ r) (
        choose (num == 2) (set_string-Good _ r) (
          choose (num == 3) (set_string-Good _ r)
            (choose (num == 4) (push_string-Good _ e.args r) (skip_field-Good wt e r))))

metadata_entry-IsTotal : IsTotal metadata_entry_message
unfolding merge_metadata_entry
metadata_entry-IsTotal = record {
  forward = λ num wt e r x h. (good num wt e r).0 x;
  answers = λ num wt e r h. (good num wt e r).1;
}
  where
    good :
        (num : ℕ) (wt : WireType) (e : MetadataEntry) (r : Reader)
        → Good r (merge_metadata_entry num wt e r)
    good num wt e r =
        choose (num == 1) (set_string-Good _ r)
          (choose (num == 2) (set_string-Good _ r) (skip_field-Good wt e r))

nested-Good :
    {A M : Type 0} (m : Message A)
    → IsTotal m
    → (r : Reader) (f : A × Reader → Result (M × Reader))
    → ((x : A × Reader) (z : M × Reader) → f x ≡ ok z → z.1 ≡ x.1)
    → ((x : A × Reader) → f x ≢ stuck)
    → Good r (read_message ⦃m = m⦄ r >>= f)
nested-Good m total r f =
    after r (read_message ⦃m = m⦄ r) f (λ x e. (read_message-Forward m total r x e).0)
      (read_message-ne-stuck m total r)

detail-Good : (e : AppError) (r : Reader) → Good r (merge_detail e r)
unfolding merge_detail
detail-Good e r =
    nested-Good field_error_message field_error-IsTotal r _
      (λ x z h. let (a, ea, k) = >>=-eq-ok (Reader.push_element e.details x.0 x.1) _ h in cc k)
      (λ x.
        then_ok (Reader.push_element e.details x.0 x.1) _ (push_element-ne-stuck e.details x.0 x.1))

check_entry-ne-stuck : (k : Text) (m : List (Text × Text)) (r : Reader) → check_entry k m r ≢ stuck
unfolding check_entry Reader.check_repeated
check_entry-ne-stuck k m r h = ground arith

metadata-Good : (e : AppError) (r : Reader) → Good r (merge_metadata e r)
unfolding merge_metadata
metadata-Good e r =
    nested-Good metadata_entry_message metadata_entry-IsTotal r _
      (λ x z h. let (a, ea, k) = >>=-eq-ok (check_entry x.0.key e.metadata x.1) _ h in cc k)
      (λ x.
        then_ok (check_entry x.0.key e.metadata x.1) _
          (check_entry-ne-stuck x.0.key e.metadata x.1))

pub app_error-IsTotal : IsTotal app_error_message
unfolding merge_app_error
app_error-IsTotal = record {
  forward = λ num wt e r x h. (good num wt e r).0 x;
  answers = λ num wt e r h. (good num wt e r).1;
}
  where
    good :
        (num : ℕ) (wt : WireType) (e : AppError) (r : Reader) → Good r (merge_app_error num wt e r)
    good num wt e r = choose (num == 1) (set_string-Good _ r) (
        choose (num == 2) (set_string-Good _ r) (
          choose (num == 3) (push_string-Good _ e.args r) (
            choose (num == 4) (detail-Good e r)
              (choose (num == 5) (metadata-Good e r) (skip_field-Good wt e r)))))

pub envelope-IsTotal : IsTotal envelope_message
unfolding merge_envelope Reader.bytes
envelope-IsTotal = record {
  forward = λ num wt e r x h. (good num wt e r).0 x;
  answers = λ num wt e r h. (good num wt e r).1;
}
  where
    good :
        (num : ℕ) (wt : WireType) (e : Envelope) (r : Reader) → Good r (merge_envelope num wt e r)
    good num wt e r =
        choose (num == 1)
          (after r (Reader.varint r) _ (varint_pair r) (varint-ne-stuck r) (λ x z h. cc)
            (λ x h. cc))
          (choose (num == 2) (set_string-Good _ r) (
            choose (num == 3)
              (after r (Reader.bytes_view r) _ (λ x h. bytes_view_bounds r x.1 x.0 h)
                (bytes_view-ne-stuck r) (λ x z h. cc) (λ x h. cc))
              (choose (num == 4)
                (nested-Good app_error_message app_error-IsTotal r _ (λ x z h. cc) (λ x h. cc))
                (skip_field-Good wt e r))))

-- Decoding an envelope ends with a result or an error, on every input and under any limits.
pub unmarshal-envelope_answers :
    (d : List ℕ) (limits : Limits) → unmarshal_with ⦃m = envelope_message⦄ d limits ≢ stuck
unmarshal-envelope_answers d limits =
    unmarshal_with-ne-stuck envelope_message envelope-IsTotal d limits
