-- ===== src/Pxf/Dataset/Delivers.antt =====
-- crates/protowire-pxf/src/dataset_reader.rs, `pull`: what it takes from a source that delivers its
-- bytes, in pieces of any size.
use protowire_rust.Prelude.{
  ℕ, zero, suc, ◌<◌, List, [], ◌∷◌, ◌++◌, Bool, true, false, Option, none, ◌≡◌, refl, sym, ap, ◌∙◌,
  arith, length, length-append, append_assoc,
}
use protowire_rust.Pxf.Lexer.Cursor.{Outcome, returns}
use protowire_rust.Pxf.Dataset.Reader.{
  Source, Answer, got, interrupted, failed, DatasetReader, take_answer, pull,
}
use protowire_rust.Pxf.Dataset.Scan.{StreamError}

-- A call that returns, with what it returns.
pub data Returned {A : Type 0} (P : A → Type 0) : Outcome A → Type 0 where
  returned : {a : A} → P a → Returned P (returns a)

Returned-map :
    {A : Type 0} {P Q : A → Type 0} {m : Outcome A}
    → ((a : A) → P a → Q a)
    → Returned P m
    → Returned Q m
Returned-map f (returned {a = a} h) = returned (f a h)

at_false :
    {A : Type 0} {P : A → Type 0} (b : Bool) (x y : Outcome A)
    → b ≡ false
    → Returned P y
    → Returned P (elim b [ true ↦ x | false ↦ y ])
at_false true x y e h = absurd (ground (arith, e))
at_false false x y e h = h

-- What `io::Read` documents of an answer: the bytes that it gives are the next ones of those that are
-- left, and it gives none only at the end; or it was interrupted, and has taken nothing.
pub data IsNext (source : Source) (left : source.State → List ℕ) (waits : source.State → ℕ)
    (s : source.State) : Answer × source.State → Type 0 where
  next :
      {bytes : List ℕ} {s' : source.State}
      → left s ≡ bytes ++ left s'
      → (bytes ≡ [] → left s ≡ [])
      → IsNext source left waits s (got bytes, s')
  wait :
      {s' : source.State}
      → left s' ≡ left s
      → waits s' < waits s
      → IsNext source left waits s (interrupted, s')

-- A source that delivers its bytes without an error, and is interrupted fewer than `tries` times in a
-- row.
pub record Delivers (source : Source) (tries : ℕ) : Type 0 where
  pub left : source.State → List ℕ
  pub waits : source.State → ℕ
  pub patient : (s : source.State) → waits s < tries
  pub reads : (n : ℕ) (s : source.State) → 0 < n → IsNext source left waits s (source.read n s)

module _ {source : Source} {tries : ℕ} (d : Delivers source tries) where
  -- The bytes that the reader has and those that are left, and how much of them is left.
  abbrev pub text : DatasetReader source → List ℕ
  text r = r.pending ++ d.left r.src

  abbrev pub measure : DatasetReader source → ℕ
  measure r = elim r.src_eof [ true ↦ 0 | false ↦ suc (length (d.left r.src)) ]

  -- The same reader with the same text, further on.
  pub record Follows (r r' : DatasetReader source) : Type 0 where
    pub columns : r'.columns ≡ r.columns
    pub limits : r'.limits ≡ r.limits
    pub at_end : r'.src_eof ≡ true → d.left r'.src ≡ []

  -- One more piece, if there is one.
  pub record Pulled (r : DatasetReader source) (x : Option StreamError × DatasetReader source)
      : Type 0 where
    pub no_error : x.0 ≡ none
    pub same : text x.1 ≡ text r
    pub follows : Follows r x.1
    pub error_kept : x.1.error ≡ r.error
    pub finished_kept : x.1.finished ≡ r.finished
    pub less : measure x.1 < measure r

  take_answer-Returned :
      (again : DatasetReader source → Outcome (Option StreamError × DatasetReader source))
      (x : Answer × source.State) (r : DatasetReader source)
      → r.src_eof ≡ false
      → IsNext source d.left d.waits r.src x
      → ((s : source.State)
          → d.left s ≡ d.left r.src
          → d.waits s < d.waits r.src
          → Returned (Pulled r) (again (record r { src = s })))
      → Returned (Pulled r) (take_answer again x r)
  unfolding take_answer
  take_answer-Returned again (got [], s) r open_ (next e end) k = returned (record {
    no_error = refl;
    same = ap (λ t. r.pending ++ t) (sym e);
    follows = record { columns = refl; limits = refl; at_end = λ _. sym e ∙ end refl };
    error_kept = refl;
    finished_kept = refl;
    less = rw open_ (omega arith);
  })
  take_answer-Returned again (got (b ∷ bs), s) r open_ (next e end) k = returned (record {
    no_error = refl;
    same = append_assoc r.pending (b ∷ bs) (d.left s) ∙ ap (λ t. r.pending ++ t) (sym e);
    follows = record { columns = refl; limits = refl; at_end = λ x. cc };
    error_kept = refl;
    finished_kept = refl;
    less = rw open_ (omega (arith, ap length e, length-append (b ∷ bs) (d.left s)));
  })
  take_answer-Returned again (interrupted, s) r open_ (wait e less) k = k s e less
  take_answer-Returned again (failed why, s) r open_ h k = elim h [ ]

  waited :
      (r : DatasetReader source) (s : source.State) (x : Option StreamError × DatasetReader source)
      → d.left s ≡ d.left r.src
      → Pulled (record r { src = s }) x
      → Pulled r x
  waited r s x e h = record {
    no_error = h.no_error;
    same = h.same ∙ ap (λ t. r.pending ++ t) e;
    follows = record {
      columns = h.follows.columns;
      limits = h.follows.limits;
      at_end = h.follows.at_end;
    };
    error_kept = h.error_kept;
    finished_kept = h.finished_kept;
    less = ground (arith, h.less, ap length e);
  }

  pub pull-Returned :
      (tries' n : ℕ) (r : DatasetReader source)
      → 0 < n
      → r.src_eof ≡ false
      → d.waits r.src < tries'
      → Returned (Pulled r) (pull tries' n r)
  unfolding pull
  pull-Returned zero n r pos open_ room = absurd (omega (arith, room))
  pull-Returned (suc tries') n r pos open_ room = at_false r.src_eof _ _ open_ (
      take_answer-Returned (pull tries' n) (source.read n r.src) r open_ (d.reads n r.src pos)
        λ s e less.
          Returned-map (λ x. waited r s x e)
            (pull-Returned tries' n (record r { src = s }) pos open_ (omega (arith, less, room))))
