-- ===== src/Llm/Bounded.antt =====
-- `_bounded_context_json`: the loops end, and what is sent fits the limit.
use pipe_lens.Common.{
  ℕ, zero, suc, ◌≤◌, ◌<◌, ◌≡◌, refl, Text, true, false, not, ◌&&◌, Option, none, some, List, [],
  ◌∷◌, ◌++◌, map, length, take, drop, is_empty, falsy, leb, Bool-cases, List-cases, inl, inr, arith,
  take-append-drop, length-take, or_else, sym, ◌∙◌, ap, ltb→lt, leb→le, append-nil, append_assoc,
  &&-true, ltb→lt, leb→le, ◌-◌, ◌/◌, max,
}
use pipe_lens.Common.Infix.{IsPrefix}
use pipe_lens.Common.Try.{Try, value, raise}
use pipe_lens.Models.{RelatedFile}
use pipe_lens.Llm.{
  LlmError, limit_too_small, LlmContext, trimmed, halved, has_text, pop_last, drop_files,
  halve_texts, too_long, text_length, shortened, bounded_context_json, cut, none_if_empty,
}

abbrev workflow_of : LlmContext → Text
workflow_of c = or_else c.workflow_content []

-- The same file, with the start of its excerpt.
pub record Excerpted (f f' : RelatedFile) : Type 0 where
  pub same_name : f'.filename ≡ f.filename
  pub same_score : f'.score ≡ f.score
  pub same_reasons : f'.reasons ≡ f.reasons
  pub less_excerpt : IsPrefix (or_else f.patch_excerpt []) (or_else f'.patch_excerpt [])

-- The first of the files, each with the start of its excerpt.
abbrev pub Fewer : List RelatedFile → List RelatedFile → Type 0
Fewer fs [] = Unit
Fewer [] (f' ∷ fs') = ⊥
Fewer (f ∷ fs) (f' ∷ fs') = Excerpted f f' × Fewer fs fs'

IsPrefix-trans : (s t w : Text) → IsPrefix s t → IsPrefix t w → IsPrefix s w
IsPrefix-trans s t w (a, e) (a', e') = (a' ++ a, rw (e, e', append_assoc w a' a))

IsPrefix-refl : (s : Text) → IsPrefix s s
IsPrefix-refl s = ([], sym (append-nil s))

Excerpted-refl : (f : RelatedFile) → Excerpted f f
Excerpted-refl f = record {
  same_name = refl;
  same_score = refl;
  same_reasons = refl;
  less_excerpt = IsPrefix-refl (or_else f.patch_excerpt []);
}

Excerpted-trans : (f g h : RelatedFile) → Excerpted f g → Excerpted g h → Excerpted f h
Excerpted-trans f g h x y = record {
  same_name = y.same_name ∙ x.same_name;
  same_score = y.same_score ∙ x.same_score;
  same_reasons = y.same_reasons ∙ x.same_reasons;
  less_excerpt =
      IsPrefix-trans (or_else f.patch_excerpt []) (or_else g.patch_excerpt [])
        (or_else h.patch_excerpt []) x.less_excerpt y.less_excerpt;
}

Fewer-refl : (fs : List RelatedFile) → Fewer fs fs
Fewer-refl [] = tt
Fewer-refl (f ∷ fs) = (Excerpted-refl f, Fewer-refl fs)

Fewer-trans : (fs gs hs : List RelatedFile) → Fewer fs gs → Fewer gs hs → Fewer fs hs
Fewer-trans fs gs [] x y = tt
Fewer-trans fs [] (h ∷ hs) x y = elim y [ ]
Fewer-trans [] (g ∷ gs) (h ∷ hs) x y = elim x [ ]
Fewer-trans (f ∷ fs) (g ∷ gs) (h ∷ hs) (x, xs) (y, ys) =
    (Excerpted-trans f g h x y, Fewer-trans fs gs hs xs ys)

-- The context `c` with less of its log, its workflow and its files.
pub record Shrunk (c c' : LlmContext) : Type 0 where
  pub same_classification : c'.classification ≡ c.classification
  pub same_execution : c'.execution_context ≡ c.execution_context
  pub same_path : c'.workflow_path ≡ c.workflow_path
  pub less_log : IsPrefix c.log c'.log
  pub less_workflow : IsPrefix (workflow_of c) (workflow_of c')
  pub less_files : Fewer c.related_files c'.related_files

Shrunk-refl : (c : LlmContext) → Shrunk c c
Shrunk-refl c = record {
  same_classification = refl;
  same_execution = refl;
  same_path = refl;
  less_log = ([], sym (append-nil c.log));
  less_workflow = ([], sym (append-nil (workflow_of c)));
  less_files = Fewer-refl c.related_files;
}

Shrunk-trans : (c d e : LlmContext) → Shrunk c d → Shrunk d e → Shrunk c e
Shrunk-trans c d e x y = record {
  same_classification = y.same_classification ∙ x.same_classification;
  same_execution = y.same_execution ∙ x.same_execution;
  same_path = y.same_path ∙ x.same_path;
  less_log = IsPrefix-trans c.log d.log e.log x.less_log y.less_log;
  less_workflow =
      IsPrefix-trans (workflow_of c) (workflow_of d) (workflow_of e) x.less_workflow
        y.less_workflow;
  less_files =
      Fewer-trans c.related_files d.related_files e.related_files x.less_files y.less_files;
}

take-IsPrefix : (n : ℕ) (s : Text) → IsPrefix s (take n s)
take-IsPrefix n s = (drop n s, sym (take-append-drop n s))

cut-IsPrefix : (n : ℕ) (o : Option Text) → IsPrefix (or_else o []) (or_else (cut n o) [])
cut-IsPrefix n none = ([], refl)
cut-IsPrefix n (some s) = take-IsPrefix n s

none_if_empty_lem : (s : Text) → or_else (none_if_empty s) [] ≡ s
none_if_empty_lem [] = refl
none_if_empty_lem (c ∷ s) = refl

-- `related["patch_excerpt"][:500]`
abbrev with_cut : RelatedFile → RelatedFile
with_cut f = record f { patch_excerpt = cut 500 f.patch_excerpt }

map-Fewer : (fs : List RelatedFile) → Fewer fs (map with_cut fs)
map-Fewer [] = tt
map-Fewer (f ∷ fs) = (
  record {
    same_name = refl;
    same_score = refl;
    same_reasons = refl;
    less_excerpt = cut-IsPrefix 500 f.patch_excerpt;
  },
  map-Fewer fs,
)

pop_last-Fewer : (fs : List RelatedFile) → Fewer fs (pop_last fs)
unfolding pop_last
pop_last-Fewer [] = tt
pop_last-Fewer (f ∷ []) = tt
pop_last-Fewer (f ∷ g ∷ fs) = (Excerpted-refl f, pop_last-Fewer (g ∷ fs))

length-pop_last {ℓ} : {A : Type ℓ} (xs : List A) → length (pop_last xs) ≡ length xs - 1
unfolding pop_last
length-pop_last [] = refl
length-pop_last (x ∷ []) = refl
length-pop_last (x ∷ y ∷ xs) = omega (arith, length-pop_last (y ∷ xs))

trimmed-Shrunk : (limit : ℕ) (c : LlmContext) → Shrunk c (trimmed limit c)
unfolding trimmed
trimmed-Shrunk limit c = record {
  same_classification = refl;
  same_execution = refl;
  same_path = refl;
  less_log = take-IsPrefix (max 500 (limit / 2)) c.log;
  less_workflow = cut-IsPrefix (max 250 (limit / 5)) c.workflow_content;
  less_files = map-Fewer c.related_files;
}

halved-Shrunk : (c : LlmContext) → Shrunk c (halved c)
unfolding halved
halved-Shrunk c = record {
  same_classification = refl;
  same_execution = refl;
  same_path = refl;
  less_log = take-IsPrefix (length c.log / 2) c.log;
  less_workflow =
      rw (none_if_empty_lem (take (length (workflow_of c) / 2) (workflow_of c)))
        (take-IsPrefix (length (workflow_of c) / 2) (workflow_of c));
  less_files = Fewer-refl c.related_files;
}

falsy-length : (o : Option Text) → falsy o ≡ false → 0 < length (or_else o [])
falsy-length none h = ground arith
falsy-length (some []) h = ground arith
falsy-length (some (x ∷ xs)) h = omega arith

has_text-length : (c : LlmContext) → has_text c ≡ true → 0 < text_length c
unfolding has_text
has_text-length c h = elim (List-cases c.log) [
  | inr (x, xs, e) ↦ rw e (omega arith)
  | inl e ↦ elim (Bool-cases (falsy c.workflow_content)) [
    | inr full ↦ omega (arith, falsy-length c.workflow_content full)
    | inl off ↦ ground (arith, e, off, h)
  ]
]

halved_length : (c : LlmContext) → has_text c ≡ true → text_length (halved c) < text_length c
unfolding halved has_text
halved_length c h =
    let n = length c.log in
    let w = length (workflow_of c) in
    rw
      (
        none_if_empty_lem (take (w / 2) (workflow_of c)),
        length-take (n / 2) c.log,
        length-take (w / 2) (workflow_of c),
      )
      (omega (arith, has_text-length c h))

halved_files : (c : LlmContext) → (halved c).related_files ≡ c.related_files
unfolding halved
halved_files c = refl

module _ (encode : LlmContext → Text) (limit : ℕ) where
  drop_files-Shrunk : (n : ℕ) (c : LlmContext) → Shrunk c (drop_files encode limit n c)
  unfolding drop_files
  drop_files-Shrunk zero c = Shrunk-refl c
  drop_files-Shrunk (suc n) c =
      elim (Bool-cases (too_long encode limit c && not (is_empty c.related_files))) [
        | inr off ↦ rw off (Shrunk-refl c)
        | inl more ↦
            let fewer : LlmContext = record c { related_files = pop_last c.related_files } in
            rw more (
              Shrunk-trans c fewer (drop_files encode limit n fewer)
                (record {
                  same_classification = refl;
                  same_execution = refl;
                  same_path = refl;
                  less_log = ([], sym (append-nil c.log));
                  less_workflow = ([], sym (append-nil (workflow_of c)));
                  less_files = pop_last-Fewer c.related_files;
                })
                (drop_files-Shrunk n fewer))
      ]

  halve_texts-Shrunk : (n : ℕ) (c : LlmContext) → Shrunk c (halve_texts encode limit n c)
  unfolding halve_texts
  halve_texts-Shrunk zero c = Shrunk-refl c
  halve_texts-Shrunk (suc n) c = elim (Bool-cases (too_long encode limit c && has_text c)) [
    | inr off ↦ rw off (Shrunk-refl c)
    | inl more ↦ rw more (
        Shrunk-trans c (halved c) (halve_texts encode limit n (halved c)) (halved-Shrunk c)
          (halve_texts-Shrunk n (halved c)))
  ]

  -- With as much fuel as there are files, the first loop ends by its own condition.
  drop_files_ends :
      (n : ℕ) (c : LlmContext)
      → length c.related_files ≤ n
      → (too_long encode limit (drop_files encode limit n c)
          && not (is_empty (drop_files encode limit n c).related_files))
        ≡ false
  unfolding drop_files
  drop_files_ends zero c h = elim (List-cases c.related_files) [
    | inl e ↦ rw e (ground arith)
    | inr (x, xs, e) ↦ ground (arith, ap length e, h)
  ]
  drop_files_ends (suc n) c h =
      elim (Bool-cases (too_long encode limit c && not (is_empty c.related_files))) [
        | inr off ↦ rw off off
        | inl more ↦ rw more (
            drop_files_ends n (record c { related_files = pop_last c.related_files })
              (omega (arith, h, length-pop_last c.related_files)))
      ]

  -- With as much fuel as there is text, so does the second.
  halve_texts_ends :
      (n : ℕ) (c : LlmContext)
      → text_length c ≤ n
      → (too_long encode limit (halve_texts encode limit n c)
          && has_text (halve_texts encode limit n c))
        ≡ false
  unfolding halve_texts
  halve_texts_ends zero c h = elim (Bool-cases (has_text c)) [
    | inr off ↦ rw off (ground arith)
    | inl more ↦ ground (arith, has_text-length c more, h)
  ]
  halve_texts_ends (suc n) c h = elim (Bool-cases (too_long encode limit c && has_text c)) [
    | inr off ↦ rw off off
    | inl more ↦ rw more (
        halve_texts_ends n (halved c) (
          omega
            (arith, h, halved_length c (&&-true (too_long encode limit c) (has_text c) more).1)))
  ]

  -- The files are dropped before the texts are halved, which keeps the files.
  halve_texts_files :
      (n : ℕ) (c : LlmContext) → (halve_texts encode limit n c).related_files ≡ c.related_files
  unfolding halve_texts
  halve_texts_files zero c = refl
  halve_texts_files (suc n) c = elim (Bool-cases (too_long encode limit c && has_text c)) [
    | inr off ↦ rw off refl
    | inl more ↦ rw more (halve_texts_files n (halved c) ∙ halved_files c)
  ]

  halve_texts_fits :
      (n : ℕ) (c : LlmContext) → too_long encode limit c ≡ false → halve_texts encode limit n c ≡ c
  unfolding halve_texts
  halve_texts_fits zero c h = refl
  halve_texts_fits (suc n) c h = rw h refl

  -- What is left when even the shortened context is too long.
  shortened_ends :
      (c : LlmContext)
      → too_long encode limit (shortened encode limit c) ≡ true
      → ((shortened encode limit c).related_files ≡ [])
        × (has_text (shortened encode limit c) ≡ false)
  shortened_ends c long =
      let few = drop_files encode limit (length c.related_files) c in
      let texts_end = halve_texts_ends (text_length few) few (omega arith) in
      (
        halve_texts_files (text_length few) few ∙ elim (Bool-cases (too_long encode limit few)) [
          | inr fits ↦ ground (
            arith,
            fits,
            long,
            ap (too_long encode limit) (halve_texts_fits (text_length few) few fits),
          )
          | inl more ↦
              let files_end = drop_files_ends (length c.related_files) c (omega arith) in
              elim (List-cases few.related_files) [
                | inl e ↦ e
                | inr (x, xs, e) ↦ ground (arith, more, files_end, ap is_empty e)
              ]
        ],
        ground (arith, texts_end, long),
      )

  -- What is sent, or why nothing can be.
  abbrev pub Fits : LlmContext → Try LlmError Text → Type 0
  Fits c (value t) = (c' : LlmContext) × Shrunk c c' × (t ≡ encode c') × (length t ≤ limit)
  Fits c (raise e) =
      (c' : LlmContext) × Shrunk c c'
      × (e ≡ limit_too_small)
      × (c'.related_files ≡ [])
      × (has_text c' ≡ false)
      × (limit < length (encode c'))

  -- The text that is sent to the model is never longer than the limit, and it is the encoding of a
  -- context with the start of the log and of the workflow and the first of the related files, each with
  -- its name, score and reasons and the start of its excerpt; the classification, the path of the
  -- workflow and the execution context are the same. It is refused only when it is too long without any
  -- log, workflow and file, so the two loops go on until the text fits or nothing is left to leave out.
  pub bounded_context_json-Fits : (c : LlmContext) → Fits c (bounded_context_json encode limit c)
  unfolding bounded_context_json
  bounded_context_json-Fits c = elim (Bool-cases (leb (length (encode c)) limit)) [
    | inl fits ↦ rw fits (c, Shrunk-refl c, refl, leb→le (length (encode c)) limit fits)
    | inr long ↦
        let start = trimmed limit c in
        let few = drop_files encode limit (length start.related_files) start in
        let short = shortened encode limit start in
        let shrunk : Shrunk c short = Shrunk-trans c start short (trimmed-Shrunk limit c) (
          Shrunk-trans start few short (drop_files-Shrunk (length start.related_files) start)
            (halve_texts-Shrunk (text_length few) few)) in
        elim (Bool-cases (too_long encode limit short)) [
          | inl more ↦
              let (no_files, no_text) = shortened_ends start more in
              rw (long, more)
                (short, shrunk, refl, no_files, no_text, ltb→lt limit (length (encode short)) more)
          | inr fits ↦ rw (long, fits) (short, shrunk, refl, ground (arith, fits))
        ]
  ]
