-- ===== src/Store/Lease.antt =====
-- The abstract view of a run that its attempts share: a lease. The methods of the store that take a
-- token answer as the lease does, in every sequence of calls of any number of attempts.
use pipe_lens.Common.{
  ℕ, ◌≡◌, ◌≢◌, refl, ap, ◌∙◌, Text, text_eq→≡, text_eq_refl, opt_eq, Bool, true, false, ◌&&◌,
  Option, none, some, List, [], ◌∷◌, Bool-cases, Option-cases, inl, inr, arith, if◌then◌else◌,
}
use pipe_lens.Models.{AnalysisStatus, AnalysisStage, StageStatus, Analysis}
use pipe_lens.Table.{first}
use pipe_lens.Table.Keyed.{first-update_self, first-row_count_pos, update-IsKeyed}
use pipe_lens.Store.{
  Store, run_key, token_current, is_startable, Changes, changed_row, started_row, finished_row,
  begin_analysis, update_analysis, record_stage,
}
use pipe_lens.Store.Fencing.{
  run_id_of, IsValid, holder, AttemptOp, write, stage, finish, accepted, attempt, count_current,
  stale_attempt_refused, begin_ok, begun_row, begin_refused, begin_analysis-IsValid,
}
use pipe_lens.Store.Lifecycle.{finish_ok, ended_row, ended-IsValid}
use pipe_lens.Store.Holding.{Held}

-- A run that is stored: whether an attempt may begin it, and the token that holds it.
pub record Lease : Type 0 where
  pub open_ : Bool
  pub held_by : Option Text

-- What an attempt asks for.
pub data Call : Type 0 where
  begin : Call
  op : AttemptOp → Call

-- The lease itself: what it answers, and what becomes of it.
abbrev holds : Text → Lease → Bool
holds t l = opt_eq l.held_by t

abbrev leased : Text → AttemptOp → Lease → Bool × Lease
leased t (write status c) l =
    if holds t l
    then (true, record { open_ = is_startable status; held_by = some t })
    else (false, l)
leased t (stage st status e) l = (holds t l, l)
leased t (finish started_at status) l =
    if holds t l then (true, record { open_ = is_startable status; held_by = none }) else (false, l)

abbrev stored_lease : Bool × Lease → Bool × Option Lease
stored_lease (b, l) = (b, some l)

abbrev pub answer : Text → Call → Option Lease → Bool × Option Lease
answer t c none = (false, none)
answer t begin (some l) =
    if l.open_ then (true, some (record { open_ = true; held_by = some t })) else (false, some l)
answer t (op o) (some l) = stored_lease (leased t o l)

-- The store as the attempts see it.
abbrev pub call : ℕ → ℕ → Text → Call → Store → Bool × Store
call now run_id t begin s = let (r, s') = begin_analysis now run_id (some t) s in (accepted r, s')
call now run_id t (op o) s = attempt now run_id t o s

abbrev lease_of : Option Analysis → Option Lease
lease_of none = none
lease_of (some r) = some (record { open_ = is_startable r.status; held_by = r.attempt_token })

abbrev pub view : ℕ → Store → Option Lease
view run_id s = lease_of (first (run_key run_id) s.analyses)

abbrev seen : ℕ → Bool × Store → Bool × Option Lease
seen run_id (b, s) = (b, view run_id s)

-- A call whose answer and effect are those of the lease, and that keeps the primary key.
abbrev Agrees : ℕ → Text → Call → Store → Bool × Store → Type 0
Agrees run_id t c s x = IsValid x.1 × (seen run_id x ≡ answer t c (view run_id s))

opt_eq→≡ : (o : Option Text) (t : Text) → opt_eq o t ≡ true → o ≡ some t
opt_eq→≡ none t h = ground arith
opt_eq→≡ (some a) t h = ap some (text_eq→≡ a t h)

module _ (now run_id : ℕ) (t : Text) (s : Store) (valid : IsValid s) where
  begin-Agrees : Agrees run_id t begin s (call now run_id t begin s)
  begin-Agrees = elim (Option-cases (first (run_key run_id) s.analyses)) [
    | inl gone ↦ rw (begin_refused now run_id t s valid (rw gone refl)) (valid, rw gone refl)
    | inr (r, found) ↦ elim (Bool-cases (is_startable r.status)) [
      | inr idle ↦
          rw (begin_refused now run_id t s valid (rw (found, idle) refl))
            (valid, rw (found, idle) refl)
      | inl may ↦
          let e = begin_ok now run_id t s valid r found may in
          let row = begun_row now run_id t s valid r found may in
          (
            begin_analysis-IsValid now run_id t s valid,
            rw (row, found, may, e) (unfold started_row in refl),
          )
    ]
  ]

  refused :
      (o : AttemptOp) (r : Analysis)
      → first (run_key run_id) s.analyses ≡ some r
      → opt_eq r.attempt_token t ≡ false
      → (false, view run_id s) ≡ answer t (op o) (view run_id s)
  refused (write status c) r found other = rw (found, other) refl
  refused (stage st status e) r found other = rw (found, other) refl
  refused (finish started_at status) r found other = rw (found, other) refl

  -- A call of an attempt that does not hold the run.
  stale-Agrees :
      (o : AttemptOp) (r : Analysis)
      → first (run_key run_id) s.analyses ≡ some r
      → opt_eq r.attempt_token t ≡ false
      → Agrees run_id t (op o) s (attempt now run_id t o s)
  stale-Agrees o r found other =
      let stale : holder run_id s ≢ some t =
        rw found (λ e. ground (arith, other, e, text_eq_refl t)) in
      rw (stale_attempt_refused run_id t s valid now o stale) (valid, refused o r found other)

  -- The calls of the attempt that holds the run.
  module _ (r : Analysis) (found : first (run_key run_id) s.analyses ≡ some r)
      (held : r.attempt_token ≡ some t) where
    holds-Held : Held run_id t s
    holds-Held = (valid, rw found held)

    written-Agrees :
        (status : AnalysisStatus) (c : Changes)
        → Agrees run_id t (op (write status c)) s (attempt now run_id t (write status c) s)
    unfolding update_analysis changed_row
    written-Agrees status c = rw (count_current run_id t s valid holds-Held.1) (
      update-IsKeyed run_id_of (changed_row now status c) (λ x. refl)
          (λ x. run_key run_id x && token_current (some t) x) s.analyses valid,
      rw
          (
            first-update_self run_id_of (changed_row now status c) (λ x. refl) run_id
                (token_current (some t)) s.analyses,
            found,
            held,
            text_eq_refl t,
          )
          refl,
    )

    staged-Agrees :
        (st : AnalysisStage) (status : StageStatus) (error : Option Text)
        → Agrees run_id t
            (op (stage st status error))
            s
            (attempt now run_id t (stage st status error) s)
    unfolding record_stage
    staged-Agrees st status error =
        rw
          (first-row_count_pos (λ x. run_key run_id x && token_current (some t) x) s.analyses
            (omega (arith, count_current run_id t s valid holds-Held.1)))
          (valid, rw (found, held, text_eq_refl t) refl)

    finished-Agrees :
        (started_at : ℕ) (status : AnalysisStatus)
        → Agrees run_id t
            (op (finish started_at status))
            s
            (attempt now run_id t (finish started_at status) s)
    finished-Agrees started_at status =
        rw (finish_ok now run_id t s valid started_at status r found held) (
          ended-IsValid now run_id t s valid started_at status r found held,
          rw
              (
                ended_row now run_id t s valid started_at status r found held,
                found,
                held,
                text_eq_refl t,
              )
              (unfold finished_row in refl),
        )

    held-Agrees : (o : AttemptOp) → Agrees run_id t (op o) s (attempt now run_id t o s)
    held-Agrees (write status c) = written-Agrees status c
    held-Agrees (stage st status error) = staged-Agrees st status error
    held-Agrees (finish started_at status) = finished-Agrees started_at status

  call-Agrees : (c : Call) → Agrees run_id t c s (call now run_id t c s)
  call-Agrees begin = begin-Agrees
  call-Agrees (op o) = elim (Option-cases (first (run_key run_id) s.analyses)) [
    | inl gone ↦
        rw (stale_attempt_refused run_id t s valid now o (rw gone (λ e. ground (arith, e))))
          (valid, rw gone refl)
    | inr (r, found) ↦ elim (Bool-cases (opt_eq r.attempt_token t)) [
      | inr other ↦ stale-Agrees o r found other
      | inl holds_ ↦ held-Agrees r found (opt_eq→≡ r.attempt_token t holds_) o
    ]
  ]

-- Calls in the order in which they reach the store, each with the token of its attempt and its time,
-- and what they are answered.
abbrev pub calls : ℕ → List (ℕ × Text × Call) → Store → List Bool × Store
calls run_id [] s = ([], s)
calls run_id ((now, t, c) ∷ cs) s =
    let (b, s') = call now run_id t c s in let (bs, s'') = calls run_id cs s' in (b ∷ bs, s'')

abbrev pub answers : List (ℕ × Text × Call) → Option Lease → List Bool × Option Lease
answers [] l = ([], l)
answers ((now, t, c) ∷ cs) l =
    let (b, l') = answer t c l in let (bs, l'') = answers cs l' in (b ∷ bs, l'')

-- In every sequence of calls on a run, by any number of attempts and in any order of theirs, the
-- store accepts exactly the calls that the lease accepts, and ends with the row that the lease has:
-- a begin takes the run over, a write or a stage goes through for its holder alone, and an end gives
-- it up.
pub calls_refine_lease :
    (run_id : ℕ) (cs : List (ℕ × Text × Call)) (s : Store)
    → IsValid s
    → ((calls run_id cs s).0 ≡ (answers cs (view run_id s)).0)
      × (view run_id (calls run_id cs s).1 ≡ (answers cs (view run_id s)).1)
calls_refine_lease run_id [] s valid = (refl, refl)
calls_refine_lease run_id ((now, t, c) ∷ cs) s valid =
    let (valid', agrees) = call-Agrees now run_id t s valid c in
    let (same, ends) = calls_refine_lease run_id cs (call now run_id t c s).1 valid' in
    let answer_eq = ap (λ (x : Bool × Option Lease). x.0) agrees in
    let lease_eq = ap (λ (x : Bool × Option Lease). x.1) agrees in
    (
      ap (λ b. b ∷ (calls run_id cs (call now run_id t c s).1).0) answer_eq
          ∙ ap (λ bs. (answer t c (view run_id s)).0 ∷ bs)
              (same ∙ ap (λ l. (answers cs l).0) lease_eq),
      ends ∙ ap (λ l. (answers cs l).1) lease_eq,
    )
