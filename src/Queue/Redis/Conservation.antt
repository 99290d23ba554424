-- ===== src/Queue/Redis/Conservation.antt =====
-- No job of the Redis queue is lost or doubled, whatever the workers do and whenever leases expire.
use pipe_lens.Common.{
  ℕ, zero, suc, ◌+◌, ◌≤◌, ◌≡◌, refl, ap, ◌∙◌, Text, text_eq, text_eq_iff, member, none, some, List,
  [], ◌∷◌, ◌++◌, append_assoc, arith, ◌==◌, if◌then◌else◌, length, length-append, Option-cases,
  Bool-cases, inl, inr, ◌⊎◌,
}
use pipe_lens.Common.Sets.{has, has-discard}
use pipe_lens.Models.{AnalysisRequest}
use pipe_lens.Queue.{fresh, retried, run_of}
use pipe_lens.Queue.Redis.{
  Codec, Processing, RedisQueue, list_of, set_list, lrem, rpop, recover_loop, enqueue, acknowledge,
  acknowledge_script, retry, retry_script, job_of, heartbeat, brpoplpush, dequeue, recover_script,
  recover_each, recover_orphaned,
}

rpop_view :
    (xs : List Text)
    → ((rpop xs ≡ none) × (xs ≡ []))
      ⊎ ((y : Text) × (ys : List Text) × (rpop xs ≡ some (y, ys)) × (xs ≡ ys ++ y ∷ []))
unfolding rpop
rpop_view [] = inl (refl, refl)
rpop_view (x ∷ xs) = elim (rpop_view xs) [
  | inl (e, n) ↦ inr (x, [], rw e, ap (◌∷◌ x) n)
  | inr (y, ys, e, n) ↦ inr (y, x ∷ ys, rw e, ap (◌∷◌ x) n)
]

-- The loop of the recovery script moves the whole list in front of the pending one, in order.
pub recover_loop-append :
    (fuel : ℕ) (from to : List Text) (n : ℕ)
    → length from ≤ fuel
    → recover_loop fuel from to n ≡ (from ++ to, n + length from)
unfolding recover_loop
recover_loop-append zero [] to n h = ground arith
recover_loop-append zero (x ∷ xs) to n h = absurd (omega arith)
recover_loop-append (suc fuel) from to n h = elim (rpop_view from) [
  | inl (e, nothing) ↦ rw (e, recover_loop) (rw nothing (ground arith))
  | inr (y, ys, e, split) ↦
      let size : length from ≡ length ys + 1 = ap length split ∙ length-append ys (y ∷ []) in
      rw (e, recover_loop)
        (rw (recover_loop-append fuel ys (y ∷ to) (n + 1) (omega arith))
          (rw (split, append_assoc, length-append ys (y ∷ [])) (ground arith)))
]

pub list_of-set_list :
    (w v : Text) (xs : List Text) (ps : List Processing)
    → list_of w (set_list v xs ps) ≡ (if text_eq v w then xs else list_of w ps)
unfolding list_of set_list
list_of-set_list w v xs [] = refl
list_of-set_list w v xs (p ∷ ps) = ground (
  arith,
  text_eq_iff p.worker v,
  text_eq_iff p.worker w,
  text_eq_iff v w,
  list_of-set_list w v xs ps,
)

module _ (c : Codec) (run_id : ℕ) where
  -- The items of a run in one list, and in all of them.
  abbrev is_of : Text → ℕ
  is_of raw = if run_of (c.load raw) == run_id then 1 else 0

  abbrev pub count : List Text → ℕ
  count [] = 0
  count (x ∷ xs) = is_of x + count xs

  abbrev pub count_processing : List Processing → ℕ
  count_processing [] = 0
  count_processing (p ∷ ps) = count p.items + count_processing ps

  abbrev pub total : RedisQueue → ℕ
  total q = count q.pending + count_processing q.processing

  count-append : (xs ys : List Text) → count (xs ++ ys) ≡ count xs + count ys
  count-append [] ys = omega arith
  count-append (x ∷ xs) ys = omega (arith, count-append xs ys)

  count-lrem : (x : Text) (xs ys : List Text) → lrem x xs ≡ some ys → count xs ≡ count ys + is_of x
  unfolding lrem
  count-lrem x [] ys h = cc
  count-lrem x (y ∷ xs) ys h = elim (Bool-cases (text_eq y x)) [
    | inl same ↦ ground (arith, text_eq_iff y x)
    | inr other ↦ elim (Option-cases (lrem x xs)) [
      | inl gone ↦ ground arith
      | inr (zs, e) ↦ ground (arith, count-lrem x xs zs)
    ]
  ]

  count-set_list :
      (w : Text) (xs : List Text) (ps : List Processing)
      → count_processing (set_list w xs ps) + count (list_of w ps) ≡ count_processing ps + count xs
  unfolding set_list list_of
  count-set_list w xs [] = omega arith
  count-set_list w xs (p ∷ ps) = ground (arith, count-set_list w xs ps)

  -- One item stands for a run that the set knows, and none for any other.
  abbrev pub Balanced : RedisQueue → Type 0
  Balanced q = total q ≡ (if has run_id q.run_ids then 1 else 0)

  pub enqueue-Balanced :
      (request : AnalysisRequest) (q : RedisQueue) → Balanced q → Balanced (enqueue c request q).1
  unfolding enqueue has
  enqueue-Balanced request q h = ground (arith, c.load-dump (fresh request))

  pub acknowledge-Balanced :
      (w raw : Text) (q : RedisQueue) → Balanced q → Balanced (acknowledge c w (job_of c raw) q)
  unfolding acknowledge
  acknowledge-Balanced w raw q h = elim (Option-cases (lrem raw (list_of w q.processing))) [
    | inl gone ↦ rw (gone, acknowledge_script) h
    | inr (left, e) ↦
        rw (e, acknowledge_script)
          (ground (
            arith,
            count-lrem raw (list_of w q.processing) left e,
            count-set_list w left q.processing,
            has-discard (run_of (c.load raw)) run_id q.run_ids,
          ))
  ]

  pub retry-Balanced :
      (w raw : Text) (q : RedisQueue) → Balanced q → Balanced (retry c w (job_of c raw) q)
  unfolding retry
  retry-Balanced w raw q h = elim (Option-cases (lrem raw (list_of w q.processing))) [
    | inl gone ↦ rw (gone, retry_script) h
    | inr (left, e) ↦
        rw (e, retry_script)
          (ground (
            arith,
            count-lrem raw (list_of w q.processing) left e,
            count-set_list w left q.processing,
            c.load-dump (retried (c.load raw)),
          ))
  ]

  brpoplpush-Balanced : (w : Text) (q : RedisQueue) → Balanced q → Balanced (brpoplpush w q).1
  unfolding brpoplpush
  brpoplpush-Balanced w q h = elim (rpop_view q.pending) [
    | inl (e, nothing) ↦ rw (e, brpoplpush) h
    | inr (y, ys, e, split) ↦
        rw (e, brpoplpush)
          (ground (
            arith,
            ap count split,
            count-append ys (y ∷ []),
            count-set_list w (y ∷ list_of w q.processing) q.processing,
          ))
  ]

  recover_script-Balanced :
      (w : Text) (q : RedisQueue) → Balanced q → Balanced (recover_script w q).1
  unfolding recover_script
  recover_script-Balanced w q h = elim (Bool-cases (member w q.leases)) [
    | inl alive ↦ rw alive h
    | inr dead ↦
        let items = list_of w q.processing in
        rw dead (
          rw (recover_loop-append (length items) items q.pending 0 (omega arith))
            (ground (arith, count-append items q.pending, count-set_list w [] q.processing)))
  ]

  pub dequeue-Balanced : (w : Text) (q : RedisQueue) → Balanced q → Balanced (dequeue c w q).1
  unfolding dequeue
  dequeue-Balanced w q h = brpoplpush-Balanced w (heartbeat w q) (unfold heartbeat in h)

  recover_each-Balanced :
      (self : Text) (ws : List Text) (n : ℕ) (q : RedisQueue)
      → Balanced q
      → Balanced (recover_each self ws n q).1
  unfolding recover_each
  recover_each-Balanced self [] n q h = h
  recover_each-Balanced self (w ∷ ws) n q h = elim (Bool-cases (text_eq w self)) [
    | inl own ↦ rw own (recover_each-Balanced self ws n q h)
    | inr other ↦
        let (m, q') = recover_script w q in
        rw other (recover_each-Balanced self ws (n + m) q' (recover_script-Balanced w q h))
  ]

  pub recover_orphaned-Balanced :
      (self : Text) (q : RedisQueue) → Balanced q → Balanced (recover_orphaned self q).1
  unfolding recover_orphaned
  recover_orphaned-Balanced self q h = recover_each-Balanced self q.workers 0 q h
