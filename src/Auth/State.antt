-- ===== src/Auth/State.antt =====
-- The state of the login at GitHub, `new_oauth_state` and `verify_oauth_state` of src/pipelens/auth.py:
-- the only states that are accepted are those that the service has signed. HMAC is a parameter; the
-- nonce is an argument.
use pipe_lens.Common.{
  ℕ, ◌≡◌, refl, sym, ap, ◌∙◌, subst, ◌↔◌, Text, text_eq, text_eq→≡, text_eq_refl, falsy, is_empty,
  or_else, is_ascii, compare_digest, Bool, true, false, ◌&&◌, ◌||◌, &&-true, Option, none, some, [],
  ◌∷◌, ◌++◌, ◌==◌, if◌then◌else◌, arith, Bool-cases, Option-cases, inl, inr, any, ltb,
}

-- `s.rsplit(".", 1)`; `none` where it gives one part only.
abbrev cons_head : ℕ → Text × Text → Text × Text
cons_head c (a, b) = (c ∷ a, b)

abbrev last_dot : ℕ → Text → Option (Text × Text) → Option (Text × Text)
last_dot c cs (some parts) = some (cons_head c parts)
last_dot c cs none = if c == 46 then some ([], cs) else none

unfoldable pub rsplit_dot : Text → Option (Text × Text)
rsplit_dot [] = none
rsplit_dot (c ∷ cs) = last_dot c cs (rsplit_dot cs)

module _ (hexdigest : Text → Text → Text) (secret : Text) where
  abbrev pub new_oauth_state : Text → Text
  new_oauth_state nonce = nonce ++ 46 ∷ hexdigest secret nonce

  abbrev signed : Option (Text × Text) → Option Bool
  signed none = some false
  signed (some (nonce, signature)) = compare_digest signature (hexdigest secret nonce)

  abbrev on_same : Text → Option Bool → Option Bool
  on_same state none = none
  on_same state (some false) = some false
  on_same state (some true) = signed (rsplit_dot state)

  -- `some true`: it returns; `some false`: `AuthenticationError`; `none`: a `TypeError`.
  unfoldable pub verify_oauth_state : Option Text → Option Text → Option Bool
  unfolding rsplit_dot text_eq
  verify_oauth_state state cookie_state =
      if falsy state || falsy cookie_state
      then some false
      else on_same (or_else state []) (compare_digest (or_else state []) (or_else cookie_state []))

abbrev pub has_dot : Text → Bool
has_dot s = any (λ c. c == 46) s

abbrev Parts : Text → Option (Text × Text) → Type 0
Parts s none = Unit
Parts s (some (a, b)) = s ≡ a ++ 46 ∷ b

rsplit_dot_lem : (s : Text) → Parts s (rsplit_dot s)
unfolding rsplit_dot
rsplit_dot_lem [] = tt
rsplit_dot_lem (c ∷ cs) = elim (Option-cases (rsplit_dot cs)) [
  | inr ((a, b), found) ↦
      let rest : cs ≡ a ++ 46 ∷ b = rw found at (rsplit_dot_lem cs) in
      rw found (ap (λ t. c ∷ t) rest)
  | inl gone ↦ elim (Bool-cases (c == 46)) [
    | inl dot ↦ let same : c ≡ 46 = ground arith in rw (gone, dot) (ap (λ (x : ℕ). x ∷ cs) same)
    | inr other ↦ rw (gone, other) tt
  ]
]

rsplit_dot-none : (s : Text) → has_dot s ≡ false → rsplit_dot s ≡ none
unfolding rsplit_dot
rsplit_dot-none [] h = refl
rsplit_dot-none (c ∷ cs) h = elim (Bool-cases (c == 46)) [
  | inl dot ↦ ground (arith, dot, h)
  | inr other ↦
      let rest : has_dot cs ≡ false = rw other at h in rw (rsplit_dot-none cs rest, other) refl
]

rsplit_dot-append : (a b : Text) → has_dot b ≡ false → rsplit_dot (a ++ 46 ∷ b) ≡ some (a, b)
unfolding rsplit_dot
rsplit_dot-append [] b h = rw (rsplit_dot-none b h) refl
rsplit_dot-append (c ∷ a) b h = rw (rsplit_dot-append a b h) refl

is_ascii-append : (a b : Text) → is_ascii a ≡ true → is_ascii b ≡ true → is_ascii (a ++ b) ≡ true
is_ascii-append [] b ha hb = hb
is_ascii-append (c ∷ a) b ha hb =
    let both = &&-true (ltb c 128) (is_ascii a) ha in rw (both.0) (is_ascii-append a b both.1 hb)

is_ascii_start : (a b : Text) → is_ascii (a ++ b) ≡ true → is_ascii a ≡ true
is_ascii_start [] b h = refl
is_ascii_start (c ∷ a) b h =
    let both = &&-true (ltb c 128) (is_ascii (a ++ b)) h in rw (both.0) (is_ascii_start a b both.1)

compare_digest→≡ : (a b : Text) → compare_digest a b ≡ some true → (a ≡ b) × (is_ascii a ≡ true)
compare_digest→≡ a b h = elim (Bool-cases (is_ascii a && is_ascii b)) [
  | inl plain ↦ elim (Bool-cases (text_eq a b)) [
    | inl same ↦ (text_eq→≡ a b same, (&&-true (is_ascii a) (is_ascii b) plain).0)
    | inr other ↦
        let wrong : Path (Option Bool) (some false) (some true) = rw (plain, other) at h in cc wrong
  ]
  | inr odd ↦ let wrong : Path (Option Bool) none (some true) = rw odd at h in cc wrong
]

compare_digest_same : (a : Text) → is_ascii a ≡ true → compare_digest a a ≡ some true
compare_digest_same a h = rw (h, text_eq_refl a) refl

is_empty-append_more : (a : Text) (c : ℕ) (b : Text) → is_empty (a ++ c ∷ b) ≡ false
is_empty-append_more [] c b = refl
is_empty-append_more (x ∷ a) c b = refl

module _ (hexdigest : Text → Text → Text) (secret : Text) where
  -- A state that was made of a nonce, with the same text in the cookie.
  abbrev pub IsIssued : Option Text → Option Text → Type 0
  IsIssued state cookie =
      (nonce : Text) × (is_ascii nonce ≡ true)
      × (state ≡ some (new_oauth_state hexdigest secret nonce))
      × (cookie ≡ state)

  signed-true :
      (state : Text) (parts : Option (Text × Text))
      → Parts state parts
      → signed hexdigest secret parts ≡ some true
      → (nonce : Text) × (state ≡ new_oauth_state hexdigest secret nonce)
  signed-true state none made h = cc h
  signed-true state (some (nonce, signature)) made h = (
    nonce,
    made
        ∙ ap (λ (t : Text). nonce ++ 46 ∷ t)
            (compare_digest→≡ signature (hexdigest secret nonce) h).0,
  )

  on_same-true :
      (state : Text) (o : Option Bool)
      → on_same hexdigest secret state o ≡ some true
      → (o ≡ some true) × (signed hexdigest secret (rsplit_dot state) ≡ some true)
  on_same-true state none h = cc h
  on_same-true state (some false) h = cc h
  on_same-true state (some true) h = (refl, h)

  verified-IsIssued :
      (state cookie : Option Text)
      → verify_oauth_state hexdigest secret state cookie ≡ some true
      → IsIssued state cookie
  unfolding verify_oauth_state
  verified-IsIssued none cookie h = cc h
  verified-IsIssued (some s) none h = elim (Bool-cases (is_empty s)) [
    | inl e ↦ cc (rw e at h)
    | inr e ↦ cc (rw e at h)
  ]
  verified-IsIssued (some s) (some k) h = elim (Bool-cases (is_empty s || is_empty k)) [
    | inl e ↦ cc (rw e at h)
    | inr e ↦
        let same : on_same hexdigest secret s (compare_digest s k) ≡ some true = rw e at h in
        let (equal, split) = on_same-true s (compare_digest s k) same in
        let (nonce, made) = signed-true s (rsplit_dot s) (rsplit_dot_lem s) split in
        let (eq, plain) = compare_digest→≡ s k equal in
        (
          nonce,
          is_ascii_start nonce (46 ∷ hexdigest secret nonce)
              (subst (λ t. is_ascii t ≡ true) made plain),
          ap some made,
          ap some (sym eq),
        )
  ]

  module _ (hex : (t : Text) → is_ascii (hexdigest secret t) ≡ true)
      (undotted : (t : Text) → has_dot (hexdigest secret t) ≡ false) where
    issued_accepted :
        (nonce : Text)
        → is_ascii nonce ≡ true
        → let s = new_oauth_state hexdigest secret nonce in
          verify_oauth_state hexdigest secret (some s) (some s) ≡ some true
    unfolding verify_oauth_state
    issued_accepted nonce plain =
        let mac = hexdigest secret nonce in
        let whole : is_ascii (nonce ++ 46 ∷ mac) ≡ true =
          is_ascii-append nonce (46 ∷ mac) plain (hex nonce) in
        rw
          (
            is_empty-append_more nonce 46 mac,
            compare_digest_same (nonce ++ 46 ∷ mac) whole,
            rsplit_dot-append nonce mac (undotted nonce),
          )
          (compare_digest_same mac (hex nonce))

  -- When a digest is ASCII without a dot, verify_oauth_state accepts a state exactly when it is one that
  -- new_oauth_state makes of some ASCII nonce under the same secret, and the cookie holds the same text.
  pub verify_oauth_state-IsIssued :
      (state cookie : Option Text)
      → ((t : Text) → is_ascii (hexdigest secret t) ≡ true)
      → ((t : Text) → has_dot (hexdigest secret t) ≡ false)
      → (verify_oauth_state hexdigest secret state cookie ≡ some true) ↔ IsIssued state cookie
  verify_oauth_state-IsIssued state cookie hex undotted = (
    verified-IsIssued state cookie,
    (λ issued.
        let (nonce, plain, made, same) = issued in
        rw (same, made) (issued_accepted hex undotted nonce plain)),
  )
