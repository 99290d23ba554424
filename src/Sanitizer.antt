-- ===== src/Sanitizer.antt =====
-- src/pipelens/sanitizer.py: `sanitize_log`, with its patterns.
use pipe_lens.Common.{
  ℕ, ◌≡◌, refl, Text, codes, is_space, rstrip, join, splitlines, Bool, not, ◌||◌, List, [], ◌∷◌,
  ◌++◌, map, ◌==◌, if◌then◌else◌,
}
use pipe_lens.Regex.{Unicode, Regex, one, digit, star, group, boundary, start, group_text, subn}
use pipe_lens.Regex.Build.{
  ◌⨾◌, ◌∣◌, lit, ilit, fold, space, one_of, from_to, alnum, folded, plus, optional, times, at_least,
  ascii,
}

pub record RedactionRule : Type 0 where
  pub name : Text
  pub pattern : Regex
  pub replacement : List (ℕ × Text) → Text

-- `\x1b(?:[@-Z\\-_]|\[[0-?]*[ -/]*[@-~])`
unfoldable pub ansi_escape : Regex
ansi_escape =
    one (λ c. c == 27)
    ⨾ (one (λ c. from_to b'@' b'Z' c || from_to 92 b'_' c)
        ∣ lit "["
          ⨾ star (one (from_to b'0' b'?'))
          ⨾ star (one (from_to b' ' b'/'))
          ⨾ one (from_to b'@' b'~'))

-- `^(?:\d{4}-\d{2}-\d{2}T\d{2}:\d{2}:\d{2}(?:\.\d+)?Z\s+|\[\d{2}:\d{2}:\d{2}\]\s*)`
unfoldable pub timestamp_prefix : Regex
timestamp_prefix =
    start
    ⨾ (times 4 digit
          ⨾ lit "-"
          ⨾ times 2 digit
          ⨾ lit "-"
          ⨾ times 2 digit
          ⨾ lit "T"
          ⨾ times 2 digit
          ⨾ lit ":"
          ⨾ times 2 digit
          ⨾ lit ":"
          ⨾ times 2 digit
          ⨾ optional (lit "." ⨾ plus digit)
          ⨾ lit "Z"
          ⨾ plus space
        ∣ lit "["
          ⨾ times 2 digit
          ⨾ lit ":"
          ⨾ times 2 digit
          ⨾ lit ":"
          ⨾ times 2 digit
          ⨾ lit "]"
          ⨾ star space)

abbrev token_char : ℕ → Bool
token_char c = alnum c || c == b'_'

abbrev jwt_char : ℕ → Bool
jwt_char c = token_char c || c == b'-'

-- `[A-Z0-9_]` under `re.I`, of a folded character
abbrev name_char : ℕ → Bool
name_char c = from_to b'a' b'z' c || from_to b'0' b'9' c || c == b'_'

abbrev assigned : Regex
assigned = star space ⨾ one (one_of ":=") ⨾ star space

abbrev github_token : Regex
github_token =
    boundary
    ⨾ (lit "gh" ⨾ one (one_of "pousr") ⨾ lit "_" ⨾ at_least 20 (one token_char)
        ∣ lit "github_pat_" ⨾ at_least 20 (one token_char))
    ⨾ boundary

abbrev aws_access_key : Regex
aws_access_key =
    boundary
    ⨾ (lit "AKIA" ∣ lit "ASIA")
    ⨾ times 16 (one (λ c. from_to b'A' b'Z' c || from_to b'0' b'9' c))
    ⨾ boundary

abbrev jwt : Regex
jwt =
    boundary
    ⨾ lit "eyJ"
    ⨾ plus (one jwt_char)
    ⨾ lit "."
    ⨾ plus (one jwt_char)
    ⨾ lit "."
    ⨾ plus (one jwt_char)
    ⨾ boundary

abbrev authorization : Regex
authorization =
    group 1 (ilit "authorization" ⨾ assigned)
    ⨾ optional (ilit "bearer" ⨾ plus space ∣ ilit "basic" ⨾ plus space)
    ⨾ plus (one (λ c. not (is_space c)))

abbrev secret_assignment : Regex
secret_assignment =
    boundary
    ⨾ group 1 (
        star (folded name_char)
        ⨾ (ilit "PASSWORD"
            ∣ ilit "PASSWD"
            ∣ ilit "SECRET"
            ∣ ilit "API_KEY"
            ∣ ilit "ACCESS_TOKEN"
            ∣ ilit "PRIVATE_KEY")
        ⨾ star (folded name_char)
        ⨾ assigned)
    ⨾ group 2 (plus (one (λ c. not (is_space c || c == b',' || c == b';'))))

abbrev email : Regex
email =
    boundary
    ⨾ plus (folded (λ c. name_char c || one_of ".%+-" c))
    ⨾ lit "@"
    ⨾ plus (folded (λ c. from_to b'a' b'z' c || from_to b'0' b'9' c || one_of ".-" c))
    ⨾ lit "."
    ⨾ at_least 2 (folded (from_to b'a' b'z'))
    ⨾ boundary

-- A replacement that is a literal, and `\1` before one.
abbrev constant : Text → List (ℕ × Text) → Text
constant t groups = t

abbrev behind_first : Text → List (ℕ × Text) → Text
behind_first t groups = group_text 1 groups ++ t

unfoldable pub redaction_rules : List RedactionRule
unfolding fold is_space group_text
redaction_rules =
    record {
      name = codes "github_token";
      pattern = github_token;
      replacement = constant (codes "[REDACTED:GITHUB_TOKEN]");
    }
    ∷ record {
      name = codes "aws_access_key";
      pattern = aws_access_key;
      replacement = constant (codes "[REDACTED:AWS_ACCESS_KEY]");
    }
    ∷ record { name = codes "jwt"; pattern = jwt; replacement = constant (codes "[REDACTED:JWT]") }
    ∷ record {
      name = codes "authorization";
      pattern = authorization;
      replacement = behind_first (codes "[REDACTED]");
    }
    ∷ record {
      name = codes "secret_assignment";
      pattern = secret_assignment;
      replacement = behind_first (codes "[REDACTED]");
    }
    ∷ record {
      name = codes "email";
      pattern = email;
      replacement = constant (codes "[REDACTED:EMAIL]");
    }
    ∷ []

abbrev remove : Unicode → Regex → Text → Text
remove u r s = (subn u r (constant []) s).0

-- The loop over the rules: the text, and the rules that replaced something, with how often.
unfoldable pub redact : Unicode → List RedactionRule → Text → Text × List (Text × ℕ)
redact u [] text = (text, [])
redact u (rule ∷ rules) text =
    let (replaced, count) = subn u rule.pattern rule.replacement text in
    let (out, counts) = redact u rules replaced in
    (out, if count == 0 then counts else (rule.name, count) ∷ counts)

unfoldable pub sanitize_log : Unicode → Text → Text × List (Text × ℕ)
unfolding redact redaction_rules ansi_escape timestamp_prefix subn splitlines rstrip is_space join
sanitize_log u raw =
    let text = remove u ansi_escape raw in
    let lines = map (λ line. rstrip is_space (remove u timestamp_prefix line)) (splitlines text) in
    redact u redaction_rules (join (10 ∷ []) lines)

sanitize_test :
    sanitize_log ascii (codes "2026-09-08T01:02:03.5Z token ghp_abcdefghijklmnopqrst1 x")
    ≡ (codes "token [REDACTED:GITHUB_TOKEN] x", (codes "github_token", 1) ∷ [])
unfolding sanitize_log
sanitize_test = refl

assignment_test : sanitize_log ascii (codes "DB_PASSWORD = hunter2, mail a.b@c.org") ≡ (
  codes "DB_PASSWORD = [REDACTED], mail [REDACTED:EMAIL]",
  (codes "secret_assignment", 1) ∷ (codes "email", 1) ∷ [],
)
unfolding sanitize_log
assignment_test = refl
