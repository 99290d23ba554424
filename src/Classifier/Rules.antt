-- ===== src/Classifier/Rules.antt =====
-- `RULES` of src/pipelens/classifier.py, with the patterns that tell a failure. A confidence is a
-- number of millionths.
use pipe_lens.Common.{ℕ, Text, codes, is_space, not, ◌||◌, List, [], ◌∷◌, ◌++◌, ◌==◌}
use pipe_lens.Models.{
  ErrorCategory, test, build, dependency, lint, docker, deploy_auth, missing_env, timeout, resource,
  workflow, security,
}
use pipe_lens.Regex.{Regex, one, digit, star, lazy_star, boundary, not_ahead}
use pipe_lens.Regex.Build.{◌⨾◌, ◌∣◌, lit, ilit, fold, dot, space, from_to, plus, optional}

pub record DetectionRule : Type 0 where
  pub rule_id : Text
  pub category : ErrorCategory
  pub confidence : ℕ
  pub patterns : List Regex

-- `.*`, `s?`, `[1-9]`, and `[1-9]\d*`
abbrev any_text : Regex
any_text = star dot

abbrev plural : Regex
plural = optional (ilit "s")

abbrev nonzero : Regex
nonzero = one (from_to b'1' b'9')

abbrev positive : Regex
positive = nonzero ⨾ star digit

abbrev security_rules : List DetectionRule
security_rules =
    record {
      rule_id = codes "security.secret";
      category = security;
      confidence = 950000;
      patterns =
          (ilit "leak" ⨾ plural ⨾ ilit " found: " ⨾ nonzero)
          ∷ (ilit "secret scanning " ⨾ any_text ⨾ (ilit "detected" ∣ ilit "found" ∣ ilit "blocked"))
          ∷ (boundary
              ⨾ positive
              ⨾ ilit " secret"
              ⨾ plural
              ⨾ ilit " "
              ⨾ (ilit "detected" ∣ ilit "found"))
          ∷ [];
    }
    ∷ record {
      rule_id = codes "security.vulnerability";
      category = security;
      confidence = 930000;
      patterns =
          (ilit "total: "
            ⨾ plus digit
            ⨾ ilit " ("
            ⨾ any_text
            ⨾ boundary
            ⨾ (ilit "high" ∣ ilit "critical")
            ⨾ ilit ": "
            ⨾ nonzero)
          ∷ (boundary
              ⨾ positive
              ⨾ ilit " "
              ⨾ (ilit "low" ∣ ilit "moderate" ∣ ilit "high" ∣ ilit "critical")
              ⨾ ilit " severity vulnerabilit")
          ∷ (ilit "found " ⨾ positive ⨾ ilit " known vulnerabilit")
          ∷ ilit "dependency review detected vulnerable packages"
          ∷ [];
    }
    ∷ record {
      rule_id = codes "security.code_scanning";
      category = security;
      confidence = 900000;
      patterns =
          (ilit "code scanning alert" ⨾ plural ⨾ ilit " " ⨾ (ilit "found" ∣ ilit "detected"))
          ∷ ((ilit "codeql" ∣ ilit "semgrep")
              ⨾ any_text
              ⨾ boundary
              ⨾ positive
              ⨾ ilit " "
              ⨾ (ilit "alert" ⨾ plural ∣ ilit "finding" ⨾ plural))
          ∷ [];
    }
    ∷ []

abbrev environment_rules : List DetectionRule
environment_rules =
    record {
      rule_id = codes "env.missing";
      category = missing_env;
      confidence = 940000;
      patterns =
          ((ilit "keyerror" ∣ ilit "missing" ∣ ilit "required") ⨾ any_text ⨾ ilit "env")
          ∷ ((ilit "environment variable" ∣ ilit "env var")
              ⨾ any_text
              ⨾ ilit "not "
              ⨾ (ilit "set" ∣ ilit "found" ∣ ilit "defined"))
          ∷ (ilit "${{"
              ⨾ star space
              ⨾ ilit "secrets."
              ⨾ plus (one (λ c. not (c == b'}')))
              ⨾ ilit "}}"
              ⨾ any_text
              ⨾ (ilit "not found" ∣ ilit "empty"))
          ∷ [];
    }
    ∷ record {
      rule_id = codes "auth.deploy";
      category = deploy_auth;
      confidence = 920000;
      patterns =
          (ilit "unauthorized"
            ∣ ilit "forbidden"
            ∣ ilit "access denied"
            ∣ ilit "invalid credentials")
          ∷ ilit "authentication required"
          ∷ ilit "denied: requested access"
          ∷ [];
    }
    ∷ record {
      rule_id = codes "resource.exhaustion";
      category = resource;
      confidence = 960000;
      patterns =
          ilit "no space left on device"
          ∷ (ilit "out of memory" ∣ ilit "oomkilled" ∣ ilit "cannot allocate memory")
          ∷ ilit "exit code 137"
          ∷ [];
    }
    ∷ record {
      rule_id = codes "timeout";
      category = timeout;
      confidence = 910000;
      patterns =
          (ilit "time" ⨾ optional (ilit "d") ⨾ ilit " out" ∣ ilit "timeout exceeded")
          ∷ ilit "deadline exceeded"
          ∷ (ilit "job was cancelled because" ⨾ any_text ⨾ ilit "timeout")
          ∷ (ilit "alert state " ⨾ any_text ⨾ ilit "not observed")
          ∷ [];
    }
    ∷ record {
      rule_id = codes "workflow.syntax";
      category = workflow;
      confidence = 950000;
      patterns =
          ilit "invalid workflow file"
          ∷ (ilit "yaml" ⨾ optional (ilit " syntax" ∣ ilit " parser") ⨾ ilit " error")
          ∷ ilit "unrecognized named-value"
          ∷ ilit "the workflow is not valid"
          ∷ [];
    }
    ∷ []

abbrev tool_rules : List DetectionRule
tool_rules =
    record {
      rule_id = codes "dependency.install";
      category = dependency;
      confidence = 900000;
      patterns =
          (ilit "npm err!" ∣ ilit "eresolve unable to resolve dependency tree")
          ∷ ilit "could not find a version that satisfies"
          ∷ (ilit "failed " ⨾ (ilit "building wheel" ∣ ilit "to resolve dependencies"))
          ∷ (ilit "package " ⨾ any_text ⨾ ilit " has no installation candidate")
          ∷ [];
    }
    ∷ record {
      rule_id = codes "docker.build";
      category = docker;
      confidence = 890000;
      patterns =
          (ilit "docker build" ⨾ any_text ⨾ ilit "failed")
          ∷ ilit "failed to solve: process"
          ∷ (ilit "dockerfile:" ⨾ plus digit)
          ∷ (ilit "error response from daemon: " ⨾ not_ahead (ilit "no such container"))
          ∷ [];
    }
    ∷ record {
      rule_id = codes "lint.format";
      category = lint;
      confidence = 880000;
      patterns =
          ((ilit "eslint" ∣ ilit "ruff" ∣ ilit "flake8" ∣ ilit "prettier" ∣ ilit "black")
            ⨾ lazy_star dot
            ⨾ (ilit "error" ∣ ilit "failed"))
          ∷ ilit "would reformat"
          ∷ (ilit "lint" ⨾ optional (ilit "ing") ⨾ ilit " failed")
          ∷ ilit "code style issues found"
          ∷ [];
    }
    ∷ record {
      rule_id = codes "test.failure";
      category = test;
      confidence = 900000;
      patterns =
          (boundary
            ⨾ (ilit "failed" ∣ ilit "failure" ⨾ plural)
            ⨾ boundary
            ⨾ any_text
            ⨾ boundary
            ⨾ ilit "test"
            ⨾ plural
            ⨾ boundary)
          ∷ ((ilit "pytest" ∣ ilit "jest" ∣ ilit "vitest" ∣ ilit "rspec")
              ⨾ any_text
              ⨾ ilit "failed")
          ∷ (ilit "assertionerror"
              ∣ ilit "expected " ⨾ any_text ⨾ ilit " " ⨾ (ilit "to" ∣ ilit "but"))
          ∷ [];
    }
    ∷ record {
      rule_id = codes "build.compile";
      category = build;
      confidence = 870000;
      patterns =
          ((ilit "compilation" ∣ ilit "compile" ∣ ilit "build") ⨾ ilit " failed")
          ∷ (ilit "syntaxerror"
              ∣ ilit "typeerror:" ⨾ any_text ⨾ (ilit "assignable" ∣ ilit "property"))
          ∷ ilit "undefined reference"
          ∷ ilit "cannot find symbol"
          ∷ [];
    }
    ∷ []

unfoldable pub rules : List DetectionRule
unfolding fold is_space
rules = security_rules ++ (environment_rules ++ tool_rules)

-- `ERROR_LINE`
unfoldable pub error_line : Regex
unfolding fold
error_line =
    ilit "error"
    ∣ ilit "exception"
    ∣ ilit "failed"
    ∣ ilit "fatal"
    ∣ ilit "panic"
    ∣ ilit "timeout"
    ∣ ilit "denied"
    ∣ ilit "not found"

-- `SCANNER_FINDING_ROW`, whose bars are U+2502 and U+007C
abbrev bar : Regex
bar = one (λ c. c == 9474 || c == b'|')

unfoldable pub scanner_finding_row : Regex
unfolding is_space
scanner_finding_row = bar ⨾ star space ⨾ (lit "HIGH" ∣ lit "CRITICAL") ⨾ star space ⨾ bar
