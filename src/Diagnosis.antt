-- ===== src/Diagnosis.antt =====
-- src/pipelens/diagnosis.py: the diagnosis that the category alone gives, and the check of one
-- against its log. `validate_diagnosis` changes its argument and returns it.
pub mod Grounded
mod Tests
use pipe_lens.Common.{
  ℕ, min, String, Text, codes, text_eq, contains, member, falsy, Bool, true, false, not, ◌||◌,
  Option, none, some, List, [], ◌∷◌, ◌++◌, filter, if◌then◌else◌,
}
use pipe_lens.Models.{
  ErrorCategory, test, build, dependency, lint, docker, deploy_auth, missing_env, timeout, resource,
  workflow, security, unknown, Classification, Evidence, Suggestion, Diagnosis,
}

-- A value of `MESSAGES`: the summary, the cause and the suggestion.
pub record Message : Type 0 where
  pub summary : Text
  pub cause : Text
  pub suggestion : Text

abbrev message : String → String → String → Message
message summary cause suggestion = record {
  summary = codes summary;
  cause = codes cause;
  suggestion = codes suggestion;
}

unfoldable pub messages : ErrorCategory → Message
messages test =
    message "테스트가 실패했습니다." "테스트 assertion 또는 테스트 준비 과정에서 최초 오류가 발생했습니다."
      "최초 실패 테스트와 그 입력을 로컬에서 재현하세요."
messages build =
    message "빌드 또는 컴파일이 실패했습니다." "컴파일러가 코드 또는 링크 오류를 보고했습니다." "최초 컴파일 오류 위치를 수정한 뒤 빌드를 다시 실행하세요."
messages dependency =
    message "의존성 설치가 실패했습니다." "패키지 버전 해석 또는 설치 단계에서 오류가 발생했습니다."
      "lockfile과 런타임 버전을 확인하고 의존성을 다시 고정하세요."
messages lint =
    message "Lint 또는 포맷 검사가 실패했습니다." "코드 스타일 검사 도구가 위반 사항을 발견했습니다."
      "CI와 동일한 lint/format 명령을 실행해 보고된 파일을 수정하세요."
messages docker =
    message "Docker 이미지 빌드가 실패했습니다." "Dockerfile의 빌드 단계가 정상적으로 완료되지 않았습니다."
      "실패한 Dockerfile 단계와 build context를 확인하세요."
messages deploy_auth =
    message "배포 인증에 실패했습니다." "배포 대상이 현재 자격증명을 거부했습니다." "배포용 secret의 만료 여부와 권한 범위를 확인하세요."
messages missing_env =
    message "필수 환경변수가 없습니다." "실행에 필요한 환경변수가 workflow step에 전달되지 않았습니다."
      "Repository/Environment secret과 workflow의 env 매핑을 확인하세요."
messages timeout =
    message "작업 제한 시간을 초과했습니다." "명령이 허용된 시간 안에 끝나지 않았습니다."
      "정체된 작업을 확인하고 필요하면 timeout-minutes를 조정하세요."
messages resource =
    message "실행 환경의 자원이 부족합니다." "Runner의 디스크 또는 메모리가 소진되었습니다."
      "캐시와 불필요한 산출물을 줄이거나 더 큰 runner를 사용하세요."
messages workflow =
    message "GitHub Actions workflow 설정이 유효하지 않습니다." "Workflow YAML 표현식 또는 구문 검증에 실패했습니다."
      "표시된 workflow 위치의 YAML과 Actions 표현식을 수정하세요."
messages security =
    message "보안 검사가 실행을 차단했습니다." "취약점·secret·코드 스캔 도구가 허용 기준을 넘는 발견 사항을 보고했습니다."
      "보고된 package를 수정 버전으로 올리고, secret은 즉시 폐기·교체한 뒤 다시 검사하세요."
messages unknown =
    message "실패 원인을 자동 분류하지 못했습니다." "현재 로그만으로 원인을 확인할 수 없습니다." "첫 오류 전후의 전체 로그와 workflow 설정을 확인하세요."

unfoldable pub unconfirmed : Text
unconfirmed = codes "확인 불가"

abbrev is_unknown : ErrorCategory → Bool
is_unknown unknown = true
is_unknown _ = false

unfoldable pub build_rule_based_diagnosis : Classification → Diagnosis
unfolding messages unconfirmed
build_rule_based_diagnosis c =
    let m = messages c.category in
    record {
      summary = m.summary;
      root_cause = if is_unknown c.category then unconfirmed else m.cause;
      confidence = c.confidence;
      evidence =
          record { source = codes "log"; content = c.first_error; location = c.related_step } ∷ [];
      suggestions =
          record {
            description = m.suggestion;
            file = none;
            patch = none;
            source = none;
            patch_verified = false;
          }
          ∷ [];
      conflicts = [];
      notes = [];
    }

-- `e.source != "log" or e.content in log`
unfoldable pub is_grounded : Text → Evidence → Bool
unfolding text_eq contains
is_grounded log e = not (text_eq e.source (codes "log")) || contains log e.content

-- `repository_files is not None and file in repository_files`
abbrev file_in : Option (List Text) → Option Text → Bool
file_in none file = false
file_in (some files) none = false
file_in (some files) (some file) = member file files

-- `not s.file or ...`
abbrev pub names_repository_file : Option (List Text) → Suggestion → Bool
names_repository_file files s = falsy s.file || file_in files s.file

-- What is done when no evidence is left.
abbrev ungrounded : List Evidence → Diagnosis → Diagnosis
ungrounded (_ ∷ _) d = d
ungrounded [] d = record d {
  root_cause = unconfirmed;
  confidence = min d.confidence 300000;
  conflicts = d.conflicts ++ codes "분석 결과가 입력 로그에서 확인할 수 없는 근거를 인용했습니다." ∷ [];
}

unfoldable pub validate_diagnosis : Diagnosis → Text → Option (List Text) → Diagnosis
unfolding is_grounded
validate_diagnosis diagnosis log files =
    let valid = filter (is_grounded log) diagnosis.evidence in
    record (ungrounded valid diagnosis) {
      evidence = valid;
      suggestions = filter (names_repository_file files) diagnosis.suggestions;
    }
