-- ===== src/Coding/Patterns.antt =====
-- The regular expressions of marcus_code/runtime/task_contract.py, as texts. Python's `re`, which
-- runs them, is a parameter: `search` tells whether an expression matches somewhere in a text, and
-- `sub` replaces every match.
use marcus.Prelude.{String, Bool, List, [], ◌∷◌}
use marcus.Prelude.Texts.{concat}

pub data Pattern : Type 0 where
  change_words operate_words process_words verify_words analyze_words workspace_words : Pattern
  deictic_workspace informational_words web_words negated_change plan_only_change : Pattern
  run_cli_verify : Pattern

-- Adjacent literals are one text.
abbrev joined : List String → String
joined [] = ""
joined (s ∷ rest) = concat s (joined rest)

unfoldable pub pattern_text : Pattern → String
pattern_text change_words = joined (
    "(?i)\\b(add|build|change|create|edit|fix|implement|install|refactor|rem"
    ∷ "ove|update|write)\\b" ∷ "|(?:เพิ่ม|แก้|สร้าง|ติดตั้ง|เขียน|ปรับปรุง|ดำเนินการ)" ∷ [])
pattern_text operate_words = joined (
    "(?i)\\b(run|start|stop|deploy|serve|launch|execute)\\b"
    ∷ "|(?:รัน|เปิด|ปิด|ทดสอบระบบ|เริ่ม|หยุด)" ∷ [])
pattern_text process_words = joined (
    "(?i)\\b(service|server|serve|launch|deploy|start process|stop process)\\" ∷ "b"
    ∷ "|(?:เซอร์วิส|เซิร์ฟเวอร์|รันระบบ|เปิดระบบ|ปิดระบบ)" ∷ [])
pattern_text verify_words = joined (
    "(?i)\\b(build|curl|lint|test|verify|verification|pytest|dotnet\\s+run|np" ∷ "m\\s+test)\\b"
    ∷ "|(?:ทดสอบ|ยืนยันผล|ตรวจสอบผล|รัน service|รันเซอร์วิส)" ∷ [])
pattern_text analyze_words = joined (
    "(?i)\\b(analy[sz]e|inspect|investigate|review|audit|debug|diagnose|find" ∷ "|"
    ∷ "identify|locate|list|search|read|show|plan)\\b"
    ∷ "|(?:วิเคราะห์|ตรวจโค้ด|ตรวจหา|ค้นหา|รีวิว|สำรวจ|แสดง|อ่าน|วางแผน|หาสาเ" ∷ "หตุ)" ∷ [])
pattern_text workspace_words = joined (
    "(?i)\\b(code|codebase|git|status|repo(?:sitory)?|project|workspace|file" ∷ "s?|"
    ∷ "director(?:y|ies)|modules?|functions?|classes?)\\b"
    ∷ "|(?:โค้ด|โปรเจกต์|รีโป|ไฟล์|โฟลเดอร์|โมดูล|ฟังก์ชัน|คลาส|workspace)" ∷ [])
pattern_text deictic_workspace = joined (
    "(?i)\\b(?:this|that|current|existing)\\s+"
    ∷ "(?:code|codebase|repo(?:sitory)?|project|workspace|file|module|functio" ∷ "n|class)\\b"
    ∷ "|\\b(?:in|inside)\\s+(?:the\\s+)?(?:repo(?:sitory)?|project|workspace)\\b"
    ∷ "|(?:^|\\s)(?:[\\w.@-]+[\\\\/])+[\\w.@/-]+"
    ∷ "|\\b(?:readme|pyproject|package|cargo|go)\\.(?:md|toml|json|lock|mod)\\b"
    ∷ "|\\b[\\w.-]+\\.(?:py|pyi|js|jsx|ts|tsx|cs|java|go|rs|rb|php|vue|svelte|md"
    ∷ "|toml|yaml|yml)\\b"
    ∷ "|(?:โค้ด|โปรเจกต์|รีโป|ไฟล์|โฟลเดอร์|โมดูล|ฟังก์ชัน|คลาส)(?:นี้|ปัจจุบ" ∷ "ัน)" ∷ [])
pattern_text informational_words = joined (
    "(?i)^\\s*(?:please\\s+)?(?:what|why|how|when|where|which|explain|describ" ∷ "e|tell\\s+me)\\b"
    ∷ "|^\\s*(?:ช่วย)?(?:อธิบาย|บอก|อะไร|ทำไม|อย่างไร|คืออะไร)" ∷ [])
pattern_text web_words = joined (
    "(?i)\\b(web|website|url|http|https|online|documentation|docs)\\b|(?:เว็บ"
    ∷ "ไซต์|เว็บ|เอกสารออนไลน์)" ∷ [])
pattern_text negated_change = joined (
    "(?i)\\b(?:do\\s+not|don't|dont|without|never)\\s+"
    ∷ "(?:add|build|change|create|edit|fix|implement|install|refactor|remove|" ∷ "update|write)\\b"
    ∷ "|(?:ยัง)?(?:ไม่ต้อง|ห้าม|อย่า)\\s*(?:เพิ่ม|แก้|สร้าง|ติดตั้ง|เขียน|ปรับ" ∷ "ปรุง|ดำเนินการ)"
    ∷ [])
pattern_text plan_only_change = joined (
    "(?i)\\b(?:plan|propose|suggest)(?:\\s+(?:how\\s+to|to))?\\s+"
    ∷ "(?:fix|change|improve|update|refactor)\\w*\\b"
    ∷ "|(?:วางแผน|เสนอ(?:แนวทาง)?|แนะนำ(?:แนวทาง)?)\\s*(?:การ)?(?:แก้|ปรับปรุง" ∷ "|เปลี่ยนแปลง)"
    ∷ [])
pattern_text run_cli_verify = joined (
    "(?i)(?:^|[^\\w])(?:pytest|test|tests|lint|build|curl)(?:$|[^\\w])"
    ∷ "|dotnet\\s+run|npm\\s+test" ∷ [])

-- `search pattern text` and `sub pattern replacement text`
pub record Re : Type 0 where
  pub search : String → String → Bool
  pub sub : String → String → String → String

-- `bool(pattern.search(text))` and `pattern.sub(" ", text)`
abbrev pub finds : Re → Pattern → String → Bool
finds re p s = re.search (pattern_text p) s

abbrev pub blank : Re → Pattern → String → String
blank re p s = re.sub (pattern_text p) " " s
