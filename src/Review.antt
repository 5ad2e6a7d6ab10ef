-- ===== src/Review.antt =====
-- app/review.py: what `LLMReviewer` makes of an answer, and the checks of app/task_utils.py that a new
-- task goes through. JSON, `str.strip`, `str.lower` and the parts of a path are arguments; of a risk
-- score only whether it reaches 0.3 is kept.
pub mod Create
pub mod Decide
pub mod Cooldown
pub mod Vetted
use gpufleet.Prelude.{
  ℕ, suc, ◌-◌, String, Text, codes, Bool, true, false, ◌&&◌, ◌||◌, not, Option, none, some, List,
  [], ◌∷◌, ◌++◌, map, same, any, take, drop, length, text_eq, ltb, leb, ◌==◌, if◌then◌else◌,
}

-- The answers that stand in the column `review_decision`; any other text counts as `uncertain`.
pub data Judgement : Type 0 where
  approve reject uncertain : Judgement

pub record ReviewDecision : Type 0 where
  pub decision : Judgement
  pub elevated : Bool
  pub reasoning : Text

-- `float(data.get("risk_score", 0.5))`: missing, a number, or something that raises.
pub data RiskScore : Type 0 where
  missing : RiskScore
  number : Bool → RiskScore
  no_number : RiskScore

-- What `json.loads` gives: a JSON error, an object, or a value on which the code then raises.
pub data Loaded : Type 0 where
  not_json : Loaded
  not_object : Loaded
  object :
      (decision : Option Text) (risk : RiskScore) (factors_ok : Bool) (reasoning : Text) → Loaded

pub record Json : Type 0 where
  pub strip : Text → Text
  pub loads : Text → Loaded

-- The stream of the chat completion ends in a text, a timeout or another exception.
pub data Stream : Type 0 where
  answered : Text → Stream
  timed_out failed : Stream

-- text.find(c), and text.rfind(c) + 1; `none` is -1, and 0 in the second.
unfoldable pub find_code : ℕ → Text → Option ℕ
find_code c [] = none
find_code c (x ∷ t) =
    if x == c then some 0 else elim (find_code c t) [ none ↦ none | some i ↦ some (suc i) ]

unfoldable pub after_last : ℕ → Text → ℕ
after_last c [] = 0
after_last c (x ∷ t) =
    let rest = after_last c t in if ltb 0 rest then suc rest else if x == c then 1 else 0

-- The text between the outermost braces, if there are any.
unfoldable pub braced : Text → Text
braced text = elim (find_code 123 text) [
  | none ↦ text
  | some start ↦
      let end = after_last 125 text in
      if ltb start end then take (end - start) (drop start text) else text
]

abbrev known_judgement : Text → Judgement
known_judgement t =
    if text_eq t (codes "approve")
    then approve
    else if text_eq t (codes "reject")
    then reject
    else uncertain

abbrev judgement : Option Text → Judgement
judgement none = uncertain
judgement (some t) = known_judgement t

abbrev pub escalated : Text → ReviewDecision
escalated reasoning = record { decision = uncertain; elevated = true; reasoning = reasoning }

abbrev reached : RiskScore → Option Bool
reached missing = some true
reached (number b) = some b
reached no_number = none

-- `none` where the code raises.
unfoldable pub parse_loaded : Loaded → Option ReviewDecision
parse_loaded not_json = some (escalated (codes "AI 返回格式异常，自动升级到人工审核"))
parse_loaded not_object = none
parse_loaded (object decision risk factors_ok reasoning) = elim (reached risk) [
  | none ↦ none
  | some elevated ↦
      if factors_ok
      then some
          (record { decision = judgement decision; elevated = elevated; reasoning = reasoning })
      else none
]

unfoldable pub parse_response : Json → Text → Option ReviewDecision
parse_response json text = parse_loaded (json.loads (braced (json.strip text)))

unfoldable pub review : Json → Stream → ReviewDecision
review json timed_out = escalated (codes "AI 审核超时，自动升级到人工审核")
review json failed = escalated (codes "AI 审核异常，自动升级到人工审核")
review json (answered text) = elim (parse_response json text) [
  | none ↦ escalated (codes "AI 审核异常，自动升级到人工审核")
  | some d ↦ d
]

-- app/task_utils.py

abbrev pub member : List String → String → Bool
member set x = any (same x) set

abbrev pub shell_task_types : List String
shell_task_types = "shell" ∷ "python_script" ∷ []

abbrev pub modal_task_types : List String
modal_task_types = "modal_command" ∷ []

abbrev pub task_type_level_l2 : List String
task_type_level_l2 = "shell" ∷ "python_script" ∷ "modal_command" ∷ []

abbrev pub dangerous_command_snippets : List Text
dangerous_command_snippets = map codes (
    "shutdown" ∷ "reboot" ∷ "systemctl" ∷ "service " ∷ "sc.exe" ∷ "net stop" ∷ "net start" ∷ "mkfs"
    ∷ "fdisk" ∷ "useradd" ∷ "usermod" ∷ "passwd" ∷ "sudo " ∷ "runas " ∷ [])

pub data PayloadValue : Type 0 where
  text_value : Text → PayloadValue
  list_value : List Text → PayloadValue
  other_value : PayloadValue

abbrev pub Payload : Type 0
Payload = List (String × PayloadValue)

unfoldable pub payload_get : Payload → String → PayloadValue
payload_get [] key = other_value
payload_get (x ∷ payload) key = if same x.0 key then x.1 else payload_get payload key

unfoldable pub is_prefix : List Text → List Text → Bool
is_prefix [] ys = true
is_prefix (x ∷ xs) [] = false
is_prefix (x ∷ xs) (y ∷ ys) = text_eq x y && is_prefix xs ys

unfoldable pub starts_with : Text → Text → Bool
starts_with s t = text_eq s (take (length s) t)

-- `snippet in text`
unfoldable pub occurs : Text → Text → Bool
occurs s [] = text_eq s []
occurs s (x ∷ t) = starts_with s (x ∷ t) || occurs s t

abbrev value_parts : (Text → Text) → PayloadValue → List Text
value_parts lower (text_value t) = lower t ∷ []
value_parts lower (list_value ts) = map lower ts
value_parts lower other_value = []

unfoldable pub command_parts : (Text → Text) → Payload → List String → List Text
command_parts lower payload [] = []
command_parts lower payload (key ∷ keys) =
    value_parts lower (payload_get payload key) ++ command_parts lower payload keys

unfoldable pub join_spaces : List Text → Text
join_spaces [] = []
join_spaces (t ∷ []) = t
join_spaces (t ∷ u ∷ ts) = t ++ (32 ∷ join_spaces (u ∷ ts))

unfoldable pub first_snippet : List Text → Text → Option Text
first_snippet [] text = none
first_snippet (s ∷ snippets) text = if occurs s text then some s else first_snippet snippets text

unfoldable pub detect_dangerous_command : (Text → Text) → String → Payload → Option Text
detect_dangerous_command lower task_type payload =
    if not (member task_type_level_l2 task_type)
    then none
    else first_snippet dangerous_command_snippets (
        join_spaces
          (command_parts lower payload ("command" ∷ "script" ∷ "args" ∷ "entrypoint" ∷ [])))

unfoldable pub ensure_workdir_allowed : (Text → List Text) → Option Text → List Text → Bool
ensure_workdir_allowed parts none allowed = true
ensure_workdir_allowed parts (some []) allowed = true
ensure_workdir_allowed parts (some (c ∷ t)) [] = true
ensure_workdir_allowed parts (some (c ∷ t)) (a ∷ allowed) =
    any (λ d. is_prefix (parts d) (parts (c ∷ t))) (a ∷ allowed)

unfoldable pub default_timeout : List (String × ℕ) → String → ℕ
default_timeout [] task_type = 3600
default_timeout (x ∷ table) task_type =
    if same x.0 task_type then x.1 else default_timeout table task_type

abbrev pub default_timeout_by_type : List (String × ℕ)
default_timeout_by_type =
    ("health_check", 300)
    ∷ ("git_pull", 600)
    ∷ ("pip_install", 1200)
    ∷ ("download_file", 900)
    ∷ ("upload_and_unpack", 1800)
    ∷ ("start_training", 21600)
    ∷ ("modal_command", 7200)
    ∷ []

unfoldable pub normalize_timeout : String → Option ℕ → ℕ
normalize_timeout task_type (some t) = t
normalize_timeout task_type none = default_timeout default_timeout_by_type task_type
