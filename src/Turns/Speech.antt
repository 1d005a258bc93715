-- ===== src/Turns/Speech.antt =====
-- What counts as speech (src/bearpit/warden/turns.py, `_short_name`, `_is_status`,
-- `_speech_text`). Python's text functions and its regular expressions are parameters.
use bearpit.Base.{
  ℕ, zero, suc, String, Bool, false, ◌||◌, Option, none, some, List, [], ◌∷◌, ◌==◌, eqb, leb, ltb,
  if◌then◌else◌, any, is_some, ◌+++◌, strip_prefix, or_else,
}
use Prim.Native.Char.{code}
use bearpit.Turns.State.{Config}

pub record Text : Type 0 where
  -- `str.strip`, and the same with the blank characters that the runtime posts.
  pub strip : String → String
  pub strip_blank : String → String
  -- `" ".join(s.split())` and `str.lower`
  pub squeeze : String → String
  pub lower : String → String
  -- `_RUNTIME_ERROR_RE.match`, `_TOOL_CALL_BLOCK_RE.sub("", ...)`
  pub is_runtime_error : String → Bool
  pub without_blocks : String → String
  -- `_TOOL_CALL_MARK_RE.search`: the text before the first mark, if there is one.
  pub before_mark : String → Option String

-- The list also has the gear and the clock followed by a variation selector: the bare signs are
-- prefixes of these.
abbrev status_prefixes : List String
status_prefixes = "📚" ∷ "⏳" ∷ "⚡" ∷ "❌" ∷ "🛠" ∷ "🔧" ∷ "⚙" ∷ "🔍" ∷ "💻" ∷ "⏱" ∷ []

-- The warning sign counts only with the variation selector U+FE0F after it.
abbrev selector_first : Option String → Bool
selector_first none = false
selector_first (some String.[]) = false
selector_first (some (String.◌∷◌ c s)) = eqb (code c) 65039

abbrev pub text_length : String → ℕ
text_length String.[] = 0
text_length (String.◌∷◌ c s) = suc (text_length s)

abbrev pub text_take : ℕ → String → String
text_take zero s = String.[]
text_take (suc n) String.[] = String.[]
text_take (suc n) (String.◌∷◌ c s) = String.◌∷◌ c (text_take n s)

-- `s.split(":")[0]`
abbrev before_colon : String → String
before_colon String.[] = String.[]
before_colon (String.◌∷◌ c s) = if eqb (code c) 58 then String.[] else String.◌∷◌ c (before_colon s)

-- `s.lstrip("@")`
abbrev without_at : String → String
without_at String.[] = String.[]
without_at (String.◌∷◌ c s) = if eqb (code c) 64 then without_at s else String.◌∷◌ c s

-- `s.split("-")[-1]`, given what the last part is so far.
abbrev last_part : String → String → String
last_part so_far String.[] = so_far
last_part so_far (String.◌∷◌ c s) =
    if eqb (code c) 45
    then last_part String.[] s
    else last_part (so_far +++ String.◌∷◌ c String.[]) s

-- The agent's id in a participant's name `@<realm>-<agent>:host`.
unfoldable pub short_name : String → String → String
short_name mxid realm_id =
    let name = without_at (before_colon mxid) in
    let guess = last_part String.[] name in
    if realm_id == "" then guess else or_else (strip_prefix (realm_id +++ "-") name) guess

unfoldable pub is_status : Text → String → Bool
is_status text body =
    any (λ p. is_some (strip_prefix p (text.strip body))) status_prefixes
    || selector_first (strip_prefix "⚠" (text.strip body))
    || text.is_runtime_error (text.strip body)

abbrev min_speech_chars : ℕ
min_speech_chars = 20

-- A statement is left after the tool calls were taken out, if it is long enough.
abbrev long_enough : String → String
long_enough t = if leb min_speech_chars (text_length t) then t else ""

abbrev without_calls : Text → String → Option String → String
without_calls text body none = body
without_calls text body (some _) =
    let rest = text.without_blocks body in
    long_enough (text.strip (or_else (text.before_mark rest) rest))

-- The spoken part of a message; empty where nothing was said.
unfoldable pub speech_text : Text → String → String
unfolding is_status
speech_text text body =
    if is_status text body
    then ""
    else if text.strip_blank body == ""
    then ""
    else without_calls text body (text.before_mark body)

abbrev recent_msg_chars : ℕ
recent_msg_chars = 500

-- A line of the history that the holder of the floor is given.
unfoldable pub context_line : Text → Config → String × String → String × String
context_line text cfg (sender, body) =
    let t = text.squeeze body in
    (
      short_name sender cfg.realm,
      if ltb recent_msg_chars (text_length t) then text_take recent_msg_chars t +++ "…" else t,
    )
