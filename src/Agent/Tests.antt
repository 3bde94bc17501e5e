-- ===== src/Agent/Tests.antt =====
-- Conversations on which the repair and the trimming run, and the theorems at them.
use wotbot.Base.{◌≡◌, refl, false, none, some, List, [], ◌∷◌, ◌++◌, length, keep_if}
use wotbot.Json.{null}
use wotbot.Agent.Messages.{Message, human, system, ai, tool, ToolCall}
use wotbot.Agent.Sanitize.{leading_tools, sanitize}
use wotbot.Agent.Sanitize.Pairing.{
  IsPaired, sanitize-IsPaired, sanitize-eq_of_IsPaired, sanitize-sanitize, is_plain,
  keep_plain-sanitize, sanitize_keeps_run,
}
use wotbot.Agent.Sanitize.Strays.{NoStray, sanitize-NoStray}
use wotbot.Agent.Units.{group_units, join, join-group_units}
use wotbot.Agent.Trim.{fit_units, trim_conversation}
use wotbot.Agent.Trim.Fits.{Fit, fit_units-Fit}
use wotbot.Agent.Trim.Whole.{trim_conversation-IsPaired}

abbrev call : ToolCall
call = record { id = some "a"; name = "run_code"; args = null }

abbrev unanswered : ToolCall
unanswered = record { id = some "b"; name = "things_search"; args = null }

abbrev question : Message
question = human none null

abbrev result : Message
result = tool none null "a" (some "run_code")

abbrev stray : Message
stray = tool none null "z" none

abbrev asks : List ToolCall → Message
asks ts = ai none null ts []

-- One of two calls is answered, and a result without a call stands at the front.
abbrev broken : List Message
broken = stray ∷ question ∷ asks (call ∷ unanswered ∷ []) ∷ result ∷ asks [] ∷ []

abbrev repaired : List Message
repaired = question ∷ asks (call ∷ []) ∷ result ∷ asks [] ∷ []

sanitize-broken : sanitize broken ≡ repaired
unfolding sanitize
sanitize-broken = refl

-- A result behind an answered call stays, though it answers no call.
sanitize-stray :
    sanitize (question ∷ asks (call ∷ []) ∷ result ∷ stray ∷ [])
    ≡ question ∷ asks (call ∷ []) ∷ result ∷ stray ∷ []
unfolding sanitize
sanitize-stray = refl

group_units-repaired :
    group_units repaired ≡ (question ∷ []) ∷ (asks (call ∷ []) ∷ result ∷ []) ∷ (asks [] ∷ []) ∷ []
unfolding group_units
group_units-repaired = refl

-- With room for one message only, the newest unit and the latest human one are kept.
trim_conversation-tight :
    trim_conversation length (λ m. m) (λ _. false) 1 broken ≡ question ∷ asks [] ∷ []
unfolding trim_conversation
trim_conversation-tight = refl

trim_conversation-roomy :
    trim_conversation length (λ m. m) (λ _. false) 3 (system none null ∷ broken) ≡ repaired
unfolding trim_conversation
trim_conversation-roomy = refl

sanitize-IsPaired_example : IsPaired (sanitize broken)
sanitize-IsPaired_example = sanitize-IsPaired broken

repaired-IsPaired : IsPaired repaired
unfolding leading_tools
repaired-IsPaired = record { calls = ((refl, tt), (tt, tt)); results = (refl, tt) }

sanitize-eq_of_IsPaired_example : sanitize repaired ≡ repaired
sanitize-eq_of_IsPaired_example = sanitize-eq_of_IsPaired repaired repaired-IsPaired

sanitize-sanitize_example : sanitize (sanitize broken) ≡ sanitize broken
sanitize-sanitize_example = sanitize-sanitize broken

keep_plain-sanitize_example : keep_if is_plain (sanitize broken) ≡ question ∷ asks [] ∷ []
keep_plain-sanitize_example = keep_plain-sanitize broken

sanitize_keeps_run_example :
    sanitize (asks (call ∷ []) ∷ result ∷ stray ∷ question ∷ [])
    ≡ asks (call ∷ [])
      ∷ (leading_tools (result ∷ stray ∷ question ∷ [])
          ++ sanitize (result ∷ stray ∷ question ∷ []))
unfolding leading_tools
sanitize_keeps_run_example =
    sanitize_keeps_run none null call [] [] (result ∷ stray ∷ question ∷ []) (refl, tt)

broken-NoStray : NoStray broken
unfolding leading_tools
broken-NoStray = ((refl, tt), tt)

sanitize-NoStray_example : NoStray (sanitize broken)
sanitize-NoStray_example = sanitize-NoStray broken broken-NoStray

join-group_units_example : join (group_units broken) ≡ broken
join-group_units_example = join-group_units broken

abbrev two_units : List (List Message)
two_units = (question ∷ []) ∷ (asks (call ∷ []) ∷ result ∷ []) ∷ []

fit_units-Fit_example :
    Fit length 2
      (two_units ++ (asks [] ∷ []) ∷ [])
      (fit_units length 2 (two_units ++ (asks [] ∷ []) ∷ []))
fit_units-Fit_example = fit_units-Fit length 2 two_units (asks [] ∷ [])

trim_conversation-IsPaired_example :
    IsPaired (trim_conversation length (λ m. m) (λ _. false) 2 broken)
trim_conversation-IsPaired_example =
    trim_conversation-IsPaired length (λ m. m) (λ _. false) 2 broken broken-NoStray
