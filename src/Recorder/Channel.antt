-- ===== src/Recorder/Channel.antt =====
-- services/hikvision_service.py, `extract_channel_id`.
pub mod Trailing
use atm_monitoring_agent.Prelude.{ℕ, Bool, true, false, Option, none, some, List, [], ◌∷◌, ◌==◌}
use atm_monitoring_agent.ParserModels.{Text}
use atm_monitoring_agent.TextOps.{text, is_digit, int, newline}
use atm_monitoring_agent.TextOps.Pattern.{◌>>=◌, guard, lit, run1, search_for}

-- `$` without MULTILINE: at the end, or before a newline that ends the text
unfoldable pub at_end : Text → Bool
at_end [] = true
at_end (c ∷ []) = c == newline
at_end (c ∷ d ∷ cs) = false

-- `(\d+)$`
unfoldable pub last_number : Text → Option Text
last_number t = do (digits, rest) ← run1 is_digit t; ended ← guard (at_end rest); some digits

-- a literal and `(\d+)$`
unfoldable pub marked_number : Text → Text → Option Text
marked_number marker t = do inner ← lit marker t; last_number inner

abbrev pub first_found : Option Text → Option Text → Option Text → ℕ
first_found (some ds) b c = int ds
first_found none (some ds) c = int ds
first_found none none (some ds) = int ds
first_found none none none = 1

unfoldable pub extract_channel_id : Text → ℕ
extract_channel_id cam_name =
    first_found (search_for (marked_number (text "-CAM-")) cam_name)
      (search_for (marked_number (text "-CAM")) cam_name) (search_for last_number cam_name)
