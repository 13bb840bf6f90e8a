-- ===== src/Config/Tests.antt =====
-- The configuration check at concrete inputs.
use edgehost.Prelude.{◌≡◌, ◌↔◌, refl, true, false, [], some}
use edgehost.Prelude.Text.{text, str_eq, bounded}
use edgehost.Config.{Config, defaults, mode_known, complaint, validate}
use edgehost.Config.Validity.{IsValid, validate_iff}

abbrev no_port : Config
no_port = record defaults { listen_port = 0 }

defaults_pass : validate (some defaults) 96 ≡ (true, [])
unfolding defaults validate complaint mode_known str_eq
defaults_pass = refl

no_port_is_refused : validate (some no_port) 12 ≡ (false, text "listen.port")
unfolding defaults validate complaint bounded
no_port_is_refused = refl

validate_iff_example :
    (((validate (some no_port) 12).0 ≡ true) ↔ IsValid no_port)
    × ((validate (some no_port) 12).0 ≡ true → (validate (some no_port) 12).1 ≡ [])
validate_iff_example = validate_iff no_port 12
