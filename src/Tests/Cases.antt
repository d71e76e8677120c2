-- ===== src/Tests/Cases.antt =====
-- Cases of the program's own tests, run on the model.
use livesh.Prelude.{◌≡◌, refl, true, false, none, some, [], ◌∷◌, ◌++◌, Bytes, codes}
use livesh.Prelude.Result.{ok}
use livesh.Config.{parse_config}
use livesh.Args.{new, upgrade, parse_livesh}
use livesh.Daemon.Env.{matches_strip_prefix}
use livesh.Bridge.Csi.{classify_csi_u, is_kitty_release_event}
use livesh.Bridge.InputFilter.{filter_input, filter_loop}
use livesh.Bridge.KeyboardReset.{output_resets_kitty_keyboard_protocol}
use livesh.Limits.BoundedBytes
use livesh.Tests.Data.{test_filter}

abbrev test_text : Bytes
test_text =
    codes "[shell]"
    ++ (10 ∷ codes "default_name = \"dev\""
        ++ (10 ∷ codes "[limits]"
            ++ (10 ∷ codes "max_shells = 12 # few"
                ++ (10 ∷ codes "[attach]"
                    ++ (10 ∷ codes "single_attached_client = false" ++ (10 ∷ []))))))

parses_config :
    (((parse_config test_text).default_name ≡ codes "dev")
      × ((parse_config test_text).limits.max_shells ≡ 12))
    × ((parse_config test_text).single_attached_client ≡ false)
unfolding parse_config
parses_config = ((refl, refl), refl)

-- A `#` in a quoted text ends the line.
cuts_quoted_text :
    (parse_config (codes "[shell]" ++ (10 ∷ codes "default_name = \"a#b\""))).default_name
    ≡ codes "\"a"
unfolding parse_config
cuts_quoted_text = refl

parses_upgrade :
    parse_livesh (codes "livesh" ∷ codes "upgrade" ∷ codes "--cwd" ∷ codes "/tmp" ∷ [])
    ≡ ok (upgrade none (some (codes "/tmp")))
unfolding parse_livesh
parses_upgrade = refl

parses_fd :
    parse_livesh (codes "livesh" ∷ codes "--state-json-fd" ∷ codes "-1" ∷ [])
    ≡ ok (new none (some (true, 1)) none)
unfolding parse_livesh
parses_fd = refl

matches_only_real_prefix :
    (matches_strip_prefix (codes "CMUX_TAG") (codes "CMUX_" ∷ []) ≡ true)
    × (matches_strip_prefix (codes "CMUXTAG") (codes "CMUX_" ∷ []) ≡ false)
    × (matches_strip_prefix (codes "CMUX_TAG") ([] ∷ []) ≡ false)
unfolding matches_strip_prefix
matches_only_real_prefix = (refl, refl, refl)

drops_stale_releases : (filter_input test_filter (0x1b ∷ codes "[97;1:3ux") 100).1 ≡ codes "x"
unfolding filter_input filter_loop classify_csi_u is_kitty_release_event
drops_stale_releases = refl

keeps_other_reports :
    (filter_input test_filter (0x1b ∷ codes "[97;1:1u") 100).1 ≡ 0x1b ∷ codes "[97;1:1u"
unfolding filter_input filter_loop classify_csi_u is_kitty_release_event
keeps_other_reports = refl

detects_resets :
    (output_resets_kitty_keyboard_protocol (0x1b ∷ codes "[<1u") ≡ true)
    × (output_resets_kitty_keyboard_protocol (0x1b ∷ codes "[=0;1u") ≡ true)
    × (output_resets_kitty_keyboard_protocol (0x1b ∷ codes "[=27;1u") ≡ false)
unfolding output_resets_kitty_keyboard_protocol
detects_resets = (refl, refl, refl)

discards_old_content :
    (BoundedBytes.append
      (BoundedBytes.append (BoundedBytes.new 5) (codes "hello"))
      (codes "!!")).bytes
    ≡ codes "llo!!"
unfolding BoundedBytes.append BoundedBytes.new
discards_old_content = refl
