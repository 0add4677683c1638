-- ===== src/Tests/Configs.antt =====
-- The configuration of engine/src/config.rs at concrete inputs.
use rtmap.Base.{◌≡◌, refl, [], ◌∷◌, none, some, ◌>>=◌}
use rtmap.Base.Texts.{codes, text_key, parse_u64}
use rtmap.Config.{Settings, shell_split, project_config_from_map, profile_of, parse_bool}
use rtmap.Config.Args.{command_line, shell_split-command_line}
use rtmap.Config.Targets.{setting, project_config-profile}

shell_split-command_line_example :
    shell_split (command_line (codes "--msg" ∷ codes "say \"hi\" \\o/" ∷ [] ∷ []))
    ≡ codes "--msg" ∷ codes "say \"hi\" \\o/" ∷ []
shell_split-command_line_example =
    shell_split-command_line (codes "--msg" ∷ codes "say \"hi\" \\o/" ∷ [] ∷ [])

abbrev settings : Settings
settings =
    (codes "target.redis.min_events", codes "40")
    ∷ (codes "target.my.app.args", codes "--port 1")
    ∷ (codes "target.redis.tripwire", codes "aeMain")
    ∷ []

project_config-profile_example :
    profile_of (codes "redis") (project_config_from_map settings []) ≡ record {
      tripwire = setting (codes "redis") "tripwire" settings;
      args = elim (setting (codes "redis") "args" settings) [ none ↦ [] | some v ↦ shell_split v ];
      topology = setting (codes "redis") "topology" settings;
      heatmap = setting (codes "redis") "heatmap" settings;
      coverage = setting (codes "redis") "coverage" settings;
      no_bb = setting (codes "redis") "no_bb" settings >>= parse_bool;
      min_events = setting (codes "redis") "min_events" settings >>= parse_u64;
    }
project_config-profile_example =
    project_config-profile (codes "redis") settings (refl, (refl, (refl, tt)))
