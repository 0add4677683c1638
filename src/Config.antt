-- ===== src/Config.antt =====
-- The configuration files of engine/src/config.rs. Reading a file is a parameter of what needs it.
pub mod Args
pub mod Targets
use rtmap.Base.{
  ℕ, ◌==◌, Bool, true, false, not, ◌&&◌, ◌||◌, List, [], ◌∷◌, ◌++◌, Option, none, some,
  if◌then◌else◌, ◌>>=◌,
}
use rtmap.Base.KeyMap.{KeyMap, get, insert}
use rtmap.Base.Texts.{
  Text, codes, same_text, text_key, is_empty, trim, first_is, split_once, rsplit_once, strip_prefix,
  lines, parse_u64, to_lowercase,
}

pub record Config : Type 0 where
  pub dynamorio_home : Option Text
  pub tracer_path : Option Text
  pub drrun_path : Option Text
  pub default_topology : Option Bool
  pub default_heatmap : Option Bool
  pub default_coverage : Option Bool
  pub default_no_bb : Option Bool
  pub default_min_events : Option ℕ
  pub include : Option Text

pub record TargetProfile : Type 0 where
  pub tripwire : Option Text
  pub args : List Text
  pub topology : Option Text
  pub heatmap : Option Text
  pub coverage : Option Text
  pub no_bb : Option Bool
  pub min_events : Option ℕ

abbrev pub default_profile : TargetProfile
default_profile = record {
  tripwire = none;
  args = [];
  topology = none;
  heatmap = none;
  coverage = none;
  no_bb = none;
  min_events = none;
}

-- `HashMap<String, String>`
abbrev pub Settings : Type 0
Settings = KeyMap Text Text

-- `HashMap<String, TargetProfile>`
abbrev pub ProjectConfig : Type 0
ProjectConfig = KeyMap Text TargetProfile

abbrev pub insert_pair : Option (Text × Text) → Settings → Settings
insert_pair none m = m
insert_pair (some (key, val)) m = insert (trim key) (trim val) m

-- One turn of the loop over the lines.
abbrev pub parse_line : Text → Settings → Settings
parse_line raw m =
    let line = trim raw in
    if is_empty line || first_is b'#' line then m else insert_pair (split_once b'=' line) m

abbrev pub parse_lines : List Text → Settings → Settings
parse_lines [] m = m
parse_lines (l ∷ ls) m = parse_lines ls (parse_line l m)

pub parse_flat_config : Text → Settings
parse_flat_config contents = parse_lines (lines contents) []

pub parse_bool : Text → Option Bool
parse_bool s =
    let low = to_lowercase s in
    if same_text low (codes "true")
      || same_text low (codes "1")
      || same_text low (codes "yes")
      || same_text low (codes "on")
    then some true
    else if same_text low (codes "false")
        || same_text low (codes "0")
        || same_text low (codes "no")
        || same_text low (codes "off")
    then some false
    else none

pub config_from_map : Settings → Config
config_from_map m = record {
  dynamorio_home = get (codes "paths.dynamorio_home") m;
  tracer_path = get (codes "paths.tracer") m;
  drrun_path = get (codes "paths.drrun") m;
  default_topology = get (codes "defaults.topology") m >>= parse_bool;
  default_heatmap = get (codes "defaults.heatmap") m >>= parse_bool;
  default_coverage = get (codes "defaults.coverage") m >>= parse_bool;
  default_no_bb = get (codes "defaults.no_bb") m >>= parse_bool;
  default_min_events = get (codes "defaults.min_events") m >>= parse_u64;
  include = get (codes "include") m;
}

abbrev pub or_else {ℓ} : {A : Type ℓ} → Option A → Option A → Option A
or_else none b = b
or_else (some a) b = some a

pub merge_config : Config → Config → Config
merge_config base overlay = record {
  dynamorio_home = or_else overlay.dynamorio_home base.dynamorio_home;
  tracer_path = or_else overlay.tracer_path base.tracer_path;
  drrun_path = or_else overlay.drrun_path base.drrun_path;
  default_topology = or_else overlay.default_topology base.default_topology;
  default_heatmap = or_else overlay.default_heatmap base.default_heatmap;
  default_coverage = or_else overlay.default_coverage base.default_coverage;
  default_no_bb = or_else overlay.default_no_bb base.default_no_bb;
  default_min_events = or_else overlay.default_min_events base.default_min_events;
  include = or_else overlay.include base.include;
}

-- The four flags and the current argument of `shell_split`.
pub record Splitter : Type 0 where
  pub current : Text
  pub in_single : Bool
  pub in_double : Bool
  pub escape_next : Bool

abbrev pub at_start : Splitter
at_start = record { current = []; in_single = false; in_double = false; escape_next = false }

abbrev pub push_char : ℕ → Splitter → Splitter
push_char c s = record s { current = s.current ++ c ∷ [] }

-- The argument that is complete, unless it is empty, before the ones that follow.
abbrev pub push_arg : Text → List Text → List Text
push_arg current args = if is_empty current then args else current ∷ args

-- The loop over the characters: the arguments from here on.
pub split_from : Splitter → Text → List Text
split_from s [] = push_arg s.current []
split_from s (c ∷ cs) =
    if s.escape_next
    then split_from (record (push_char c s) { escape_next = false }) cs
    else if (c == b'\\') && not s.in_single
    then split_from (record s { escape_next = true }) cs
    else if (c == b'\'') && not s.in_double
    then split_from (record s { in_single = not s.in_single }) cs
    else if (c == b'"') && not s.in_single
    then split_from (record s { in_double = not s.in_double }) cs
    else if ((c == b' ') || (c == b'\t')) && not s.in_single && not s.in_double
    then push_arg s.current (split_from (record s { current = [] }) cs)
    else split_from (push_char c s) cs

pub shell_split : Text → List Text
unfolding split_from
shell_split s = split_from at_start s

-- The field of a profile that a key names.
pub set_field : Text → Text → TargetProfile → TargetProfile
unfolding parse_bool shell_split
set_field field val p =
    if same_text field (codes "tripwire")
    then record p { tripwire = some val }
    else if same_text field (codes "args")
    then record p { args = shell_split val }
    else if same_text field (codes "topology")
    then record p { topology = some val }
    else if same_text field (codes "heatmap")
    then record p { heatmap = some val }
    else if same_text field (codes "coverage")
    then record p { coverage = some val }
    else if same_text field (codes "no_bb")
    then record p { no_bb = parse_bool val }
    else if same_text field (codes "min_events")
    then record p { min_events = parse_u64 val }
    else p

-- `target.<name>.<field>`: the field stands behind the last dot.
abbrev pub target_key : Text → Option (Text × Text)
target_key key = strip_prefix (codes "target.") key >>= rsplit_once b'.'

-- `entry(name).or_default()`
abbrev pub profile_of : Text → ProjectConfig → TargetProfile
profile_of name targets = elim (get name targets) [ none ↦ default_profile | some p ↦ p ]

-- One turn of the loop over the settings.
abbrev pub add_setting : Option (Text × Text) → Text → ProjectConfig → ProjectConfig
add_setting none val targets = targets
add_setting (some (name, field)) val targets =
    insert name (set_field field val (profile_of name targets)) targets

-- The settings in the order in which the map gives them, which is any.
pub project_config_from_map : Settings → ProjectConfig → ProjectConfig
unfolding set_field
project_config_from_map [] targets = targets
project_config_from_map ((key, val) ∷ m) targets =
    project_config_from_map m (add_setting (target_key key) val targets)

module _ (read_to_string : Text → Option Text) where
  -- A file that is missing or cannot be read counts for nothing.
  pub load_config_from_path : Text → Config
  unfolding parse_flat_config config_from_map merge_config
  load_config_from_path path = elim (read_to_string path) [
    | none ↦ config_from_map []
    | some contents ↦
        let cfg = config_from_map (parse_flat_config contents) in
        elim (cfg.include >>= read_to_string) [
          | none ↦ cfg
          | some inc ↦ merge_config (config_from_map (parse_flat_config inc)) cfg
        ]
  ]

  pub load_project_config : Option Text → Config × ProjectConfig
  unfolding parse_flat_config config_from_map project_config_from_map
  load_project_config found = elim (found >>= read_to_string) [
    | none ↦ (config_from_map [], [])
    | some contents ↦
        let m = parse_flat_config contents in (config_from_map m, project_config_from_map m [])
  ]

  -- `found` is the `.rtmap` that the search upward found.
  pub resolve_config : Text → Option Text → Config × ProjectConfig
  unfolding load_config_from_path load_project_config merge_config
  resolve_config global_path found =
      let (proj, targets) = load_project_config found in
      (merge_config (load_config_from_path global_path) proj, targets)

-- `file_name` is the last component of a path, if it has one.
pub resolve_target_profile : (Text → Option Text) → ProjectConfig → Text → Option TargetProfile
resolve_target_profile file_name targets target = elim (get target targets) [
  | none ↦ get (elim (file_name target) [ none ↦ target | some base ↦ base ]) targets
  | some p ↦ some p
]
