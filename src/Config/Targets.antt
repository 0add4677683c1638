-- ===== src/Config/Targets.antt =====
-- The profiles of the targets in engine/src/config.rs.
use Prim.Native.String.{String}
use rtmap.Base.{
  ℕ, ◌==◌, ◌≡◌, refl, sym, ap, ◌∙◌, Bool, true, false, List, [], ◌∷◌, ◌++◌, if◌then◌else◌, arith,
  Option, none, some, ◌>>=◌, Bool-cases, ==_iff, Option-cases, inl, inr,
}
use rtmap.Base.KeyMap.{get, insert, IsMap, get-insert, same_self}
use rtmap.Base.Texts.{
  Text, codes, same_text, same_text_iff, text_key, rsplit_once, strip_prefix, parse_u64,
}
use rtmap.Config.{
  TargetProfile, default_profile, Settings, ProjectConfig, set_field, target_key, profile_of,
  add_setting, project_config_from_map, parse_bool, shell_split,
}

-- The key of a field of a target.
abbrev pub key_of : Text → Text → Text
key_of name f = codes "target." ++ (name ++ b'.' ∷ f)

rsplit_once_last :
    (c : ℕ) (a b : Text) → rsplit_once c b ≡ none → rsplit_once c (a ++ c ∷ b) ≡ some (a, b)
rsplit_once_last c [] b h = ground (arith, h)
rsplit_once_last c (d ∷ a) b h = rw (rsplit_once_last c a b h) refl

same_pair :
    {a b a' b' : Text}
    → ◌≡◌ {A = Option (Text × Text)} (some (a, b)) (some (a', b'))
    → (a ≡ a') × (b ≡ b')
same_pair h = (cc, cc)

split_here :
    (t : Bool) (s a b : Text)
    → ◌≡◌ {A = Option (Text × Text)} (if t then some ([], s) else none) (some (a, b))
    → (t ≡ true) × ([] ≡ a) × (s ≡ b)
split_here true s a b h = let (left, right) = same_pair h in (refl, left, right)
split_here false s a b h = cc

rsplit_once_join : (c : ℕ) (s a b : Text) → rsplit_once c s ≡ some (a, b) → s ≡ a ++ c ∷ b
rsplit_once_join c [] a b h = cc
rsplit_once_join c (d ∷ s) a b h = elim (Option-cases (rsplit_once c s)) [
  | inl last ↦
      let (now, left, right) = split_here (d == c) s a b (rw last at h) in
      let here : d ≡ c = (==_iff d c).0 now in λ i. left i ++ here i ∷ right i
  | inr ((a', b'), later) ↦
      let (left, right) = same_pair (rw later at h) in
      ap (◌∷◌ d) (rsplit_once_join c s a' b' later) ∙ (λ i. left i ++ c ∷ right i)
]

strip_prefix_join : (p s r : Text) → strip_prefix p s ≡ some r → s ≡ p ++ r
strip_prefix_join [] s r h = ground (arith, h)
strip_prefix_join (c ∷ p) [] r h = cc
strip_prefix_join (c ∷ p) (d ∷ s) r h = ground (arith, strip_prefix_join p s r)

target_key-key_of :
    (name f : Text) → rsplit_once b'.' f ≡ none → target_key (key_of name f) ≡ some (name, f)
target_key-key_of name f h = rsplit_once_last b'.' name f h

target_key_join : (key name f : Text) → target_key key ≡ some (name, f) → key ≡ key_of name f
target_key_join key name f h = elim (Option-cases (strip_prefix (codes "target.") key)) [
  | inl other ↦ absurd (no_target (sym (rw other refl) ∙ h))
  | inr (r, stripped) ↦
      let behind : rsplit_once b'.' r ≡ some (name, f) = sym (rw stripped refl) ∙ h in
      strip_prefix_join (codes "target.") key r stripped
      ∙ ap (λ t. codes "target." ++ t) (rsplit_once_join b'.' r name f behind)
]
  where
    no_target : {x : Text × Text} → none ≡ some x → ⊥
    no_target h = cc

abbrev or_default : Option TargetProfile → TargetProfile
or_default none = default_profile
or_default (some p) = p

profile-insert :
    (name' name : Text) (p : TargetProfile) (targets : ProjectConfig)
    → profile_of name (insert name' p targets)
      ≡ (if same_text name' name then p else profile_of name targets)
profile-insert name' name p targets =
    ap or_default (get-insert name' name p targets) ∙ push (same_text name' name)
  where
    push :
        (b : Bool)
        → or_default (if b then some p else get name targets)
          ≡ (if b then p else or_default (get name targets))
    push true = refl
    push false = refl

-- One field of a profile: what a setting makes of it, and that the other settings leave it alone.
record IsField {B : Type 0} (f : Text) (field : TargetProfile → B) (value : Text → B) : Type 0 where
  pub plain : rsplit_once b'.' f ≡ none
  pub hits : (v : Text) (p : TargetProfile) → field (set_field f v p) ≡ value v
  pub misses :
      (g v : Text) (p : TargetProfile) → same_text g f ≡ false → field (set_field g v p) ≡ field p

abbrev value_or : {B : Type 0} → (Text → B) → B → Option Text → B
value_or value b none = b
value_or value b (some v) = value v

value_or-some : (o : Option Text) → value_or (λ v. some v) none o ≡ o
value_or-some none = refl
value_or-some (some v) = refl

value_or_parse :
    {B : Type 0} (parse : Text → Option B) (o : Option Text) → value_or parse none o ≡ o >>= parse
value_or_parse parse none = refl
value_or_parse parse (some v) = refl

module _ {B : Type 0} (f : Text) (field : TargetProfile → B) (value : Text → B)
    (is_field : IsField f field value) where
  no_truth : true ≡ false → ⊥
  no_truth h = cc

  other_setting :
      (name key val : Text) (targets : ProjectConfig)
      → same_text key (key_of name f) ≡ false
      → field (profile_of name (add_setting (target_key key) val targets))
        ≡ field (profile_of name targets)
  other_setting name key val targets other =
      by_key (target_key key) (λ name' g h. target_key_join key name' g h)
    where
      by_key :
          (o : Option (Text × Text))
          → ((name' g : Text) → o ≡ some (name', g) → key ≡ key_of name' g)
          → field (profile_of name (add_setting o val targets)) ≡ field (profile_of name targets)
      by_key none join = refl
      by_key (some (name', g)) join = elim (Bool-cases (same_text name' name)) [
        | inl mine ↦
            let name_eq = (same_text_iff name' name).0 mine in
            ap field (profile-insert name' name _ targets ∙ rw mine refl)
            ∙ is_field.misses g val (profile_of name' targets) (no_hit name_eq)
            ∙ ap (λ n. field (profile_of n targets)) name_eq
        | inr its ↦ ap field (profile-insert name' name _ targets ∙ rw its refl)
      ]
        where
          no_hit : name' ≡ name → same_text g f ≡ false
          no_hit e = elim (Bool-cases (same_text g f)) [
            | inl hit ↦
                let key_eq : key ≡ key_of name f =
                  join name' g refl ∙ (λ i. key_of (e i) ((same_text_iff g f).0 hit i)) in
                absurd (no_truth (sym ((same_text_iff key (key_of name f)).1 key_eq) ∙ other))
            | inr miss ↦ miss
          ]

  project_config-field :
      (name : Text) (m : Settings) (targets : ProjectConfig)
      → IsMap m
      → field (profile_of name (project_config_from_map m targets))
        ≡ value_or value (field (profile_of name targets)) (get (key_of name f) m)
  unfolding project_config_from_map
  project_config-field name [] targets u = refl
  project_config-field name ((key, val) ∷ m) targets u =
      elim (Bool-cases (same_text key (key_of name f))) [
        | inl here ↦
            let key_eq = (same_text_iff key (key_of name f)).0 here in
            let target = ap target_key key_eq ∙ target_key-key_of name f is_field.plain in
            let absent : get (key_of name f) m ≡ none = (λ i. get (sym key_eq i) m) ∙ u.0 in
            let p = profile_of name targets in
            project_config-field name m (add_setting (target_key key) val targets) u.1
            ∙ ap
                (value_or value
                  (field (profile_of name (add_setting (target_key key) val targets))))
                absent
            ∙ ap (λ k. field (profile_of name (add_setting k val targets))) target
            ∙ ap field
                (profile-insert name name (set_field f val p) targets ∙ rw (same_self name) refl)
            ∙ is_field.hits val p
            ∙ sym (rw here refl)
        | inr other ↦ rw other (
            project_config-field name m (add_setting (target_key key) val targets) u.1
            ∙ ap (λ x. value_or value x (get (key_of name f) m))
                (other_setting name key val targets other))
      ]

tripwire-IsField : IsField {B = Option Text} (codes "tripwire") (λ p. p.tripwire) (λ v. some v)
unfolding set_field
tripwire-IsField = record {
  plain = refl;
  hits = λ v p. refl;
  misses = λ g v p h. ground (arith, h);
}

args-IsField : IsField {B = List Text} (codes "args") (λ p. p.args) (shell_split)
unfolding set_field
args-IsField = record { plain = refl; hits = λ v p. refl; misses = λ g v p h. ground (arith, h) }

topology-IsField : IsField {B = Option Text} (codes "topology") (λ p. p.topology) (λ v. some v)
unfolding set_field
topology-IsField = record {
  plain = refl;
  hits = λ v p. refl;
  misses = λ g v p h. ground (arith, h);
}

heatmap-IsField : IsField {B = Option Text} (codes "heatmap") (λ p. p.heatmap) (λ v. some v)
unfolding set_field
heatmap-IsField = record { plain = refl; hits = λ v p. refl; misses = λ g v p h. ground (arith, h) }

coverage-IsField : IsField {B = Option Text} (codes "coverage") (λ p. p.coverage) (λ v. some v)
unfolding set_field
coverage-IsField = record {
  plain = refl;
  hits = λ v p. refl;
  misses = λ g v p h. ground (arith, h);
}

no_bb-IsField : IsField {B = Option Bool} (codes "no_bb") (λ p. p.no_bb) (parse_bool)
unfolding set_field
no_bb-IsField = record { plain = refl; hits = λ v p. refl; misses = λ g v p h. ground (arith, h) }

min_events-IsField : IsField {B = Option ℕ} (codes "min_events") (λ p. p.min_events) (parse_u64)
unfolding set_field
min_events-IsField = record {
  plain = refl;
  hits = λ v p. refl;
  misses = λ g v p h. ground (arith, h);
}

-- The value of a field of a target among the settings.
abbrev pub setting : Text → String → Settings → Option Text
setting name f m = get (key_of name (codes f)) m

-- A target's profile has exactly what the settings say of it: each field is that of the key
-- `target.<name>.<field>`, whatever the order of the settings, or the default where no such key is.
pub project_config-profile :
    (name : Text) (m : Settings)
    → IsMap m
    → profile_of name (project_config_from_map m []) ≡ record {
      tripwire = setting name "tripwire" m;
      args = elim (setting name "args" m) [ none ↦ [] | some v ↦ shell_split v ];
      topology = setting name "topology" m;
      heatmap = setting name "heatmap" m;
      coverage = setting name "coverage" m;
      no_bb = setting name "no_bb" m >>= parse_bool;
      min_events = setting name "min_events" m >>= parse_u64;
    }
project_config-profile name m u = λ i. record {
  tripwire = text (codes "tripwire") (λ p. p.tripwire) tripwire-IsField refl i;
  args = project_config-field (codes "args") (λ p. p.args) shell_split args-IsField name m [] u i;
  topology = text (codes "topology") (λ p. p.topology) topology-IsField refl i;
  heatmap = text (codes "heatmap") (λ p. p.heatmap) heatmap-IsField refl i;
  coverage = text (codes "coverage") (λ p. p.coverage) coverage-IsField refl i;
  no_bb = parsed (codes "no_bb") (λ p. p.no_bb) parse_bool no_bb-IsField refl i;
  min_events = parsed (codes "min_events") (λ p. p.min_events) parse_u64 min_events-IsField refl i;
}
  where
    parsed :
        {B : Type 0} (f : Text) (field : TargetProfile → Option B) (parse : Text → Option B)
        → IsField f field parse
        → field default_profile ≡ none
        → field (profile_of name (project_config_from_map m [])) ≡ (get (key_of name f) m >>= parse)
    parsed f field parse is_field empty =
        project_config-field f field parse is_field name m [] u
        ∙ ap (λ b. value_or parse b (get (key_of name f) m)) empty
        ∙ value_or_parse parse (get (key_of name f) m)

    text :
        (f : Text) (field : TargetProfile → Option Text)
        → IsField f field (λ v. some v)
        → field default_profile ≡ none
        → field (profile_of name (project_config_from_map m [])) ≡ get (key_of name f) m
    text f field is_field empty =
        project_config-field f field (λ v. some v) is_field name m [] u
        ∙ ap (λ b. value_or (λ v. some v) b (get (key_of name f) m)) empty
        ∙ value_or-some (get (key_of name f) m)
