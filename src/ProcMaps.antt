-- ===== src/ProcMaps.antt =====
-- engine/src/proc_maps.rs: the lines of /proc/<pid>/maps, and the regions that several processes map.
-- Reading the file is a parameter: what it holds for a process, or nothing where that fails. The lines
-- are taken to be ASCII, so that a text's bytes are its code points.
pub mod Pids
pub mod Shared
use rtmap.Base.{
  ℕ, ◌+◌, ◌-◌, ◌*◌, ◌^◌, ◌≡◌, ◌↔◌, ◌<◌, arith, Bool, true, ◌&&◌, List, [], ◌∷◌, ◌++◌, map, Option,
  none, some, ◌==◌, ltb, leb, if◌then◌else◌, length, take, get_or, ◌>>=◌,
}
use rtmap.Base.KeyMap.{Key, KeyMap, get, insert}
use rtmap.Base.Texts.{Text, is_whitespace, trim, split_once, lines, parse_u64, parse_hex}

pub record DevInode : Type 0 where
  pub dev_major : ℕ
  pub dev_minor : ℕ
  pub inode : ℕ

unfoldable pub same_inode : DevInode → DevInode → Bool
same_inode d e =
    (d.dev_major == e.dev_major) && (d.dev_minor == e.dev_minor) && (d.inode == e.inode)

pub record MapEntry : Type 0 where
  pub start : ℕ
  pub end : ℕ
  pub perms : Text
  pub offset : ℕ
  pub dev_inode : DevInode
  pub path : Text

pub is_writable : MapEntry → Bool
is_writable e = get_or e.perms 1 0 == b'w'

pub is_shared : MapEntry → Bool
is_shared e = get_or e.perms 3 0 == b's'

-- `next` of `splitn(6, char::is_whitespace)`, but for the sixth: a part, and what follows it.
abbrev pub next_part : Text → Text × Option Text
next_part [] = ([], none)
next_part (c ∷ s) =
    let (part, rest) : Text × Option Text = next_part s in
    if is_whitespace c then ([], some s) else (c ∷ part, rest)

abbrev pub or_empty : Option Text → Text
or_empty none = []
or_empty (some s) = s

unfoldable pub parse_map_line : Text → Option MapEntry
parse_map_line line =
    let (range, rest) : Text × Option Text = next_part line in
    split_once b'-' range >>= λ ends. parse_hex 64 ends.0 >>= λ start.
    parse_hex 64 ends.1 >>= λ end. rest >>= λ line.
    let (perms, rest) : Text × Option Text = next_part line in
    (if ltb (length perms) 4 then none else some (take 4 perms)) >>= λ perms. rest >>= λ line.
    let (offset, rest) : Text × Option Text = next_part line in
    parse_hex 64 offset >>= λ offset. rest >>= λ line.
    let (dev, rest) : Text × Option Text = next_part line in
    split_once b':' dev >>= λ dev. parse_hex 32 dev.0 >>= λ major. parse_hex 32 dev.1 >>= λ minor.
    rest >>= λ line.
    let (inode, rest) : Text × Option Text = next_part line in
    parse_u64 (trim inode) >>= λ inode. some (record {
      start = start;
      end = end;
      perms = perms;
      offset = offset;
      dev_inode = record { dev_major = major; dev_minor = minor; inode = inode };
      path = trim (or_empty rest);
    })

abbrev pub parsed_lines : List Text → List MapEntry
parsed_lines [] = []
parsed_lines (l ∷ ls) = elim (parse_map_line l) [
  | none ↦ parsed_lines ls
  | some e ↦ e ∷ parsed_lines ls
]

pub record Mapping : Type 0 where
  pub pid : ℕ
  pub start_addr : ℕ
  pub end_addr : ℕ

pub record SharedRegion : Type 0 where
  pub dev_inode : DevInode
  pub path : Text
  pub mappings : List Mapping

pub same_inode_iff : (d e : DevInode) → (same_inode d e ≡ true) ↔ (d ≡ e)
unfolding same_inode
same_inode_iff d e =
    (λ h. inode_path d e (ground arith) (ground arith) (ground arith), λ h. path_inode d e h)
  where
    path_inode : (d e : DevInode) → d ≡ e → same_inode d e ≡ true
    path_inode d e h =
        let a : d.dev_major ≡ e.dev_major = λ i. (h i).dev_major in
        let b : d.dev_minor ≡ e.dev_minor = λ i. (h i).dev_minor in
        let c : d.inode ≡ e.inode = λ i. (h i).inode in ground arith

    inode_path :
        (d e : DevInode)
        → d.dev_major ≡ e.dev_major
        → d.dev_minor ≡ e.dev_minor
        → d.inode ≡ e.inode
        → d ≡ e
    inode_path d e a b c = λ i. record { dev_major = a i; dev_minor = b i; inode = c i }

-- `sort_unstable`, then `dedup`.
abbrev pub sort_into : ℕ → List ℕ → List ℕ
sort_into x [] = x ∷ []
sort_into x (y ∷ ys) = if leb x y then x ∷ y ∷ ys else y ∷ sort_into x ys

abbrev pub sort_unstable : List ℕ → List ℕ
sort_unstable [] = []
sort_unstable (x ∷ xs) = sort_into x (sort_unstable xs)

abbrev pub dedup : List ℕ → List ℕ
dedup [] = []
dedup (x ∷ []) = x ∷ []
dedup (x ∷ y ∷ ys) = let rest = dedup (y ∷ ys) in if x == y then rest else x ∷ rest

abbrev pub seen_pids : List Mapping → List ℕ
seen_pids ms = dedup (sort_unstable (map (λ m. m.pid) ms))

-- The index of `detect_shared_regions`: for an inode, the path it is first seen with, and its mappings.
abbrev pub RegionIndex : Type 0
RegionIndex = KeyMap DevInode (Text × List Mapping)

instance abbrev pub inode_key : Key DevInode
inode_key = record { same = same_inode; same_iff = same_inode_iff }

-- The path stays that of the first entry.
abbrev pub push_mapping : ℕ → MapEntry → Option (Text × List Mapping) → Text × List Mapping
push_mapping pid e none =
    (e.path, record { pid = pid; start_addr = e.start; end_addr = e.end } ∷ [])
push_mapping pid e (some p) =
    (p.0, p.1 ++ record { pid = pid; start_addr = e.start; end_addr = e.end } ∷ [])

abbrev pub add_entry : ℕ → MapEntry → RegionIndex → RegionIndex
add_entry pid e m =
    if e.dev_inode.inode == 0
    then m
    else insert e.dev_inode (push_mapping pid e (get e.dev_inode m)) m

abbrev pub add_entries : ℕ → List MapEntry → RegionIndex → RegionIndex
add_entries pid [] m = m
add_entries pid (e ∷ es) m = add_entries pid es (add_entry pid e m)

abbrev pub to_regions : RegionIndex → List SharedRegion
to_regions [] = []
to_regions ((di, (path, mappings)) ∷ m) =
    let rest = to_regions m in
    if leb 2 (length (seen_pids mappings))
    then record { dev_inode = di; path = path; mappings = mappings } ∷ rest
    else rest

module _ (read_to_string : ℕ → Option Text) where
  abbrev pub read_maps : ℕ → Option (List MapEntry)
  read_maps pid = read_to_string pid >>= λ content. some (parsed_lines (lines content))

  abbrev pub index_from : List ℕ → RegionIndex → RegionIndex
  index_from [] m = m
  index_from (pid ∷ pids) m = elim (read_maps pid) [
    | none ↦ index_from pids m
    | some entries ↦ index_from pids (add_entries pid entries m)
  ]

  pub detect_shared_regions : List ℕ → List SharedRegion
  detect_shared_regions pids = to_regions (index_from pids [])
