-- ===== src/ProcMaps/Shared.antt =====
-- `detect_shared_regions` of engine/src/proc_maps.rs: which regions it finds, and with which mappings.
use rtmap.Base.{
  ℕ, ◌≡◌, refl, sym, ◌∙◌, ap, Bool, true, false, List, [], ◌∷◌, ◌++◌, map, Option, none, some, ◌==◌,
  leb, if◌then◌else◌, retain, if_rule, length, Bool-cases, inl, inr,
}
use rtmap.Base.KeyMap.{get, get-insert, IsMap, insert-IsMap, same_self}
use mathlib.Core.Path.{subst}
use rtmap.ProcMaps.{
  DevInode, same_inode, same_inode_iff, inode_key, MapEntry, Mapping, SharedRegion, RegionIndex,
  push_mapping, add_entry, add_entries, to_regions, read_maps, index_from, detect_shared_regions,
  seen_pids,
}
use rtmap.ProcMaps.Pids.{is_of_several, seen_pids-is_of_several}
use rtmap.Base.Texts.{Text}

abbrev pub entry_mapping : ℕ → MapEntry → Mapping
entry_mapping pid e = record { pid = pid; start_addr = e.start; end_addr = e.end }

-- The mappings of an inode in the order of the processes.
abbrev pub entries_of : DevInode → ℕ → List MapEntry → List Mapping
entries_of d pid es = map (entry_mapping pid) (retain (λ e. same_inode e.dev_inode d) es)

abbrev pub contents : DevInode → RegionIndex → List Mapping
contents d m = elim (get d m) [ none ↦ [] | some p ↦ p.1 ]

add_own :
    (pid : ℕ) (e : MapEntry) (m : RegionIndex)
    → (e.dev_inode.inode == 0) ≡ false
    → contents e.dev_inode (add_entry pid e m) ≡ contents e.dev_inode m ++ entry_mapping pid e ∷ []
add_own pid e m named =
    rw
      (
        named,
        contents,
        get-insert e.dev_inode e.dev_inode (push_mapping pid e (get e.dev_inode m)) m,
        same_self e.dev_inode,
      )
      (pushed (get e.dev_inode m))
  where
    pushed :
        (o : Option (Text × List Mapping))
        → (push_mapping pid e o).1
          ≡ (elim o [ none ↦ [] | some p ↦ p.1 ]) ++ entry_mapping pid e ∷ []
    pushed none = refl
    pushed (some p) = refl

append_nil : (ms : List Mapping) → ms ++ [] ≡ ms
append_nil [] = refl
append_nil (m ∷ ms) = ap (λ l. m ∷ l) (append_nil ms)

append_assoc : (a b c : List Mapping) → (a ++ b) ++ c ≡ a ++ (b ++ c)
append_assoc [] b c = refl
append_assoc (m ∷ a) b c = ap (λ l. m ∷ l) (append_assoc a b c)

add_entry-contents :
    (d : DevInode) (pid : ℕ) (e : MapEntry) (m : RegionIndex)
    → (d.inode == 0) ≡ false
    → contents d (add_entry pid e m) ≡ contents d m ++ entries_of d pid (e ∷ [])
add_entry-contents d pid e m named = elim (Bool-cases (same_inode e.dev_inode d)) [
  | inl same ↦
      let key : e.dev_inode ≡ d = (same_inode_iff e.dev_inode d).0 same in
      let own = add_own pid e m ((λ i. (key i).inode == 0) ∙ named) in
      rw same (
        subst
          (λ (x : DevInode).
            contents x (add_entry pid e m) ≡ contents x m ++ entry_mapping pid e ∷ [])
          key own)
  | inr other ↦ rw other (
      if_rule (λ (n : RegionIndex). contents d n ≡ contents d m ++ []) (e.dev_inode.inode == 0)
        (sym (append_nil (contents d m)))
        (rw (contents, get-insert e.dev_inode d (push_mapping pid e (get e.dev_inode m)) m, other)
          (sym (append_nil (contents d m)))))
]

add_entries-contents :
    (d : DevInode) (pid : ℕ) (es : List MapEntry) (m : RegionIndex)
    → (d.inode == 0) ≡ false
    → contents d (add_entries pid es m) ≡ contents d m ++ entries_of d pid es
add_entries-contents d pid [] m named = sym (append_nil (contents d m))
add_entries-contents d pid (e ∷ es) m named =
    add_entries-contents d pid es (add_entry pid e m) named
    ∙ ap (λ l. l ++ entries_of d pid es) (add_entry-contents d pid e m named)
    ∙ append_assoc (contents d m) (entries_of d pid (e ∷ [])) (entries_of d pid es)
    ∙ ap (λ l. contents d m ++ l) (joined (same_inode e.dev_inode d))
  where
    joined :
        (b : Bool)
        → map (entry_mapping pid) (if b then e ∷ [] else []) ++ entries_of d pid es
          ≡ map (entry_mapping pid) (
              if b
              then e ∷ retain (λ e. same_inode e.dev_inode d) es
              else retain (λ e. same_inode e.dev_inode d) es)
    joined true = refl
    joined false = refl

add_entries-IsMap :
    (pid : ℕ) (es : List MapEntry) (m : RegionIndex) → IsMap m → IsMap (add_entries pid es m)
add_entries-IsMap pid [] m u = u
add_entries-IsMap pid (e ∷ es) m u = add_entries-IsMap pid es (add_entry pid e m) (
    if_rule IsMap (e.dev_inode.inode == 0) u
      (insert-IsMap e.dev_inode (push_mapping pid e (get e.dev_inode m)) m u))

abbrev pub regions_of : DevInode → List SharedRegion → List (List Mapping)
regions_of d rs = map (λ r. r.mappings) (retain (λ r. same_inode r.dev_inode d) rs)

abbrev kept : List Mapping → List (List Mapping)
kept ms = if leb 2 (length (seen_pids ms)) then ms ∷ [] else []

region_here :
    (d : DevInode) (r : SharedRegion) (rs : List SharedRegion) (b : Bool)
    → same_inode r.dev_inode d ≡ true
    → regions_of d rs ≡ []
    → regions_of d (if b then r ∷ rs else rs) ≡ (if b then r.mappings ∷ [] else [])
region_here d r rs true same h = rw same (ap (λ l. r.mappings ∷ l) h)
region_here d r rs false same h = h

region_there :
    (d : DevInode) (r : SharedRegion) (rs : List SharedRegion) (b : Bool)
    → same_inode r.dev_inode d ≡ false
    → regions_of d (if b then r ∷ rs else rs) ≡ regions_of d rs
region_there d r rs true other = rw other refl
region_there d r rs false other = refl

-- One region at most for an inode, and that with its mappings.
to_regions_of :
    (d : DevInode) (m : RegionIndex) → IsMap m → regions_of d (to_regions m) ≡ kept (contents d m)
to_regions_of d [] u = refl
to_regions_of d ((j, p) ∷ m) u =
    let r : SharedRegion = record { dev_inode = j; path = p.0; mappings = p.1 } in
    let wide = leb 2 (length (seen_pids p.1)) in
    elim (Bool-cases (same_inode j d)) [
      | inl same ↦
          let key : j ≡ d = (same_inode_iff j d).0 same in
          let alone : get d m ≡ none = (λ i. get (sym key i) m) ∙ u.0 in
          let mine : contents d ((j, p) ∷ m) ≡ p.1 = rw (contents, same) refl in
          let empty : contents d m ≡ [] = rw (contents, alone) refl in
          region_here d r (to_regions m) wide same (to_regions_of d m u.1 ∙ ap kept empty)
          ∙ sym (ap kept mine)
      | inr other ↦
          let theirs : contents d ((j, p) ∷ m) ≡ contents d m = rw (contents, other) refl in
          region_there d r (to_regions m) wide other ∙ to_regions_of d m u.1 ∙ sym (ap kept theirs)
    ]

module _ (read_to_string : ℕ → Option Text) where
  -- The mappings of an inode in all processes whose maps can be read.
  abbrev pub mappings_in : DevInode → List ℕ → List Mapping
  mappings_in d [] = []
  mappings_in d (pid ∷ pids) = elim (read_maps read_to_string pid) [
    | none ↦ mappings_in d pids
    | some es ↦ entries_of d pid es ++ mappings_in d pids
  ]

  index_from-contents :
      (d : DevInode) (pids : List ℕ) (m : RegionIndex)
      → (d.inode == 0) ≡ false
      → IsMap m
      → IsMap (index_from read_to_string pids m)
        × (contents d (index_from read_to_string pids m) ≡ contents d m ++ mappings_in d pids)
  index_from-contents d [] m named u = (u, sym (append_nil (contents d m)))
  index_from-contents d (pid ∷ pids) m named u =
      over (λ n v. index_from-contents d pids n named v) (read_maps read_to_string pid)
    where
      over :
          ((n : RegionIndex)
            → IsMap n
            → IsMap (index_from read_to_string pids n)
              × (contents d (index_from read_to_string pids n)
                  ≡ contents d n ++ mappings_in d pids))
          → (o : Option (List MapEntry))
          → IsMap (elim o [
            | none ↦ index_from read_to_string pids m
            | some es ↦ index_from read_to_string pids (add_entries pid es m)
          ])
            × (contents d (elim o [
              | none ↦ index_from read_to_string pids m
              | some es ↦ index_from read_to_string pids (add_entries pid es m)
            ])
                ≡ contents d m ++ elim o [
                  | none ↦ mappings_in d pids
                  | some es ↦ entries_of d pid es ++ mappings_in d pids
                ])
      over rest none = rest m u
      over rest (some es) =
          let (v, e) = rest (add_entries pid es m) (add_entries-IsMap pid es m u) in
          (
            v,
            e
                ∙ ap (λ l. l ++ mappings_in d pids) (add_entries-contents d pid es m named)
                ∙ append_assoc (contents d m) (entries_of d pid es) (mappings_in d pids),
          )

  -- For an inode other than 0 there is one region exactly when some process maps it besides the first
  -- that does, and that region has all its mappings in all processes whose maps can be read, in the
  -- order of the processes; otherwise there is none.
  pub detect_shared_regions-mappings_in :
      (d : DevInode) (pids : List ℕ)
      → (d.inode == 0) ≡ false
      → regions_of d (detect_shared_regions read_to_string pids)
        ≡ (if is_of_several (mappings_in d pids) then mappings_in d pids ∷ [] else [])
  unfolding detect_shared_regions
  detect_shared_regions-mappings_in d pids named =
      let (u, all) = index_from-contents d pids [] named tt in
      to_regions_of d (index_from read_to_string pids []) u ∙ ap kept all ∙ (λ i.
        if seen_pids-is_of_several (mappings_in d pids) i then mappings_in d pids ∷ [] else [])
