-- ===== src/Tests/Mappings.antt =====
-- The process maps of engine/src/proc_maps.rs at concrete inputs.
use rtmap.Base.{ℕ, ◌≡◌, refl, [], ◌∷◌, Option, none, some, ◌==◌, if◌then◌else◌}
use rtmap.Base.Texts.{Text, codes, is_whitespace, trim_start, trim_end}
use rtmap.ProcMaps.{DevInode, parse_map_line, detect_shared_regions}
use rtmap.ProcMaps.Pids.{is_of_several}
use rtmap.ProcMaps.Shared.{mappings_in, regions_of, detect_shared_regions-mappings_in}

abbrev ring_inode : DevInode
ring_inode = record { dev_major = 0; dev_minor = 5; inode = 99999 }

abbrev ring_line : Text
ring_line = codes "7f0000000000-7f0000100000 rw-s 00000000 00:05 99999      /dev/shm/ring"

line_read :
    parse_map_line ring_line
    ≡ some (record {
      start = 0x7f0000000000;
      end = 0x7f0000100000;
      perms = codes "rw-s";
      offset = 0;
      dev_inode = ring_inode;
      path = codes "/dev/shm/ring";
    })
unfolding parse_map_line is_whitespace trim_start trim_end
line_read = refl

-- Three processes, of which the second has exited.
abbrev maps_of : ℕ → Option Text
maps_of pid =
    if pid == 1
    then some ring_line
    else if pid == 2
    then none
    else some
        (codes "5000-6000 rw-s 00000000 00:05 99999 /dev/shm/ring\n7000-8000 rw-p 0 00:00 0 \n")

detect_shared_regions-mappings_in_example :
    regions_of ring_inode (detect_shared_regions maps_of (1 ∷ 2 ∷ 3 ∷ [])) ≡ (
      if is_of_several (mappings_in maps_of ring_inode (1 ∷ 2 ∷ 3 ∷ []))
      then mappings_in maps_of ring_inode (1 ∷ 2 ∷ 3 ∷ []) ∷ []
      else [])
detect_shared_regions-mappings_in_example =
    detect_shared_regions-mappings_in maps_of ring_inode (1 ∷ 2 ∷ 3 ∷ []) refl
