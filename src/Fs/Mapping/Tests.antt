-- ===== src/Fs/Mapping/Tests.antt =====
-- Mapping blocks of a new inode.
use initra_os.Base.{◌≡◌, refl, some, none, arith, [], ◌∷◌}
use initra_os.Fs.Format.{DiskInode, zero_disk_inode}
use initra_os.Fs.Samples.{disk}
use initra_os.Fs.Integrity.{integrity_update}
use initra_os.Fs.Mapping.{map_live}
use initra_os.Fs.Mapping.Laws.{IsSound, Changed, update-IsSound, map_live_lem}

abbrev file : DiskInode
file = integrity_update (record zero_disk_inode { inode_number = 5; type = 1; link_count = 1 })

file-IsSound : IsSound file
file-IsSound = update-IsSound _ refl (omega arith)

abbrev mapped : DiskInode
mapped = integrity_update (record file { direct_blocks = 0 ∷ 0 ∷ 30 ∷ 0 ∷ 0 ∷ 0 ∷ 0 ∷ 0 ∷ [] })

-- The root's block is never mapped.
root_refused : map_live file disk 0 24 ≡ none
unfolding map_live
root_refused = refl

accepted : map_live file disk 2 30 ≡ some mapped
unfolding map_live integrity_update
accepted = refl

map_live_lem_example : Changed file mapped 2 (some 30)
map_live_lem_example = map_live_lem file mapped disk 2 30 file-IsSound accepted
