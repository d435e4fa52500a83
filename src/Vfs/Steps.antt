-- ===== src/Vfs/Steps.antt =====
-- The VFS as a state machine: its calls, and the states that they lead to from the start.
use initra_os.Base.{ℕ, refl, List, [], ◌∷◌, arith, get_or-replicate}
use initra_os.Fs.Format.{FsInode}
use initra_os.Vfs.{
  Vfs, Filesystem, closed_file, initial, filesystem_register, filesystem_unregister, vfs_mount,
  vfs_unmount, vfs_set_caller_identity, vfs_get_security_info, vfs_open, vfs_close, vfs_read,
  vfs_write, vfs_seek, vfs_mkdir, vfs_rmdir, vfs_unlink, vfs_readdir, holds,
}
use initra_os.Vfs.Step.{
  Call, call_register, call_unregister, call_mount, call_unmount, call_set_identity,
  call_security_info, call_open, call_close, call_read, call_write, call_seek, call_mkdir,
  call_rmdir, call_unlink, call_readdir, Step, identifies, register-Step, unregister-Step,
  mount-Step, unmount-Step,
}
use initra_os.Vfs.Inv.{IsValid, step-IsValid}
use initra_os.Vfs.Calls.{info-Step, open-Step, close-Step, seek-Step}
use initra_os.Vfs.Transfer.{read-Step, write-Step, path_call-Step, readdir-Step}

module _ (World : Type 0) (table : ℕ → Filesystem World) (inode_at : World → ℕ → FsInode) where
  -- The state after a call.
  unfoldable pub run : Call → Vfs World → Vfs World
  run (call_register p) s = (filesystem_register World table p s).1
  run (call_unregister p) s = (filesystem_unregister World table p s).1
  run (call_mount p device) s = (vfs_mount World table p device s).1
  run (call_unmount p) s = (vfs_unmount World table p s).1
  run (call_set_identity uid gid) s = vfs_set_caller_identity World table uid gid s
  run (call_security_info path ready) s =
      (vfs_get_security_info World table inode_at path ready s).1
  run (call_open path flags ready) s = (vfs_open World table path flags ready s).1
  run (call_close file) s = (vfs_close World table file s).1
  run (call_read file ready size) s = (vfs_read World table file ready size s).1
  run (call_write file buffer size) s = (vfs_write World table file buffer size s).1
  run (call_seek file position) s = (vfs_seek World table file position s).1
  run (call_mkdir path) s = (vfs_mkdir World table path s).1
  run (call_rmdir path) s = (vfs_rmdir World table path s).1
  run (call_unlink path) s = (vfs_unlink World table path s).1
  run (call_readdir path ready size) s = (vfs_readdir World table path ready size s).1

  -- The state after the calls of a list.
  unfoldable pub runs : List Call → Vfs World → Vfs World
  runs [] s = s
  runs (c ∷ calls) s = runs calls (run c s)

  -- Every call is a step.
  pub run-Step : (c : Call) (s : Vfs World) → IsValid World table s → Step World table c s (run c s)
  unfolding run vfs_mkdir vfs_rmdir vfs_unlink vfs_set_caller_identity
  run-Step (call_register p) s v = register-Step World table _ s v.once p
  run-Step (call_unregister p) s v = unregister-Step World table _ s v.once p
  run-Step (call_mount p device) s v = mount-Step World table _ s v.once p device
  run-Step (call_unmount p) s v = unmount-Step World table _ s v.once p
  run-Step (call_set_identity uid gid) s v = identifies uid gid
  run-Step (call_security_info path ready) s v = info-Step World table s v _ inode_at path ready
  run-Step (call_open path flags ready) s v = open-Step World table s v _ path flags ready
  run-Step (call_close file) s v = close-Step World table s file
  run-Step (call_read file ready size) s v = read-Step World table s v _ file ready size
  run-Step (call_write file buffer size) s v = write-Step World table s v _ file buffer size
  run-Step (call_seek file position) s v = seek-Step World table s v _ file position
  run-Step (call_mkdir path) s v = path_call-Step World table s v _ (λ f. f.mkdir) path
  run-Step (call_rmdir path) s v = path_call-Step World table s v _ (λ f. f.rmdir) path
  run-Step (call_unlink path) s v = path_call-Step World table s v _ (λ f. f.remove) path
  run-Step (call_readdir path ready size) s v = readdir-Step World table s v _ path ready size

  pub run-IsValid :
      (c : Call) (s : Vfs World) → IsValid World table s → IsValid World table (run c s)
  run-IsValid c s v = step-IsValid World table c s (run c s) v (run-Step c s v)

  pub initial-IsValid : (world : World) → IsValid World table (initial world)
  unfolding holds
  initial-IsValid world = record {
    slots = refl;
    file_slots = refl;
    once = tt;
    names = λ p h. absurd (ground (arith, h));
    mounted = λ p h. absurd (ground (arith, h));
    active = λ k i h. absurd (ground (arith, h, get_or-replicate 32 k closed_file));
    blank = λ k h. get_or-replicate 32 k closed_file;
  }

  -- The states that sequences of calls lead to.
  pub data Reachable (world : World) : Vfs World → Type 0 where
    start : Reachable world (initial world)
    next : {s : Vfs World} (c : Call) → Reachable world s → Reachable world (run c s)

  -- After any sequence of calls of the VFS from its initial state, whatever the filesystems'
  -- functions do: the registry has eight slots, holds no filesystem twice and none without a name,
  -- and holds the mounted one; the thirty-two slots of files are open only while a filesystem is
  -- mounted, and blank when they are not open.
  pub reachable-IsValid :
      (world : World) (s : Vfs World) → Reachable world s → IsValid World table s
  reachable-IsValid world _ start = initial-IsValid world
  reachable-IsValid world _ (next {s = s} c r) = run-IsValid c s (reachable-IsValid world s r)
