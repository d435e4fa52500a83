-- ===== src/Fs/Instance/Laws.antt =====
-- What a new instance is.
use initra_os.Base.{
  not, ◌||◌, ltb, ◌!=◌, ℕ, ◌-◌, ◌≤◌, ◌<◌, ◌≡◌, ◌∙◌, inl, inr, refl, ap, true, false, none, some,
  List, arith, length, replicate, ◌==◌, Option-cases, length-replicate, get_or-replicate, IsBytes,
  if◌then◌else◌,
}
use initra_os.Fs.Format.{FsInode, DiskInode, Superblock, Dirent, zero_dirent}
use initra_os.Fs.Superblock.{superblock_init, IsFormatted, superblock_init-IsFormatted}
use initra_os.Fs.Blocks.{BlockAllocator, block_allocator_init}
use initra_os.Fs.Blocks.Setup.{block_allocator_init-IsValid}
use initra_os.Fs.Blocks.Inv.{IsValid as BlocksValid}
use initra_os.Fs.Inodes.{InodeAllocator, inode_init, inode_allocator_init}
use initra_os.Fs.Inodes.Laws.{IsValid as InodesValid}
use initra_os.Fs.Inodes.Create.{inode_allocator_init-IsValid}
use initra_os.Fs.Mapping.Laws.{IsSound}
use initra_os.Fs.Mapping.{get_live}
use initra_os.Fs.Creation.Laws.{root_inode_init_lem}
use initra_os.Fs.Creation.{root_inode_init}
use initra_os.Fs.Directory.Listing.{root_directory_init}
use initra_os.Fs.Directory.Root.{HasDots, root_directory_init-IsValid}
use initra_os.Fs.Namespace.{Node, Namespace, node_of, namespace_init, namespace_register}
use initra_os.Fs.Namespace.Map.{IsValid as NamesValid}
use initra_os.Fs.Namespace.Register.{
  is_short, is_short_long, namespace_init-IsValid, namespace_register-Registered, turned_down,
  entered,
}
use initra_os.Fs.Instance.{Instance, instance_init}

-- The inode in memory that goes with the root's disk inode.
abbrev root_inode_of : DiskInode → FsInode
root_inode_of d = record {
  inode_number = 1;
  type = 2;
  mode = 0o755;
  flags = d.flags;
  size = d.size;
  owner = 0;
  group = 0;
  link_count = d.link_count;
  created_time = 0;
  modified_time = 0;
  accessed_time = 0;
}

abbrev pub root_node : DiskInode → List Dirent → Node
root_node d es = record { inode = some (root_inode_of d); disk_inode = some d; entries = some es }

-- A filesystem over a number of blocks as it is after mounting: the allocators and the name space are
-- valid, and the name space has the root alone, a directory of `.` and `..` in the first data block.
pub record IsFresh (blocks : ℕ) (inst : Instance) : Type 0 where
  pub block_bitmap : List ℕ
  pub blocks_valid : BlocksValid block_bitmap inst.block_allocator
  pub on_device : inst.block_allocator.total_blocks ≡ blocks
  pub formatted : IsFormatted (inst.block_allocator.superblock)
  pub inode_bitmap : List ℕ
  pub inodes_valid : InodesValid inode_bitmap inst.inode_allocator
  pub names_valid : NamesValid (inst.namespace)
  pub root_number : inst.namespace.root_inode ≡ 1
  pub root_disk_inode : DiskInode
  pub root_sound : IsSound root_disk_inode
  pub root_map :
      (j : ℕ)
      → get_live root_disk_inode j
        ≡ (if j == 0 then some inst.block_allocator.first_data_block else none)
  pub root_entries : List Dirent
  pub root_dots : HasDots 1 1 8 root_entries
  pub nodes :
      (q : ℕ)
      → node_of (inst.namespace) q
        ≡ (if 1 == q then some (root_node root_disk_inode root_entries) else none)
  pub mounted : inst.mounted ≡ true

zeros-IsBytes : (n : ℕ) → IsBytes (replicate n 0)
zeros-IsBytes n i = omega (arith, get_or-replicate {A = ℕ} n i 0)

all_steps :
    (blocks : ℕ) (sb : Superblock) (a : BlockAllocator) (b : InodeAllocator) (d : DiskInode)
    (es : List Dirent) (blank ns : Namespace)
    → 24 < blocks
    → blocks ≤ 32768
    → superblock_init true blocks ≡ some sb
    → block_allocator_init true (some sb) (some (replicate 4096 0)) 4096 ≡ some a
    → inode_allocator_init true (some (a.superblock)) (some (replicate 16 0)) 16 ≡ some b
    → root_inode_init true (some (a.superblock)) ≡ some d
    → root_directory_init (some (replicate 8 zero_dirent)) ≡ some es
    → namespace_init true true 128 1 ≡ some blank
    → namespace_register (some blank) (some (root_inode_of d)) (some d) (some es) ≡ some ns
    → instance_init true (some (512, blocks))
      ≡ some (record { block_allocator = a; inode_allocator = b; namespace = ns; mounted = true })
unfolding instance_init inode_init
all_steps blocks sb a b d es blank ns lo hi e1 e2 e3 e4 e5 e6 e7 =
    let e0 : not (512 != 512 || blocks == 0 || ltb 32768 blocks) ≡ true = ground arith in
    rw (instance_init, e0, e1, e2, e3, e4, e5, e6, e7) refl

blank_counts :
    (ns : Namespace)
    → namespace_init true true 128 1 ≡ some ns
    → (ns.node_count ≡ 0) × (ns.node_capacity ≡ 128)
unfolding namespace_init
blank_counts ns e = (ground (arith, e), ground (arith, e))

-- On a device of blocks of 512 bytes, of which there are more than 24 and at most 32768,
-- `initrafs_instance_init` with pointers that are not null succeeds. The instance is then mounted;
-- both allocators are valid, over all blocks of the device and the superblock's layout; and the
-- name space is valid, and has the root alone, with a sound inode whose one block is the first
-- data block and an array of entries in which exactly `.` and `..` are found.
pub instance_init-IsFresh :
    (blocks : ℕ)
    → 24 < blocks
    → blocks ≤ 32768
    → (inst : Instance) × (instance_init true (some (512, blocks)) ≡ some inst)
      × IsFresh blocks inst
instance_init-IsFresh blocks lo hi = elim (Option-cases (superblock_init true blocks)) [
  | inl e ↦ absurd (omega (arith, (superblock_init-IsFormatted blocks).0.0 e))
  | inr (sb, e1) ↦
      let (f, total, free) = (superblock_init-IsFormatted blocks).1 sb e1 in
      let sb' : Superblock = record sb { free_block_count = sb.total_blocks - sb.data_start - 1 } in
      let f' : IsFormatted sb' = record {
        identity = f.identity;
        table = f.table;
        layout = f.layout;
        free_fits = omega (arith, f.layout);
        clean = f.clean;
      } in
      let made =
        block_allocator_init-IsValid sb (replicate 4096 0) 4096 (zeros-IsBytes 4096)
          (omega (arith, length-replicate {A = ℕ} 4096 0)) (omega (arith, f.layout))
          (omega (arith, f.layout)) (omega (arith, total)) (omega (arith, total)) in
      let bits =
        inode_allocator_init-IsValid sb' (replicate 16 0) 16 (zeros-IsBytes 16)
          (omega (arith, length-replicate {A = ℕ} 16 0)) (omega (arith, f.table))
          (omega (arith, f.table)) (omega (arith, f.table)) in
      let (d, e4, sound, (number, type, mode), map) = root_inode_init_lem sb' f' in
      let (es, e5, dots) =
        root_directory_init-IsValid (replicate 8 zero_dirent)
          (omega (arith, length-replicate {A = Dirent} 8 zero_dirent)) in
      let (blank, e6, v, root, empty) = namespace_init-IsValid 128 1 (omega arith) (omega arith) in
      let (count, capacity) = blank_counts blank e6 in
      elim (namespace_register-Registered blank v (root_inode_of d) d (some es)) [
        | turned_down why e7 ↦
            let eight : length es ≡ 8 = dots.1 ∙ length-replicate {A = Dirent} 8 zero_dirent in
            let wide : is_short (some es) ≡ false = is_short_long es (omega (arith, eight)) in
            absurd (elim why [
              | inl bad ↦ ground (arith, bad, number, type, wide)
              | inr (inl full) ↦ omega (arith, full, count, capacity)
              | inr (inr there) ↦ there (empty 1)
            ])
        | entered ns e7 ok room new v' (r, c) at ↦ (
          record { block_allocator = _; inode_allocator = _; namespace = ns; mounted = true },
          all_steps blocks sb _ _ d es blank ns lo hi e1 made.0 bits.0 e4 e5 e6 e7,
          record {
            block_bitmap = _;
            blocks_valid = made.1;
            on_device = total;
            formatted = f';
            inode_bitmap = _;
            inodes_valid = bits.1;
            names_valid = v';
            root_number = r ∙ root;
            root_disk_inode = d;
            root_sound = sound;
            root_map = map;
            root_entries = es;
            root_dots = dots;
            nodes = λ q. at q ∙ ap (λ x. if 1 == q then some (root_node d es) else x) (empty q);
            mounted = refl;
          },
        )
      ]
]
