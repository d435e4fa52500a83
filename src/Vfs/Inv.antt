-- ===== src/Vfs/Inv.antt =====
-- The invariant of the VFS, and that every call that changes its state keeps it.
use initra_os.Base.{
  ℕ, ◌<◌, ◌≡◌, ◌≢◌, ◌⊎◌, ◌∙◌, inl, inr, refl, sym, ap, true, none, some, arith, length, set,
  is_some, length-set, get_or-set_self, get_or-set_ne,
}
use native.Mathlib.Decide.{ℕ_discrete}
use initra_os.Vfs.{Vfs, Filesystem, File, closed_file, holds, named}
use initra_os.Vfs.Registry.{Once}
use initra_os.Vfs.Step.{
  Call, Step, moved_world, registers, unregisters, identifies, mounts, unmounts, opens, moves,
  closes, is_active_lem,
}
use initra_os.Vfs.Files.{file_at}

module _ (World : Type 0) (table : ℕ → Filesystem World) where
  -- Eight slots of filesystems with names, each once, the active one among them; thirty-two slots of
  -- files, which are open only under an active filesystem and blank when they are not open.
  pub record IsValid (s : Vfs World) : Type 0 where
    pub slots : length s.filesystems ≡ 8
    pub file_slots : length s.files ≡ 32
    pub once : Once s.filesystems
    pub names : (p : ℕ) → holds s.filesystems p ≡ true → named World table p ≡ true
    pub mounted : (p : ℕ) → s.active ≡ some p → holds s.filesystems p ≡ true
    pub active : (k i : ℕ) → (file_at s.files k).inode ≡ some i → is_some s.active ≡ true
    pub blank : (k : ℕ) → (file_at s.files k).inode ≡ none → file_at s.files k ≡ closed_file

  module _ (s : Vfs World) (v : IsValid s) where
    -- The world counts for nothing.
    pub world-IsValid : (world : World) → IsValid (record s { world = world })
    world-IsValid world = record {
      slots = v.slots;
      file_slots = v.file_slots;
      once = v.once;
      names = v.names;
      mounted = v.mounted;
      active = v.active;
      blank = v.blank;
    }

    -- Another file in a slot, open under an active filesystem or closed.
    pub set_file-IsValid :
        (world : World) (slot : ℕ) (f : File)
        → (is_some s.active ≡ true) ⊎ (f.inode ≡ none)
        → (f.inode ≡ none → f ≡ closed_file)
        → slot < 32
        → IsValid (record s { files = set s.files slot f; world = world })
    set_file-IsValid world slot f live closed h = record {
      slots = v.slots;
      file_slots = length-set s.files slot f ∙ v.file_slots;
      once = v.once;
      names = v.names;
      mounted = v.mounted;
      active = λ k i e. elim (ℕ_discrete slot k) [
        | no other ↦ v.active k i (ap (λ t. t.inode) (sym (elsewhere k other)) ∙ e)
        | yes here ↦ elim live [
          | inl on ↦ on
          | inr free ↦ absurd (ground (arith, free, ap (λ t. t.inode) (sym (there k here)) ∙ e))
        ]
      ];
      blank = λ k e. elim (ℕ_discrete slot k) [
        | no other ↦ elsewhere k other ∙ v.blank k (ap (λ t. t.inode) (sym (elsewhere k other)) ∙ e)
        | yes here ↦ there k here ∙ closed (ap (λ t. t.inode) (sym (there k here)) ∙ e)
      ];
    }
      where
        elsewhere : (k : ℕ) → slot ≢ k → file_at (set s.files slot f) k ≡ file_at s.files k
        elsewhere k other = get_or-set_ne s.files slot k f closed_file other

        there : (k : ℕ) → slot ≡ k → file_at (set s.files slot f) k ≡ f
        there k here =
            ap (file_at (set s.files slot f)) (sym here)
            ∙ get_or-set_self s.files slot f closed_file (omega (arith, v.file_slots))

  -- Every step keeps the invariant.
  pub step-IsValid : (c : Call) (s r : Vfs World) → IsValid s → Step World table c s r → IsValid r
  step-IsValid c s _ v (moved_world world) = world-IsValid s v world
  step-IsValid c s _ v (registers p slots' name a) = record {
    slots = a.size ∙ v.slots;
    file_slots = v.file_slots;
    once = a.once;
    names = λ q h. elim (ℕ_discrete p q) [
      | yes same ↦ ap (named World table) (sym same) ∙ name
      | no other ↦ v.names q (ground (arith, a.members q, h))
    ];
    mounted = λ q h. ground (arith, a.members q, v.mounted q h);
    active = v.active;
    blank = v.blank;
  }
  step-IsValid c s _ v (unregisters p slots' idle a) = record {
    slots = a.size ∙ v.slots;
    file_slots = v.file_slots;
    once = a.once;
    names = λ q h. v.names q (ground (arith, a.members q, h));
    mounted = λ q h. ground (arith, a.members q, v.mounted q h, idle, is_active_lem s.active p q h);
    active = v.active;
    blank = v.blank;
  }
  step-IsValid c s _ v (identifies uid gid) = record {
    slots = v.slots;
    file_slots = v.file_slots;
    once = v.once;
    names = v.names;
    mounted = v.mounted;
    active = v.active;
    blank = v.blank;
  }
  step-IsValid c s _ v (mounts p world none_yet held) = record {
    slots = v.slots;
    file_slots = v.file_slots;
    once = v.once;
    names = v.names;
    mounted = λ q h. let same : q ≡ p = ground (arith, h) in ap (holds s.filesystems) same ∙ held;
    active = λ k i h. refl;
    blank = v.blank;
  }
  step-IsValid c s _ v (unmounts world all_closed) = record {
    slots = v.slots;
    file_slots = v.file_slots;
    once = v.once;
    names = v.names;
    mounted = λ q t. absurd (ground (arith, t));
    active = λ k i t. absurd (ground (arith, t, all_closed k));
    blank = v.blank;
  }
  step-IsValid c s _ v (opens slot i f world h on free e) =
      set_file-IsValid s v world slot f (inl on) (λ t. absurd (ground (arith, t, e))) h
  step-IsValid c s _ v (moves slot i f world h q e) =
      set_file-IsValid s v world slot f (inl (v.active slot i q))
        (λ t. absurd (ground (arith, t, e))) h
  step-IsValid c s _ v (closes slot h e) =
      set_file-IsValid s v s.world slot closed_file (inr refl) (λ t. refl) h
