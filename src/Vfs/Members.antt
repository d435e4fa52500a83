-- ===== src/Vfs/Members.antt =====
-- Registration and its undoing as operations on a set.
use initra_os.Base.{
  ℕ, ◌≡◌, ◌∙◌, ap, refl, Bool, false, Option, none, List, [], ◌∷◌, length, get_or, Option-cases,
  inl, inr, not, ◌&&◌, ◌||◌, some, arith, ltb, ◌==◌, Bool-cases,
}
use initra_os.Vfs.{
  Vfs, Filesystem, holds, named, is_active, filesystem_register, filesystem_unregister,
}
use initra_os.Fs.Directory.Strings.{c_string}
use initra_os.Vfs.Registry.{registered, fill_lem, empty_slot_lem}
use initra_os.Vfs.Inv.{IsValid}

-- A name that is there and whose C string is not empty.
abbrev pub has_name : Option (List ℕ) → Bool
has_name none = false
has_name (some name) = ltb 0 (length (c_string name))

not_empty : (name : List ℕ) → not (get_or name 0 0 == 0) ≡ ltb 0 (length (c_string name))
unfolding c_string
not_empty [] = refl
not_empty (c ∷ cs) = ground arith

named-has_name :
    (World : Type 0) (table : ℕ → Filesystem World) (p : ℕ)
    → named World table p ≡ has_name (table p).name
unfolding named
named-has_name World table p = elim (Option-cases (table p).name) [
  | inl e ↦ rw (named, e) refl
  | inr (name, e) ↦ rw (named, e) (not_empty name)
]

module _ (World : Type 0) (table : ℕ → Filesystem World) (s : Vfs World) (v : IsValid World table s)
    (p : ℕ) where
  register_named :
      let r = filesystem_register World table (some p) s in
      (r.0 ≡ (
        named World table p && (not (holds s.filesystems p) && ltb (registered s.filesystems) 8)))
      × ((q : ℕ) → holds r.1.filesystems q ≡ ((r.0 && p == q) || holds s.filesystems q))
  unfolding filesystem_register
  register_named = elim (Bool-cases (not (named World table p) || holds s.filesystems p)) [
    | inl e ↦ rw (filesystem_register, e) (ground arith, λ q. ground arith)
    | inr e ↦ elim (fill_lem s.filesystems p (ground arith) v.once) [
      | inl (f, full) ↦
          rw (filesystem_register, e, f) (ground (arith, full, v.slots), λ q. ground arith)
      | inr (slots', f, a) ↦
          rw (filesystem_register, e, f) (ground (arith, a.room, v.slots), λ q. a.members q)
    ]
  ]

  -- In a valid state of the VFS, `filesystem_register` of a pointer succeeds exactly when its name
  -- is not empty, it is not registered and fewer than eight are; then the set of the registered
  -- filesystems grows by it, and else stays the same.
  pub register_lem :
      let r = filesystem_register World table (some p) s in
      (r.0 ≡ (
        has_name (table p).name
        && (not (holds s.filesystems p) && ltb (registered s.filesystems) 8)))
      × ((q : ℕ) → holds r.1.filesystems q ≡ ((r.0 && p == q) || holds s.filesystems q))
  register_lem = (
    register_named.0
        ∙ ap (λ b. b && (not (holds s.filesystems p) && ltb (registered s.filesystems) 8))
            (named-has_name World table p),
    register_named.1,
  )

  pub unregister_lem :
      let r = filesystem_unregister World table (some p) s in
      (r.0 ≡ (holds s.filesystems p && not (is_active s.active p)))
      × ((q : ℕ) → holds r.1.filesystems q ≡ (not (r.0 && p == q) && holds s.filesystems q))
  unfolding filesystem_unregister
  unregister_lem = elim (Bool-cases (not (holds s.filesystems p) || is_active s.active p)) [
    | inl e ↦ rw (filesystem_unregister, e) (ground arith, λ q. ground arith)
    | inr e ↦
        let (slots', f, a) = empty_slot_lem s.filesystems p (ground arith) v.once in
        rw (filesystem_unregister, e, f) (ground arith, λ q. a.members q)
  ]
