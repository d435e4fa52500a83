-- ===== src/Vfs/Sequence.antt =====
-- Reads of one file after another.
use initra_os.Base.{
  ℕ, zero, suc, ◌+◌, ◌-◌, ◌^◌, ◌≤◌, ◌<◌, ◌≡◌, ◌∙◌, inl, inr, refl, sym, ap, ap₂, subst, true, some,
  List, [], ◌∷◌, ◌++◌, arith, ltb, u32, if◌then◌else◌, length, take, drop, set, length-set,
  get_or-set_self, is_some, Bool-cases,
}
use initra_os.Vfs.{
  ℤ, pos, Caller, Filesystem, Vfs, File, closed_file, file_is_open, advanced, vfs_read,
}
use initra_os.Vfs.Files.{file_at}

-- Consecutive parts of a list.
drop_none : (k : ℕ) → drop {A = ℕ} k [] ≡ []
drop_none zero = refl
drop_none (suc k) = refl

take_none : (k : ℕ) → take {A = ℕ} k [] ≡ []
take_none zero = refl
take_none (suc k) = refl

drop-drop : (p k n : ℕ) (xs : List ℕ) → n ≡ p + k → drop k (drop p xs) ≡ drop n xs
drop-drop zero k n xs h = ap (λ t. drop t xs) (omega arith)
drop-drop (suc p) k zero xs h = absurd (omega arith)
drop-drop (suc p) k (suc n) [] h = drop_none k
drop-drop (suc p) k (suc n) (x ∷ xs) h = drop-drop p k n xs (omega arith)

take-take : (k m n : ℕ) (xs : List ℕ) → n ≡ k + m → take k xs ++ take m (drop k xs) ≡ take n xs
take-take zero m n xs h = ap (λ t. take t xs) (omega arith)
take-take (suc k) m zero xs h = absurd (omega arith)
take-take (suc k) m (suc n) [] h = take_none m
take-take (suc k) m (suc n) (x ∷ xs) h = ap (λ t. x ∷ t) (take-take k m n xs (omega arith))

-- Taking more than there is.
take_past : (n k : ℕ) (xs : List ℕ) → length xs ≤ n → length xs ≤ k → take n xs ≡ take k xs
take_past n k [] h g = take_none n ∙ sym (take_none k)
take_past zero k (x ∷ xs) h g = absurd (omega arith)
take_past (suc n) zero (x ∷ xs) h g = absurd (omega arith)
take_past (suc n) (suc k) (x ∷ xs) h g =
    ap (λ t. x ∷ t) (take_past n k xs (omega arith) (omega arith))

length-drop : (p : ℕ) (xs : List ℕ) → length (drop p xs) ≡ length xs - p
length-drop zero xs = omega arith
length-drop (suc p) [] = omega arith
length-drop (suc p) (x ∷ xs) = omega (arith, length-drop p xs)

-- The number of bytes that a read of a size gets where so many are left.
abbrev pub got : ℕ → ℕ → ℕ
got size left = if ltb left size then left else size

pub total : List ℕ → ℕ
total [] = 0
total (size ∷ sizes) = size + total sizes

-- One read, and what the reads after it get, are one part of the file.
take_chunks :
    (size sum p : ℕ) (xs : List ℕ)
    → take (got size (length xs - p)) (drop p xs)
        ++ take sum (drop (p + got size (length xs - p)) xs)
      ≡ take (size + sum) (drop p xs)
take_chunks size sum p xs =
    let k = got size (length xs - p) in
    let left = length-drop p xs in
    ap (λ t. take k (drop p xs) ++ take sum t) (sym (drop-drop p k (p + k) xs refl))
    ∙ (take-take k sum (k + sum) (drop p xs) refl ∙ elim (Bool-cases (ltb (length xs - p) size)) [
      | inr whole ↦ ap (λ t. take t (drop p xs)) (ground (arith, whole))
      | inl part ↦
          take_past (k + sum) (size + sum) (drop p xs) (ground (arith, left, part))
            (ground (arith, left, part))
    ])

module _ (World : Type 0) (table : ℕ → Filesystem World) where
  -- A filesystem's read, for one caller and one inode, in the worlds of a set: it gives the file's
  -- bytes from the position on, as many as there are and were asked for, and stays in the set.
  pub record IsReader (read : Caller → World → ℕ → ℕ → ℕ → (ℤ × List ℕ) × World) (c : Caller)
      (inode : ℕ) (file : List ℕ) (Holds : World → Type 0) : Type 0 where
    pub answer :
        (w : World) (p size : ℕ)
        → Holds w
        → (read c w inode p size).0
          ≡ (pos (got size (length file - p)), take (got size (length file - p)) (drop p file))
    pub stays : (w : World) (p size : ℕ) → Holds w → Holds (read c w inode p size).1

  -- The bytes that reads of some sizes give, one after the other, and the state after them.
  unfoldable pub run_reads : ℕ → List ℕ → Vfs World → List ℕ × Vfs World
  run_reads slot [] s = ([], s)
  run_reads slot (size ∷ sizes) s =
      let r = vfs_read World table (some slot) true size s in
      let rest = run_reads slot sizes r.1 in (r.0.1 ++ rest.0, rest.1)

  module _ (read : Caller → World → ℕ → ℕ → ℕ → (ℤ × List ℕ) × World) (c : Caller) (inode : ℕ)
      (file : List ℕ) (Holds : World → Type 0) (reader : IsReader read c inode file Holds)
      (small : length file < 2 ^ 32) (slot p : ℕ) (there : (table p).read ≡ some read) where
    -- The file is open in the slot, at a position.
    pub record IsReading (position : ℕ) (s : Vfs World) : Type 0 where
      pub slots : length s.files ≡ 32
      pub inside : slot < 32
      pub open_there : (file_at s.files slot).inode ≡ some inode
      pub at : (file_at s.files slot).position ≡ position
      pub below : position < 2 ^ 32
      pub mounted : s.active ≡ some p
      pub caller : (s.caller_uid, s.caller_gid) ≡ c
      pub holds : Holds s.world

    module _ (position size : ℕ) (s : Vfs World) (h : IsReading position s) where
      abbrev k : ℕ
      k = got size (length file - position)

      abbrev reply : (ℤ × List ℕ) × World
      reply = read c s.world inode position size

      abbrev before : File
      before = file_at s.files slot

      abbrev after : File
      after = record before { position = position + k }

      abbrev asked : (ℤ × List ℕ) × World
      asked = read (s.caller_uid, s.caller_gid) s.world inode before.position size

      asked_same : asked ≡ reply
      asked_same = ap₂ (λ x y. read x s.world inode y size) h.caller h.at

      after_advanced : advanced before (pos k) ≡ after
      unfolding advanced
      after_advanced =
          let end : u32 (before.position + k) ≡ position + k = ground (arith, h.at, h.below) in
          ap (λ x. record before { position = x }) end

      read_once :
          vfs_read World table (some slot) true size s
          ≡ (reply.0, record s { files = set s.files slot after; world = reply.1 })
      unfolding vfs_read file_is_open
      read_once =
          let live : is_some before.inode ≡ true = ground (arith, h.open_there) in
          let low : ltb slot 32 ≡ true = ground arith in
          let moved : advanced before reply.0.0 ≡ after =
            ap (λ x. advanced before x.0) (reader.answer s.world position size h.holds)
            ∙ after_advanced in
          let raw : vfs_read World table (some slot) true size s ≡ (
            asked.0,
            record s { files = set s.files slot (advanced before asked.0.0); world = asked.1 },
          ) =
            ground (arith, live, low, h.mounted, there, h.open_there) in
          raw
          ∙ (ap
                (λ x.
                  (x.0, record s { files = set s.files slot (advanced before x.0.0); world = x.1 }))
                asked_same
              ∙ ap (λ f. (reply.0, record s { files = set s.files slot f; world = reply.1 })) moved)

      step-IsReading :
          let r = vfs_read World table (some slot) true size s in
          (r.0.1 ≡ take k (drop position file)) × IsReading (position + k) r.1
      step-IsReading =
          let now =
            get_or-set_self s.files slot after closed_file (omega (arith, h.slots, h.inside)) in
          subst (λ r. (r.0.1 ≡ take k (drop position file)) × IsReading (position + k) r.1)
            (sym read_once)
            (
              ap (λ x. x.1) (reader.answer s.world position size h.holds),
              record {
                slots = length-set s.files slot after ∙ h.slots;
                inside = h.inside;
                open_there = ap (λ x. x.inode) now ∙ h.open_there;
                at = ap (λ x. x.position) now;
                below = ground (arith, h.below);
                mounted = h.mounted;
                caller = h.caller;
                holds = reader.stays s.world position size h.holds;
              },
            )

    -- Let a file of fewer than 2 ^ 32 bytes be open in a slot, at a position below 2 ^ 32, and let
    -- the mounted filesystem's read give, for the caller, the file's bytes from the position that
    -- it is asked for, as many as there are and were asked for. Then calls of `vfs_read` from the
    -- slot, one after the other, deliver together the bytes from the position on, as many as there
    -- are and were asked for in sum, and leave the position behind the last of them.
    pub run_reads_lem :
        (sizes : List ℕ) (position : ℕ) (s : Vfs World)
        → IsReading position s
        → let r = run_reads slot sizes s in
          (r.0 ≡ take (total sizes) (drop position file))
          × ((file_at r.1.files slot).position
              ≡ position + got (total sizes) (length file - position))
    unfolding run_reads total
    run_reads_lem [] position s h = (refl, h.at ∙ ground arith)
    run_reads_lem (size ∷ sizes) position s h =
        let k = got size (length file - position) in
        let once = step-IsReading position size s h in
        let rest = run_reads_lem sizes (position + k) _ once.1 in
        (
          ap₂ ◌++◌ once.0 rest.0 ∙ take_chunks size (total sizes) position file,
          rest.1 ∙ ground arith,
        )
