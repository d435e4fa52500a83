-- ===== src/Fs/Integrity/Laws.antt =====
-- The checksum of `initrafs_inode_integrity_update` and `initrafs_inode_integrity_verify`.
use initra_os.Base.{
  ℕ, suc, ◌^◌, ◌≤◌, ◌<◌, ◌≡◌, refl, sym, ap, ◌∙◌, true, false, some, List, [], ◌∷◌, arith, length,
  All, get_or, zero_bytes, le_bytes, word_of, word_of_sum, ==_iff, All-append, length-zero_bytes,
  length-set, zero,
}
use initra_os.Fs.Format.{DiskInode}
use initra_os.Fs.Integrity.{
  offset_basis, hash_bytes, words_bytes, inode_words, inode_bytes, masked, integrity_checksum,
  store_checksum, integrity_update, stored_checksum, inode_integrity_verify,
}
use initra_os.Fs.Integrity.Hash.{hash_bytes-lt, OneByteApart, hash_bytes-OneByteApart}

checksum-lt : (i : DiskInode) → integrity_checksum i < 2 ^ 32
unfolding integrity_checksum
checksum-lt i = hash_bytes-lt offset_basis (inode_bytes (masked i)) (omega arith)

-- Storing the checksum changes only bytes that the mask clears.
zero_bytes-store_checksum :
    (r : List ℕ) (c : ℕ)
    → 4 ≤ length r
    → zero_bytes 4 (store_checksum (zero_bytes 4 r) c) ≡ zero_bytes 4 r
unfolding store_checksum zero_bytes
zero_bytes-store_checksum (a ∷ b ∷ c ∷ d ∷ r) k h = refl
zero_bytes-store_checksum (a ∷ b ∷ c ∷ []) k h = absurd (omega arith)
zero_bytes-store_checksum (a ∷ b ∷ []) k h = absurd (omega arith)
zero_bytes-store_checksum (a ∷ []) k h = absurd (omega arith)
zero_bytes-store_checksum [] k h = absurd (omega arith)

zero_bytes_twice : (r : List ℕ) → zero_bytes 4 (zero_bytes 4 r) ≡ zero_bytes 4 r
unfolding zero_bytes
zero_bytes_twice (a ∷ b ∷ c ∷ d ∷ r) = refl
zero_bytes_twice (a ∷ b ∷ c ∷ []) = refl
zero_bytes_twice (a ∷ b ∷ []) = refl
zero_bytes_twice (a ∷ []) = refl
zero_bytes_twice [] = refl

word_of-store_checksum :
    (r : List ℕ) (c : ℕ)
    → 4 ≤ length r
    → c < 2 ^ 32
    → let s = store_checksum r c in
      word_of (get_or s 0 0) (get_or s 1 0) (get_or s 2 0) (get_or s 3 0) ≡ c
unfolding store_checksum
word_of-store_checksum (x ∷ y ∷ z ∷ w ∷ r) c h k =
    word_of_sum _ _ _ _ (omega arith) (omega arith) (omega arith) (omega arith) ∙ omega arith
word_of-store_checksum (a ∷ b ∷ c ∷ []) k h g = absurd (omega arith)
word_of-store_checksum (a ∷ b ∷ []) k h g = absurd (omega arith)
word_of-store_checksum (a ∷ []) k h g = absurd (omega arith)
word_of-store_checksum [] k h g = absurd (omega arith)

checksum-masked : (i : DiskInode) → integrity_checksum (masked i) ≡ integrity_checksum i
unfolding integrity_checksum masked
checksum-masked i =
    ap (λ r. hash_bytes offset_basis (inode_bytes (record i { reserved = r })))
      (zero_bytes_twice i.reserved)

checksum-update :
    (i : DiskInode)
    → 4 ≤ length i.reserved
    → integrity_checksum (integrity_update i) ≡ integrity_checksum i
unfolding integrity_checksum integrity_update masked
checksum-update i h =
    ap (λ r. hash_bytes offset_basis (inode_bytes (record i { reserved = r })))
      (zero_bytes-store_checksum i.reserved (integrity_checksum (masked i)) h)

-- After `initrafs_inode_integrity_update` an inode with at least four reserved bytes verifies, and
-- it differs from the inode before in no byte outside the stored checksum.
pub verify-update :
    (i : DiskInode)
    → 4 ≤ length i.reserved
    → (inode_integrity_verify (some (integrity_update i)) ≡ true)
      × (masked (integrity_update i) ≡ masked i)
verify-update i h = (verifies, unchanged)
  where
    agree : stored_checksum (integrity_update i) ≡ integrity_checksum (integrity_update i)
    agree =
        unfold stored_checksum integrity_update masked in
        (word_of-store_checksum (zero_bytes 4 i.reserved) (integrity_checksum (masked i))
            (omega (arith, length-zero_bytes 4 i.reserved)) (checksum-lt (masked i))
          ∙ (checksum-masked i ∙ sym (checksum-update i h)))

    verifies : inode_integrity_verify (some (integrity_update i)) ≡ true
    verifies = unfold inode_integrity_verify in (==_iff _ _).1 agree

    unchanged : masked (integrity_update i) ≡ masked i
    unchanged =
        unfold masked integrity_update in
        ap (λ r. record i { reserved = r })
          (zero_bytes-store_checksum i.reserved (integrity_checksum (masked i)) h)

All-le_bytes : (n : ℕ) → All (λ x. x < 256) (le_bytes n)
All-le_bytes n = omega arith

All-words_bytes : (ws : List ℕ) → All (λ x. x < 256) (words_bytes ws)
unfolding words_bytes
All-words_bytes [] = tt
All-words_bytes (w ∷ ws) =
    All-append _ (le_bytes w) (words_bytes ws) (All-le_bytes w) (All-words_bytes ws)

All-zero_bytes :
    (n : ℕ) (xs : List ℕ) → All (λ x. x < 256) xs → All (λ x. x < 256) (zero_bytes n xs)
unfolding zero_bytes
All-zero_bytes zero xs h = h
All-zero_bytes (suc n) [] h = tt
All-zero_bytes (suc n) (x ∷ xs) h = (omega arith, All-zero_bytes n xs h.1)

All-inode_bytes :
    (i : DiskInode) → All (λ x. x < 256) i.reserved → All (λ x. x < 256) (inode_bytes (masked i))
unfolding inode_bytes masked
All-inode_bytes i h =
    All-append _ (words_bytes (inode_words (masked i))) _ (All-words_bytes (inode_words (masked i)))
      (All-append _ (le_bytes i.indirect_block) (zero_bytes 4 i.reserved)
        (All-le_bytes i.indirect_block) (All-zero_bytes 4 i.reserved h))

-- If an inode verifies, and another with the same stored checksum differs from it in exactly one
-- byte outside the checksum, the other does not verify; the reserved bytes of both are below 256.
pub verify-OneByteApart :
    (i j : DiskInode)
    → All (λ x. x < 256) i.reserved
    → All (λ x. x < 256) j.reserved
    → stored_checksum i ≡ stored_checksum j
    → OneByteApart (inode_bytes (masked i)) (inode_bytes (masked j))
    → inode_integrity_verify (some i) ≡ true
    → inode_integrity_verify (some j) ≡ false
unfolding inode_integrity_verify
verify-OneByteApart i j bi bj same apart ok = ground (
  arith,
  hash_bytes-OneByteApart offset_basis (omega arith) (All-inode_bytes i bi) (All-inode_bytes j bj)
      apart,
)

pub direct_blocks-update : (i : DiskInode) → (integrity_update i).direct_blocks ≡ i.direct_blocks
unfolding integrity_update
direct_blocks-update i = refl

-- The fields that say which object an inode is are untouched.
pub identity-update :
    (i : DiskInode)
    → ((integrity_update i).inode_number ≡ i.inode_number)
      × ((integrity_update i).type ≡ i.type)
      × ((integrity_update i).size ≡ i.size)
unfolding integrity_update
identity-update i = (refl, refl, refl)

pub mode-update : (i : DiskInode) → (integrity_update i).mode ≡ i.mode
unfolding integrity_update
mode-update i = refl

length-store_checksum : (r : List ℕ) (c : ℕ) → length (store_checksum r c) ≡ length r
unfolding store_checksum
length-store_checksum r c =
    length-set _ 3 _ ∙ (length-set _ 2 _ ∙ (length-set _ 1 _ ∙ length-set r 0 _))

pub length-reserved-update :
    (i : DiskInode) → length (integrity_update i).reserved ≡ length i.reserved
unfolding integrity_update masked
length-reserved-update i =
    length-store_checksum (zero_bytes 4 i.reserved) (integrity_checksum (masked i))
    ∙ length-zero_bytes 4 i.reserved
