-- ===== src/Fs/Blocks/Setup.antt =====
-- `initrafs_block_allocator_init` on a bitmap of any bytes.
use initra_os.Base.{
  ℕ, ◌+◌, ◌-◌, ◌/◌, ◌^◌, ◌≤◌, ◌<◌, ◌≡◌, refl, true, false, some, List, arith, length, IsBytes,
  bit_at, zero_bytes, bit_at-zero_bytes, zero_bytes-IsBytes, length-zero_bytes, count_from_all,
  count_from_drop, sub32, ◌==◌,
}
use initra_os.Fs.Format.{Superblock}
use initra_os.Fs.Blocks.{BlockAllocator, is_marked, mark_used, required_bytes, block_allocator_init}
use initra_os.Fs.Blocks.Inv.{
  IsValid, is_free, is_marked-mark_used, mark_used-IsBytes, length-mark_used,
}

is_marked-zero_bytes :
    (n : ℕ) (m : List ℕ) (k : ℕ) → k / 8 < n → is_marked (zero_bytes n m) k ≡ false
unfolding is_marked bit_at
is_marked-zero_bytes n m k h = bit_at-zero_bytes n m k h

module _ (sb : Superblock) (bitmap : List ℕ) (n : ℕ) (bytes : IsBytes bitmap)
    (given : n ≤ length bitmap) (starts : 0 < sb.data_start)
    (nonempty : sb.data_start < sb.total_blocks) (small : sb.total_blocks + 7 < 2 ^ 32)
    (enough : (sb.total_blocks + 7) / 8 ≤ n) where
  -- The bitmap after initialisation: cleared, with the root's block taken.
  abbrev pub fresh_bitmap : List ℕ
  fresh_bitmap = mark_used (zero_bytes ((sb.total_blocks + 7) / 8) bitmap) sb.data_start

  abbrev pub fresh_allocator : BlockAllocator
  fresh_allocator = record {
    bitmap = some fresh_bitmap;
    bitmap_bytes = (sb.total_blocks + 7) / 8;
    total_blocks = sb.total_blocks;
    first_data_block = sb.data_start;
    free_blocks = sb.total_blocks - sb.data_start - 1;
    superblock = record sb { free_block_count = sb.total_blocks - sb.data_start - 1 };
  }

  marks : (j : ℕ) → j < sb.total_blocks → is_marked fresh_bitmap j ≡ (sb.data_start == j)
  marks j h =
      let zeros = zero_bytes ((sb.total_blocks + 7) / 8) bitmap in
      ground (
        arith,
        is_marked-mark_used zeros sb.data_start (zero_bytes-IsBytes _ bitmap bytes)
            (omega (arith, length-zero_bytes ((sb.total_blocks + 7) / 8) bitmap)) j,
        is_marked-zero_bytes ((sb.total_blocks + 7) / 8) bitmap j (omega arith),
      )

  fresh-IsValid : IsValid fresh_bitmap fresh_allocator
  fresh-IsValid =
      let zeros = zero_bytes ((sb.total_blocks + 7) / 8) bitmap in
      let zeroed = zero_bytes-IsBytes ((sb.total_blocks + 7) / 8) bitmap bytes in
      let size = length-zero_bytes ((sb.total_blocks + 7) / 8) bitmap in
      let one_less =
        count_from_drop (λ _. true) (is_free fresh_bitmap) (sb.total_blocks - sb.data_start)
          sb.data_start sb.data_start (omega arith) (omega arith) refl
          (λ j lo hi. ground (arith, marks j)) in
      record {
        holds = refl;
        bytes = mark_used-IsBytes zeros sb.data_start zeroed (omega (arith, size));
        covers = omega (arith, size, length-mark_used zeros sb.data_start);
        starts = starts;
        nonempty = nonempty;
        fits = omega arith;
        root_taken = ground (arith, marks sb.data_start);
        counted = omega (
          arith,
          one_less,
          count_from_all (λ _. true) (sb.total_blocks - sb.data_start) sb.data_start
              (λ _ _ _. refl),
        );
        layout = (refl, refl);
        synced = refl;
      }

  succeeds : block_allocator_init true (some sb) (some bitmap) n ≡ some fresh_allocator
  unfolding block_allocator_init
  succeeds =
      let size : required_bytes sb.total_blocks ≡ (sb.total_blocks + 7) / 8 =
        unfold required_bytes in omega arith in
      let free : sub32 (sub32 sb.total_blocks sb.data_start) 1
          ≡ sb.total_blocks - sb.data_start - 1 =
        omega arith in
      ground (arith, size, free)

  -- With a bitmap of bytes that is large enough, and a superblock whose data start is above 0 and
  -- below its number of blocks, which is below 2 ^ 32 - 7, `initrafs_block_allocator_init`
  -- succeeds; the allocator is valid, and of the blocks only the root's is marked.
  pub block_allocator_init-IsValid :
      (block_allocator_init true (some sb) (some bitmap) n ≡ some fresh_allocator)
      × IsValid fresh_bitmap fresh_allocator
      × ((j : ℕ) → j < sb.total_blocks → is_marked fresh_bitmap j ≡ (sb.data_start == j))
  block_allocator_init-IsValid = (succeeds, fresh-IsValid, marks)
