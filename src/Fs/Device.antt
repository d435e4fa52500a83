-- ===== src/Fs/Device.antt =====
-- fs/block.h: a block device as the filesystem sees it, with what its driver promises.
use initra_os.Base.{ℕ, ◌<◌, ◌≡◌, ◌≢◌, Bool, true, Option, none, some, List, length}

-- `struct block_device`. `State` stands for what `private_data` leads to. A block is the list of its
-- bytes; `none` and `false` are failures. `read` is taken not to change the state.
pub record Device : Type 1 where
  pub State : Type 0
  pub block_size : ℕ
  pub block_count : ℕ
  pub read : State → ℕ → Option (List ℕ)
  pub write : State → ℕ → List ℕ → Bool × State

-- A block that is read has 512 bytes; a block that was written reads as it was written, and all the
-- others read as before.
pub record IsStorage (device : Device) : Type 0 where
  pub full_block :
      (s : device.State) (b : ℕ) (bytes : List ℕ)
      → device.read s b ≡ some bytes
      → length bytes ≡ 512
  pub read-write :
      (s : device.State) (b : ℕ) (bytes : List ℕ)
      → length bytes ≡ 512
      → (device.write s b bytes).0 ≡ true
      → device.read (device.write s b bytes).1 b ≡ some bytes
  pub read-write_ne :
      (s : device.State) (b c : ℕ) (bytes : List ℕ)
      → b ≢ c
      → device.read (device.write s b bytes).1 c ≡ device.read s c

-- No block of the device fails.
pub record IsHealthy (device : Device) : Type 0 where
  pub reads : (s : device.State) (b : ℕ) → b < device.block_count → device.read s b ≢ none
  pub writes :
      (s : device.State) (b : ℕ) (bytes : List ℕ)
      → b < device.block_count
      → length bytes ≡ 512
      → (device.write s b bytes).0 ≡ true
