-- ===== src/Fs/File/Copy.antt =====
-- Copying bytes between buffers, as the loops of `initrafs_file_read` do.
use initra_os.Base.{
  ℕ, zero, suc, ◌+◌, ◌-◌, ◌≤◌, ◌<◌, ◌≡◌, refl, ap, ◌∙◌, ◌&&◌, List, arith, ltb, leb, if◌then◌else◌,
  length, get_or, set, length-set, get_or-set_self, get_or-set_ne,
}
use initra_os.Fs.File.{copy_bytes}

pub length-copy_bytes :
    (d : List ℕ) (at : ℕ) (s : List ℕ) (from n : ℕ) → length (copy_bytes d at s from n) ≡ length d
unfolding copy_bytes
length-copy_bytes d at s from zero = refl
length-copy_bytes d at s from (suc n) =
    length-copy_bytes (set d at (get_or s from 0)) (at + 1) s (from + 1) n ∙ length-set d at _

-- Each copied byte is in its place, and the others are as they were.
pub get_or-copy_bytes :
    (d : List ℕ) (at : ℕ) (s : List ℕ) (from n j : ℕ)
    → at + n ≤ length d
    → get_or (copy_bytes d at s from n) j 0
      ≡ (if leb at j && ltb j (at + n) then get_or s (from + (j - at)) 0 else get_or d j 0)
unfolding copy_bytes
get_or-copy_bytes d at s from zero j h = ground arith
get_or-copy_bytes d at s from (suc n) j h = ground (
  arith,
  get_or-copy_bytes (set d at (get_or s from 0)) (at + 1) s (from + 1) n j
      (omega (arith, length-set d at (get_or s from 0))),
  get_or-set_self d at (get_or s from 0) 0,
  get_or-set_ne d at j (get_or s from 0) 0,
  shifted,
  first,
)
  where
    shifted : at < j → get_or s (from + 1 + (j - (at + 1))) 0 ≡ get_or s (from + (j - at)) 0
    shifted lt = ap (λ k. get_or s k 0) (omega arith)

    first : at ≡ j → get_or s (from + (j - at)) 0 ≡ get_or s from 0
    first e = ap (λ k. get_or s k 0) (omega arith)
