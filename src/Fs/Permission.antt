-- ===== src/Fs/Permission.antt =====
-- `initrafs_inode_check_permission` of fs/initrafs.c: the permission bits of an inode's mode.
mod Tests
use initra_os.Base.{
  ℕ, ◌≡◌, ◌<◌, ◌-◌, ◌%◌, ◌/◌, ◌^◌, ◌∙◌, refl, Bool, true, false, not, ◌&&◌, ◌||◌, Option, none,
  some, bit_and, bit_or, arith, ltb, ◌==◌, ◌!=◌, if◌then◌else◌, u32, passes_below,
  passes_below_sound, same_bool, same_bool-eq, bit_and_bit, bit_and_upper, halves,
}
use initra_os.Fs.Format.{FsInode}

abbrev pub permission_read : ℕ
permission_read = 1

abbrev pub permission_write : ℕ
permission_write = 2

abbrev pub permission_execute : ℕ
permission_execute = 4

-- `allowed`, from the three tests of one class.
grant : Bool → Bool → Bool → ℕ
grant readable writable executable =
    let a = if readable then bit_or 0 permission_read else 0 in
    let b = if writable then bit_or a permission_write else a in
    if executable then bit_or b permission_execute else b

allowed_bits : FsInode → ℕ → ℕ → ℕ
unfolding grant
allowed_bits inode user group =
    let mode = inode.mode in
    if user == inode.owner
    then grant (bit_and mode 0o400 != 0) (bit_and mode 0o200 != 0) (bit_and mode 0o100 != 0)
    else if group == inode.group
    then grant (bit_and mode 0o040 != 0) (bit_and mode 0o020 != 0) (bit_and mode 0o010 != 0)
    else grant (bit_and mode 0o004 != 0) (bit_and mode 0o002 != 0) (bit_and mode 0o001 != 0)

pub inode_check_permission : Option FsInode → ℕ → ℕ → ℕ → Bool
unfolding allowed_bits
inode_check_permission none user group requested = false
inode_check_permission (some inode) user group requested =
    if requested == 0 || bit_and requested (2 ^ 32 - 1 - 7) != 0
    then false
    else bit_and (allowed_bits inode user group) requested == requested

-- The octal digit of the mode that counts for a caller: the owner's, else the group's, else that of
-- everybody else.
abbrev pub class_digit : FsInode → ℕ → ℕ → ℕ
class_digit inode user group =
    if user == inode.owner
    then inode.mode / 64 % 8
    else if group == inode.group
    then inode.mode / 8 % 8
    else inode.mode % 8

-- Each of the requested rights (1 read, 2 write, 4 execute) has its bit (4, 2, 1) in the digit.
abbrev pub covers : ℕ → ℕ → Bool
covers digit requested =
    (requested % 2 == 0 || digit / 4 % 2 == 1)
    && (requested / 2 % 2 == 0 || digit / 2 % 2 == 1)
    && (requested / 4 % 2 == 0 || digit % 2 == 1)

grant_law : Bool → Bool → Bool → ℕ → Bool
grant_law r w x q =
    same_bool (bit_and (grant r w x) q == q)
      ((q % 2 == 0 || r) && (q / 2 % 2 == 0 || w) && (q / 4 % 2 == 0 || x))

grant_table : (r w x : Bool) → passes_below (grant_law r w x) 8 ≡ true
unfolding passes_below grant_law grant same_bool
grant_table true true true = refl
grant_table true true false = refl
grant_table true false true = refl
grant_table true false false = refl
grant_table false true true = refl
grant_table false true false = refl
grant_table false false true = refl
grant_table false false false = refl

grant_lem :
    (r w x : Bool) (q : ℕ)
    → q < 8
    → (bit_and (grant r w x) q == q)
      ≡ ((q % 2 == 0 || r) && (q / 2 % 2 == 0 || w) && (q / 4 % 2 == 0 || x))
grant_lem r w x q h =
    same_bool-eq _ _
      (unfold grant_law in passes_below_sound (grant_law r w x) 8 (grant_table r w x) h)

bit_test : (k m : ℕ) → (bit_and m (2 ^ k) != 0) ≡ (halves k m % 2 == 1)
bit_test k m = ground (arith, bit_and_bit k m)

-- The rights that three bits of the mode grant, when these bits are those of a digit.
grant_class :
    (m r w x digit q : ℕ)
    → q < 8
    → halves r m % 2 ≡ digit / 4 % 2
    → halves w m % 2 ≡ digit / 2 % 2
    → halves x m % 2 ≡ digit % 2
    → (bit_and (grant (bit_and m (2 ^ r) != 0) (bit_and m (2 ^ w) != 0) (bit_and m (2 ^ x) != 0)) q
        == q)
      ≡ covers digit q
grant_class m r w x digit q h hr hw hx =
    grant_lem (bit_and m (2 ^ r) != 0) (bit_and m (2 ^ w) != 0) (bit_and m (2 ^ x) != 0) q h
    ∙ rw (bit_test r m, bit_test w m, bit_test x m, hr, hw, hx) refl

allowed_bits-covers :
    (inode : FsInode) (user group q : ℕ)
    → q < 8
    → (bit_and (allowed_bits inode user group) q == q) ≡ covers (class_digit inode user group) q
unfolding allowed_bits
allowed_bits-covers inode user group q h =
    let m = inode.mode in
    ground (
      arith,
      grant_class m 8 7 6 (m / 64 % 8) q h (omega arith) (omega arith) (omega arith),
      grant_class m 5 4 3 (m / 8 % 8) q h (omega arith) (omega arith) (omega arith),
      grant_class m 2 1 0 (m % 8) q h (omega arith) (omega arith) (omega arith),
    )

-- A request below 2 ^ 32 is granted exactly when it asks for at least one of the three rights and
-- for nothing else, and each right that it asks for has its bit in the mode's digit for the
-- caller's class: the owner's, else the group's, else the others'.
pub inode_check_permission_lem :
    (inode : FsInode) (user group requested : ℕ)
    → requested < 2 ^ 32
    → inode_check_permission (some inode) user group requested
      ≡ (requested != 0 && ltb requested 8 && covers (class_digit inode user group) requested)
unfolding inode_check_permission
inode_check_permission_lem inode user group requested h =
    ground (arith, bit_and_upper requested h, allowed_bits-covers inode user group requested)
