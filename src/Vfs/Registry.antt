-- ===== src/Vfs/Registry.antt =====
-- The registry of fs/vfs.c as a set of pointers.
use initra_os.Base.{
  ℕ, suc, ◌<◌, ◌≤◌, ◌≡◌, ◌⊎◌, inl, inr, refl, ap, true, false, not, ◌&&◌, ◌||◌, Option, none, some,
  List, [], ◌∷◌, arith, ◌==◌, length, Bool-cases,
}
use initra_os.Vfs.{holds, fill, empty_slot}

-- No pointer stands in two slots.
abbrev pub Once : List (Option ℕ) → Type 0
Once [] = Unit
Once (none ∷ slots) = Once slots
Once (some p ∷ slots) = (holds slots p ≡ false) × Once slots

-- How many slots are taken.
pub registered : List (Option ℕ) → ℕ
registered [] = 0
registered (none ∷ slots) = registered slots
registered (some p ∷ slots) = suc (registered slots)

registered-le : (slots : List (Option ℕ)) → registered slots ≤ length slots
unfolding registered
registered-le [] = omega arith
registered-le (none ∷ slots) = omega (arith, registered-le slots)
registered-le (some p ∷ slots) = omega (arith, registered-le slots)

pub record Added (slots : List (Option ℕ)) (p : ℕ) (slots' : List (Option ℕ)) : Type 0 where
  pub size : length slots' ≡ length slots
  pub room : registered slots < length slots
  pub members : (q : ℕ) → holds slots' q ≡ (p == q || holds slots q)
  pub once : Once slots'

pub fill_lem :
    (slots : List (Option ℕ)) (p : ℕ)
    → holds slots p ≡ false
    → Once slots
    → ((fill slots p ≡ none) × (registered slots ≡ length slots))
      ⊎ ((slots' : List (Option ℕ)) × (fill slots p ≡ some slots') × Added slots p slots')
unfolding fill holds registered
fill_lem [] p h o = inl (refl, refl)
fill_lem (none ∷ slots) p h o = inr (
  some p ∷ slots,
  refl,
  record {
    size = refl;
    room = omega (arith, registered-le slots);
    members = λ q. refl;
    once = (h, o);
  },
)
fill_lem (some r ∷ slots) p h o = elim (fill_lem slots p (ground arith) o.1) [
  | inl (e, f) ↦ inl (rw (e) refl, ap suc f)
  | inr (slots', e, a) ↦ inr (
    some r ∷ slots',
    rw (e) refl,
    record {
      size = ap suc a.size;
      room = omega (arith, a.room);
      members = λ q. ground (arith, a.members q);
      once = (ground (arith, a.members r, o.0), a.once);
    },
  )
]

pub record Removed (slots : List (Option ℕ)) (p : ℕ) (slots' : List (Option ℕ)) : Type 0 where
  pub size : length slots' ≡ length slots
  pub members : (q : ℕ) → holds slots' q ≡ (not (p == q) && holds slots q)
  pub once : Once slots'

pub empty_slot_lem :
    (slots : List (Option ℕ)) (p : ℕ)
    → holds slots p ≡ true
    → Once slots
    → (slots' : List (Option ℕ)) × (empty_slot slots p ≡ some slots') × Removed slots p slots'
unfolding empty_slot holds
empty_slot_lem [] p h o = absurd (ground (arith, h))
empty_slot_lem (none ∷ slots) p h o =
    let (slots', e, r) = empty_slot_lem slots p h o in
    (
      none ∷ slots',
      rw (e) refl,
      record { size = ap suc r.size; members = r.members; once = r.once },
    )
empty_slot_lem (some r ∷ slots) p h o = elim (Bool-cases (r == p)) [
  | inl e ↦ (
    none ∷ slots,
    rw (e) refl,
    record { size = refl; members = λ q. ground (arith, o.0, ap (holds slots)); once = o.1 },
  )
  | inr e ↦
      let (slots', f, t) = empty_slot_lem slots p (ground (arith, h)) o.1 in
      (
        some r ∷ slots',
        rw (e, f) refl,
        record {
          size = ap suc t.size;
          members = λ q. ground (arith, t.members q);
          once = (ground (arith, t.members r, o.0), t.once);
        },
      )
]
