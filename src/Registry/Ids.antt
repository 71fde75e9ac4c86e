-- ===== src/Registry/Ids.antt =====
-- Lists of identifiers: of the registered buffers, and of those that the activity has.
use termux_x11_virtualkeys.Base.{
  ℕ, ◌==◌, ==_iff, ◌≡◌, refl, ap, subst, Bool, true, false, if_property, Bool-cases, none, some,
  List, [], ◌∷◌, if◌then◌else◌, inl, inr, arith,
}
use termux_x11_virtualkeys.Buffer.Alloc.{LorieBuffer}
use termux_x11_virtualkeys.Buffer.Os.{remove}
use termux_x11_virtualkeys.Registry.{id_of, find_by_id, remove_from_list}

unfoldable pub ids : List LorieBuffer → List ℕ
ids [] = []
ids (b ∷ bs) = id_of b ∷ ids bs

unfoldable pub mem : ℕ → List ℕ → Bool
mem x [] = false
mem x (y ∷ ys) = let rest = mem x ys in if y == x then true else rest

abbrev pub Distinct : List ℕ → Type 0
Distinct [] = Unit
Distinct (x ∷ xs) = (mem x xs ≡ false) × Distinct xs

pub find_by_id-mem :
    (id : ℕ) (bs : List LorieBuffer) → find_by_id id bs ≡ none → mem id (ids bs) ≡ false
unfolding find_by_id mem ids
find_by_id-mem id [] e = refl
find_by_id-mem id (b ∷ bs) e = ground (arith, e, find_by_id-mem id bs)

pub ids-remove_from_list :
    (id : ℕ) (bs : List LorieBuffer) → ids (remove_from_list id bs) ≡ remove id (ids bs)
unfolding ids remove_from_list remove
ids-remove_from_list id [] = refl
ids-remove_from_list id (b ∷ bs) = elim (Bool-cases (id_of b == id)) [
  | inl e ↦ rw (e, remove_from_list, remove) refl
  | inr e ↦ rw (e, remove_from_list, remove) (ap (λ q. id_of b ∷ q) (ids-remove_from_list id bs))
]

pub mem-remove_other : (x id : ℕ) (xs : List ℕ) → mem x xs ≡ false → mem x (remove id xs) ≡ false
unfolding mem remove
mem-remove_other x id [] e = refl
mem-remove_other x id (y ∷ ys) e = ground (arith, e, mem-remove_other x id ys)

pub remove-Distinct : (id : ℕ) (xs : List ℕ) → Distinct xs → Distinct (remove id xs)
unfolding remove
remove-Distinct id [] d = d
remove-Distinct id (y ∷ ys) d =
    if_property Distinct (y == id) (d.1)
      (mem-remove_other y id ys (d.0), remove-Distinct id ys (d.1))

pub mem-remove : (id : ℕ) (xs : List ℕ) → Distinct xs → mem id (remove id xs) ≡ false
unfolding mem remove
mem-remove id [] d = refl
mem-remove id (y ∷ ys) d = elim (Bool-cases (y == id)) [
  | inl e ↦ rw e (subst (λ q. mem q ys ≡ false) ((==_iff y id).0 e) (d.0))
  | inr e ↦ rw (e, mem, e) (mem-remove id ys (d.1))
]

pub find_by_id-found :
    (id : ℕ) (bs : List LorieBuffer) (x : LorieBuffer)
    → find_by_id id bs ≡ some x
    → mem id (ids bs) ≡ true
unfolding find_by_id mem ids
find_by_id-found id [] x e = ground arith
find_by_id-found id (b ∷ bs) x e = ground (arith, e, find_by_id-found id bs x)

pub mem-head : (x : ℕ) (xs : List ℕ) → mem x (x ∷ xs) ≡ true
unfolding mem
mem-head x xs = ground arith
