-- ===== src/Scanner/Discovery/Distinct.antt =====
-- Lists of texts without a repetition, for the keys of tools/data-poc/src/dexscreenerDiscovery.ts.
use crypto_edge_ai.Common.{
  String, ◌≡◌, refl, sym, ap, ◌∙◌, Bool, false, ◌||◌, List, [], ◌∷◌, ◌++◌, str_eq, eq_iff, includes,
  map, Bool-cases, inl, inr, arith,
}

-- No text occurs twice.
abbrev pub Distinct : List String → Type 0
Distinct [] = Unit
Distinct (x ∷ xs) = (includes xs x ≡ false) × Distinct xs

pub includes-append :
    (xs ys : List String) (x : String) → includes (xs ++ ys) x ≡ (includes xs x || includes ys x)
unfolding includes
includes-append [] ys x = refl
includes-append (y ∷ xs) ys x = ground (arith, includes-append xs ys x)

str_eq-sym_false : (x y : String) → str_eq x y ≡ false → str_eq y x ≡ false
str_eq-sym_false x y h = elim (Bool-cases (str_eq y x)) [
  | inl e ↦ absurd (let same = (eq_iff x y).1 (sym ((eq_iff y x).0 e)) in cc)
  | inr n ↦ n
]

or-false : (a b : Bool) → (a || b) ≡ false → (a ≡ false) × (b ≡ false)
or-false a b h = ground arith

pub Distinct-snoc :
    (xs : List String) (x : String) → Distinct xs → includes xs x ≡ false → Distinct (xs ++ x ∷ [])
unfolding includes
Distinct-snoc [] x d h = (refl, tt)
Distinct-snoc (y ∷ xs) x (fresh, d) h =
    let (other, new) = or-false (str_eq y x) (includes xs x) h in
    let back = str_eq-sym_false y x other in
    (includes-append xs (x ∷ []) y ∙ ground arith, Distinct-snoc xs x d new)

pub map-append {ℓ κ} :
    {A : Type ℓ} {B : Type κ} (f : A → B) (xs ys : List A) → map f (xs ++ ys) ≡ map f xs ++ map f ys
map-append f [] ys = refl
map-append f (x ∷ xs) ys = ap (λ zs. f x ∷ zs) (map-append f xs ys)
