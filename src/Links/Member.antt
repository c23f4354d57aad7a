-- ===== src/Links/Member.antt =====
-- Lists of distinct addresses.
use pointer_os.Base.{◌≡◌, refl, ℕ, sym, ◌≢◌, List, [], ◌∷◌, ◌++◌, append-nil}

infix 40 ◌∉◌
abbrev pub ◌∉◌ : ℕ → List ℕ → Type 0
a ∉ [] = Unit {0}
a ∉ (x ∷ xs) = (a ≢ x) × a ∉ xs

abbrev pub Distinct : List ℕ → Type 0
Distinct [] = Unit {0}
Distinct (x ∷ xs) = x ∉ xs × Distinct xs

pub notin-append : (a : ℕ) (xs ys : List ℕ) → a ∉ xs → a ∉ ys → a ∉ (xs ++ ys)
notin-append a [] ys hx hy = hy
notin-append a (x ∷ xs) ys (ne, hx) hy = (ne, notin-append a xs ys hx hy)

pub notin_left : (a : ℕ) (xs ys : List ℕ) → a ∉ (xs ++ ys) → a ∉ xs
notin_left a [] ys h = tt
notin_left a (x ∷ xs) ys (ne, h) = (ne, notin_left a xs ys h)

pub notin_right : (a : ℕ) (xs ys : List ℕ) → a ∉ (xs ++ ys) → a ∉ ys
notin_right a [] ys h = h
notin_right a (x ∷ xs) ys (ne, h) = notin_right a xs ys h

-- Without the element between two parts.
pub notin_drop : (a : ℕ) (xs : List ℕ) (t : ℕ) (ys : List ℕ) → a ∉ (xs ++ t ∷ ys) → a ∉ (xs ++ ys)
notin_drop a [] t ys (ne, h) = h
notin_drop a (x ∷ xs) t ys (ne, h) = (ne, notin_drop a xs t ys h)

pub notin_middle : (a : ℕ) (xs : List ℕ) (t : ℕ) (ys : List ℕ) → a ∉ (xs ++ t ∷ ys) → a ≢ t
notin_middle a [] t ys (ne, h) = ne
notin_middle a (x ∷ xs) t ys (ne, h) = notin_middle a xs t ys h

pub Distinct-drop :
    (xs : List ℕ) (t : ℕ) (ys : List ℕ) → Distinct (xs ++ t ∷ ys) → Distinct (xs ++ ys)
Distinct-drop [] t ys (h, d) = d
Distinct-drop (x ∷ xs) t ys (h, d) = (notin_drop x xs t ys h, Distinct-drop xs t ys d)

-- The element between two parts stands in neither.
pub notin_of_Distinct :
    (xs : List ℕ) (t : ℕ) (ys : List ℕ) → Distinct (xs ++ t ∷ ys) → t ∉ (xs ++ ys)
notin_of_Distinct [] t ys (h, d) = h
notin_of_Distinct (x ∷ xs) t ys (h, d) =
    ((λ e. notin_middle x xs t ys h (sym e)), notin_of_Distinct xs t ys d)

pub notin_insert :
    (a : ℕ) (xs : List ℕ) (t : ℕ) (ys : List ℕ) → a ≢ t → a ∉ (xs ++ ys) → a ∉ (xs ++ t ∷ ys)
notin_insert a [] t ys ne h = (ne, h)
notin_insert a (x ∷ xs) t ys ne (nx, h) = (nx, notin_insert a xs t ys ne h)

pub Distinct-insert :
    (xs : List ℕ) (t : ℕ) (ys : List ℕ)
    → Distinct (xs ++ ys)
    → t ∉ (xs ++ ys)
    → Distinct (xs ++ t ∷ ys)
Distinct-insert [] t ys d h = (h, d)
Distinct-insert (x ∷ xs) t ys (hx, d) (ne, h) =
    (notin_insert x xs t ys (λ e. ne (sym e)) hx, Distinct-insert xs t ys d h)

-- The first address of a list that is closed by `z`, and the last of one that is opened by `x`.
abbrev pub first_or : List ℕ → ℕ → ℕ
first_or [] z = z
first_or (y ∷ ys) z = y

abbrev pub last_or : ℕ → List ℕ → ℕ
last_or x [] = x
last_or x (y ∷ ys) = last_or y ys

pub ne-first_or : (a : ℕ) (ys : List ℕ) (z : ℕ) → a ∉ ys → a ≢ z → a ≢ first_or ys z
ne-first_or a [] z h ne = ne
ne-first_or a (y ∷ ys) z (ay, h) ne = ay

pub ne-last_or : (a x : ℕ) (ys : List ℕ) → a ≢ x → a ∉ ys → a ≢ last_or x ys
ne-last_or a x [] ne h = ne
ne-last_or a x (y ∷ ys) ne (ay, h) = ne-last_or a y ys ay h

pub notin_comm : (a : ℕ) (xs ys : List ℕ) → a ∉ (xs ++ ys) → a ∉ (ys ++ xs)
notin_comm a xs ys h = notin-append a ys xs (notin_right a xs ys h) (notin_left a xs ys h)

pub Distinct-comm : (xs ys : List ℕ) → Distinct (xs ++ ys) → Distinct (ys ++ xs)
Distinct-comm [] ys d = rw append-nil d
Distinct-comm (x ∷ xs) ys (h, d) =
    Distinct-insert ys x xs (Distinct-comm xs ys d) (notin_comm x xs ys h)

pub last_or-snoc : (x : ℕ) (xs : List ℕ) (t : ℕ) → last_or x (xs ++ t ∷ []) ≡ t
last_or-snoc x [] t = refl
last_or-snoc x (y ∷ xs) t = last_or-snoc y xs t

pub Distinct-snoc : (xs : List ℕ) (t : ℕ) → Distinct xs → t ∉ xs → Distinct (xs ++ t ∷ [])
Distinct-snoc xs t d out = Distinct-insert xs t [] (rw append-nil d) (rw append-nil out)
