-- ===== src/Fanout/Sub.antt =====
-- Lists of buffers with some left out.
use rtltcp.Prelude.{ℕ, ◌≡◌, refl, ◌⊎◌, inl, inr, List, [], ◌∷◌, ◌++◌, append-nil}

-- The buffers of the first list are in the second, in the same order.
abbrev pub Sub : List (List ℕ) → List (List ℕ) → Type 0
Sub [] ys = Unit {0}
Sub (x ∷ xs) [] = ⊥
Sub (x ∷ xs) (y ∷ ys) = ((x ≡ y) × Sub xs ys) ⊎ Sub (x ∷ xs) ys

pub Sub-snoc :
    (b : List ℕ) (xs ys : List (List ℕ)) → Sub xs ys → Sub (xs ++ (b ∷ [])) (ys ++ (b ∷ []))
Sub-snoc b [] [] d = inl (refl, tt)
Sub-snoc b [] (y ∷ ys) d = inr (Sub-snoc b [] ys tt)
Sub-snoc b (x ∷ xs) [] d = absurd d
Sub-snoc b (x ∷ xs) (y ∷ ys) (inl (e, d)) = inl (e, Sub-snoc b xs ys d)
Sub-snoc b (x ∷ xs) (y ∷ ys) (inr d) = inr (Sub-snoc b (x ∷ xs) ys d)

Sub-skip : (xs : List (List ℕ)) (y : List ℕ) (ys : List (List ℕ)) → Sub xs ys → Sub xs (y ∷ ys)
Sub-skip [] y ys d = tt
Sub-skip (x ∷ xs) y ys d = inr d

-- Without a buffer in the middle.
pub Sub-drop :
    (xs : List (List ℕ)) (b : List ℕ) (ys zs : List (List ℕ))
    → Sub (xs ++ (b ∷ ys)) zs
    → Sub (xs ++ ys) zs
Sub-drop [] b ys [] d = absurd d
Sub-drop [] b ys (z ∷ zs) (inl (e, d)) = Sub-skip ys z zs d
Sub-drop [] b ys (z ∷ zs) (inr d) = Sub-skip ys z zs (Sub-drop [] b ys zs d)
Sub-drop (x ∷ xs) b ys [] d = absurd d
Sub-drop (x ∷ xs) b ys (z ∷ zs) (inl (e, d)) = inl (e, Sub-drop xs b ys zs d)
Sub-drop (x ∷ xs) b ys (z ∷ zs) (inr d) = inr (Sub-drop (x ∷ xs) b ys zs d)

pub Sub-take : (xs ys zs : List (List ℕ)) → Sub (xs ++ ys) zs → Sub xs zs
Sub-take xs [] zs d = rw (append-nil xs) at d
Sub-take xs (b ∷ ys) zs d = Sub-take xs ys zs (Sub-drop xs b ys zs d)
