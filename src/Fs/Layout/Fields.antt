-- ===== src/Fs/Layout/Fields.antt =====
-- A `#[repr(C)]` structure of unaligned fields as the concatenation of its fields' bytes.
use blog_os.Base.{
  All, All-append, ℕ, ◌+◌, ◌≡◌, refl, ap, List, [], ◌∷◌, ◌++◌, arith, length, take, drop,
  length-append, length-take, length-drop, take-append, drop-append, take-append-drop, ◌∙◌,
}

abbrev pub concat : List (List ℕ) → List ℕ
concat [] = []
concat (p ∷ ps) = p ++ concat ps

-- Cut `bs` into pieces of the given widths.
abbrev pub split : List ℕ → List ℕ → List (List ℕ)
split [] bs = []
split (w ∷ ws) bs = take w bs ∷ split ws (drop w bs)

abbrev pub sum : List ℕ → ℕ
sum [] = 0
sum (w ∷ ws) = w + sum ws

-- The pieces have these widths.
abbrev pub Fit : List ℕ → List (List ℕ) → Type 0
Fit [] [] = Unit {0}
Fit [] (p ∷ ps) = ⊥
Fit (w ∷ ws) [] = ⊥
Fit (w ∷ ws) (p ∷ ps) = (length p ≡ w) × Fit ws ps

pub split-concat : (ws : List ℕ) (ps : List (List ℕ)) → Fit ws ps → split ws (concat ps) ≡ ps
split-concat [] [] h = refl
split-concat [] (p ∷ ps) h = absurd h
split-concat (w ∷ ws) [] h = absurd h
split-concat (w ∷ ws) (p ∷ ps) (e, h) =
    let front : take w (p ++ concat ps) ≡ p = take-append w p (concat ps) e in
    let back : drop w (p ++ concat ps) ≡ concat ps = drop-append w p (concat ps) e in
    rw (front, back) (ap (λ qs. p ∷ qs) (split-concat ws ps h))

pub concat-split : (ws bs : List ℕ) → length bs ≡ sum ws → concat (split ws bs) ≡ bs
concat-split [] [] h = refl
concat-split [] (b ∷ bs) h = absurd (omega arith)
concat-split (w ∷ ws) bs h =
    ap (λ zs. take w bs ++ zs) (concat-split ws (drop w bs) (omega (arith, length-drop w bs)))
    ∙ take-append-drop w bs

pub length-concat : (ws : List ℕ) (ps : List (List ℕ)) → Fit ws ps → length (concat ps) ≡ sum ws
length-concat [] [] h = refl
length-concat [] (p ∷ ps) h = absurd h
length-concat (w ∷ ws) [] h = absurd h
length-concat (w ∷ ws) (p ∷ ps) (e, h) =
    omega (arith, length-append p (concat ps), length-concat ws ps h)

pub split-Fit : (ws bs : List ℕ) → length bs ≡ sum ws → Fit ws (split ws bs)
split-Fit [] bs h = tt
split-Fit (w ∷ ws) bs h =
    (omega (arith, length-take w bs), split-Fit ws (drop w bs) (omega (arith, length-drop w bs)))

pub Fit-append :
    (ws vs : List ℕ) (ps qs : List (List ℕ)) → Fit ws ps → Fit vs qs → Fit (ws ++ vs) (ps ++ qs)
Fit-append [] vs [] qs h k = k
Fit-append [] vs (p ∷ ps) qs h k = absurd h
Fit-append (w ∷ ws) vs [] qs h k = absurd h
Fit-append (w ∷ ws) vs (p ∷ ps) qs (e, h) k = (e, Fit-append ws vs ps qs h k)

pub All-concat {κ} : (P : ℕ → Type κ) (ps : List (List ℕ)) → All (All P) ps → All P (concat ps)
All-concat P [] h = tt
All-concat P (p ∷ ps) h = All-append P p (concat ps) h.0 (All-concat P ps h.1)
