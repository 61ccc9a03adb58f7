-- ===== src/Base/Slices.antt =====
-- Slices of a buffer, `&bs[start..start + n]`, and copies into one.
use blog_os.Base.{
  ℕ, zero, suc, ◌+◌, ◌-◌, ◌≤◌, ◌≡◌, refl, ap, sym, ◌∙◌, List, [], ◌∷◌, ◌++◌, append_assoc, arith,
  leb, if◌then◌else◌, length, take, drop, All, All-append, length-append, length-take, length-drop,
  take-append, drop-append, take-append-drop, Exec, done, panic, ◌⊎◌, inl, inr,
}

abbrev pub slice {ℓ} : {A : Type ℓ} → List A → ℕ → ℕ → Exec (List A)
slice bs start n = if leb (start + n) (length bs) then done (take n (drop start bs)) else panic

abbrev pub splice {ℓ} : {A : Type ℓ} → List A → ℕ → List A → List A
splice bs start new = take start bs ++ (new ++ drop (start + length new) bs)

-- `bs[start..start + new.len()].copy_from_slice(new)`
abbrev pub copy_into {ℓ} : {A : Type ℓ} → List A → ℕ → List A → Exec (List A)
copy_into bs start new =
    if leb (start + length new) (length bs) then done (splice bs start new) else panic

module _ {ℓ} {A : Type ℓ} where
  -- A slice that ends before the second part does not see it.
  slice_front :
      (n o : ℕ) (xs ys : List A)
      → o + n ≤ length xs
      → take n (drop o (xs ++ ys)) ≡ take n (drop o xs)
  slice_front zero o xs ys h = refl
  slice_front (suc n) zero [] ys h = absurd (omega arith)
  slice_front (suc n) zero (x ∷ xs) ys h =
      ap (λ zs. x ∷ zs) (slice_front n zero xs ys (omega arith))
  slice_front (suc n) (suc o) [] ys h = absurd (omega arith)
  slice_front (suc n) (suc o) (x ∷ xs) ys h = slice_front (suc n) o xs ys (omega arith)

  -- A drop that passes the first part sees the second alone.
  drop_past : (o : ℕ) (xs ys : List A) → length xs ≤ o → drop o (xs ++ ys) ≡ drop (o - length xs) ys
  drop_past o [] ys h = let e : o - 0 ≡ o = omega arith in rw e
  drop_past zero (x ∷ xs) ys h = absurd (omega arith)
  drop_past (suc o) (x ∷ xs) ys h =
      let e : suc o - suc (length xs) ≡ o - length xs = omega arith in
      rw e (drop_past o xs ys (omega arith))

  module _ (bs : List A) (start : ℕ) (new : List A) (fits : start + length new ≤ length bs) where
    pub length-splice : length (splice bs start new) ≡ length bs
    length-splice = omega (
      arith,
      length-append (take start bs) (new ++ drop (start + length new) bs),
      length-append new (drop (start + length new) bs),
      length-take start bs,
      length-drop (start + length new) bs,
    )

    -- The slice that was written.
    pub splice_self : take (length new) (drop start (splice bs start new)) ≡ new
    splice_self =
        ap (λ zs. take (length new) zs)
          (drop-append start (take start bs) (new ++ drop (start + length new) bs)
            (omega (arith, length-take start bs)))
        ∙ take-append (length new) new (drop (start + length new) bs) refl

    -- A slice that is disjoint from what was written.
    pub splice_other :
        (o n : ℕ)
        → (o + n ≤ start) ⊎ (start + length new ≤ o)
        → take n (drop o (splice bs start new)) ≡ take n (drop o bs)
    splice_other o n (inl before) =
        slice_front n o (take start bs) (new ++ drop (start + length new) bs)
          (omega (arith, length-take start bs))
        ∙ sym
            (slice_front n o (take start bs) (drop start bs) (omega (arith, length-take start bs)))
        ∙ ap (λ zs. take n (drop o zs)) (take-append-drop start bs)
    splice_other o n (inr behind) =
        ap (λ zs. take n zs)
          (ap (λ zs. drop o zs) (sym (append_assoc (take start bs) new back))
            ∙ drop_past o (take start bs ++ new) back (omega (arith, front_length))
            ∙ ap (λ k. drop k back) (omega (arith, front_length, length-take end bs))
            ∙ sym (drop_past o (take end bs) back (omega (arith, length-take end bs)))
            ∙ ap (λ zs. drop o zs) (take-append-drop end bs))
      where
        end : ℕ
        end = start + length new

        back : List A
        back = drop end bs

        front_length : length (take start bs ++ new) ≡ end
        front_length = omega (arith, length-append (take start bs) new, length-take start bs)

  pub All-take {κ} : (P : A → Type κ) (n : ℕ) (xs : List A) → All P xs → All P (take n xs)
  All-take P zero xs h = tt
  All-take P (suc n) [] h = tt
  All-take P (suc n) (x ∷ xs) h = (h.0, All-take P n xs h.1)

  pub All-drop {κ} : (P : A → Type κ) (n : ℕ) (xs : List A) → All P xs → All P (drop n xs)
  All-drop P zero xs h = h
  All-drop P (suc n) [] h = tt
  All-drop P (suc n) (x ∷ xs) h = All-drop P n xs h.1

  pub All-splice {κ} :
      (P : A → Type κ) (bs : List A) (start : ℕ) (new : List A)
      → All P bs
      → All P new
      → All P (splice bs start new)
  All-splice P bs start new h k =
      All-append P (take start bs) _ (All-take P start bs h)
        (All-append P new _ k (All-drop P (start + length new) bs h))
