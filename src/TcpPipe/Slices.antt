-- ===== src/TcpPipe/Slices.antt =====
-- Leading parts of lists, for the code of pipe/tcp-pipe/tcp-pipe-endpoint.cpp that sends and fills
-- its buffers piece by piece.
use common.Base.{
  ℕ, zero, suc, ◌+◌, ◌≤◌, ◌≡◌, refl, ap, ◌∙◌, List, [], ◌∷◌, ◌++◌, length, take, drop, All, arith,
  take-append,
}

module _ {ℓ} {A : Type ℓ} where
  pub take_within : (n : ℕ) (xs ys : List A) → n ≤ length xs → take n (xs ++ ys) ≡ take n xs
  take_within zero xs ys h = refl
  take_within (suc n) [] ys h = absurd (omega arith)
  take_within (suc n) (x ∷ xs) ys h = ap (λ t. x ∷ t) (take_within n xs ys (omega arith))

  pub take_past : (n : ℕ) (xs ys : List A) → take (length xs + n) (xs ++ ys) ≡ xs ++ take n ys
  take_past n [] ys = ap (λ k. take k ys) {x = 0 + n} (omega arith)
  take_past n (x ∷ xs) ys =
      ap (λ k. take k (x ∷ (xs ++ ys))) {y = suc (length xs + n)} (omega arith)
      ∙ ap (λ t. x ∷ t) (take_past n xs ys)

  pub drop_within : (n : ℕ) (xs ys : List A) → n ≤ length xs → drop n (xs ++ ys) ≡ drop n xs ++ ys
  drop_within zero xs ys h = refl
  drop_within (suc n) [] ys h = absurd (omega arith)
  drop_within (suc n) (x ∷ xs) ys h = drop_within n xs ys (omega arith)

  pub drop_past : (n : ℕ) (xs ys : List A) → drop (length xs + n) (xs ++ ys) ≡ drop n ys
  drop_past n [] ys = ap (λ k. drop k ys) {x = 0 + n} (omega arith)
  drop_past n (x ∷ xs) ys =
      ap (λ k. drop k (x ∷ (xs ++ ys))) {y = suc (length xs + n)} (omega arith) ∙ drop_past n xs ys

  -- A leading part grows by what follows it.
  pub take_more :
      (n : ℕ) (xs bytes rest : List A)
      → drop n xs ≡ bytes ++ rest
      → take (n + length bytes) xs ≡ take n xs ++ bytes
  take_more zero xs bytes rest h =
      ap (λ k. take k xs) {y = length bytes} (omega arith)
      ∙ ap (take (length bytes)) h
      ∙ take-append bytes rest
  take_more (suc n) [] [] rest h = ap (λ k. take k []) {y = suc n} (omega arith)
  take_more (suc n) [] (b ∷ bytes) rest h = cc
  take_more (suc n) (x ∷ xs) bytes rest h =
      ap (λ k. take k (x ∷ xs)) {y = suc (n + length bytes)} (omega arith)
      ∙ ap (λ t. x ∷ t) (take_more n xs bytes rest h)

  pub take-append_drop : (n : ℕ) (xs : List A) → take n xs ++ drop n xs ≡ xs
  take-append_drop zero xs = refl
  take-append_drop (suc n) [] = refl
  take-append_drop (suc n) (x ∷ xs) = ap (λ t. x ∷ t) (take-append_drop n xs)

  -- A leading part that is overwritten behind `n` grows by what is put there.
  pub take_put :
      (n : ℕ) (xs bytes rest : List A)
      → n ≤ length xs
      → take (n + length bytes) (take n xs ++ (bytes ++ rest)) ≡ take n xs ++ bytes
  take_put zero xs bytes rest h =
      ap (λ k. take k (bytes ++ rest)) {y = length bytes} (omega arith) ∙ take-append bytes rest
  take_put (suc n) [] bytes rest h = absurd (omega arith)
  take_put (suc n) (x ∷ xs) bytes rest h =
      ap (λ k. take k (x ∷ (take n xs ++ (bytes ++ rest)))) {y = suc (n + length bytes)}
        (omega arith)
      ∙ ap (λ t. x ∷ t) (take_put n xs bytes rest (omega arith))

  pub All-take {κ} : (P : A → Type κ) (n : ℕ) (xs : List A) → All P xs → All P (take n xs)
  All-take P zero xs h = tt
  All-take P (suc n) [] h = tt
  All-take P (suc n) (x ∷ xs) h = (h.0, All-take P n xs h.1)

  pub All-drop {κ} : (P : A → Type κ) (n : ℕ) (xs : List A) → All P xs → All P (drop n xs)
  All-drop P zero xs h = h
  All-drop P (suc n) [] h = tt
  All-drop P (suc n) (x ∷ xs) h = All-drop P n xs h.1
