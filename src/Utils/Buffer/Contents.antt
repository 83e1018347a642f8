-- ===== src/Utils/Buffer/Contents.antt =====
-- Copies and comparisons of buffers, by the bytes that they own.
use common.Base.{
  ℕ, ◌+◌, ◌≡◌, refl, sym, ap, ◌∙◌, List, [], ◌∷◌, ◌++◌, append_assoc, some, Bool, true, false,
  arith, ◌==◌, ◌↔◌, length, get_elem?-append_middle, length-append, access, ok, Bool-cases, inl,
  inr,
}
use common.Utils.Memory.{read, block, length-block, write_middle}
use common.Utils.Buffer.{Buffer, create, copy_loop, copy, equal_loop, equal, get}

-- A buffer that owns just `bytes`.
pub record Owns (b : Buffer) (bytes : List ℕ) : Type 0 where
  pub points : b.m_buffer ≡ some bytes
  pub size : b.m_size ≡ length bytes

read_middle : (xs : List ℕ) (x : ℕ) (ys : List ℕ) → read (some (xs ++ x ∷ ys)) (length xs) ≡ ok x
unfolding read
read_middle xs x ys = ap access (get_elem?-append_middle xs x ys)

-- The loop of `copy`, with `done` behind it.
copy_loop_lem :
    (done bytes old : List ℕ) (i : ℕ)
    → i ≡ length done
    → length old ≡ length bytes
    → copy_loop (some (done ++ bytes)) (some (done ++ old)) i (length bytes)
      ≡ ok (some (done ++ bytes))
unfolding copy_loop
copy_loop_lem done [] [] i e h = refl
copy_loop_lem done [] (o ∷ old) i e h = absurd (omega (arith, h))
copy_loop_lem done (x ∷ bytes) [] i e h = absurd (omega (arith, h))
copy_loop_lem done (x ∷ bytes) (o ∷ old) i e h =
    rw (e, read_middle done x bytes, write_middle done o x old)
      (rw (append_assoc done (x ∷ []) bytes, append_assoc done (x ∷ []) old) at
        (copy_loop_lem (done ++ x ∷ []) bytes old (length done + 1)
          (sym (length-append done (x ∷ []))) (omega (arith, h))))

-- A copy succeeds, whatever the new block held, and is a buffer with the same bytes.
pub copy_lem :
    (garbage : ℕ → ℕ) (b : Buffer) (bytes : List ℕ) → Owns b bytes → copy garbage b ≡ ok b
unfolding copy create
copy_lem garbage b bytes o =
    rw
      (
        o.points,
        o.size,
        copy_loop_lem [] bytes (block garbage (length bytes)) 0 refl
            (length-block garbage (length bytes)),
      )
      refl

-- The loop of `operator==`, with `xs` and `ys` behind it.
equal_loop_lem :
    (a b : Buffer) (xs ys us vs : List ℕ) (i : ℕ)
    → a.m_buffer ≡ some (xs ++ us)
    → b.m_buffer ≡ some (ys ++ vs)
    → i ≡ length xs
    → i ≡ length ys
    → length us ≡ length vs
    → (d : Bool) × (equal_loop a b i (length us) ≡ ok d)
      × (d ≡ true → us ≡ vs)
      × (us ≡ vs → d ≡ true)
unfolding equal_loop get
equal_loop_lem a b xs ys [] [] i ha hb hx hy h = (true, refl, λ _. refl, λ _. refl)
equal_loop_lem a b xs ys [] (v ∷ vs) i ha hb hx hy h = absurd (omega (arith, h))
equal_loop_lem a b xs ys (u ∷ us) [] i ha hb hx hy h = absurd (omega (arith, h))
equal_loop_lem a b xs ys (u ∷ us) (v ∷ vs) i ha hb hx hy h =
    let (d, run, sound, complete) =
      equal_loop_lem a b (xs ++ u ∷ []) (ys ++ v ∷ []) us vs (i + 1)
        (ha ∙ ap some (sym (append_assoc xs (u ∷ []) us)))
        (hb ∙ ap some (sym (append_assoc ys (v ∷ []) vs)))
        (ground (arith, hx, length-append xs (u ∷ [])))
        (ground (arith, hy, length-append ys (v ∷ []))) (omega (arith, h)) in
    elim (Bool-cases (u == v)) [
      | inl same ↦ (
        d,
        simp (read_a, read_b, same, run) refl,
        (λ t. ground (arith, same, sound t)),
        (λ t. complete (ground (arith, t))),
      )
      | inr differ ↦ (
        false,
        simp (read_a, read_b, differ) refl,
        (λ t. absurd (ground (arith, t))),
        (λ t. absurd (ground (arith, differ, t))),
      )
    ]
  where
    read_a : read a.m_buffer i ≡ ok u
    read_a = rw (ha, hx) (read_middle xs u us)

    read_b : read b.m_buffer i ≡ ok v
    read_b = rw (hb, hy) (read_middle ys v vs)

-- The comparison of two buffers answers, and answers true exactly if their bytes are the same.
pub equal_lem :
    (a b : Buffer) (us vs : List ℕ)
    → Owns a us
    → Owns b vs
    → (d : Bool) × (equal a b ≡ ok d) × ((d ≡ true) ↔ (us ≡ vs))
unfolding equal
equal_lem a b us vs oa ob = elim (Bool-cases (a.m_size == b.m_size)) [
  | inl same ↦
      (let (d, run, sound, complete) =
          equal_loop_lem a b [] [] us vs 0 oa.points ob.points refl refl
            (ground (arith, same, oa.size, ob.size)) in
        (d, simp (same) (ap (equal_loop a b 0) oa.size ∙ run), (sound, complete)))
  | inr differ ↦ (
    false,
    simp (differ) refl,
    (
      (λ t. absurd (ground (arith, t))),
      (λ t. absurd (ground (arith, differ, oa.size, ob.size, ap length t))),
    ),
  )
]
