-- ===== src/Extraction/Pieces.antt =====
-- The slices of a block: each within the limit, and together the block.
use legal_bridge.Prelude.{
  ℕ, zero, suc, ◌+◌, ◌≤◌, max, List, [], ◌∷◌, ◌++◌, ◌≡◌, refl, sym, ap, ◌∙◌, map, arith, length,
  take, drop, All, flatten, flatten-append, length-take, take-append-drop, if-cases, ltb,
}
use legal_bridge.Store.Schema.{Text}
use legal_bridge.Extraction.Sections.{range, pieces}

drop_all : (n : ℕ) (t : Text) → length t ≤ n → drop n t ≡ []
drop_all zero [] h = refl
drop_all zero (c ∷ t) h = ground (arith, h)
drop_all (suc n) [] h = refl
drop_all (suc n) (c ∷ t) h = drop_all n t (omega (arith, h))

drop-add : (n m : ℕ) (t : Text) → drop (n + m) t ≡ drop m (drop n t)
drop-add zero m t = ap (λ k. drop k t) (omega arith)
drop-add (suc n) m [] = drop_all (suc n + m) [] (omega arith) ∙ sym (drop_all m [] (omega arith))
drop-add (suc n) m (c ∷ t) =
    let e : suc n + m ≡ suc (n + m) = omega arith in ap (λ k. drop k (c ∷ t)) e ∙ drop-add n m t

module _ (maximum : ℕ) where
  abbrev pub Short : Text → Type 0
  Short piece = length piece ≤ maximum

  pub All-append : (xs ys : List Text) → All Short xs → All Short ys → All Short (xs ++ ys)
  All-append [] ys h k = k
  All-append (x ∷ xs) ys h k = (h.0, All-append xs ys h.1 k)

  slices-Short :
      (block : Text) (offsets : List ℕ)
      → All Short (map (λ offset. take maximum (drop offset block)) offsets)
  slices-Short block [] = tt
  slices-Short block (o ∷ offsets) =
      (omega (arith, length-take maximum (drop o block)), slices-Short block offsets)

  pub pieces-Short : (blocks : List Text) → All Short (flatten (map (pieces maximum) blocks))
  unfolding pieces
  pieces-Short [] = tt
  pieces-Short (block ∷ blocks) =
      All-append (pieces maximum block) (flatten (map (pieces maximum) blocks))
        (slices-Short block (range (max 1 (length block)) 0 (max 1 (length block)) maximum))
        (pieces-Short blocks)

  slices_whole :
      (block : Text) (fuel start stop : ℕ)
      → 1 ≤ maximum
      → length block ≤ stop
      → stop ≤ start + fuel
      → flatten (map (λ offset. take maximum (drop offset block)) (range fuel start stop maximum))
        ≡ drop start block
  unfolding range
  slices_whole block zero start stop h k f = sym (drop_all start block (omega (arith, k, f)))
  slices_whole block (suc fuel) start stop h k f =
      let slice : ℕ → Text = λ offset. take maximum (drop offset block) in
      if-cases (λ offsets. flatten (map slice offsets) ≡ drop start block) (ltb start stop)
        (λ l.
          ap (λ r. slice start ++ r)
            (slices_whole block fuel (start + maximum) stop h k (omega (arith, h, f))
              ∙ drop-add start maximum block)
          ∙ take-append-drop maximum (drop start block))
        (λ l. sym (drop_all start block (ground (arith, l, k))))

  pub pieces_whole : (block : Text) → 1 ≤ maximum → flatten (pieces maximum block) ≡ block
  unfolding pieces
  pieces_whole block h =
      slices_whole block (max 1 (length block)) 0 (max 1 (length block)) h (omega arith)
        (omega arith)

  pub all_pieces_whole :
      (blocks : List Text)
      → 1 ≤ maximum
      → flatten (flatten (map (pieces maximum) blocks)) ≡ flatten blocks
  all_pieces_whole [] h = refl
  all_pieces_whole (block ∷ blocks) h =
      flatten-append (pieces maximum block) (flatten (map (pieces maximum) blocks))
      ∙ (ap (λ r. r ++ flatten (flatten (map (pieces maximum) blocks))) (pieces_whole block h)
          ∙ ap (λ r. block ++ r) (all_pieces_whole blocks h))
