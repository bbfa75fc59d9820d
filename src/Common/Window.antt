-- ===== src/Common/Window.antt =====
-- The queue that a ring buffer holds: the slots from the read index up to the write index.
use native.Mathlib.Nat.{div-add-mod, mod-add-mod}
use flux_trade.Prelude.{
  ℕ, zero, suc, ◌+◌, ◌%◌, ◌<◌, ◌≤◌, List, [], ◌∷◌, ◌++◌, ◌≡◌, ◌≢◌, refl, ap, ap₂, sym, ◌∙◌, arith,
  length,
}
use flux_trade.Common.Table.{put, put_other}

pub slots_differ : (i m c : ℕ) → 0 < m → m < c → i % c ≢ (i + m) % c
slots_differ i m c low high e = grind (arith, div-add-mod i c, div-add-mod (i + m) c, e)

module _ {ℓ} {A : Type ℓ} (c : ℕ) (buffer : ℕ → A) where
  abbrev pub window : ℕ → ℕ → List A
  window zero i = []
  window (suc n) i = buffer (i % c) ∷ window n (i + 1)

  pub window-length : (n i : ℕ) → length (window n i) ≡ n
  window-length zero i = refl
  window-length (suc n) i = ap suc (window-length n (i + 1))

  -- Only the slot of the first index counts.
  pub window_congr : (n i j : ℕ) → i % c ≡ j % c → window n i ≡ window n j
  window_congr zero i j e = refl
  window_congr (suc n) i j e =
      ap₂ (λ k xs. buffer k ∷ xs) e
        (window_congr n (i + 1) (j + 1)
          (sym (mod-add-mod i c 1) ∙ ap (λ k. (k + 1) % c) e ∙ mod-add-mod j c 1))

  pub window_snoc : (n i : ℕ) → window (suc n) i ≡ window n i ++ buffer ((i + n) % c) ∷ []
  window_snoc zero i = ap (λ k. buffer (k % c) ∷ []) (omega arith)
  window_snoc (suc n) i =
      ap (λ xs. buffer (i % c) ∷ xs)
        (window_snoc n (i + 1) ∙ ap (λ k. window n (i + 1) ++ buffer (k % c) ∷ []) (omega arith))

-- A write beyond the window and within the capacity of its start is not seen in it.
pub window-put {ℓ} :
    {A : Type ℓ} (c : ℕ) (buffer : ℕ → A) (a : A) (n m i : ℕ)
    → n ≤ m
    → m < c
    → window c (put ((i + m) % c) a buffer) n i ≡ window c buffer n i
window-put c buffer a zero m i h k = refl
window-put c buffer a (suc n) zero i h k = absurd (omega arith)
window-put c buffer a (suc n) (suc m) i h k =
    ap₂ ◌∷◌
      (put_other ((i + suc m) % c) a buffer (i % c) (slots_differ i (suc m) c (omega arith) k))
      (ap (λ j. window c (put (j % c) a buffer) n (i + 1)) (omega arith)
        ∙ window-put c buffer a n m (i + 1) (omega arith) (omega arith))
