-- ===== src/Window.antt =====
-- A queue kept in an array that is used as a ring: what the array holds, as a list.
-- Shared by the metadata queues and the buffer of the buffered audio reader.
use mathlib.Core.Path.{ap₂}
use mathlib.Core.List.{append-nil, append_assoc}
use shairport_sync_for_openw.Prelude.{
  ℕ, zero, suc, ◌+◌, ◌-◌, ◌≤◌, ◌<◌, ◌≡◌, refl, ap, ◌∙◌, List, [], ◌∷◌, ◌++◌, ltb, if◌then◌else◌,
  arith, update, length,
}

module _ (cap : ℕ) where
  -- The index `k`, which is below twice the capacity, folded into the array.
  abbrev pub wrap : ℕ → ℕ
  wrap k = if ltb k cap then k else k - cap

  -- The `n` items from index `h` on, going round at the capacity.
  unfoldable pub window {ℓ} : {A : Type ℓ} → (ℕ → A) → ℕ → ℕ → List A
  window f h zero = []
  window f h (suc n) = f h ∷ window f (wrap (h + 1)) n

-- `memcpy` of a list to the array from index `i` on.
unfoldable pub store {ℓ} : {A : Type ℓ} → (ℕ → A) → ℕ → List A → ℕ → A
store f i [] = f
store f i (x ∷ xs) = store (update f i x) (i + 1) xs

-- `memcpy` of the `n` items from index `i` on.
unfoldable pub slice {ℓ} : {A : Type ℓ} → (ℕ → A) → ℕ → ℕ → List A
slice f i zero = []
slice f i (suc n) = f i ∷ slice f (i + 1) n

pub length-slice {ℓ} : {A : Type ℓ} (f : ℕ → A) (i n : ℕ) → length (slice f i n) ≡ n
unfolding slice
length-slice f i zero = refl
length-slice f i (suc n) = ap suc (length-slice f (i + 1) n)

module _ {ℓ} {A : Type ℓ} (cap : ℕ) where
  pub length-window : (f : ℕ → A) (h n : ℕ) → length (window cap f h n) ≡ n
  unfolding window
  length-window f h zero = refl
  length-window f h (suc n) = ap suc (length-window f (wrap cap (h + 1)) n)

  update_self : (f : ℕ → A) (i : ℕ) (x : A) → update f i x i ≡ x
  update_self f i x = ground arith

  update_ne : (f : ℕ → A) (i j : ℕ) (x : A) → (i ≡ j → ⊥) → update f i x j ≡ f j
  update_ne f i j x h = ground (arith, h)

  pub window-suc :
      (f : ℕ → A) (h n : ℕ)
      → 0 < n
      → window cap f h n ≡ f h ∷ window cap f (wrap cap (h + 1)) (n - 1)
  unfolding window
  window-suc f h zero p = absurd (omega arith)
  window-suc f h (suc n) p = ap (λ k. f h ∷ window cap f (wrap cap (h + 1)) k) (omega arith)

  -- Writing just past a window extends it.
  pub window-update :
      (f : ℕ → A) (x : A) (n h i : ℕ)
      → h < cap
      → n < cap
      → i ≡ wrap cap (h + n)
      → window cap (update f i x) h (suc n) ≡ window cap f h n ++ x ∷ []
  unfolding window
  window-update f x zero h i hc nc e = ap (λ a. a ∷ []) (ground arith)
  window-update f x (suc n) h i hc nc e =
      ap₂ ◌∷◌ (update_ne f i h x (λ p. ground arith))
        (window-update f x n (wrap cap (h + 1)) i (ground arith) (ground arith) (ground arith))

  -- Copying a list in that does not cross the end of the array extends the window by the list.
  pub window-store :
      (xs : List A) (f : ℕ → A) (n h i : ℕ)
      → h < cap
      → n + length xs ≤ cap
      → i + length xs ≤ cap
      → (0 < length xs → i ≡ wrap cap (h + n))
      → window cap (store f i xs) h (n + length xs) ≡ window cap f h n ++ xs
  unfolding store
  window-store [] f n h i hc nc ic e = rw (append-nil) (ap (window cap f h) (omega arith))
  window-store (x ∷ xs) f n h i hc nc ic e =
      ap (window cap (store (update f i x) (i + 1) xs) h) (omega arith)
      ∙ (window-store xs (update f i x) (suc n) h (i + 1) hc (omega arith) (omega arith)
            (λ p. next p (e (omega arith)))
          ∙ (ap (λ l. l ++ xs) (window-update f x n h i hc (omega arith) (e (omega arith)))
              ∙ append_assoc (window cap f h n) (x ∷ []) xs))
    where
      next : 0 < length xs → i ≡ wrap cap (h + n) → i + 1 ≡ wrap cap (h + suc n)
      next p q = ground arith

  -- A window splits at any point.
  pub window-add :
      (f : ℕ → A) (k n h : ℕ)
      → h < cap
      → k ≤ cap
      → window cap f h (k + n) ≡ window cap f h k ++ window cap f (wrap cap (h + k)) n
  unfolding window
  window-add f zero n h hc kc =
      let e : wrap cap (h + 0) ≡ h = ground arith in rw e (ap (window cap f h) (omega arith))
  window-add f (suc k) n h hc kc =
      let e : wrap cap (h + suc k) ≡ wrap cap (wrap cap (h + 1) + k) = ground arith in
      let s : suc k + n ≡ suc (k + n) = omega arith in
      rw e (
        ap (window cap f h) s
        ∙ ap (λ l. f h ∷ l) (window-add f k n (wrap cap (h + 1)) (ground arith) (omega arith)))

  -- A slice that does not cross the end of the array is a window.
  pub slice-eq-window : (f : ℕ → A) (k h : ℕ) → h + k ≤ cap → slice f h k ≡ window cap f h k
  unfolding slice window
  slice-eq-window f zero h c = refl
  slice-eq-window f (suc zero) h c = refl
  slice-eq-window f (suc (suc k)) h c =
      let e : wrap cap (h + 1) ≡ h + 1 = ground arith in
      rw e (ap (λ l. f h ∷ l) (slice-eq-window f (suc k) (h + 1) (omega arith)))
