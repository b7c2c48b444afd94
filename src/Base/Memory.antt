-- ===== src/Base/Memory.antt =====
-- Memory that the program indexes: an array of cells, `memcpy` and `memset` on it, and windows of
-- it that go round at a capacity.
use socket_hook.Base.Tests.{◌==◌, if◌then◌else◌}
use socket_hook.Base.Lists.{length, get_or}
use Prim.Native.Nat.{ℕ, zero, suc, ◌+◌, ◌-◌, ◌%◌, ◌<◌, ◌≤◌}
use mathlib.Core.Path.{◌≡◌, refl, ap, ◌∙◌}
use mathlib.Core.Logic.{◌≢◌}
use mathlib.Core.List.{List, [], ◌∷◌}
use native.Mathlib.Omega.{arith}

module _ {ℓ} {A : Type ℓ} where
  -- array[i] = v
  abbrev pub store : (ℕ → A) → ℕ → A → ℕ → A
  store m i v j = if i == j then v else m j

  -- memcpy(dst + a, src, length src) on cells
  unfoldable pub write : (ℕ → A) → ℕ → List A → ℕ → A
  write m a [] = m
  write m a (x ∷ xs) = write (store m a x) (suc a) xs

  -- the n cells from a on, as memcpy reads them
  unfoldable pub read : (ℕ → A) → ℕ → ℕ → List A
  read m a zero = []
  read m a (suc n) = m a ∷ read m (suc a) n

  -- n items from index f on, going round at cap
  unfoldable pub window : (ℕ → A) → ℕ → ℕ → ℕ → List A
  window m cap f zero = []
  window m cap f (suc n) = m f ∷ window m cap ((f + 1) % cap) n

  pub write-below : (m : ℕ → A) (a : ℕ) (xs : List A) (j : ℕ) → j < a → write m a xs j ≡ m j
  unfolding write
  write-below m a [] j h = refl
  write-below m a (x ∷ xs) j h = ground (arith, write-below (store m a x) (suc a) xs j)

  pub write-above :
      (m : ℕ → A) (a : ℕ) (xs : List A) (j : ℕ) → a + length xs ≤ j → write m a xs j ≡ m j
  unfolding write
  write-above m a [] j h = refl
  write-above m a (x ∷ xs) j h = ground (arith, write-above (store m a x) (suc a) xs j)

  pub write-inside :
      (m : ℕ → A) (a i : ℕ) (xs : List A) (d : A)
      → i < length xs
      → write m a xs (a + i) ≡ get_or xs i d
  unfolding write
  write-inside m a i [] d h = absurd (omega arith)
  write-inside m a zero (x ∷ xs) d h =
      write-below (store m a x) (suc a) xs (a + 0) (omega arith) ∙ ground arith
  write-inside m a (suc i) (x ∷ xs) d h =
      ap (write (store m a x) (suc a) xs) (omega arith)
      ∙ write-inside (store m a x) (suc a) i xs d (omega arith)

  pub length-window : (m : ℕ → A) (cap f n : ℕ) → length (window m cap f n) ≡ n
  unfolding window
  length-window m cap f zero = refl
  length-window m cap f (suc n) = ap suc (length-window m cap ((f + 1) % cap) n)

  pub length-read : (m : ℕ → A) (a n : ℕ) → length (read m a n) ≡ n
  unfolding read
  length-read m a zero = refl
  length-read m a (suc n) = ap suc (length-read m (suc a) n)

  -- The code tests the size against zero, the window matches on a successor.
  pub window_of_ne_zero :
      (m : ℕ → A) (cap f n : ℕ)
      → n ≢ 0
      → window m cap f n ≡ m f ∷ window m cap ((f + 1) % cap) (n - 1)
  unfolding window
  window_of_ne_zero m cap f zero h = absurd (h refl)
  window_of_ne_zero m cap f (suc n) h = ap (λ k. window m cap f (suc k)) (omega arith)
