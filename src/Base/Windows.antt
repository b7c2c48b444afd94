-- ===== src/Base/Windows.antt =====
-- Windows of an array that go round at a capacity: what a store or a copied block does to them.
use socket_hook.Base.Tests.{==_of_ne}
use socket_hook.Base.Lists.{length}
use socket_hook.Base.Memory.{
  store, write, read, window, write-below, write-above, window_of_ne_zero,
}
use Prim.Native.Nat.{ℕ, zero, suc, ◌+◌, ◌-◌, ◌%◌, ◌<◌, ◌≤◌}
use mathlib.Core.Path.{◌≡◌, refl, ap, ap₂, ◌∙◌, fun_ext}
use mathlib.Core.Logic.{◌≢◌}
use mathlib.Core.List.{List, [], ◌∷◌, ◌++◌, append-nil, append_assoc}
use native.Mathlib.Nat.{mod-add-mod, mod-eq_of_lt, mod-eq-sub-mod, mod-lt, add-zero}
use native.Mathlib.Decide.{dec_lt}
use native.Mathlib.Numerals.{add-one}
use native.Mathlib.Omega.{arith}

-- One step on, then i more, is i + 1 steps on.
pub mod_shift : (cap f i : ℕ) → ((f + 1) % cap + i) % cap ≡ (f + suc i) % cap
mod_shift cap f i = rw mod-add-mod (ap (λ k. k % cap) (omega arith))

-- Where a position less than a lap on lies.
pub mod_lap : (cap p : ℕ) → cap ≤ p → p < cap + cap → p % cap ≡ p - cap
mod_lap cap p h k =
    mod-eq-sub-mod {n = p} {m = cap} h ∙ mod-eq_of_lt {n = p - cap} {m = cap} (omega arith)

pub lap-lt : (cap p f : ℕ) → f < cap → p % cap < cap
lap-lt cap p f h = mod-lt p {m = cap} (omega arith)

-- Positions less than a lap apart are distinct.
pub mod-ne : (cap f i n : ℕ) → f < cap → i < n → n < cap → (f + n) % cap ≢ (f + i) % cap
mod-ne cap f i n hf hi hn = elim (dec_lt (f + n) cap) [
  | yes p ↦ omega (
    arith,
    mod-eq_of_lt {n = f + n} {m = cap} p,
    mod-eq_of_lt {n = f + i} {m = cap} (omega arith),
  )
  | no p ↦ elim (dec_lt (f + i) cap) [
    | yes q ↦ omega (
      arith,
      mod_lap cap (f + n) (omega arith) (omega arith),
      mod-eq_of_lt {n = f + i} {m = cap} q,
    )
    | no q ↦ omega (
      arith,
      mod_lap cap (f + n) (omega arith) (omega arith),
      mod_lap cap (f + i) (omega arith) (omega arith),
    )
  ]
]

-- Inside the array the next position is one further on.
next :
    (cap f n k : ℕ)
    → f < cap
    → n < cap
    → (f + n) % cap + suc (suc k) ≤ cap
    → suc ((f + n) % cap) ≡ (f + suc n) % cap
next cap f n k hf hn h = elim (dec_lt (f + n) cap) [
  | yes p ↦ omega (
    arith,
    mod-eq_of_lt {n = f + n} {m = cap} p,
    mod-eq_of_lt {n = f + suc n} {m = cap} (omega (arith, mod-eq_of_lt {n = f + n} {m = cap} p)),
  )
  | no p ↦ omega (
    arith,
    mod_lap cap (f + n) (omega arith) (omega arith),
    mod_lap cap (f + suc n) (omega arith)
        (omega (arith, mod_lap cap (f + n) (omega arith) (omega arith))),
  )
]

module _ {ℓ} {A : Type ℓ} where
  -- A window depends on its own cells alone.
  pub window-congr :
      (m m' : ℕ → A) (cap f n : ℕ)
      → f < cap
      → ((i : ℕ) → i < n → m ((f + i) % cap) ≡ m' ((f + i) % cap))
      → window m cap f n ≡ window m' cap f n
  unfolding window
  window-congr m m' cap f zero hf h = refl
  window-congr m m' cap f (suc n) hf h =
      ap₂ ◌∷◌ (rw (add-zero, mod-eq_of_lt {n = f} {m = cap} hf) at (h 0 (omega arith))) (
        window-congr m m' cap ((f + 1) % cap) n (lap-lt cap (f + 1) f hf)
          (λ i hi. rw (mod_shift cap f i) (h (suc i) (omega arith))))

  pub window-snoc :
      (m : ℕ → A) (cap f n : ℕ)
      → f < cap
      → window m cap f (suc n) ≡ window m cap f n ++ (m ((f + n) % cap) ∷ [])
  unfolding window
  window-snoc m cap f zero hf = rw (add-zero, mod-eq_of_lt {n = f} {m = cap} hf)
  window-snoc m cap f (suc n) hf =
      ap (◌∷◌ (m f))
        (rw (← mod_shift cap f n) (window-snoc m cap ((f + 1) % cap) n (lap-lt cap (f + 1) f hf)))

  -- A store just past a window extends it.
  pub window-store :
      (m : ℕ → A) (cap f n : ℕ) (x : A)
      → f < cap
      → n < cap
      → window (store m ((f + n) % cap) x) cap f (suc n) ≡ window m cap f n ++ (x ∷ [])
  window-store m cap f n x hf hn =
      window-snoc (store m ((f + n) % cap) x) cap f n hf
      ∙ ap₂ ◌++◌
          (window-congr (store m ((f + n) % cap) x) m cap f n hf
            (λ i hi. rw (==_of_ne _ _ (mod-ne cap f i n hf hi hn)) refl))
          (ground arith)

  -- A block copied just past a window, inside the array, extends it.
  pub window-write :
      (m : ℕ → A) (cap f n : ℕ) (xs : List A)
      → f < cap
      → n + length xs ≤ cap
      → (f + n) % cap + length xs ≤ cap
      → window (write m ((f + n) % cap) xs) cap f (n + length xs) ≡ window m cap f n ++ xs
  unfolding write
  window-write m cap f n [] hf hn hw = rw (add-zero, append-nil)
  window-write m cap f n (x ∷ []) hf hn hw =
      ap (window (store m ((f + n) % cap) x) cap f) (omega arith)
      ∙ window-store m cap f n x hf (omega arith)
  window-write m cap f n (x ∷ y ∷ xs) hf hn hw =
      ap₂ (λ a k. window (write (store m ((f + n) % cap) x) a (y ∷ xs)) cap f k)
        (next cap f n (length xs) hf (omega arith) (omega arith)) (omega arith)
      ∙ window-write (store m ((f + n) % cap) x) cap f (suc n) (y ∷ xs) hf (omega arith)
          (omega (arith, next cap f n (length xs) hf (omega arith) (omega arith)))
      ∙ ap (λ l. l ++ (y ∷ xs)) (window-store m cap f n x hf (omega arith))
      ∙ append_assoc (window m cap f n) (x ∷ []) (y ∷ xs)

  -- A block inside the array that begins at a window's first index is its beginning, and the
  -- window goes on behind it.
  pub window-read :
      (m : ℕ → A) (cap f n k : ℕ)
      → f < cap
      → k ≤ n
      → f + k ≤ cap
      → window m cap f n ≡ read m f k ++ window m cap ((f + k) % cap) (n - k)
  unfolding read window
  window-read m cap f n zero hf hk hw =
      rw (add-zero, mod-eq_of_lt {n = f} {m = cap} hf) (ap (window m cap f) (omega arith))
  window-read m cap f n (suc zero) hf hk hw = window_of_ne_zero m cap f n (omega arith)
  window-read m cap f n (suc (suc k)) hf hk hw =
      let e : (f + 1) % cap ≡ suc f =
        mod-eq_of_lt {n = f + 1} {m = cap} (omega arith) ∙ add-one f in
      let ih : window m cap (suc f) (n - 1)
          ≡ read m (suc f) (suc k) ++ window m cap ((suc f + suc k) % cap) (n - 1 - suc k) =
        window-read m cap (suc f) (n - 1) (suc k) (omega arith) (omega arith) (omega arith) in
      window_of_ne_zero m cap f n (omega arith)
      ∙ ap (◌∷◌ (m f)) (
          ap (λ a. window m cap a (n - 1)) e
          ∙ ih
          ∙ ap (λ l. read m (suc f) (suc k) ++ l)
              (ap₂ (window m cap) (ap (λ a. a % cap) (omega arith)) (omega arith)))

  write-shift :
      (m : ℕ → A) (o w : ℕ) (xs : List A) (i : ℕ)
      → write m (o + w) xs (o + i) ≡ write (λ j. m (o + j)) w xs i
  unfolding write
  write-shift m o w [] i = refl
  write-shift m o w (x ∷ xs) i =
      ap (λ a. write (store m (o + w) x) a xs (o + i)) (omega arith)
      ∙ write-shift (store m (o + w) x) o (suc w) xs i
      ∙ ap (λ k. write k (suc w) xs i) (fun_ext (λ j. ground arith))

  -- A block written at an offset is the block written to the array at that offset.
  pub write-offset :
      (m : ℕ → A) (o w : ℕ) (xs : List A)
      → ◌≡◌ {A = ℕ → A} (λ i. write m (o + w) xs (o + i)) (write (λ i. m (o + i)) w xs)
  write-offset m o w xs = fun_ext (write-shift m o w xs)

  pub read-offset : (m : ℕ → A) (o w n : ℕ) → read m (o + w) n ≡ read (λ i. m (o + i)) w n
  unfolding read
  read-offset m o w zero = refl
  read-offset m o w (suc n) =
      ap (◌∷◌ (m (o + w))) (ap (λ a. read m a n) (omega arith) ∙ read-offset m o (suc w) n)

  -- The items behind a block at the front do not see what is written over the block.
  pub window-write_front :
      (m : ℕ → A) (cap f k n : ℕ) (xs : List A)
      → f < cap
      → f + k ≤ cap
      → k + n ≤ cap
      → length xs ≡ k
      → window (write m f xs) cap ((f + k) % cap) n ≡ window m cap ((f + k) % cap) n
  window-write_front m cap f k n xs hf hk hn e =
      window-congr (write m f xs) m cap ((f + k) % cap) n (lap-lt cap (f + k) f hf)
        λ i hi. rw mod-add-mod (behind i hi (dec_lt (f + k + i) cap))
    where
      behind :
          (i : ℕ)
          → i < n
          → Dec (f + k + i < cap)
          → write m f xs ((f + k + i) % cap) ≡ m ((f + k + i) % cap)
      behind i hi (yes p) =
          write-above m f xs _ (omega (arith, mod-eq_of_lt {n = f + k + i} {m = cap} p))
      behind i hi (no p) =
          write-below m f xs _ (omega (arith, mod_lap cap (f + k + i) (omega arith) (omega arith)))
