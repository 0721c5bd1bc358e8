-- ===== src/Player/Stuff/Output.antt =====
-- Outputs of `process_sample` one after another, and pieces of buffers.
use mathlib.Core.List.{append_assoc}
use mathlib.Core.Path.{ap₂}
use shairport_sync_for_openw.Prelude.{
  ℕ, zero, suc, ◌+◌, ◌-◌, ◌≤◌, ◌≡◌, refl, sym, ap, fun_ext, ◌∙◌, arith, Bool, Option, none, some,
  List, [], ◌∷◌, ◌++◌, take, drop, ◌>>=◌, append-nil,
}
use shairport_sync_for_openw.Prelude.Int.{ℤ}
use shairport_sync_for_openw.Window.{slice}
use shairport_sync_for_openw.Player.Sample.{Noise, Settings, process_sample, process_samples}

module _ {ℓ} {A : Type ℓ} (f : ℕ → A) where
  pub take-slice : (p a b : ℕ) → a ≤ b → take a (slice f p b) ≡ slice f p a
  unfolding slice
  take-slice p zero b h = refl
  take-slice p (suc a) zero h = elim h [ ]
  take-slice p (suc a) (suc b) h = ap (λ t. f p ∷ t) (take-slice (p + 1) a b (omega arith))

  pub drop-slice : (p a b : ℕ) → a ≤ b → drop a (slice f p b) ≡ slice f (p + a) (b - a)
  unfolding slice
  drop-slice p zero b h = ap₂ (slice f) (omega arith) (omega arith)
  drop-slice p (suc a) zero h = elim h [ ]
  drop-slice p (suc a) (suc b) h =
      drop-slice (p + 1) a b (omega arith) ∙ ap₂ (slice f) (omega arith) (omega arith)

abbrev pub Out : Type 0
Out = Option (List ℕ × Noise)

abbrev pub prepend : List ℕ → Out → Out
prepend b o = do (c, n) ← o; some (b ++ c, n)

-- One output after another.
abbrev pub then_put : Out → (Noise → Out) → Out
then_put m k = do (b, n) ← m; prepend b (k n)

prepend_twice : (b c : List ℕ) (o : Out) → prepend (b ++ c) o ≡ prepend b (prepend c o)
prepend_twice b c none = refl
prepend_twice b c (some (d, n)) = ap (λ e. some (e, n)) (append_assoc b c d)

pub prepend-nil : (o : Out) → prepend [] o ≡ o
prepend-nil none = refl
prepend-nil (some r) = refl

prepend-then_put :
    (b : List ℕ) (o : Out) (k : Noise → Out) → then_put (prepend b o) k ≡ prepend b (then_put o k)
prepend-then_put b none k = refl
prepend-then_put b (some (c, n)) k = prepend_twice b c (k n)

then_put_assoc :
    (m : Out) (k j : Noise → Out) → then_put (then_put m k) j ≡ then_put m (λ n. then_put (k n) j)
then_put_assoc none k j = refl
then_put_assoc (some (b, n)) k j = prepend-then_put b (k n) j

pub then_put-nil : (m : Out) → then_put m (λ n. some ([], n)) ≡ m
then_put-nil none = refl
then_put-nil (some (b, n)) = ap (λ e. some (e, n)) (append-nil b)

-- Three outputs joined at once.
prepend_both :
    (b c : List ℕ) (o : Out) → (o >>= λ q. some (b ++ (c ++ q.0), q.1)) ≡ prepend b (prepend c o)
prepend_both b c none = refl
prepend_both b c (some q) = refl

-- An output, with the pointer after it.
abbrev pub with_pointer : Out → ℕ → Option (List ℕ × Noise × ℕ)
with_pointer o p = do (c, n) ← o; some (c, n, p)

abbrev pub then_rest : List ℕ → Option (List ℕ × Noise × ℕ) → (ℕ → Noise → Out) → Out
then_rest b m j = do (c, n, p) ← m; (d, n') ← j p n; some (b ++ (c ++ d), n')

join_rest :
    (b : List ℕ) (o : Out) (p : ℕ) (j : ℕ → Noise → Out)
    → then_rest b (with_pointer o p) j ≡ prepend b (then_put o (j p))
join_rest b none p j = refl
join_rest b (some (c, n)) p j = prepend_both b c (j p n)

pub join :
    (m : Out) (p : ℕ) (k : Noise → Out) (j : ℕ → Noise → Out)
    → (m >>= λ t. then_rest t.0 (with_pointer (k t.1) p) j) ≡ then_put m (λ n. then_put (k n) (j p))
join none p k j = refl
join (some (b, n)) p k j = join_rest b (k n) p j

abbrev pub with_frames : Out → ℤ → Option (List ℕ × Noise × ℤ)
with_frames o frames = do (b, n) ← o; some (b, n, frames)

module _ (l : Bool) (s : Settings) where
  pub process_samples-append :
      (xs ys : List ℤ) (n : Noise)
      → process_samples l s (xs ++ ys) n
        ≡ then_put (process_samples l s xs n) (process_samples l s ys)
  unfolding process_samples
  process_samples-append [] ys n = sym (prepend-nil (process_samples l s ys n))
  process_samples-append (x ∷ xs) ys n =
      ap (then_put (process_sample l s x n)) (fun_ext (process_samples-append xs ys))
      ∙ sym (
          then_put_assoc (process_sample l s x n) (process_samples l s xs) (process_samples l s ys))

  pub process_samples_three :
      (xs ys zs : List ℤ) (n : Noise)
      → then_put
          (process_samples l s xs n)
          (λ m. then_put (process_samples l s ys m) (process_samples l s zs))
        ≡ process_samples l s (xs ++ (ys ++ zs)) n
  process_samples_three xs ys zs n =
      ap (then_put (process_samples l s xs n)) (fun_ext (λ m. sym (process_samples-append ys zs m)))
      ∙ sym (process_samples-append xs (ys ++ zs) n)
