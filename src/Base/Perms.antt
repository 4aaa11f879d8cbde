-- ===== src/Base/Perms.antt =====
-- Rearrangements of lists that the queues' contents go through.
use Prim.Native.Nat.{ℕ, suc}
use mathlib.Core.Path.{◌≡◌, refl, ap, ◌∙◌, sym, subst}
use mathlib.Core.Nat as M
use mathlib.Core.List
use naia_socket.Base.Lists.{length}
use mathlib.Core.List.{List, [], ◌∷◌, ◌++◌, Perm, perm_middle, append_assoc, perm_append_comm}
use mathlib.Core.List.Perm

-- The library's numbers, in which it measures lists.
abbrev of_count : M.ℕ → ℕ
of_count M.zero = 0
of_count (M.suc n) = suc (of_count n)

module _ {ℓ} {A : Type ℓ} where
  pub perm_of_eq : {xs ys : List A} → xs ≡ ys → Perm xs ys
  perm_of_eq {xs} e = subst (λ zs. Perm xs zs) e (Perm.refl xs)

  pub perm_swap_front : (x y : A) (xs : List A) → Perm (x ∷ y ∷ xs) (y ∷ x ∷ xs)
  perm_swap_front x y xs = perm_middle (x ∷ []) xs

  -- An element moves from behind a block to its front.
  pub perm_pull : (x : A) (xs ys : List A) → Perm (x ∷ (xs ++ ys)) (xs ++ x ∷ ys)
  perm_pull x xs ys = Perm.symm (perm_middle xs ys)

  pub perm_append_left : (xs : List A) {ys zs : List A} → Perm ys zs → Perm (xs ++ ys) (xs ++ zs)
  perm_append_left xs p = Perm.append (Perm.refl xs) p

  pub perm_left_comm : (xs ys zs : List A) → Perm (xs ++ (ys ++ zs)) (ys ++ (xs ++ zs))
  perm_left_comm xs ys zs = Perm.trans (perm_of_eq (sym (append_assoc xs ys zs))) (
      Perm.trans (Perm.append (perm_append_comm xs ys) (Perm.refl zs))
        (perm_of_eq (append_assoc ys xs zs)))

  pub perm_append_append :
      (xs ys zs ws : List A) → Perm ((xs ++ ys) ++ (zs ++ ws)) ((xs ++ zs) ++ (ys ++ ws))
  perm_append_append xs ys zs ws = Perm.trans (perm_of_eq (append_assoc xs ys (zs ++ ws))) (
      Perm.trans (perm_append_left xs (perm_left_comm ys zs ws))
        (perm_of_eq (sym (append_assoc xs zs (ys ++ ws)))))

  of_length : (xs : List A) → of_count (List.length xs) ≡ length xs
  of_length [] = refl
  of_length (x ∷ xs) = ap suc (of_length xs)

  pub perm_length : (xs ys : List A) → Perm xs ys → length xs ≡ length ys
  perm_length xs ys p = sym (of_length xs) ∙ ap of_count (Perm.length-eq p) ∙ of_length ys
