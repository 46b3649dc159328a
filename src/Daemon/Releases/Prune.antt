-- ===== src/Daemon/Releases/Prune.antt =====
-- Which releases releasesToPrune of daemon/internal/daemon/command_handler.go deletes.
use mathlib.Core.Path.{subst}
use Prim.Native.Nat.{min}
use mathlib.Core.List.{Perm}
use mathlib.Core.List.Perm
use next_deploy.Common.{
  ℕ, zero, suc, ◌-◌, ◌≡◌, sym, inl, inr, true, List, [], ◌∷◌, ◌++◌, length, take, drop,
  take-append-drop, length-drop, All, In, if◌then◌else◌, arith, leb, Bool-cases,
}
use next_deploy.Common.Text.{Text, text_le}
use next_deploy.Common.Sort.{sort, sort-perm, length-sort, IsSorted, sort-IsSorted}
use next_deploy.Daemon.Releases.{releases_to_prune}

-- The releases that are left: the newest `keep`, in their order.
pub kept : List Text → ℕ → List Text
kept names keep =
    if leb (length names) keep then names else drop (length (sort names) - keep) (sort names)

In-All {κ} : (P : Text → Type κ) (xs : List Text) (x : Text) → All P xs → In x xs → P x
In-All P [] x a i = elim i [ ]
In-All P (y ∷ ys) x a (inl e) = subst P (sym e) a.0
In-All P (y ∷ ys) x a (inr i) = In-All P ys x a.1 i

In-drop : (n : ℕ) (xs : List Text) (x : Text) → In x (drop n xs) → In x xs
In-drop zero xs x i = i
In-drop (suc n) [] x i = i
In-drop (suc n) (y ∷ ys) x i = inr (In-drop n ys x i)

take-le-drop :
    (n : ℕ) (xs : List Text) (p q : Text)
    → IsSorted xs
    → In p (take n xs)
    → In q (drop n xs)
    → text_le p q ≡ true
take-le-drop zero xs p q s i j = elim i [ ]
take-le-drop (suc n) [] p q s i j = elim i [ ]
take-le-drop (suc n) (x ∷ xs) p q s (inl e) j =
    rw e (In-All (λ y. text_le x y ≡ true) xs q s.0 (In-drop n xs q j))
take-le-drop (suc n) (x ∷ xs) p q s (inr i) j = take-le-drop n xs p q s.1 i j

-- What is deleted and what is left are the releases that there were; what is left are `keep` of
-- them, or all if they are not more; and nothing is deleted that is newer, by its name, than what is
-- left.
releases_to_prune_lem :
    (names : List Text) (keep : ℕ)
    → Perm (releases_to_prune names keep ++ kept names keep) names
      × (length (kept names keep) ≡ min keep (length names))
      × ((p q : Text)
          → In p (releases_to_prune names keep)
          → In q (kept names keep)
          → text_le p q ≡ true)
unfolding releases_to_prune kept
releases_to_prune_lem names keep = elim (Bool-cases (leb (length names) keep)) [
  | inl few ↦ rw few (Perm.refl names, ground arith, λ p q i j. elim i [ ])
  | inr many ↦
      let n = length (sort names) - keep in
      rw (many, take-append-drop n (sort names))
        (
          sort-perm names,
          ground (arith, length-drop n (sort names), length-sort names),
          λ p q i j. take-le-drop n (sort names) p q (sort-IsSorted names) i j,
        )
]
