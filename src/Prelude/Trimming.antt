-- ===== src/Prelude/Trimming.antt =====
-- What `trim` leaves, and the parts that `split` makes.
use Prim.Native.Nat.{ℕ}
use mathlib.Core.Path.{◌≡◌, refl, ◌∙◌}
use mathlib.Core.Bool.{Bool, true, false, not, ◌&&◌}
use mathlib.Core.List.{
  [], ◌∷◌, ◌++◌, reverse, reverse-cons, reverse-append, reverse-reverse, append-nil, append_assoc,
}
use native.Mathlib.Omega.{arith}
use nexra.Prelude.Lists.{all, includes, includes-append, All, All-append}
use nexra.Prelude.Texts.{Text, is_space, trim_start, trim, split_on}

abbrev StartsClean : Text → Type 0
StartsClean [] = Unit
StartsClean (c ∷ s) = is_space c ≡ false

trim_start-StartsClean : (s : Text) → StartsClean (trim_start s)
unfolding trim_start
trim_start-StartsClean [] = tt
trim_start-StartsClean (c ∷ s) = ground (arith, trim_start-StartsClean s)

trim_start-of_StartsClean : (s : Text) → StartsClean s → trim_start s ≡ s
unfolding trim_start
trim_start-of_StartsClean [] h = refl
trim_start-of_StartsClean (c ∷ s) h = ground (arith, h)

trim_start-append :
    (t : Text) (x : ℕ) → is_space x ≡ false → trim_start (t ++ x ∷ []) ≡ trim_start t ++ x ∷ []
unfolding trim_start
trim_start-append [] x h = ground (arith, h)
trim_start-append (c ∷ t) x h = ground (arith, trim_start-append t x h)

-- The end trimmed off a text that starts clean.
trim_end-StartsClean : (u : Text) → StartsClean u → StartsClean (reverse (trim_start (reverse u)))
unfolding trim_start
trim_end-StartsClean [] h = tt
trim_end-StartsClean (x ∷ u) h =
    rw
      (
        reverse-cons x u,
        trim_start-append (reverse u) x h,
        reverse-append (trim_start (reverse u)) (x ∷ []),
      )
      h

pub trim_idem : (s : Text) → trim (trim s) ≡ trim s
unfolding trim
trim_idem s =
    let u = trim_start s in
    rw
      (
        trim_start-of_StartsClean (reverse (trim_start (reverse u)))
            (trim_end-StartsClean u (trim_start-StartsClean s)),
        reverse-reverse (trim_start (reverse u)),
        trim_start-of_StartsClean (trim_start (reverse u)) (trim_start-StartsClean (reverse u)),
      )
      refl

pub trim-space : (s : Text) → trim (b' ' ∷ s) ≡ trim s
unfolding trim trim_start is_space
trim-space s = refl

includes-reverse : (s : Text) (a : ℕ) → includes (reverse s) a ≡ includes s a
includes-reverse [] a = refl
includes-reverse (c ∷ s) a =
    rw (reverse-cons c s)
      (ground (arith, includes-append (reverse s) (c ∷ []) a, includes-reverse s a))

includes-trim_start : (s : Text) (a : ℕ) → includes s a ≡ false → includes (trim_start s) a ≡ false
unfolding trim_start
includes-trim_start [] a h = refl
includes-trim_start (c ∷ s) a h = ground (arith, includes-trim_start s a)

-- Trimming brings nothing in.
pub includes-trim : (s : Text) (a : ℕ) → includes s a ≡ false → includes (trim s) a ≡ false
unfolding trim
includes-trim s a h = ground (
  arith,
  includes-reverse (trim_start (reverse (trim_start s))) a,
  includes-trim_start (reverse (trim_start s)) a,
  includes-reverse (trim_start s) a,
  includes-trim_start s a h,
)

trim_start-of_NoSpace : (s : Text) → All (λ c. is_space c ≡ false) s → trim_start s ≡ s
unfolding trim_start
trim_start-of_NoSpace [] h = refl
trim_start-of_NoSpace (c ∷ s) h = ground (arith, h.0)

All-reverse :
    (s : Text) → All (λ c. is_space c ≡ false) s → All (λ c. is_space c ≡ false) (reverse s)
All-reverse [] h = tt
All-reverse (c ∷ s) h =
    rw (reverse-cons c s)
      (All-append (λ d. is_space d ≡ false) (reverse s) (c ∷ []) (All-reverse s h.1) (h.0, tt))

-- A text without white space is left as it is.
pub trim_of_NoSpace : (s : Text) → All (λ c. is_space c ≡ false) s → trim s ≡ s
unfolding trim
trim_of_NoSpace s h =
    rw (trim_start-of_NoSpace s h, trim_start-of_NoSpace (reverse s) (All-reverse s h))
      (reverse-reverse s)

-- A text is split at the first separator it holds, and not at all without one.
pub split_on-append :
    (sep : ℕ) (cur first rest : Text)
    → includes first sep ≡ false
    → split_on sep cur (first ++ (sep ∷ rest)) ≡ (cur ++ first) ∷ split_on sep [] rest
unfolding split_on
split_on-append sep cur [] rest h = ground (arith, append-nil cur)
split_on-append sep cur (c ∷ first) rest h =
    ground (arith, split_on-append sep (cur ++ c ∷ []) first rest, append_assoc cur (c ∷ []) first)

pub split_on-whole :
    (sep : ℕ) (cur s : Text) → includes s sep ≡ false → split_on sep cur s ≡ (cur ++ s) ∷ []
unfolding split_on
split_on-whole sep cur [] h = ground (arith, append-nil cur)
split_on-whole sep cur (c ∷ s) h =
    ground (arith, split_on-whole sep (cur ++ c ∷ []) s, append_assoc cur (c ∷ []) s)

-- No part of a split text holds the separator.
pub split_on-parts :
    (sep : ℕ) (cur s : Text)
    → includes cur sep ≡ false
    → All (λ t. includes t sep ≡ false) (split_on sep cur s)
unfolding split_on
split_on-parts sep cur [] h = (h, tt)
split_on-parts sep cur (c ∷ s) h = ground (
  arith,
  split_on-parts sep [] s refl,
  split_on-parts sep (cur ++ c ∷ []) s,
  includes-append cur (c ∷ []) sep,
)

all-append : (p : ℕ → Bool) (s t : Text) → all p (s ++ t) ≡ (all p s && all p t)
all-append p [] t = refl
all-append p (c ∷ s) t = ground (arith, all-append p s t)

all-reverse : (p : ℕ → Bool) (s : Text) → all p (reverse s) ≡ all p s
all-reverse p [] = refl
all-reverse p (c ∷ s) =
    rw (reverse-cons c s) (ground (arith, all-append p (reverse s) (c ∷ []), all-reverse p s))

StartsClean-of_all : (s : Text) → all (λ c. not (is_space c)) s ≡ true → StartsClean s
StartsClean-of_all [] h = tt
StartsClean-of_all (c ∷ s) h = ground (arith, h)

-- A text without white space is left as it is.
pub trim-of_all : (s : Text) → all (λ c. not (is_space c)) s ≡ true → trim s ≡ s
unfolding trim
trim-of_all s h =
    rw
      (
        trim_start-of_StartsClean s (StartsClean-of_all s h),
        trim_start-of_StartsClean (reverse s)
            (StartsClean-of_all (reverse s) (all-reverse (λ c. not (is_space c)) s ∙ h)),
        reverse-reverse s,
      )
      refl
