-- ===== src/Net/Url/Cut.antt =====
-- `strings.Cut` on texts that lack the separator.
use dbctl.Base.{
  ℕ, ◌≡◌, refl, ◌∙◌, ap, Bool, true, not, none, some, [], ◌∷◌, ◌++◌, append_assoc, ◌==◌, Text,
  all_of, arith,
}
use mathlib.Core.Path.{ap₂}
use mathlib.Core.List.{reverse, reverse-cons, reverse-append, reverse-reverse}
use dbctl.Net.Url.{cut, cut_last, swap_cut}

abbrev pub lacks : ℕ → Text → Bool
lacks k = all_of (λ c. not (c == k))

pub all_of-append :
    (p : ℕ → Bool) (s t : Text) → all_of p s ≡ true → all_of p t ≡ true → all_of p (s ++ t) ≡ true
all_of-append p [] t h k = k
all_of-append p (c ∷ s) t h k = ground (arith, h, all_of-append p s t)

all_of-reverse : (p : ℕ → Bool) (s : Text) → all_of p s ≡ true → all_of p (reverse s) ≡ true
all_of-reverse p [] h = refl
all_of-reverse p (c ∷ s) h =
    ap (all_of p) (reverse-cons c s)
    ∙ all_of-append p (reverse s) (c ∷ []) (all_of-reverse p s (ground (arith, h)))
        (ground (arith, h))

pub cut-found : (k : ℕ) (s t : Text) → lacks k s ≡ true → cut k (s ++ (k ∷ t)) ≡ (s, some t)
unfolding cut
cut-found k [] t h = ground arith
cut-found k (c ∷ s) t h = ground (arith, h, cut-found k s t)

pub cut-none : (k : ℕ) (s : Text) → lacks k s ≡ true → cut k s ≡ (s, none)
unfolding cut
cut-none k [] h = refl
cut-none k (c ∷ s) h = ground (arith, h, cut-none k s)

pub cut_last-found :
    (k : ℕ) (s t : Text) → lacks k t ≡ true → cut_last k (s ++ (k ∷ t)) ≡ (some s, t)
unfolding cut_last
cut_last-found k s t h =
    let turned : reverse (s ++ (k ∷ t)) ≡ reverse t ++ (k ∷ reverse s) =
      reverse-append s (k ∷ t)
      ∙ ap (λ x. x ++ reverse s) (reverse-cons k t)
      ∙ append_assoc (reverse t) (k ∷ []) (reverse s) in
    ap (λ x. swap_cut (cut k x)) turned
    ∙ ap swap_cut (cut-found k (reverse t) (reverse s) (all_of-reverse (λ c. not (c == k)) t h))
    ∙ ap₂ (λ a b. (some a, b)) (reverse-reverse s) (reverse-reverse t)

pub cut_last-none : (k : ℕ) (s : Text) → lacks k s ≡ true → cut_last k s ≡ (none, s)
unfolding cut_last
cut_last-none k s h =
    ap swap_cut (cut-none k (reverse s) (all_of-reverse (λ c. not (c == k)) s h))
    ∙ ap (λ x. (none, x)) (reverse-reverse s)

pub all_of-weaken :
    (p q : ℕ → Bool) (s : Text)
    → ((c : ℕ) → p c ≡ true → q c ≡ true)
    → all_of p s ≡ true
    → all_of q s ≡ true
all_of-weaken p q [] w h = refl
all_of-weaken p q (c ∷ s) w h = ground (arith, h, w c, all_of-weaken p q s w)
